-- ===== src/Engine/Dump/Empty.antt =====
-- What is not in the dump does not come back.
use run_alex_db.Common.{
  ℕ, ◌≡◌, refl, Option, none, some, List, [], ◌∷◌, ◌++◌, true, false, All, arith, ◌==◌,
}
use run_alex_db.Common.Dict.{Str, str, str_eq}
use run_alex_db.Common.Decimal.{show_ℕ}
use run_alex_db.Common.Ascii.{
  trim, trim_start, trim_end, cons_trimmed, starts_with, lines, is_space,
}
use run_alex_db.Common.Digits.{IsDigit, show_ℕ-IsDigit}
use run_alex_db.Engine.Value.{Platform}
use run_alex_db.Engine.Store.{Engine, Tables}
use run_alex_db.Engine.Dump.{is_system, databases_sql, dump_sql, restore_lines, restore_sql}

-- A line of digits is one, and loses nothing when it is trimmed.
lines-digits : (s : Str) → All IsDigit s → lines (s ++ (10 ∷ 10 ∷ [])) ≡ s ∷ [] ∷ []
unfolding lines
lines-digits [] h = refl
lines-digits (c ∷ s) (hc, hs) =
    let feed : (c == 10) ≡ false = ground arith in
    let back : (c == 13) ≡ false = ground arith in rw (feed, back, lines-digits s hs) refl

trim_end_digits : (s : Str) → All IsDigit s → trim_end s ≡ s
unfolding trim_end cons_trimmed
trim_end_digits [] h = refl
trim_end_digits (c ∷ []) (hc, hs) = let plain : is_space c ≡ false = ground arith in rw plain refl
trim_end_digits (c ∷ d ∷ s) (hc, hs) = rw (trim_end_digits (d ∷ s) hs) refl

abbrev stamp : Str
stamp = str "-- Generated: unix_ts="

stamp_comment : (s : Str) → trim_end s ≡ s → starts_with (trim (stamp ++ s)) (str "--") ≡ true
unfolding trim trim_start trim_end cons_trimmed starts_with
stamp_comment [] h = refl
stamp_comment (c ∷ s) h = rw h refl

module _ (pf : Platform) where
  open pf use {F}

  databases_sql-system :
      (dbs : List (Str × Tables F))
      → All (λ p. is_system p.0 ≡ true) dbs
      → databases_sql pf dbs ≡ []
  unfolding databases_sql
  databases_sql-system [] h = refl
  databases_sql-system ((name, tables) ∷ dbs) (h, hs) = rw h (databases_sql-system dbs hs)

  -- Three lines of comments and nothing else.
  restore_comments :
      (execute : Str → Option Str → Engine F → Option (Engine F)) (s : Str) (e : Engine F)
      → starts_with (trim (stamp ++ s)) (str "--") ≡ true
      → restore_lines pf execute (str "-- RunAlexDB SQL dump" ∷ (stamp ++ s) ∷ [] ∷ []) [] none e
        ≡ some e
  unfolding restore_lines trim trim_start trim_end cons_trimmed starts_with str_eq
  restore_comments execute s e h = rw h refl

  -- An engine whose databases are all among those that the dump leaves out, `test` with whatever tables it has
  -- being one of them, is dumped as comments: the restoration of the dump executes nothing.
  pub restore_sql-dump_sql :
      (execute : Str → Option Str → Engine F → Option (Engine F)) (ts : ℕ) (e e' : Engine F)
      → All (λ p. is_system p.0 ≡ true) e.databases
      → restore_sql pf execute (dump_sql pf ts e) e' ≡ some e'
  unfolding restore_sql dump_sql lines starts_with
  restore_sql-dump_sql execute ts e e' h =
      let digits = show_ℕ-IsDigit ts in
      rw (databases_sql-system e.databases h, lines-digits (show_ℕ ts) digits)
        (restore_comments execute (show_ℕ ts) e'
          (stamp_comment (show_ℕ ts) (trim_end_digits (show_ℕ ts) digits)))
