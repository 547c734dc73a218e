-- ===== src/Engine/Execute/Revoke.antt =====
-- Who may take the rights of an account away.
use mathlib.Core.List.{reverse, reverse-cons, reverse-append}
use run_alex_db.Common.{
  ℕ, ◌+◌, ◌≡◌, refl, ap, ◌∙◌, arith, Option, none, some, List, [], ◌∷◌, ◌++◌, map, none-ne-some,
  true, false, Bool-cases, inl, inr, ◌==◌, drop,
}
use run_alex_db.Common.Dict.{Str, str, str_eq, str_eq_refl, lookup, insert, lookup-insert}
use run_alex_db.Common.Text.{trim_start_matches}
use run_alex_db.Common.Ascii.{trim, to_upper, starts_with, find, slice}
use run_alex_db.Common.Process.{Result, done}
use run_alex_db.Engine.Value.{QueryResult, ok, err}
use run_alex_db.Engine.Store.{Engine, DbUser, bump_write_gen}
use run_alex_db.Engine.Users.{put_user, unquoted}
use run_alex_db.Engine.Users.Grants.{
  exec_revoke, revoke_from, revoke_in, revoke_access, granted_db, has_name,
}
use run_alex_db.Engine.Users.Privileges.{
  StatementKind, refuse, refuse_user, shut_out, verdict, access_denied,
}
use run_alex_db.Engine.Statements.{Statement}
use run_alex_db.Engine.Execute.{
  execute, by_text, literal_statement, user_statement, trim_semicolons,
}
use run_alex_db.Engine.Execute.Refused.{execute-checked}

-- The text is `REVOKE privileges ON *.* FROM name`, or is read like that: what stands between REVOKE and the
-- first ` FROM ` has no ` ON ` with a database behind it, and what follows is the name.
pub record RevokesAll (sql name : Str) : Type 0 where
  pub revoke : starts_with (to_upper (trim sql)) (str "REVOKE ") ≡ true
  pub from_pos : ℕ
  pub from_found : find (str " FROM ") (to_upper (trim sql)) ≡ some from_pos
  pub privs_on : Str
  pub privs_found : slice 7 from_pos (trim sql) ≡ some privs_on
  pub all_databases : granted_db (trim privs_on) ≡ none
  pub name_found : unquoted (trim (drop (from_pos + 6) (trim sql))) ≡ name

-- A text that begins with the letter keeps it at its head when what ends it is cut off.
trim_start_last :
    (c last : ℕ) (xs : Str)
    → (last == c) ≡ false
    → (ys : Str) × (trim_start_matches c (xs ++ (last ∷ [])) ≡ ys ++ (last ∷ []))
unfolding trim_start_matches
trim_start_last c last [] h = ([], rw h refl)
trim_start_last c last (x ∷ xs) h = elim (Bool-cases (x == c)) [
  | inl same ↦ let (ys, e) = trim_start_last c last xs h in (ys, rw same e)
  | inr other ↦ (x ∷ xs, rw other refl)
]

trim_semicolons_head : (cs : Str) → (ds : Str) × (trim_semicolons (b'R' ∷ cs) ≡ b'R' ∷ ds)
unfolding trim_semicolons
trim_semicolons_head cs =
    let (ys, e) = trim_start_last b';' b'R' (reverse cs) refl in
    (
      reverse ys,
      ap (λ l. reverse (trim_start_matches b';' l)) (reverse-cons b'R' cs)
          ∙ ap reverse e
          ∙ reverse-append ys (b'R' ∷ []),
    )

head_of :
    (p : ℕ) (ps s : Str)
    → starts_with s (p ∷ ps) ≡ true
    → (cs : Str) × (s ≡ p ∷ cs) × (starts_with cs ps ≡ true)
unfolding starts_with
head_of p ps [] h = absurd cc
head_of p ps (c ∷ cs) h = (cs, ap (λ x. x ∷ cs) (ground (arith, h)), ground (arith, h))

module _ {F : Type 0} where
  not_literal :
      (upper : Str) (current_db : Option Str)
      → starts_with upper (str "REVOKE ") ≡ true
      → literal_statement {F = F} upper current_db ≡ none
  unfolding literal_statement starts_with str_eq
  not_literal upper current_db h =
      let (cs, e, rest) = head_of b'R' (str "EVOKE ") upper h in
      let (ds, cut) = trim_semicolons_head cs in rw e (rw cut refl)

  revoke_head :
      (sha1 : List ℕ → List ℕ) (cs sql : Str) (e : Engine F)
      → starts_with cs (str "EVOKE ") ≡ true
      → user_statement sha1 (b'R' ∷ cs) sql e ≡ some (exec_revoke sql e)
  unfolding user_statement starts_with
  revoke_head sha1 cs sql e h = rw h refl

  runs_revoke :
      (sha1 : List ℕ → List ℕ) (upper sql : Str) (e : Engine F)
      → starts_with upper (str "REVOKE ") ≡ true
      → user_statement sha1 upper sql e ≡ some (exec_revoke sql e)
  runs_revoke sha1 upper sql e h =
      let (cs, same, rest) = head_of b'R' (str "EVOKE ") upper h in
      rw same (revoke_head sha1 cs sql e rest)

  -- What REVOKE leaves of an account that is there.
  revoked_user :
      (name : Str) (u : DbUser) (o : Option DbUser) (e : Engine F)
      → o ≡ some u
      → (revoke_in name none o e).1 ≡ ok 0 0
  unfolding revoke_in
  revoked_user name u none e h = absurd (none-ne-some h)
  revoked_user name u (some v) e h = refl

  refused_user :
      (name db : Str) (stmts : List StatementKind) (u : DbUser) (o : Option DbUser) (e : Engine F)
      → o ≡ some u
      → refuse name stmts (some db) (revoke_in name none o e).0 ≡ some (access_denied name db)
  unfolding revoke_in refuse bump_write_gen put_user
  refused_user name db stmts u none e h = absurd (none-ne-some h)
  refused_user name db stmts u (some v) e h =
      let found : lookup name (insert name (revoke_access none v) e.users)
          ≡ some (revoke_access none v) =
        lookup-insert name name _ e.users ∙ rw (str_eq_refl name) refl in
      ap (refuse_user name stmts (some db)) found
      ∙ unfold refuse_user revoke_access shut_out has_name verdict in refl

module _ {F S : Type 0} (exec_other : S → Option Str → Engine F → Engine F × QueryResult F)
    (sha1 : List ℕ → List ℕ) (parse : Str → Result (List (Statement S)))
    (kind_of : Statement S → StatementKind)
    (schema_query : Str → Str → Option Str → Engine F → Option (QueryResult F)) where
  revokes :
      (sql name : Str) (e : Engine F)
      → RevokesAll sql name
      → exec_revoke (trim sql) e ≡ some (revoke_from name none e)
  unfolding exec_revoke
  revokes sql name e r =
      rw (exec_revoke, r.from_found, r.privs_found, r.all_databases, r.name_found) refl

  runs :
      (sql name : Str) (current_db : Option Str) (user_name : Str) (e : Engine F)
      → RevokesAll sql name
      → execute exec_other sha1 parse kind_of schema_query sql current_db user_name e
        ≡ some (revoke_from name none e)
  unfolding execute by_text
  runs sql name current_db user_name e r =
      rw (not_literal (to_upper (trim sql)) current_db r.revoke)
        (rw (runs_revoke sha1 (to_upper (trim sql)) (trim sql) e r.revoke) (revokes sql name e r))

  -- Whoever sends it, with whatever current database and whatever rights, a text that is read as a REVOKE of all
  -- databases from the name of an account, root's included, takes the account's access away: the statement
  -- succeeds, and in the engine that it leaves, a text that `execute` does not know by itself and that the parser
  -- takes is refused with error 1044 when that account sends it with a current database. Nothing is said of the
  -- texts that `execute` knows by themselves, which are the statements on accounts, SHOW, SET and the like.
  pub execute_revoke :
      (sql later name user_name db : Str) (current_db : Option Str) (stmts : List (Statement S))
      (account : DbUser) (e : Engine F)
      → RevokesAll sql name
      → lookup name e.users ≡ some account
      → parse later ≡ done stmts
      → by_text sha1 schema_query later (some db) (revoke_from name none e).0 ≡ none
      → (execute exec_other sha1 parse kind_of schema_query sql current_db user_name e
          ≡ some ((revoke_from name none e).0, ok 0 0))
        × (execute exec_other sha1 parse kind_of schema_query later
              (some db)
              name
              (revoke_from name none e).0
            ≡ some (
              (revoke_from name none e).0,
              err (access_denied name db).0 (access_denied name db).1,
            ))
  unfolding revoke_from
  execute_revoke sql later name user_name db current_db stmts account e r found parsed passed = (
    runs sql name current_db user_name e r
        ∙ ap (λ x. some ((revoke_from name none e).0, x))
            (revoked_user name account (lookup name e.users) e found),
    execute-checked exec_other sha1 parse kind_of schema_query later stmts (some db) name
        (revoke_from name none e).0 _ passed parsed
        (refused_user name db (map kind_of stmts) account (lookup name e.users) e found),
  )
