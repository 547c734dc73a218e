-- ===== src/Engine/Statements/Sound.antt =====
-- The tables of the engine stay sound under DROP, TRUNCATE and ALTER TABLE.
use run_alex_db.Common.{
  ℕ, suc, ◌≡◌, refl, sym, ap, ◌∙◌, Option, none, some, List, [], ◌∷◌, Bool, true, false, All,
  none-ne-some, Bool-cases, inl, inr, if◌then◌else◌,
}
use run_alex_db.Common.Dict.{Str, str_eq, lookup, remove, lookup-remove}
use run_alex_db.Common.Text.{trim_matches}
use run_alex_db.Engine.Value.{QueryResult, ok, err, rows, value_rows}
use run_alex_db.Engine.Table.{Column, Row, Table, int_at, str_at, is_int_column, is_str_column}
use run_alex_db.Engine.Rows.Sync.{stores_of}
use run_alex_db.Engine.Store.{
  Engine, Tables, at_table, in_engine, in_database, bump_write_gen, split_name,
}
use run_alex_db.Engine.Store.Sync.{AllIn, insert-AllIn}
use run_alex_db.Engine.Alter.{alter_all}
use run_alex_db.Engine.Alter.Tables.{IsSound, alter_all-IsSound}
use run_alex_db.Engine.Statements.{
  Statement, drop_tables, drop_databases, drop_other, use_database, truncate, explain_table,
  show_columns, show_create, alter_table, other_statement, or_test, drop_table_in, drop_table,
  drop_database, drop_each, clear_stores, truncate_table, then_bump, exec_stmt, next_db, run_stmts,
}

-- Every table of every database is sound.
abbrev pub AllSound : {F : Type 0} → Engine F → Type 0
AllSound {F = F} e = AllIn (AllIn (IsSound {F = F})) e.databases

remove_kept :
    {V : Type 0} (b : Bool) {o : Option V} (v : V) → (if b then none else o) ≡ some v → o ≡ some v
remove_kept true v h = absurd (none-ne-some h)
remove_kept false v h = h

remove-AllIn :
    {V : Type 0} (P : V → Type 0) (k : Str) (m : List (Str × V)) → AllIn P m → AllIn P (remove k m)
remove-AllIn P k m h j v found =
    h j v (remove_kept (str_eq k j) v (sym (lookup-remove k j m) ∙ found))

clear_stores_of :
    {F A : Type 0} (test : Column → Bool) (at : ℕ → Row F → A) (ci : ℕ) (cs : List Column)
    (rs : List (Row F))
    → clear_stores (stores_of test at ci cs rs) ≡ stores_of test at ci cs []
unfolding clear_stores
clear_stores_of test at ci [] rs = refl
clear_stores_of test at ci (c ∷ cs) rs = elim (Bool-cases (test c)) [
  | inl has ↦ rw has (ap (λ l. some [] ∷ l) (clear_stores_of test at (suc ci) cs rs))
  | inr hasnt ↦ rw hasnt (ap (λ l. none ∷ l) (clear_stores_of test at (suc ci) cs rs))
]

module _ {F : Type 0} where
  truncate_table-IsSound : (t : Table F) → IsSound t → IsSound (truncate_table t).0
  unfolding truncate_table
  truncate_table-IsSound t s = record {
    synced = record {
      ints =
          ap clear_stores s.synced.ints ∙ clear_stores_of is_int_column int_at 0 t.columns t.rows;
      strs =
          ap clear_stores s.synced.strs ∙ clear_stores_of is_str_column str_at 0 t.columns t.rows;
    };
    wide = tt;
  }

  in_database-AllSound :
      (db t missing : Str) (f : Table F → Table F × QueryResult F) (tables : Tables F)
      (o : Option (Table F)) (e : Engine F)
      → ((table : Table F) → IsSound table → IsSound (f table).0)
      → AllSound e
      → AllIn (IsSound {F = F}) tables
      → ((table : Table F) → o ≡ some table → IsSound table)
      → AllSound (in_database db t missing f tables o e).0
  unfolding in_database
  in_database-AllSound db t missing f tables none e hf h ht ho = h
  in_database-AllSound db t missing f tables (some table) e hf h ht ho =
      insert-AllIn db _ e.databases (insert-AllIn t _ tables (hf table (ho table refl)) ht) h

  in_engine-AllSound :
      (db t unknown missing : Str) (f : Table F → Table F × QueryResult F) (o : Option (Tables F))
      (e : Engine F)
      → ((table : Table F) → IsSound table → IsSound (f table).0)
      → AllSound e
      → ((tables : Tables F) → o ≡ some tables → AllIn (IsSound {F = F}) tables)
      → AllSound (in_engine db t unknown missing f o e).0
  unfolding in_engine
  in_engine-AllSound db t unknown missing f none e hf h ho = h
  in_engine-AllSound db t unknown missing f (some tables) e hf h ho =
      in_database-AllSound db t missing f tables (lookup t tables) e hf h (ho tables refl)
        (λ table q. ho tables refl t table q)

  at_table-AllSound :
      (db t unknown missing : Str) (f : Table F → Table F × QueryResult F) (e : Engine F)
      → ((table : Table F) → IsSound table → IsSound (f table).0)
      → AllSound e
      → AllSound (at_table db t unknown missing f e).0
  unfolding at_table
  at_table-AllSound db t unknown missing f e hf h =
      in_engine-AllSound db t unknown missing f (lookup db e.databases) e hf h
        (λ tables q. h db tables q)

  bumped : (p : Engine F × QueryResult F) → AllSound p.0 → AllSound (then_bump p).0
  unfolding bump_write_gen
  bumped (e, ok n id) h = h
  bumped (e, err code message) h = h
  bumped (e, rows names rs) h = h
  bumped (e, value_rows names rs) h = h

  drop_table_in-AllSound :
      (db t : Str) (if_exists : Bool) (o : Option (Tables F)) (e : Engine F)
      → ((tables : Tables F) → o ≡ some tables → AllIn (IsSound {F = F}) tables)
      → AllSound e
      → AllSound (drop_table_in db t if_exists o e).0
  unfolding drop_table_in
  drop_table_in-AllSound db t if_exists none e ho h = h
  drop_table_in-AllSound db t if_exists (some tables) e ho h =
      insert-AllIn db _ e.databases (remove-AllIn IsSound t tables (ho tables refl)) h

  drop_table-AllSound :
      (db : Str) (if_exists : Bool) (raw : Str) (e : Engine F)
      → AllSound e
      → AllSound (drop_table db raw if_exists e).0
  unfolding drop_table
  drop_table-AllSound db if_exists raw e h =
      drop_table_in-AllSound (split_name db raw).0 (split_name db raw).1 if_exists
        (lookup (split_name db raw).0 e.databases) e (λ tables q. h (split_name db raw).0 tables q)
        h

  drop_database-AllSound :
      (if_exists : Bool) (raw : Str) (e : Engine F)
      → AllSound e
      → AllSound (drop_database raw if_exists e).0
  unfolding drop_database
  drop_database-AllSound if_exists raw e h =
      remove-AllIn (AllIn IsSound) (trim_matches b'`' raw) e.databases h

  drop_ended :
      (o : Option (ℕ × Str)) (e : Engine F) (later : Engine F × QueryResult F)
      → AllSound e
      → AllSound later.0
      → AllSound
          (elim o as (λ _. Engine F × QueryResult F) [
            | none ↦ later
            | some (code, message) ↦ (e, err code message)
          ]).0
  drop_ended none e later h h' = h'
  drop_ended (some (code, message)) e later h h' = h

  drop_each-AllSound :
      (drop : Str → Engine F → Engine F × Option (ℕ × Str)) (names : List Str) (e : Engine F)
      → ((name : Str) (e : Engine F) → AllSound e → AllSound (drop name e).0)
      → AllSound e
      → AllSound (drop_each drop names e).0
  unfolding drop_each bump_write_gen
  drop_each-AllSound drop [] e hd h = h
  drop_each-AllSound drop (name ∷ names) e hd h =
      drop_ended (drop name e).1 (drop name e).0 (drop_each drop names (drop name e).0)
        (hd name e h) (drop_each-AllSound drop names (drop name e).0 hd (hd name e h))

-- One of the statements that `Statement` tells apart.
abbrev pub is_told_apart : {S : Type 0} → Statement S → Bool
is_told_apart (other_statement s) = false
is_told_apart s = true

module _ {F S : Type 0} (exec_other : S → Option Str → Engine F → Engine F × QueryResult F) where
  exec_stmt-AllSound :
      (s : Statement S) (db : Option Str) (e : Engine F)
      → is_told_apart s ≡ true
      → AllSound e
      → AllSound (exec_stmt exec_other s db e).0
  unfolding exec_stmt
  exec_stmt-AllSound (drop_tables names if_exists) db e known h =
      drop_each-AllSound (λ raw. drop_table (or_test db) raw if_exists) names e
        (drop_table-AllSound (or_test db) if_exists) h
  exec_stmt-AllSound (drop_databases names if_exists) db e known h =
      drop_each-AllSound (λ raw. drop_database raw if_exists) names e
        (drop_database-AllSound if_exists) h
  exec_stmt-AllSound drop_other db e known h = h
  exec_stmt-AllSound (use_database name) db e known h = h
  exec_stmt-AllSound (truncate names) db e known h =
      bumped _ (at_table-AllSound _ _ _ _ truncate_table e truncate_table-IsSound h)
  exec_stmt-AllSound (explain_table raw) db e known h = h
  exec_stmt-AllSound (show_columns full none) db e known h = h
  exec_stmt-AllSound (show_columns full (some raw)) db e known h = h
  exec_stmt-AllSound (show_create none) db e known h = h
  exec_stmt-AllSound (show_create (some raw)) db e known h = h
  exec_stmt-AllSound (alter_table raw ops) db e known h =
      bumped _ (at_table-AllSound _ _ _ _ (alter_all ops) e (alter_all-IsSound ops) h)
  exec_stmt-AllSound (other_statement s) db e known h = absurd cc

  -- A sequence of DROP, TRUNCATE, USE, ALTER TABLE, DESCRIBE, SHOW COLUMNS and SHOW CREATE statements that
  -- `execute` runs one after the other keeps every table of the engine sound, whatever the current database
  -- and whatever fails on the way: the column stores of each table stay in step with its rows, and its rows
  -- as wide as the table. Nothing is said of a sequence with any other statement.
  pub run_stmts-AllSound :
      (ss : List (Statement S)) (db : Option Str) (p : Engine F × QueryResult F)
      → All (λ s. is_told_apart s ≡ true) ss
      → AllSound p.0
      → AllSound (run_stmts exec_other ss db p).0
  unfolding run_stmts
  run_stmts-AllSound [] db (e, last) known h = h
  run_stmts-AllSound (s ∷ ss) db (e, last) (known, rest) h =
      run_stmts-AllSound ss (next_db exec_other s db)
        (then_bump (exec_stmt exec_other s (next_db exec_other s db) e)) rest
        (bumped (exec_stmt exec_other s (next_db exec_other s db) e)
          (exec_stmt-AllSound s (next_db exec_other s db) e known h))
