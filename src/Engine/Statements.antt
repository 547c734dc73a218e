-- ===== src/Engine/Statements.antt =====
-- src/engine.rs: the statements of `exec_stmt` on databases and tables as a whole, and the loop of `execute`
-- over the parsed statements.
mod Describe
pub mod Sound
mod Tests
pub use Describe.*
use run_alex_db.Common.{
  ℕ, suc, ◌+◌, Option, none, some, List, [], ◌∷◌, ◌++◌, map, Bool, true, false, ◌&&◌, not,
}
use run_alex_db.Common.{if◌then◌else◌, length}
use run_alex_db.Common.Dict.{Str, str, lookup, insert, remove}
use run_alex_db.Common.Decimal.{show_ℕ}
use run_alex_db.Common.Text.{split_at_first, trim_matches}
use run_alex_db.Common.Process.{Result, done, failed}
use run_alex_db.Engine.Value.{QueryResult, ok, err, rows, value_rows}
use run_alex_db.Engine.Table.{
  Column, ColumnType, Table, int_type, big_int_type, float_type, var_char_type, text_type,
  blob_type, timestamp_type, is_str_column,
}
use run_alex_db.Engine.Store.{Engine, Tables, is_there, at_table, bump_write_gen, split_name}
use run_alex_db.Engine.Alter.{AlterOp, alter_all}
use run_alex_db.Engine.Users.Privileges.{StatementKind, refuse}

-- `current_db.as_deref().unwrap_or("test")`.
abbrev pub or_test : Option Str → Str
or_test none = str "test"
or_test (some db) = db

abbrev or_empty : Option Str → Str
or_empty none = []
or_empty (some db) = db

abbrev pub unknown_database : Str
unknown_database = str "Unknown database"

abbrev pub table_not_found : Str
table_not_found = str "Table not found"

unfoldable pub clear_stores {ℓ} : {A : Type ℓ} → List (Option (List A)) → List (Option (List A))
clear_stores [] = []
clear_stores (none ∷ ss) = none ∷ clear_stores ss
clear_stores (some v ∷ ss) = some [] ∷ clear_stores ss

module _ {F : Type 0} where
  abbrev pub then_bump : Engine F × QueryResult F → Engine F × QueryResult F
  then_bump (e, ok n id) = (bump_write_gen e, ok n id)
  then_bump (e, err code message) = (e, err code message)
  then_bump (e, rows names rs) = (e, rows names rs)
  then_bump (e, value_rows names rs) = (e, value_rows names rs)

  -- One name of DROP TABLE: the engine without the table, or the error that ends the statement.
  unfoldable pub drop_table_in :
      Str → Str → Bool → Option (Tables F) → Engine F → Engine F × Option (ℕ × Str)
  drop_table_in db t if_exists none e =
      (e, if if_exists then none else some (1049, str "Unknown database '" ++ (db ++ str "'")))
  drop_table_in db t if_exists (some tables) e = (
    record e { databases = insert db (remove t tables) e.databases },
    if not (is_there (lookup t tables)) && not if_exists
        then some (1051, str "Unknown table '" ++ (db ++ (str "." ++ (t ++ str "'"))))
        else none,
  )

  unfoldable pub drop_table : Str → Str → Bool → Engine F → Engine F × Option (ℕ × Str)
  unfolding drop_table_in
  drop_table db_name raw if_exists e =
      let (db, t) = split_name db_name raw in drop_table_in db t if_exists (lookup db e.databases) e

  unfoldable pub drop_database : Str → Bool → Engine F → Engine F × Option (ℕ × Str)
  drop_database raw if_exists e =
      let name = trim_matches b'`' raw in
      (
        record e { databases = remove name e.databases },
        if not (is_there (lookup name e.databases)) && not if_exists
            then some (1049, str "Unknown database '" ++ (name ++ str "'"))
            else none,
      )

  -- The loop over the names: the first error ends it, and the write generation is raised only at its end.
  unfoldable pub drop_each :
      (Str → Engine F → Engine F × Option (ℕ × Str))
      → List Str
      → Engine F
      → Engine F × QueryResult F
  drop_each drop [] e = (bump_write_gen e, ok 0 0)
  drop_each drop (name ∷ names) e =
      let later = drop_each drop names (drop name e).0 in
      elim (drop name e).1 [
        | none ↦ later
        | some (code, message) ↦ ((drop name e).0, err code message)
      ]

  unfoldable pub truncate_table : Table F → Table F × QueryResult F
  unfolding clear_stores
  truncate_table t = (
    record t {
      rows = [];
      pk_index = [];
      col_int_data = clear_stores t.col_int_data;
      col_str_data = clear_stores t.col_str_data;
    },
    ok (length t.rows) 0,
  )

  -- A statement that reads one table.
  unfoldable pub read_table : Str → (Str → Table F → QueryResult F) → Str → Engine F → QueryResult F
  read_table db_name answer raw e =
      let (db, t) = split_name db_name raw in
      elim (lookup db e.databases) [
        | none ↦ err 1049 unknown_database
        | some tables ↦ elim (lookup t tables) [
          | none ↦ err 1146 table_not_found
          | some table ↦ answer t table
        ]
      ]

-- The statements that are told apart here. `other_statement` is every other one: INSERT, UPDATE, DELETE,
-- CREATE, SELECT and the further SHOW statements. What it does is an argument of `exec_stmt`.
pub data Statement (S : Type 0) : Type 0 where
  drop_tables : List Str → Bool → Statement S
  drop_databases : List Str → Bool → Statement S
  drop_other : Statement S
  use_database : Option Str → Statement S
  truncate : List Str → Statement S
  explain_table : Str → Statement S
  show_columns : Bool → Option Str → Statement S
  show_create : Option Str → Statement S
  alter_table : Str → List AlterOp → Statement S
  other_statement : S → Statement S

abbrev first_or_empty : List Str → Str
first_or_empty [] = []
first_or_empty (name ∷ names) = name

module _ {F S : Type 0} (exec_other : S → Option Str → Engine F → Engine F × QueryResult F) where
  unfoldable pub exec_stmt : Statement S → Option Str → Engine F → Engine F × QueryResult F
  unfolding drop_table drop_database drop_each truncate_table read_table describe_column full_column
      create_text
  exec_stmt (drop_tables names if_exists) current_db e =
      drop_each (λ raw. drop_table (or_test current_db) raw if_exists) names e
  exec_stmt (drop_databases names if_exists) current_db e =
      drop_each (λ raw. drop_database raw if_exists) names e
  exec_stmt drop_other current_db e = (e, ok 0 0)
  exec_stmt (use_database db) current_db e = (e, ok 0 0)
  exec_stmt (truncate names) current_db e =
      let (db, t) = split_name (or_empty current_db) (first_or_empty names) in
      then_bump (at_table db t unknown_database table_not_found truncate_table e)
  exec_stmt (explain_table raw) current_db e = (
    e,
    read_table (or_test current_db)
        (λ t table. rows describe_names (map describe_column table.columns)) raw e,
  )
  exec_stmt (show_columns full none) current_db e =
      (e, err 1295 (str "SHOW COLUMNS requires FROM table_name"))
  exec_stmt (show_columns full (some raw)) current_db e = (
    e,
    read_table (or_test current_db)
        (λ t table.
          if full
          then rows full_names (map full_column table.columns)
          else rows describe_names (map describe_column table.columns))
        raw e,
  )
  exec_stmt (show_create none) current_db e =
      (e, err 1295 (str "SHOW CREATE only supported for TABLE"))
  exec_stmt (show_create (some raw)) current_db e = (
    e,
    read_table (or_test current_db)
        (λ t table.
          rows (str "Table" ∷ str "Create Table" ∷ [])
            ((some t ∷ some (create_text t table.columns) ∷ []) ∷ []))
        raw e,
  )
  exec_stmt (alter_table raw ops) current_db e =
      let (db, t) = split_name (or_test current_db) raw in
      then_bump (at_table db t unknown_database table_not_found (alter_all ops) e)
  exec_stmt (other_statement s) current_db e = exec_other s current_db e

  -- USE changes the database of the statements behind it.
  unfoldable pub next_db : Statement S → Option Str → Option Str
  next_db (use_database (some db)) eff_db = some (trim_matches b'`' db)
  next_db s eff_db = eff_db

  unfoldable pub run_stmts :
      List (Statement S) → Option Str → Engine F × QueryResult F → Engine F × QueryResult F
  unfolding exec_stmt next_db
  run_stmts [] eff_db (e, last) = (e, last)
  run_stmts (s ∷ ss) eff_db (e, last) =
      run_stmts ss (next_db s eff_db) (then_bump (exec_stmt s (next_db s eff_db) e))

  -- `execute` from the parsed statements on; `kind_of` is what the privilege check sees of a statement.
  unfoldable pub execute_parsed :
      (Statement S → StatementKind)
      → Result (List (Statement S))
      → Option Str
      → Str
      → Engine F
      → Engine F × QueryResult F
  unfolding run_stmts
  execute_parsed kind_of (failed message) current_db user_name e = (e, err 1064 message)
  execute_parsed kind_of (done stmts) current_db user_name e =
      elim (refuse user_name (map kind_of stmts) current_db e) [
        | some (code, message) ↦ (e, err code message)
        | none ↦ run_stmts stmts current_db (e, ok 0 0)
      ]
