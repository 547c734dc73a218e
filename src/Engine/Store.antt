-- ===== src/Engine/Store.antt =====
-- src/engine.rs: the databases of the engine, and INSERT, UPDATE and DELETE on the table that a statement
-- names. A `HashMap` is an association list. How a value expression is evaluated (`eval_row_expr`) is an
-- argument, and so is what the parser library prints an expression as.
pub mod Sync
use run_alex_db.Common.{
  ℕ, zero, suc, ◌+◌, ◌-◌, ◌%◌, ◌^◌, Option, none, some, List, [], ◌∷◌, ◌++◌, map,
}
use run_alex_db.Common.{Bool, true, false, get_elem?, if◌then◌else◌, length, last?, not, ◌&&◌}
use run_alex_db.Common.Int.{ℤ, to_u64}
use run_alex_db.Common.Dict.{Str, str, lookup, insert}
use run_alex_db.Common.Text.{split_at_first, trim_matches}
use run_alex_db.Engine.Value.{Platform, Value, null, int, float, text, bytes, QueryResult, ok, err}
use run_alex_db.Engine.Expr.{Expr, is_bound}
use run_alex_db.Engine.Table.{Column, ColumnDef, Row, Table, new_table, value_to_pk_str}
use run_alex_db.Engine.Rows.{insert_rows, column_map, delete_by_key, delete_where, append_row}
use run_alex_db.Engine.Assign.{Assignment, update_by_key, update_where, assign_all_at}
use run_alex_db.Engine.Compare.{Chars, expr_to_value}
use run_alex_db.Engine.Where.{eval_where, eval_where_bound, extract_pk_eq, extract_pk_eq_param}

pub record DbUser : Type 0 where
  pub password_sha1_sha1 : List ℕ
  pub allowed_dbs : Option (List Str)
  pub can_write : Bool
  pub is_root : Bool

abbrev pub Tables : Type 0 → Type 0
Tables F = List (Str × Table F)

pub record Engine (F : Type 0) : Type 0 where
  pub databases : List (Str × Tables F)
  pub users : List (Str × DbUser)
  pub write_gen : ℕ
  pub last_insert_id : ℕ

-- `database.table`, with backticks taken off, or a table of the current database.
unfoldable pub split_name : Str → Str → Str × Str
split_name db_name table_name = elim (split_at_first b'.' table_name) [
  | none ↦ (db_name, trim_matches b'`' table_name)
  | some (db, t) ↦ (trim_matches b'`' db, trim_matches b'`' t)
]

-- INSERT leaves the backticks of a name without a dot.
unfoldable pub split_insert_name : Str → Str → Str × Str
split_insert_name db_name table_name = elim (split_at_first b'.' table_name) [
  | none ↦ (db_name, table_name)
  | some (db, t) ↦ (trim_matches b'`' db, trim_matches b'`' t)
]

abbrev unknown_database : Str → Str
unknown_database db = str "Unknown database '" ++ (db ++ str "'")

abbrev no_table : Str → Str → Str
no_table db t = str "Table '" ++ (db ++ (str "." ++ (t ++ str "' doesn't exist")))

-- The database and the table of an object name's parts.
unfoldable pub qualified_name : Str → List Str → Str × Str
qualified_name db [] = (db, [])
qualified_name db (t ∷ []) = (db, t)
qualified_name db (d ∷ t ∷ []) = (d, t)
qualified_name db (x ∷ d ∷ t ∷ parts) = qualified_name db (d ∷ t ∷ parts)

abbrev pub is_there {ℓ} : {A : Type ℓ} → Option A → Bool
is_there none = false
is_there (some x) = true

module _ {F : Type 0} where
  -- What a statement does to its table, if the database has it.
  unfoldable pub in_database :
      Str
      → Str
      → Str
      → (Table F → Table F × QueryResult F)
      → Tables F
      → Option (Table F)
      → Engine F
      → Engine F × QueryResult F
  in_database db t missing f tables none e = (e, err 1146 missing)
  in_database db t missing f tables (some table) e =
      let (table', result) = f table in
      (record e { databases = insert db (insert t table' tables) e.databases }, result)

  unfoldable pub in_engine :
      Str
      → Str
      → Str
      → Str
      → (Table F → Table F × QueryResult F)
      → Option (Tables F)
      → Engine F
      → Engine F × QueryResult F
  in_engine db t unknown missing f none e = (e, err 1049 unknown)
  in_engine db t unknown missing f (some tables) e =
      in_database db t missing f tables (lookup t tables) e

  -- `dbs.get(db)` and `db.tables.get_mut(t)`, with the error that each may end in.
  unfoldable pub at_table :
      Str
      → Str
      → Str
      → Str
      → (Table F → Table F × QueryResult F)
      → Engine F
      → Engine F × QueryResult F
  at_table db t unknown missing f e = in_engine db t unknown missing f (lookup db e.databases) e

  -- `entry(name).or_insert_with(…)`: a database that is there stays.
  unfoldable pub ensure_in : Str → Option (Tables F) → Engine F → Engine F
  ensure_in name none e = record e { databases = insert name [] e.databases }
  ensure_in name (some tables) e = e

  unfoldable pub ensure_database : Str → Engine F → Engine F
  ensure_database name e = ensure_in name (lookup name e.databases) e

  unfoldable pub create_database : Str → Engine F → Engine F × QueryResult F
  create_database name e = (ensure_database name e, ok 1 0)

  unfoldable pub create_in :
      Str → Str → List ColumnDef → Bool → Option (Tables F) → Engine F → Engine F × QueryResult F
  create_in db t defs if_not_exists none e = (e, err 1049 (unknown_database db))
  create_in db t defs if_not_exists (some tables) e =
      if if_not_exists && is_there (lookup t tables) then (e, ok 0 0) else (
        record e { databases = insert db (insert t (new_table db t defs) tables) e.databases },
        ok 0 0,
      )

  unfoldable pub create_table :
      Str → List Str → List ColumnDef → Bool → Engine F → Engine F × QueryResult F
  create_table db_name parts defs if_not_exists e =
      let (db, t) = qualified_name db_name parts in
      create_in db t defs if_not_exists (lookup db e.databases) e

  -- BEGIN copies the tables of every database, ROLLBACK puts them back where the database is still there.
  unfoldable pub take_snapshot : Engine F → List (Str × Tables F)
  take_snapshot e = e.databases

  unfoldable pub restore_into :
      List (Str × Tables F) → List (Str × Tables F) → List (Str × Tables F)
  restore_into [] dbs = dbs
  restore_into ((db, tables) ∷ snap) dbs =
      restore_into snap (elim (lookup db dbs) [ none ↦ dbs | some old ↦ insert db tables dbs ])

  unfoldable pub bump_write_gen : Engine F → Engine F
  bump_write_gen e = record e { write_gen = (e.write_gen + 1) % 2 ^ 64 }

  unfoldable pub restore_snapshot : List (Str × Tables F) → Engine F → Engine F
  unfolding restore_into bump_write_gen
  restore_snapshot snap e = bump_write_gen (record e { databases = restore_into snap e.databases })

module _ (pf : Platform) (cs : Chars) (show : Expr → Str) where
  open pf use {F}

  -- `last_insert_id`: the integer key of the last row, as a `u64`, or 0.
  abbrev int_or_zero : Option (Value F) → ℕ
  int_or_zero (some (int n)) = to_u64 n
  int_or_zero v = 0

  unfoldable pub last_key : Table F → ℕ
  last_key t = elim t.pk_col_idx [
    | none ↦ 0
    | some pk ↦ elim (last? t.rows) [ none ↦ 0 | some r ↦ int_or_zero (get_elem? r pk) ]
  ]

  unfoldable pub insert_values : List (Row F) → Bool → List Str → Table F → Table F × QueryResult F
  unfolding last_key
  insert_values rows replace_into insert_columns t =
      let t' = insert_rows pf replace_into (column_map pf insert_columns t.columns) rows t in
      (t', ok (length rows) (last_key t'))

  unfoldable pub store_last_insert_id : Engine F × QueryResult F → Engine F × QueryResult F
  store_last_insert_id (e, ok n id) = (record e { last_insert_id = id }, ok n id)
  store_last_insert_id (e, result) = (e, result)

  -- `insert` of VALUES.
  unfoldable pub insert_into :
      Str → Str → List (List Expr) → Bool → List Str → Engine F → Engine F × QueryResult F
  unfolding store_last_insert_id
  insert_into db_name table_name values replace_into insert_columns e =
      let (db, t) = split_insert_name db_name table_name in
      store_last_insert_id (
        at_table db t (unknown_database db) (no_table db t)
          (insert_values (map (map (expr_to_value pf show)) values) replace_into insert_columns) e)

  -- The key that a statement's selection asks for, if it does and the table has a key column.
  unfoldable pub key_of : Table F → Option Expr → Option Str
  key_of t none = none
  key_of t (some w) = elim t.pk_col_idx [
    | none ↦ none
    | some pk ↦ elim (get_elem? t.columns pk) [ none ↦ none | some c ↦ extract_pk_eq c.name w ]
  ]

  -- The key is only asked for in a table with a key column.
  unfoldable pub delete_pk : Option ℕ → Str → Table F → Table F
  delete_pk none key t = t
  delete_pk (some pk) key t = delete_by_key pf pk key t

  module _ (eval : Row F → List Column → Expr → Value F) where
    unfoldable pub selected : List Column → Option Expr → Row F → Bool
    selected columns none row = true
    selected columns (some w) row = eval_where pf cs eval row columns w

    -- A row stays if there is a selection and it does not pass it.
    unfoldable pub stays : List Column → Option Expr → Row F → Bool
    stays columns none row = false
    stays columns (some w) row = not (eval_where pf cs eval row columns w)

    unfoldable pub update_keyed : Option Str → Option Expr → List Assignment → Table F → Table F × ℕ
    unfolding selected
    update_keyed (some key) selection assignments t = update_by_key pf eval key assignments t
    update_keyed none selection assignments t =
        update_where pf eval (selected t.columns selection) assignments t

    unfoldable pub update :
        Str → Str → List Assignment → Option Expr → Engine F → Engine F × QueryResult F
    unfolding update_keyed
    update db_name table_name assignments selection e =
        let (db, t) = split_name db_name table_name in
        at_table db t (unknown_database db) (no_table db t)
          (λ table.
            let (table', n) = update_keyed (key_of table selection) selection assignments table in
            (table', ok n 0))
          e

    unfoldable pub delete_keyed : Option Str → Option Expr → Table F → Table F
    unfolding stays
    delete_keyed (some key) selection t = delete_pk t.pk_col_idx key t
    delete_keyed none selection t = delete_where pf (stays t.columns selection) t

    unfoldable pub delete_rows : Option Expr → Table F → Table F × QueryResult F
    unfolding delete_keyed
    delete_rows selection t =
        let t' = delete_keyed (key_of t selection) selection t in
        (t', ok (length t.rows - length t'.rows) 0)

    unfoldable pub delete : Str → Str → Option Expr → Engine F → Engine F × QueryResult F
    delete db_name table_name selection e =
        let (db, t) = split_name db_name table_name in
        at_table db t (unknown_database db) (no_table db t) (delete_rows selection) e
