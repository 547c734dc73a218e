-- ===== src/Engine/Alter.antt =====
-- src/engine.rs: ALTER TABLE on one table. An operation that fails ends the statement; what the operations
-- before it did stays.
pub mod Sync
pub mod Tables
use run_alex_db.Common.{
  ℕ, zero, suc, ◌+◌, ◌-◌, Option, none, some, List, [], ◌∷◌, ◌++◌, map, Bool, true, false, ◌||◌,
}
use run_alex_db.Common.{get_elem?, position, if◌then◌else◌, ltb, length, remove_at, replicate}
use run_alex_db.Common.Int.{ℤ, pos}
use run_alex_db.Common.Dict.{Str, str}
use run_alex_db.Engine.Value.{Value, null, QueryResult, ok, err}
use run_alex_db.Engine.Table.{
  Column, Row, Table, DataType, sql_type_to_col_type, is_int_column, is_str_column,
}
use run_alex_db.Engine.Rows.{column_index}

pub data AlterOp : Type 0 where
  add_column : Str → DataType → AlterOp
  drop_column : Str → AlterOp
  rename_column : Str → Str → AlterOp
  other_operation : AlterOp

abbrev pub is_some {ℓ} : {A : Type ℓ} → Option A → Bool
is_some none = false
is_some (some x) = true

unfoldable pub new_column : Str → DataType → Column
unfolding sql_type_to_col_type
new_column name data_type = record {
  name = name;
  col_type = sql_type_to_col_type data_type;
  nullable = true;
  primary_key = false;
}

-- `while stores.len() <= n { stores.push(None) }`, and the store at `n`. There is one store for each column.
unfoldable pub extend_stores {ℓ} :
    {A : Type ℓ} → ℕ → Option (List A) → List (Option (List A)) → List (Option (List A))
extend_stores zero store [] = store ∷ []
extend_stores (suc n) store [] = none ∷ extend_stores n store []
extend_stores zero none (s ∷ ss) = s ∷ ss
extend_stores zero (some v) (s ∷ ss) = some v ∷ ss
extend_stores (suc n) store (s ∷ ss) = s ∷ extend_stores n store ss

-- The column at a place with another name.
unfoldable pub rename_at : ℕ → Str → List Column → List Column
rename_at i name [] = []
rename_at zero name (c ∷ cs) = record c { name = name } ∷ cs
rename_at (suc i) name (c ∷ cs) = c ∷ rename_at i name cs

abbrev pub is_primary : List Column → ℕ → Bool
is_primary columns i = elim (get_elem? columns i) [ none ↦ false | some c ↦ c.primary_key ]

module _ {F : Type 0} where
  unfoldable pub with_column : Column → Table F → Table F
  unfolding extend_stores
  with_column c t =
      let n = length t.columns in
      let zeros : Option (List ℤ) =
        if is_int_column c then some (replicate (length t.rows) (pos 0)) else none in
      let blanks : Option (List Str) =
        if is_str_column c then some (replicate (length t.rows) []) else none in
      record t {
        rows = map (λ row. row ++ (null ∷ [])) t.rows;
        col_int_data = extend_stores n zeros t.col_int_data;
        col_str_data = extend_stores n blanks t.col_str_data;
        columns = t.columns ++ (c ∷ []);
      }

  unfoldable pub without_column : ℕ → Table F → Table F
  without_column i t =
      let columns' = remove_at t.columns i in
      record t {
        columns = columns';
        rows = map (λ row. remove_at row i) t.rows;
        col_int_data = remove_at t.col_int_data i;
        col_str_data = remove_at t.col_str_data i;
        pk_col_idx = position (λ c. c.primary_key) columns';
      }

  unfoldable pub drop_found : Str → Option ℕ → Table F → Table F × Option (ℕ × Str)
  unfolding without_column
  drop_found name none t = (t, some (1091, str "Can't DROP COLUMN '" ++ (name ++ str "'")))
  drop_found name (some i) t =
      if is_primary t.columns i
      then (t, some (1075, str "Incorrect table definition: only one primary key allowed"))
      else (without_column i t, none)

  unfoldable pub rename_found : Str → Str → Option ℕ → Table F → Table F × Option (ℕ × Str)
  unfolding rename_at
  rename_found old new none t = (t, some (1054, str "Unknown column '" ++ (old ++ str "'")))
  rename_found old new (some i) t = (record t { columns = rename_at i new t.columns }, none)

  unfoldable pub alter_op : AlterOp → Table F → Table F × Option (ℕ × Str)
  unfolding with_column drop_found rename_found
  alter_op (add_column name data_type) t =
      if is_some (column_index t.columns name)
      then (t, some (1060, str "Duplicate column name '" ++ (name ++ str "'")))
      else (with_column (new_column name data_type) t, none)
  alter_op (drop_column name) t = drop_found name (column_index t.columns name) t
  alter_op (rename_column old new) t = rename_found old new (column_index t.columns old) t
  alter_op other_operation t = (t, none)

  -- The loop over the operations.
  unfoldable pub alter_all : List AlterOp → Table F → Table F × QueryResult F
  unfolding alter_op
  alter_all [] t = (t, ok 0 0)
  alter_all (op ∷ ops) t =
      let (t', failure) = alter_op op t in
      let later = alter_all ops t' in
      elim failure [ none ↦ later | some (code, message) ↦ (t', err code message) ]
