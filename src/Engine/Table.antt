-- ===== src/Engine/Table.antt =====
-- src/engine.rs: columns, tables, the primary-key index and the column stores.
use run_alex_db.Common.{ℕ, suc, ◌%◌, ◌^◌, Option, none, some, List, [], ◌∷◌, map, Bool, true, false}
use run_alex_db.Common.{get_elem?, position, if◌then◌else◌}
use run_alex_db.Common.Int.{ℤ, pos}
use run_alex_db.Common.Dict.{Str, insert}
use run_alex_db.Common.Decimal.{show_ℤ}
use run_alex_db.Engine.Value.{Platform, Value, null, int, float, text, bytes, to_display}

-- The SQL types that `sql_type_to_col_type` tells apart.
pub data DataType : Type 0 where
  integer : DataType
  big_integer : DataType
  floating : DataType
  varchar_length : ℕ → DataType
  varchar_max : DataType
  character : DataType
  binary : DataType
  time : DataType
  other_type : DataType

pub data ColumnType : Type 0 where
  int_type big_int_type float_type : ColumnType
  var_char_type : ℕ → ColumnType
  text_type blob_type timestamp_type : ColumnType

-- `*length as u16` keeps 16 bits; a VARCHAR whose length is no number has 255.
unfoldable pub sql_type_to_col_type : DataType → ColumnType
sql_type_to_col_type integer = int_type
sql_type_to_col_type big_integer = big_int_type
sql_type_to_col_type floating = float_type
sql_type_to_col_type (varchar_length n) = var_char_type (n % 2 ^ 16)
sql_type_to_col_type varchar_max = var_char_type 255
sql_type_to_col_type character = text_type
sql_type_to_col_type binary = blob_type
sql_type_to_col_type time = timestamp_type
sql_type_to_col_type other_type = text_type

-- `ColumnType::mysql_type_byte`.
unfoldable pub mysql_type_byte : ColumnType → ℕ
mysql_type_byte int_type = 0x08
mysql_type_byte big_int_type = 0x08
mysql_type_byte float_type = 0x05
mysql_type_byte (var_char_type n) = 0xfd
mysql_type_byte text_type = 0xfd
mysql_type_byte blob_type = 0xfc
mysql_type_byte timestamp_type = 0x07

pub record Column : Type 0 where
  pub name : Str
  pub col_type : ColumnType
  pub nullable : Bool
  pub primary_key : Bool

abbrev pub Row : Type 0 → Type 0
Row F = List (Value F)

pub record Table (F : Type 0) : Type 0 where
  pub name : Str
  pub schema : Str
  pub columns : List Column
  pub rows : List (Row F)
  pub pk_col_idx : Option ℕ
  pub pk_index : List (Str × ℕ)
  pub col_int_data : List (Option (List ℤ))
  pub col_str_data : List (Option (List Str))
  pub next_auto : ℤ

abbrev pub is_int_column : Column → Bool
is_int_column c = elim c.col_type [ int_type ↦ true | big_int_type ↦ true | _ ↦ false ]

abbrev pub is_str_column : Column → Bool
is_str_column c = elim c.col_type [ text_type ↦ true | var_char_type n ↦ true | _ ↦ false ]

module _ {F : Type 0} where
  -- What a row puts into the integer store of column `ci`: 0 where it has no integer there.
  unfoldable pub int_at : ℕ → Row F → ℤ
  int_at ci row = elim (get_elem? row ci) [ some (int n) ↦ n | _ ↦ pos 0 ]

  -- What it puts into the string store: the empty string where it has no text.
  unfoldable pub str_at : ℕ → Row F → Str
  str_at ci row = elim (get_elem? row ci) [ some (text s) ↦ s | _ ↦ [] ]

module _ (pf : Platform) where
  open pf use {F}

  -- A value's key in the index; NULL has the empty one.
  unfoldable pub value_key : Value F → Str
  unfolding to_display
  value_key (int n) = show_ℤ n
  value_key (text s) = s
  value_key v = elim (to_display pf v) [ none ↦ [] | some s ↦ s ]

  unfoldable pub row_pk_key : Row F → ℕ → Str
  row_pk_key row pk_col_idx = elim (get_elem? row pk_col_idx) [ none ↦ [] | some v ↦ value_key v ]

  -- `value_to_pk_str`.
  unfoldable pub value_to_pk_str : Value F → Str
  value_to_pk_str (int n) = show_ℤ n
  value_to_pk_str (float f) = pf.float_text f
  value_to_pk_str (text s) = s
  value_to_pk_str null = []
  value_to_pk_str (bytes b) = []

  -- The rows from the `i`-th on, put into the index in order.
  unfoldable pub index_rows : ℕ → ℕ → List (Row F) → List (Str × ℕ) → List (Str × ℕ)
  index_rows pk i [] m = m
  index_rows pk i (r ∷ rs) m = index_rows pk (suc i) rs (insert (row_pk_key r pk) i m)

  -- `pk_index.clear()`, and every row put in again.
  unfoldable pub rebuild_index : ℕ → List (Row F) → List (Str × ℕ)
  rebuild_index pk rs = index_rows pk 0 rs []

-- The stores of a new table.
unfoldable pub empty_int_stores : List Column → List (Option (List ℤ))
empty_int_stores cs = map (λ c. if is_int_column c then some [] else none) cs

unfoldable pub empty_str_stores : List Column → List (Option (List Str))
empty_str_stores cs = map (λ c. if is_str_column c then some [] else none) cs

-- A column definition of CREATE TABLE: its name, its type and whether it is the primary key.
pub record ColumnDef : Type 0 where
  pub name : Str
  pub data_type : DataType
  pub is_primary : Bool

unfoldable pub column_of : ColumnDef → Column
unfolding sql_type_to_col_type
column_of c = record {
  name = c.name;
  col_type = sql_type_to_col_type c.data_type;
  nullable = elim c.is_primary [ true ↦ false | false ↦ true ];
  primary_key = c.is_primary;
}

-- The table that CREATE TABLE puts into the database.
unfoldable pub new_table : {F : Type 0} → Str → Str → List ColumnDef → Table F
unfolding column_of
new_table schema name defs =
    let columns = map column_of defs in
    record {
      name = name;
      schema = schema;
      columns = columns;
      rows = [];
      pk_col_idx = position (λ c. c.primary_key) columns;
      pk_index = [];
      col_int_data = empty_int_stores columns;
      col_str_data = empty_str_stores columns;
      next_auto = pos 1;
    }
