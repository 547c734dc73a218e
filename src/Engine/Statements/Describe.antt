-- ===== src/Engine/Statements/Describe.antt =====
-- src/engine.rs: what DESCRIBE, SHOW COLUMNS and SHOW CREATE TABLE say of a column.
use run_alex_db.Common.{Option, none, some, List, [], ◌∷◌, ◌++◌, map, if◌then◌else◌}
use run_alex_db.Common.Dict.{Str, str}
use run_alex_db.Common.Decimal.{show_ℕ}
use run_alex_db.Engine.Table.{
  Column, ColumnType, int_type, big_int_type, float_type, var_char_type, text_type, blob_type,
  timestamp_type, is_str_column,
}

unfoldable pub type_name : ColumnType → Str
type_name int_type = str "int"
type_name big_int_type = str "bigint"
type_name float_type = str "double"
type_name (var_char_type n) = str "varchar(" ++ (show_ℕ n ++ str ")")
type_name text_type = str "text"
type_name blob_type = str "blob"
type_name timestamp_type = str "timestamp"

-- One row of DESCRIBE, and of SHOW FULL COLUMNS.
unfoldable pub describe_column : Column → List (Option Str)
unfolding type_name
describe_column c =
    some c.name
    ∷ some (type_name c.col_type)
    ∷ some (if c.nullable then str "YES" else str "NO")
    ∷ some (if c.primary_key then str "PRI" else [])
    ∷ none
    ∷ some (if c.primary_key then str "auto_increment" else [])
    ∷ []

unfoldable pub full_column : Column → List (Option Str)
unfolding type_name
full_column c =
    some c.name
    ∷ some (type_name c.col_type)
    ∷ (if is_str_column c then some (str "utf8mb4_general_ci") else none)
    ∷ some (if c.nullable then str "YES" else str "NO")
    ∷ some (if c.primary_key then str "PRI" else [])
    ∷ none
    ∷ some (if c.primary_key then str "auto_increment" else [])
    ∷ some (str "select,insert,update,references")
    ∷ some []
    ∷ []

abbrev pub describe_names : List Str
describe_names =
    str "Field" ∷ str "Type" ∷ str "Null" ∷ str "Key" ∷ str "Default" ∷ str "Extra" ∷ []

abbrev pub full_names : List Str
full_names =
    str "Field"
    ∷ str "Type"
    ∷ str "Collation"
    ∷ str "Null"
    ∷ str "Key"
    ∷ str "Default"
    ∷ str "Extra"
    ∷ str "Privileges"
    ∷ str "Comment"
    ∷ []

-- The lines of SHOW CREATE TABLE, joined by a comma and a line feed.
unfoldable pub column_line : Column → Str
unfolding type_name
column_line c =
    str "  `"
    ++ (c.name
        ++ (str "` "
            ++ (type_name c.col_type
                ++ ((if c.nullable then [] else str " NOT NULL")
                    ++ (if c.primary_key then str " PRIMARY KEY" else [])))))

unfoldable pub join_lines : List Str → Str
join_lines [] = []
join_lines (l ∷ []) = l
join_lines (l ∷ k ∷ ls) = l ++ (44 ∷ 10 ∷ join_lines (k ∷ ls))

unfoldable pub create_text : Str → List Column → Str
unfolding column_line join_lines
create_text name columns =
    str "CREATE TABLE `"
    ++ (name
        ++ (str "` ("
            ++ (10 ∷ (join_lines (map column_line columns) ++ (10 ∷ str ") ENGINE=RunAlexDB")))))
