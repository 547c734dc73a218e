-- ===== src/Engine/Dump.antt =====
-- src/engine.rs: the SQL dump and its restoration. The time stands for the clock, `execute` for the engine's
-- own, as root; `none` is a panic of it. Texts are ASCII.
pub mod Empty
mod Tests
use run_alex_db.Common.{
  ℕ, ◌+◌, Option, none, some, List, [], ◌∷◌, ◌++◌, map, Bool, true, false, ◌||◌, ◌>>=◌,
}
use run_alex_db.Common.{if◌then◌else◌, ◌==◌, drop, last?}
use run_alex_db.Common.Dict.{Str, str, str_eq}
use run_alex_db.Common.Decimal.{show_ℕ, show_ℤ}
use run_alex_db.Common.Text.{trim_matches}
use run_alex_db.Common.Ascii.{trim, to_upper, starts_with, lines}
use run_alex_db.Engine.Value.{Platform, Value, null, int, float, text, bytes}
use run_alex_db.Engine.Table.{
  Column, ColumnType, Row, Table, int_type, big_int_type, float_type, var_char_type, text_type,
  blob_type, timestamp_type,
}
use run_alex_db.Engine.Store.{Engine, Tables}
use run_alex_db.Engine.Execute.{trim_semicolons}

-- `parts.join(sep)`.
unfoldable pub join : Str → List Str → Str
join sep [] = []
join sep (s ∷ []) = s
join sep (s ∷ t ∷ ss) = s ++ (sep ++ join sep (t ∷ ss))

unfoldable pub type_text : ColumnType → Str
type_text int_type = str "INT"
type_text big_int_type = str "BIGINT"
type_text float_type = str "DOUBLE"
type_text (var_char_type n) = str "VARCHAR(" ++ (show_ℕ n ++ str ")")
type_text text_type = str "TEXT"
type_text blob_type = str "BLOB"
type_text timestamp_type = str "TIMESTAMP"

-- A backslash in front of every backslash and every quote.
unfoldable pub escape : Str → Str
escape [] = []
escape (b ∷ bs) =
    let rest = escape bs in if (b == 92) || (b == b'\'') then 92 ∷ b ∷ rest else b ∷ rest

unfoldable pub column_text : Column → Str
unfolding type_text
column_text c =
    str "  `"
    ++ (c.name
        ++ (str "` "
            ++ (type_text c.col_type ++ (if c.primary_key then str " PRIMARY KEY" else []))))

abbrev quoted_name : Str → Str
quoted_name s = str "`" ++ (s ++ str "`")

abbrev blank_line : Str
blank_line = 10 ∷ 10 ∷ []

-- The databases that are left out, `test` among them.
unfoldable pub is_system : Str → Bool
is_system n =
    str_eq n (str "information_schema")
    || (str_eq n (str "performance_schema")
        || (str_eq n (str "mysql") || (str_eq n (str "sys") || str_eq n (str "test"))))

module _ (pf : Platform) where
  open pf use {F, float_text, hex_encode}

  unfoldable pub value_sql : Value F → Str
  unfolding escape
  value_sql null = str "NULL"
  value_sql (int i) = show_ℤ i
  value_sql (float f) = float_text f
  value_sql (text s) = str "'" ++ (escape s ++ str "'")
  value_sql (bytes b) = str "X'" ++ (hex_encode b ++ str "'")

  unfoldable pub row_sql : Row F → Str
  unfolding value_sql join
  row_sql row = str "  (" ++ (join (str ", ") (map value_sql row) ++ str ")")

  unfoldable pub insert_sql : Str → List Column → List (Row F) → Str
  unfolding row_sql
  insert_sql tname columns [] = []
  insert_sql tname columns (r ∷ rs) =
      str "INSERT INTO `"
      ++ (tname
          ++ (str "` ("
              ++ (join (str ", ") (map (λ c. quoted_name c.name) columns)
                  ++ (str ") VALUES"
                      ++ (10
                          ∷ (join (44 ∷ 10 ∷ []) (map row_sql (r ∷ rs)) ++ (b';' ∷ blank_line)))))))

  unfoldable pub table_sql : Str → Table F → Str
  unfolding column_text insert_sql
  table_sql tname t =
      str "CREATE TABLE IF NOT EXISTS `"
      ++ (tname
          ++ (str "` ("
              ++ (10
                  ∷ (join (44 ∷ 10 ∷ []) (map column_text t.columns)
                      ++ (10 ∷ (str ");" ++ (blank_line ++ insert_sql tname t.columns t.rows)))))))

  unfoldable pub tables_sql : Tables F → Str
  unfolding table_sql
  tables_sql [] = []
  tables_sql ((tname, t) ∷ ts) = table_sql tname t ++ tables_sql ts

  unfoldable pub databases_sql : List (Str × Tables F) → Str
  unfolding tables_sql
  databases_sql [] = []
  databases_sql ((name, tables) ∷ dbs) =
      let rest = databases_sql dbs in
      if is_system name
      then rest
      else (str "CREATE DATABASE IF NOT EXISTS `"
          ++ (name
              ++ (str "`;"
                  ++ (10
                      ∷ (str "USE `"
                          ++ (name
                              ++ (str "`;" ++ (blank_line ++ (tables_sql tables ++ rest)))))))))

  unfoldable pub dump_sql : ℕ → Engine F → Str
  unfolding databases_sql
  dump_sql ts e =
      str "-- RunAlexDB SQL dump"
      ++ (10
          ∷ (str "-- Generated: unix_ts="
              ++ (show_ℕ ts ++ (blank_line ++ databases_sql e.databases))))

  abbrev ends_statement : Str → Bool
  ends_statement line = elim (last? line) [ none ↦ false | some b ↦ b == b';' ]

  -- What a whole statement does: USE sets the database, any other is executed; what it answers is dropped.
  unfoldable pub restore_stmt :
      (Str → Option Str → Engine F → Option (Engine F))
      → Str
      → Option Str
      → Engine F
      → Option (Option Str × Engine F)
  restore_stmt execute stmt current_db e =
      if starts_with (to_upper stmt) (str "USE ")
      then some (some (trim_matches b'`' (trim_semicolons (trim (drop 4 stmt)))), e)
      else (do e' ← execute stmt current_db e; some (current_db, e'))

  -- The loop over the lines; `batch` is the statement so far.
  unfoldable pub restore_lines :
      (Str → Option Str → Engine F → Option (Engine F))
      → List Str
      → Str
      → Option Str
      → Engine F
      → Option (Engine F)
  unfolding restore_stmt
  restore_lines execute [] batch current_db e = some e
  restore_lines execute (l ∷ ls) batch current_db e =
      let line = trim l in
      let batch' = batch ++ (line ++ str " ") in
      if starts_with line (str "--") || str_eq line []
      then restore_lines execute ls batch current_db e
      else if ends_statement line
      then (restore_stmt execute (trim batch') current_db e
          >>= (λ p. restore_lines execute ls [] p.0 p.1))
      else restore_lines execute ls batch' current_db e

  unfoldable pub restore_sql :
      (Str → Option Str → Engine F → Option (Engine F)) → Str → Engine F → Option (Engine F)
  unfolding restore_lines
  restore_sql execute sql_dump e = restore_lines execute (lines sql_dump) [] none e
