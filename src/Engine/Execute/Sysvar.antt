-- ===== src/Engine/Execute/Sysvar.antt =====
-- src/engine.rs, `exec_select_sysvar`: SELECT @@name, for ASCII texts.
use run_alex_db.Common.{
  ℕ, zero, suc, ◌+◌, Option, none, some, List, [], ◌∷◌, map, if◌then◌else◌, drop, take, length,
}
use run_alex_db.Common.Dict.{Str, str, lookup}
use run_alex_db.Common.Text.{trim_matches, trim_start_matches, to_ascii_lower}
use run_alex_db.Common.Ascii.{trim, to_upper, starts_with, find, split}
use run_alex_db.Engine.Value.{QueryResult, rows}

abbrev sysvars : List (Str × Str)
sysvars =
    (str "max_allowed_packet", str "67108864")
    ∷ (str "character_set_client", str "utf8mb4")
    ∷ (str "character_set_connection", str "utf8mb4")
    ∷ (str "character_set_results", str "utf8mb4")
    ∷ (str "character_set_server", str "utf8mb4")
    ∷ (str "collation_connection", str "utf8mb4_general_ci")
    ∷ (str "collation_server", str "utf8mb4_general_ci")
    ∷ (str "time_zone", str "UTC")
    ∷ (str "sql_mode", str "STRICT_TRANS_TABLES")
    ∷ (str "auto_increment_increment", str "1")
    ∷ (str "transaction_isolation", str "REPEATABLE-READ")
    ∷ (str "tx_isolation", str "REPEATABLE-READ")
    ∷ (str "lower_case_table_names", str "0")
    ∷ (str "version", str "8.0.32-RunAlexDB")
    ∷ (str "version_comment", str "RunAlexDB")
    ∷ (str "wait_timeout", str "28800")
    ∷ (str "interactive_timeout", str "28800")
    ∷ (str "net_write_timeout", str "60")
    ∷ (str "net_read_timeout", str "30")
    ∷ (str "init_connect", [])
    ∷ []

-- `s.trim_start_matches(p)` for a text `p` that is not empty; each round takes one byte at least.
unfoldable pub trim_prefixes : ℕ → Str → Str → Str
trim_prefixes zero p s = s
trim_prefixes (suc fuel) p s =
    let rest = trim_prefixes fuel p (drop (length p) s) in if starts_with s p then rest else s

abbrev trim_text : Str → Str → Str
trim_text p s = trim_prefixes (length s) p s

unfoldable pub sysvar_value : Str → Option Str
unfolding trim_prefixes
sysvar_value name =
    lookup
      (trim_text (str "global.")
        (trim_text (str "session.") (trim_start_matches b'@' (map to_ascii_lower name))))
      sysvars

-- The variable and the name of its column.
unfoldable pub sysvar_part : Str → Str × Str
sysvar_part part = elim (find (str " AS ") (to_upper part)) [
  | none ↦ (part, trim_matches b'`' part)
  | some idx ↦
      (trim (take idx part), trim_matches b'\'' (trim_matches b'`' (trim (drop (idx + 4) part))))
]

unfoldable pub sysvar_cell : Str → Option Str
unfolding sysvar_value
sysvar_cell var_part =
    some (elim (sysvar_value (trim var_part)) [ none ↦ trim var_part | some v ↦ v ])

unfoldable pub exec_select_sysvar : {F : Type 0} → Str → QueryResult F
unfolding sysvar_part sysvar_cell
exec_select_sysvar sql =
    let after_select : Str = elim (find (str "SELECT ") (to_upper sql)) [
      | none ↦ sql
      | some pos ↦ drop (pos + 7) sql
    ] in
    let parts = map (λ part. sysvar_part (trim part)) (split b',' after_select) in
    rows (map (λ p. p.1) parts) (map (λ p. sysvar_cell p.0) parts ∷ [])
