-- ===== src/Engine/Execute.antt =====
-- src/engine.rs: `execute` from the text on, for ASCII texts; `none` is a panic. The statements that it knows by
-- their text come first, whoever sends them, and then the parsed ones. What the statements
-- on INFORMATION_SCHEMA and the further SHOW statements answer is an argument.
pub mod Sysvar
pub mod Refused
pub mod Revoke
mod Tests
use run_alex_db.Common.{
  ℕ, Option, none, some, List, [], ◌∷◌, ◌++◌, map, Bool, true, false, ◌||◌, ◌&&◌, not,
}
use run_alex_db.Common.{if◌then◌else◌, keep}
use mathlib.Core.List.{reverse}
use run_alex_db.Common.Dict.{Str, str, str_eq, lookup}
use run_alex_db.Common.Decimal.{show_ℕ}
use run_alex_db.Common.Text.{trim_start_matches}
use run_alex_db.Common.Ascii.{trim, to_upper, starts_with, contains_text}
use run_alex_db.Common.Process.{Result}
use run_alex_db.Engine.Value.{QueryResult, ok, err, rows}
use run_alex_db.Engine.Store.{Engine}
use run_alex_db.Engine.Users.{exec_create_user, exec_drop_user}
use run_alex_db.Engine.Users.Grants.{exec_grant, exec_revoke, exec_show_grants}
use run_alex_db.Engine.Users.Privileges.{StatementKind}
use run_alex_db.Engine.Execute.Sysvar.{exec_select_sysvar}
use run_alex_db.Engine.Statements.{Statement, execute_parsed, or_test}

abbrev one_cell : Str → Option Str → List (List (Option Str))
one_cell name v = (v ∷ []) ∷ []

-- `s.trim_end_matches(';')`.
unfoldable pub trim_semicolons : Str → Str
trim_semicolons s = reverse (trim_start_matches b';' (reverse s))

abbrev not_empty : Option Str → Option Str
not_empty none = none
not_empty (some []) = none
not_empty (some (c ∷ cs)) = some (c ∷ cs)

abbrev asks_database : Str → Bool
asks_database upper =
    let s = trim_semicolons upper in
    str_eq s (str "SELECT DATABASE()")
    || (str_eq s (str "SELECT SCHEMA()") || str_eq s (str "SELECT DATABASE() AS DATABASE()"))

abbrev shown : Str → Bool
shown n =
    not (starts_with n (str "information_schema"))
    && (not (starts_with n (str "performance_schema"))
        && (not (str_eq n (str "mysql")) && not (str_eq n (str "sys"))))

abbrev or_else {ℓ} : {A : Type ℓ} → Option A → Option A → Option A
or_else none later = later
or_else (some x) later = some x

abbrev settled : {A : Type 0} → Option (Option A) → A → Option A
settled none later = some later
settled (some x) later = x

module _ {F : Type 0} where
  -- SELECT 1, SELECT VERSION and SELECT DATABASE(); `upper` is the trimmed text in upper case.
  unfoldable pub literal_statement : Str → Option Str → Option (QueryResult F)
  unfolding trim_semicolons
  literal_statement upper current_db =
      if str_eq upper (str "SELECT 1") || str_eq upper (str "SELECT 1;")
      then some (rows (str "1" ∷ []) ((some (str "1") ∷ []) ∷ []))
      else if starts_with upper (str "SELECT VERSION")
      then some (rows (str "VERSION()" ∷ []) ((some (str "8.0.32-RunAlexDB") ∷ []) ∷ []))
      else if asks_database upper
      then some (
          rows
            ((if contains_text (str "SCHEMA") upper then str "SCHEMA()" else str "DATABASE()") ∷ [])
            ((not_empty current_db ∷ []) ∷ []))
      else none

  -- The statements on accounts; they do not look at who sends them.
  unfoldable pub user_statement :
      (List ℕ → List ℕ) → Str → Str → Engine F → Option (Option (Engine F × QueryResult F))
  user_statement sha1 upper sql e =
      if starts_with upper (str "CREATE USER")
      then some (exec_create_user sha1 sql e)
      else if starts_with upper (str "DROP USER")
      then some (exec_drop_user sql e)
      else if starts_with upper (str "GRANT ")
      then some (exec_grant sha1 sql e)
      else if starts_with upper (str "REVOKE ")
      then some (exec_revoke sql e)
      else if starts_with upper (str "SHOW GRANTS")
      then some (some (e, exec_show_grants sql e))
      else none

  unfoldable pub show_statement : Str → Option Str → Engine F → Option (QueryResult F)
  show_statement upper current_db e =
      if starts_with upper (str "SHOW USERS") || str_eq upper (str "SELECT USER FROM MYSQL.USER")
      then some (rows (str "User" ∷ []) (map (λ p. some p.0 ∷ []) e.users))
      else if starts_with upper (str "SHOW DATABASES")
      then some (
          rows (str "Database" ∷ [])
            (map (λ n. some n ∷ []) (keep shown (map (λ p. p.0) e.databases))))
      else if starts_with upper (str "SHOW TABLES")
      then some (elim (lookup (or_test current_db) e.databases) [
        | none ↦ ok 0 0
        | some tables ↦ rows (str "Tables" ∷ []) (map (λ p. some p.0 ∷ []) tables)
      ])
      else none

  unfoldable pub id_statement : Str → Engine F → Option (QueryResult F)
  id_statement upper e =
      if starts_with upper (str "SELECT LAST_INSERT_ID()")
      then some (rows (str "LAST_INSERT_ID()" ∷ []) ((some (show_ℕ e.last_insert_id) ∷ []) ∷ []))
      else none

  -- What is answered and not done.
  unfoldable pub ignored_statement : Str → Option (QueryResult F)
  ignored_statement upper =
      if starts_with upper (str "SET ")
        || (str_eq upper (str "BEGIN")
            || (str_eq upper (str "COMMIT")
                || (str_eq upper (str "ROLLBACK")
                    || (str_eq upper (str "ROLLBACK;") || str_eq upper (str "COMMIT;")))))
      then some (ok 0 0)
      else none

  abbrev answered : Engine F → Option (QueryResult F) → Option (Option (Engine F × QueryResult F))
  answered e none = none
  answered e (some r) = some (some (e, r))

  abbrev sysvar_statement : Str → Str → Option (QueryResult F)
  sysvar_statement upper sql =
      if starts_with upper (str "SELECT @@") then some (exec_select_sysvar sql) else none

  -- The statements that `execute` knows by their text, in the order in which it looks for them. The user is
  -- not asked for.
  unfoldable pub by_text :
      (List ℕ → List ℕ)
      → (Str → Str → Option Str → Engine F → Option (QueryResult F))
      → Str
      → Option Str
      → Engine F
      → Option (Option (Engine F × QueryResult F))
  by_text sha1 schema_query sql current_db e =
      let upper = to_upper (trim sql) in
      or_else (answered e (literal_statement upper current_db)) (
        or_else (user_statement sha1 upper (trim sql) e) (
          or_else (answered e (show_statement upper current_db e)) (
            or_else (answered e (sysvar_statement upper (trim sql))) (
              or_else (answered e (id_statement upper e)) (
                or_else (answered e (ignored_statement upper))
                  (answered e (schema_query upper sql current_db e)))))))

module _ {F S : Type 0} (exec_other : S → Option Str → Engine F → Engine F × QueryResult F)
    (sha1 : List ℕ → List ℕ) (parse : Str → Result (List (Statement S)))
    (kind_of : Statement S → StatementKind)
    (schema_query : Str → Str → Option Str → Engine F → Option (QueryResult F)) where
  -- The parser and the privilege check are only reached by the other texts.
  unfoldable pub execute : Str → Option Str → Str → Engine F → Option (Engine F × QueryResult F)
  execute sql current_db user_name e =
      settled (by_text sha1 schema_query sql current_db e)
        (execute_parsed exec_other kind_of (parse sql) current_db user_name e)
