-- ===== src/Engine/Users/Privileges.antt =====
-- src/engine.rs: who may log in, and which statements an account may run.
pub mod Reach
pub mod Shut
use run_alex_db.Common.{
  ℕ, Option, none, some, List, [], ◌∷◌, ◌++◌, Bool, true, false, ◌||◌, ◌&&◌, not,
}
use run_alex_db.Common.{if◌then◌else◌}
use run_alex_db.Common.Dict.{Str, str, str_eq, lookup}
use run_alex_db.Auth.{double_sha1}
use run_alex_db.Engine.Value.{QueryResult, ok, err, rows}
use run_alex_db.Engine.Store.{DbUser, Engine}
use run_alex_db.Engine.Users.Grants.{has_name}

-- The kinds of `sqlparser::ast::Statement` that the check tells apart.
pub data StatementKind : Type 0 where
  insert_stmt : StatementKind
  update_stmt : StatementKind
  delete_stmt : StatementKind
  create_table_stmt : StatementKind
  create_database_stmt : StatementKind
  drop_stmt : StatementKind
  other_stmt : StatementKind

unfoldable pub is_write : StatementKind → Bool
is_write other_stmt = false
is_write insert_stmt = true
is_write update_stmt = true
is_write delete_stmt = true
is_write create_table_stmt = true
is_write create_database_stmt = true
is_write drop_stmt = true

-- `stmts.iter().any(…)`.
unfoldable pub needs_write : List StatementKind → Bool
unfolding is_write
needs_write [] = false
needs_write (s ∷ ss) = is_write s || needs_write ss

-- Whether the set of an account leaves the current database out.
unfoldable pub shut_out : Option (List Str) → Option Str → Option Str
shut_out none current_db = none
shut_out (some allowed) none = none
shut_out (some allowed) (some db) = if has_name db allowed then none else some db

abbrev pub access_denied : Str → Str → ℕ × Str
access_denied user_name db = (
  1044,
  str "Access denied for user '" ++ (user_name ++ (str "' to database '" ++ (db ++ str "'"))),
)

abbrev pub write_denied : ℕ × Str
write_denied = (1142, str "Command denied to user (no write privilege)")

-- The database that is denied comes first, then the writing.
unfoldable pub verdict : Str → Option Str → Bool → Option (ℕ × Str)
verdict user_name (some db) writes = some (access_denied user_name db)
verdict user_name none writes = if writes then some write_denied else none

unfoldable pub refuse_user :
    Str → List StatementKind → Option Str → Option DbUser → Option (ℕ × Str)
unfolding verdict
refuse_user user_name stmts current_db none = none
refuse_user user_name stmts current_db (some user) =
    verdict user_name (shut_out user.allowed_dbs current_db)
      (not user.can_write && needs_write stmts)

unfoldable pub access_to : Str → Option DbUser → Bool
access_to db none = false
access_to db (some u) =
    u.is_root || (elim u.allowed_dbs [ none ↦ true | some set ↦ has_name db set ])

module _ {F : Type 0} where
  -- The privilege check of `execute` and `execute_prepared`: the error that ends them, if any. A name that is
  -- not in the table is let through.
  unfoldable pub refuse : Str → List StatementKind → Option Str → Engine F → Option (ℕ × Str)
  unfolding refuse_user
  refuse user_name stmts current_db e =
      refuse_user user_name stmts current_db (lookup user_name e.users)

  unfoldable pub lookup_user : Str → Engine F → Option (List ℕ × Bool)
  lookup_user username e = elim (lookup username e.users) [
    | none ↦ none
    | some u ↦ some (u.password_sha1_sha1, u.is_root)
  ]

  unfoldable pub verify_webui_password : (List ℕ → List ℕ) → Str → Str → Engine F → Bool
  verify_webui_password sha1 username password e = elim (lookup username e.users) [
    | none ↦ false
    | some u ↦ str_eq u.password_sha1_sha1 (double_sha1 sha1 password)
  ]

  unfoldable pub user_can_access_db : Str → Str → Engine F → Bool
  unfolding access_to
  user_can_access_db username db e = access_to db (lookup username e.users)
