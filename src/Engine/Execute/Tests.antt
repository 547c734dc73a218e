-- ===== src/Engine/Execute/Tests.antt =====
-- The laws of `execute` at a concrete engine.
use run_alex_db.Common.{ℕ, ◌≡◌, refl, none, some, List, [], ◌∷◌, Option, map, false, if◌then◌else◌}
use run_alex_db.Common.Dict.{Str, str, str_eq, lookup}
use run_alex_db.Common.Text.{trim_matches, trim_start_matches, split_at_first}
use run_alex_db.Common.Ascii.{
  trim, trim_start, trim_end, to_upper, starts_with, find, slice, before_char,
}
use run_alex_db.Common.Process.{Result, done}
use run_alex_db.Engine.Value.{QueryResult, ok, err}
use run_alex_db.Engine.Store.{Engine}
use run_alex_db.Engine.Users.{unquoted}
use run_alex_db.Engine.Users.Tests.{
  with_bob, root_user, bob_user, bob_there, bob_within, same_bytes,
}
use run_alex_db.Engine.Users.Grants.{revoke_from, granted_db}
use run_alex_db.Engine.Users.Privileges.{
  StatementKind, delete_stmt, needs_write, access_denied, write_denied, user_can_access_db,
}
use run_alex_db.Engine.Statements.{Statement, other_statement, run_stmts}
use run_alex_db.Engine.Execute.{
  execute, by_text, literal_statement, user_statement, show_statement, id_statement,
  ignored_statement, trim_semicolons,
}
use run_alex_db.Engine.Execute.Refused.{execute_shut_out}
use run_alex_db.Engine.Execute.Revoke.{RevokesAll, execute_revoke}

abbrev nothing_else : ℕ → Option Str → Engine ℕ → Engine ℕ × QueryResult ℕ
nothing_else s current_db e = (e, ok 0 0)

-- The parser finds this one statement in every text.
abbrev deletes : List (Statement ℕ)
deletes = other_statement 0 ∷ []

abbrev parse : Str → Result (List (Statement ℕ))
parse sql = done deletes

abbrev kind_of : Statement ℕ → StatementKind
kind_of s = delete_stmt

abbrev no_schema : Str → Str → Option Str → Engine ℕ → Option (QueryResult ℕ)
no_schema upper sql current_db e = none

root_there : lookup (str "root") with_bob.users ≡ some root_user
unfolding lookup str_eq
root_there = refl

abbrev revoke_root_sql : Str
revoke_root_sql = str "REVOKE ALL ON *.* FROM root"

abbrev delete_sql : Str
delete_sql = str "DELETE FROM t"

revoke_root : RevokesAll revoke_root_sql (str "root")
unfolding trim trim_end trim_start to_upper starts_with find slice granted_db unquoted trim_matches
    before_char split_at_first trim_start_matches str_eq
revoke_root = record {
  revoke = refl;
  from_pos = 17;
  from_found = refl;
  privs_on = str "ALL ON *.*";
  privs_found = refl;
  all_databases = refl;
  name_found = refl;
}

-- DELETE is none of the statements that are known by their text.
not_known :
    (current_db : Option Str) (e : Engine ℕ)
    → by_text same_bytes no_schema delete_sql current_db e ≡ none
unfolding by_text literal_statement user_statement show_statement id_statement ignored_statement
    trim_semicolons trim trim_end trim_start to_upper starts_with str_eq trim_start_matches
not_known current_db e = refl

execute_revoke_example :
    (execute nothing_else same_bytes parse kind_of no_schema revoke_root_sql none
        (str "bob")
        with_bob
      ≡ some ((revoke_from (str "root") none with_bob).0, ok 0 0))
    × (execute nothing_else same_bytes parse kind_of no_schema delete_sql
          (some (str "app"))
          (str "root")
          (revoke_from (str "root") none with_bob).0
        ≡ some (
          (revoke_from (str "root") none with_bob).0,
          err (access_denied (str "root") (str "app")).0 (access_denied (str "root") (str "app")).1,
        ))
execute_revoke_example =
    execute_revoke nothing_else same_bytes parse kind_of no_schema revoke_root_sql delete_sql
      (str "root") (str "bob") (str "app") none deletes root_user with_bob revoke_root root_there
      refl (not_known _ _)

execute_shut_out_example :
    (execute nothing_else same_bytes parse kind_of no_schema delete_sql
        (some (str "shop"))
        (str "bob")
        with_bob
      ≡ some (
        with_bob,
        err (access_denied (str "bob") (str "shop")).0 (access_denied (str "bob") (str "shop")).1,
      ))
    × (execute nothing_else same_bytes parse kind_of no_schema delete_sql none (str "bob") with_bob
        ≡ some (
            if needs_write (map kind_of deletes)
            then (with_bob, err write_denied.0 write_denied.1)
            else run_stmts nothing_else deletes none (with_bob, ok 0 0)))
    × (user_can_access_db (str "bob") (str "shop") with_bob ≡ false)
execute_shut_out_example =
    execute_shut_out nothing_else same_bytes parse kind_of no_schema delete_sql (str "bob")
      (str "shop") deletes bob_user with_bob bob_within (λ same. cc) bob_there refl (not_known _ _)
      (not_known _ _)
