-- ===== src/Engine/Execute/Refused.antt =====
-- Which texts the privilege check of `execute` keeps away from the tables.
use run_alex_db.Common.{
  ℕ, ◌≡◌, ◌≢◌, refl, ap, ◌∙◌, Option, none, some, List, map, if◌then◌else◌, true, false, Bool,
}
use run_alex_db.Common.Dict.{Str, str, lookup}
use run_alex_db.Common.Process.{Result, done}
use run_alex_db.Engine.Value.{QueryResult, ok, err}
use run_alex_db.Engine.Store.{Engine, DbUser}
use run_alex_db.Engine.Users.Privileges.{
  StatementKind, refuse, needs_write, access_denied, write_denied, user_can_access_db,
}
use run_alex_db.Engine.Users.Privileges.Reach.{Reached}
use run_alex_db.Engine.Users.Privileges.Shut.{users_shut_out}
use run_alex_db.Engine.Statements.{Statement, execute_parsed, run_stmts}
use run_alex_db.Engine.Execute.{execute, by_text}

module _ {F S : Type 0} (exec_other : S → Option Str → Engine F → Engine F × QueryResult F)
    (sha1 : List ℕ → List ℕ) (parse : Str → Result (List (Statement S)))
    (kind_of : Statement S → StatementKind)
    (schema_query : Str → Str → Option Str → Engine F → Option (QueryResult F)) where
  -- What the check makes of a text that is not known by itself and that the parser takes.
  abbrev pub checked :
      List (Statement S) → Option Str → Engine F → Option (ℕ × Str) → Engine F × QueryResult F
  checked stmts current_db e none = run_stmts exec_other stmts current_db (e, ok 0 0)
  checked stmts current_db e (some (code, message)) = (e, err code message)

  pub execute-checked :
      (sql : Str) (stmts : List (Statement S)) (current_db : Option Str) (name : Str) (e : Engine F)
      (o : Option (ℕ × Str))
      → by_text sha1 schema_query sql current_db e ≡ none
      → parse sql ≡ done stmts
      → refuse name (map kind_of stmts) current_db e ≡ o
      → execute exec_other sha1 parse kind_of schema_query sql current_db name e
        ≡ some (checked stmts current_db e o)
  unfolding execute execute_parsed
  execute-checked sql stmts current_db name e none passed parsed h =
      rw (passed, parsed, execute_parsed, h) refl
  execute-checked sql stmts current_db name e (some (code, message)) passed parsed h =
      rw (passed, parsed, execute_parsed, h) refl

  checked_write :
      (writes : Bool) (stmts : List (Statement S)) (current_db : Option Str) (e : Engine F)
      → checked stmts current_db e (if writes then some write_denied else none) ≡ (
          if writes
          then (e, err write_denied.0 write_denied.1)
          else run_stmts exec_other stmts current_db (e, ok 0 0))
  checked_write true stmts current_db e = refl
  checked_write false stmts current_db e = refl

  -- In every engine that any sequence of CREATE USER, DROP USER, GRANT and REVOKE has led to, take a text that
  -- the parser takes and that `execute` does not know by itself, with a current database or without one, as it
  -- knows the statements on accounts, SHOW and SET. From an account other than root's it is refused with error 1044 if there is a current database.
  -- Without one it is refused with error 1142 if one of its statements is on the list of those that write, and
  -- run otherwise. A refused text leaves the engine as it was. `user_can_access_db` says no for every database.
  pub execute_shut_out :
      (sql name db : Str) (stmts : List (Statement S)) (user : DbUser) (e : Engine F)
      → Reached sha1 e
      → name ≢ str "root"
      → lookup name e.users ≡ some user
      → parse sql ≡ done stmts
      → by_text sha1 schema_query sql (some db) e ≡ none
      → by_text sha1 schema_query sql none e ≡ none
      → (execute exec_other sha1 parse kind_of schema_query sql (some db) name e
          ≡ some (e, err (access_denied name db).0 (access_denied name db).1))
        × (execute exec_other sha1 parse kind_of schema_query sql none name e
            ≡ some (
                if needs_write (map kind_of stmts)
                then (e, err write_denied.0 write_denied.1)
                else run_stmts exec_other stmts none (e, ok 0 0)))
        × (user_can_access_db name db e ≡ false)
  execute_shut_out sql name db stmts user e reached ne found parsed with_db without =
      let (denied, write, closed) =
        users_shut_out sha1 e name db (map kind_of stmts) user reached ne found in
      (
        execute-checked sql stmts (some db) name e _ with_db parsed denied,
        execute-checked sql stmts none name e _ without parsed write
            ∙ ap some (checked_write (needs_write (map kind_of stmts)) stmts none e),
        closed,
      )
