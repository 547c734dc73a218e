-- ===== src/Engine/Prepared/Refused.antt =====
-- What a prepared statement may do, and what it leaves.
use run_alex_db.Common.{ℕ, ◌≡◌, ◌≢◌, refl, ◌∙◌, Option, none, some, List, [], ◌∷◌, map, All}
use run_alex_db.Common.Dict.{Str, str, lookup}
use run_alex_db.Common.Process.{Result, done}
use run_alex_db.Engine.Value.{Platform, Value, QueryResult, ok, err}
use run_alex_db.Engine.Expr.{Expr}
use run_alex_db.Engine.Table.{Column, Row, Table}
use run_alex_db.Engine.Compare.{Chars}
use run_alex_db.Engine.Store.{Engine, DbUser, Tables, at_table, in_engine, in_database}
use run_alex_db.Engine.Users.Privileges.{access_denied}
use run_alex_db.Engine.Users.Privileges.Reach.{Reached}
use run_alex_db.Engine.Users.Privileges.Shut.{users_shut_out}
use run_alex_db.Engine.Prepared.{
  no_source, other_source, values_of, Statement, query, insert, update, delete, other, kind_of,
  insert_prepared, update_prepared, delete_prepared, exec_stmt_prepared, run_prepared_stmts,
  unless_refused, execute_prepared_parsed, execute_prepared,
}

module _ {F : Type 0} where
  in_database-write_gen :
      (db t missing : Str) (f : Table F → Table F × QueryResult F) (tables : Tables F)
      (o : Option (Table F)) (e : Engine F)
      → (in_database db t missing f tables o e).0.write_gen ≡ e.write_gen
  unfolding in_database
  in_database-write_gen db t missing f tables none e = refl
  in_database-write_gen db t missing f tables (some table) e = refl

  in_engine-write_gen :
      (db t unknown missing : Str) (f : Table F → Table F × QueryResult F) (o : Option (Tables F))
      (e : Engine F)
      → (in_engine db t unknown missing f o e).0.write_gen ≡ e.write_gen
  unfolding in_engine
  in_engine-write_gen db t unknown missing f none e = refl
  in_engine-write_gen db t unknown missing f (some tables) e =
      in_database-write_gen db t missing f tables (lookup t tables) e

  at_table-write_gen :
      (db t unknown missing : Str) (f : Table F → Table F × QueryResult F) (e : Engine F)
      → (at_table db t unknown missing f e).0.write_gen ≡ e.write_gen
  unfolding at_table
  at_table-write_gen db t unknown missing f e =
      in_engine-write_gen db t unknown missing f (lookup db e.databases) e

-- SELECT, INSERT, UPDATE and DELETE.
abbrev pub IsHandled : {S : Type 0} → Statement S → Type 0
IsHandled (query q) = Unit {0}
IsHandled (insert t src) = Unit {0}
IsHandled (update t assignments selection) = Unit {0}
IsHandled (delete t selection) = Unit {0}
IsHandled (other kind s) = ⊥

module _ (pf : Platform) (cs : Chars) (show : Expr → Str) where
  open pf use {F}

  module _ (eval : Row F → List Column → Expr → Value F) {S : Type 0}
      (exec_other : S → Option Str → Engine F → Engine F × QueryResult F) where
    stmt-write_gen :
        (s : Statement S) (bound : List (Value F)) (current_db : Option Str) (e : Engine F)
        → IsHandled s
        → (exec_stmt_prepared pf cs show eval exec_other s bound current_db e).0.write_gen
          ≡ e.write_gen
    unfolding exec_stmt_prepared insert_prepared update_prepared delete_prepared
    stmt-write_gen (query q) bound current_db e h = refl
    stmt-write_gen (insert t no_source) bound current_db e h = refl
    stmt-write_gen (insert t other_source) bound current_db e h = refl
    stmt-write_gen (insert t (values_of ess)) bound current_db e h = at_table-write_gen _ _ _ _ _ e
    stmt-write_gen (update t assignments selection) bound current_db e h =
        at_table-write_gen _ _ _ _ _ e
    stmt-write_gen (delete t selection) bound current_db e h = at_table-write_gen _ _ _ _ _ e
    stmt-write_gen (other kind s) bound current_db e h = absurd h

    stmts-write_gen :
        (ss : List (Statement S)) (bound : List (Value F)) (current_db : Option Str)
        (p : Engine F × QueryResult F)
        → All IsHandled ss
        → (run_prepared_stmts pf cs show eval exec_other ss bound current_db p).0.write_gen
          ≡ p.0.write_gen
    unfolding run_prepared_stmts
    stmts-write_gen [] bound current_db (e, last) h = refl
    stmts-write_gen (s ∷ ss) bound current_db (e, last) (hs, hss) =
        stmts-write_gen ss bound current_db
          (exec_stmt_prepared pf cs show eval exec_other s bound current_db e) hss
        ∙ stmt-write_gen s bound current_db e hs

    unless_refused-write_gen :
        (o : Option (ℕ × Str)) (e : Engine F) (p : Engine F × QueryResult F)
        → p.0.write_gen ≡ e.write_gen
        → (unless_refused pf cs show eval exec_other o e p).0.write_gen ≡ e.write_gen
    unfolding unless_refused
    unless_refused-write_gen none e p h = h
    unless_refused-write_gen (some (code, message)) e p h = refl

    -- Prepared SELECT, INSERT, UPDATE and DELETE statements, whatever they change and whatever they answer, leave the
    -- write generation as it was, by which the other connections would see that their results are stale.
    pub execute_prepared-write_gen :
        (parse : Str → Result (List (Statement S))) (sql : Str) (stmts : List (Statement S))
        (params : List (Option Str)) (current_db : Option Str) (user_name : Str) (e : Engine F)
        → parse sql ≡ done stmts
        → All IsHandled stmts
        → (execute_prepared pf cs show eval exec_other parse sql params current_db user_name
            e).0.write_gen
          ≡ e.write_gen
    unfolding execute_prepared execute_prepared_parsed
    execute_prepared-write_gen parse sql stmts params current_db user_name e parsed h =
        rw parsed
          (unless_refused-write_gen _ e _ (stmts-write_gen stmts _ current_db (e, ok 0 0) h))

    -- In every engine that any sequence of CREATE USER, DROP USER, GRANT and REVOKE has led to, a prepared
    -- statement of an account other than root's, with a current database, does nothing: the engine stays as it
    -- was and the answer is error 1044.
    pub execute_prepared_shut_out :
        (sha1 : List ℕ → List ℕ) (parse : Str → Result (List (Statement S))) (sql : Str)
        (stmts : List (Statement S)) (params : List (Option Str)) (db user_name : Str)
        (user : DbUser) (e : Engine F)
        → parse sql ≡ done stmts
        → Reached sha1 e
        → user_name ≢ str "root"
        → lookup user_name e.users ≡ some user
        → execute_prepared pf cs show eval exec_other parse sql params (some db) user_name e
          ≡ (e, err (access_denied user_name db).0 (access_denied user_name db).1)
    unfolding execute_prepared execute_prepared_parsed unless_refused
    execute_prepared_shut_out sha1 parse sql stmts params db user_name user e parsed reached ne
          found =
        let refused =
          (users_shut_out sha1 e user_name db (map kind_of stmts) user reached ne found).0 in
        rw parsed (rw refused refl)
