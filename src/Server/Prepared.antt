-- ===== src/Server/Prepared.antt =====
-- The life of a prepared statement.
use run_alex_db.Common.{
  ℕ, ◌≡◌, ◌≢◌, refl, ◌∙◌, arith, none, some, List, [], ◌∷◌, ◌==◌, ◌^◌, ◌%◌, ◌+◌,
}
use run_alex_db.Common.{length, keep}
use run_alex_db.Common.Dict.{Str}
use run_alex_db.Engine.Value.{Platform}
use run_alex_db.Engine.Store.{Engine}
use run_alex_db.Protocol.Command.{stmt_prepare, stmt_execute, stmt_close}
use run_alex_db.Protocol.Params.{parse_execute_params}
use run_alex_db.Server.{
  PreparedStmt, Session, Backend, next, find_stmt, insert_stmt, remove_stmt, prepare_answer,
  run_command, run_prepare, run_execute, run_bound, unknown_stmt,
}

find_stmt-insert_stmt :
    (id : ℕ) (p : PreparedStmt) (m : List (ℕ × PreparedStmt))
    → find_stmt id (insert_stmt id p m) ≡ some p
unfolding find_stmt insert_stmt
find_stmt-insert_stmt id p m = ground arith

find_stmt-remove_stmt :
    (id : ℕ) (m : List (ℕ × PreparedStmt)) → find_stmt id (remove_stmt id m) ≡ none
unfolding find_stmt remove_stmt
find_stmt-remove_stmt id [] = refl
find_stmt-remove_stmt id ((k, p) ∷ m) = ground (arith, find_stmt-remove_stmt id m)

find_stmt-remove_stmt_other :
    (j id : ℕ) (m : List (ℕ × PreparedStmt))
    → j ≢ id
    → find_stmt j (remove_stmt id m) ≡ find_stmt j m
unfolding find_stmt remove_stmt
find_stmt-remove_stmt_other j id [] h = refl
find_stmt-remove_stmt_other j id ((k, p) ∷ m) h =
    ground (arith, find_stmt-remove_stmt_other j id m h)

find_stmt-insert_stmt_other :
    (j id : ℕ) (p : PreparedStmt) (m : List (ℕ × PreparedStmt))
    → j ≢ id
    → find_stmt j (insert_stmt id p m) ≡ find_stmt j m
unfolding find_stmt insert_stmt
find_stmt-insert_stmt_other j id p m h = ground (arith, find_stmt-remove_stmt_other j id m h)

module _ (pf : Platform) (be : Backend pf.F) where
  open pf use {F}

  abbrev pub params_of : Str → ℕ
  params_of sql = length (keep (λ b. b == b'?') sql) % 2 ^ 16

  -- Preparing a statement answers with a number under which it can be executed from then on, with the
  -- parameters that the payload brings for as many question marks as its text has; once it is closed,
  -- executing it is answered with error 1243 and the engine stays as it is. The statements under other
  -- numbers are kept by both.
  pub prepare-execute-close :
      (sql : Str) (payload : List ℕ) (e : Engine F) (s : Session F)
      → (s' : Session F) × (s'' : Session F) × (run_command pf be (stmt_prepare sql) payload e s
          ≡ next e s' (prepare_answer s.next_stmt_id (params_of sql)))
        × ((run : List ℕ) (e' : Engine F)
            → run_command pf be (stmt_execute s.next_stmt_id) run e' s'
              ≡ run_bound pf be sql (parse_execute_params pf run (params_of sql)) e' s')
        × ((e' : Engine F)
            → run_command pf be (stmt_close s.next_stmt_id) payload e' s' ≡ next e' s'' [])
        × ((run : List ℕ) (e' : Engine F)
            → run_command pf be (stmt_execute s.next_stmt_id) run e' s'' ≡ next e' s'' unknown_stmt)
        × ((j : ℕ)
            → j ≢ s.next_stmt_id
            → (find_stmt j s'.stmt_cache ≡ find_stmt j s.stmt_cache)
              × (find_stmt j s''.stmt_cache ≡ find_stmt j s.stmt_cache))
  unfolding run_command run_prepare run_execute
  prepare-execute-close sql payload e s =
      let id = s.next_stmt_id in
      let stmt : PreparedStmt = record { sql = sql; num_params = params_of sql } in
      let cache = insert_stmt id stmt s.stmt_cache in
      let s' : Session F = record s { stmt_cache = cache; next_stmt_id = (id + 1) % 2 ^ 32 } in
      let s'' : Session F = record s' { stmt_cache = remove_stmt id cache } in
      (
        s',
        s'',
        refl,
        λ run e'. rw (find_stmt-insert_stmt id stmt s.stmt_cache) refl,
        λ e'. refl,
        λ run e'. rw (find_stmt-remove_stmt id cache) refl,
        λ j other. (
          find_stmt-insert_stmt_other j id stmt s.stmt_cache other,
          find_stmt-remove_stmt_other j id cache other
              ∙ find_stmt-insert_stmt_other j id stmt s.stmt_cache other,
        ),
      )
