-- ===== src/Engine/Prepared.antt =====
-- src/engine.rs: prepared statements. SELECT, INSERT, UPDATE and DELETE with the values bound to their question
-- marks, and `execute` and `execute_prepared` from the parsed statements on; what the parser makes of a text,
-- and the statements that are not handled here, are arguments.
pub mod Select
pub mod Binding
pub mod Stored
pub mod Sync
pub mod Refused
mod Tests
use run_alex_db.Common.{
  ℕ, zero, suc, ◌+◌, ◌-◌, Option, none, some, List, [], ◌∷◌, ◌++◌, map, Bool, true, false, not,
  ◌&&◌, ◌||◌,
}
use run_alex_db.Common.{get_elem?, if◌then◌else◌, ltb, length}
use run_alex_db.Common.Int.{ℤ}
use run_alex_db.Common.Decimal.{parse_i64}
use run_alex_db.Common.Dict.{Str, str, lookup}
use run_alex_db.Common.Process.{Result, done, failed}
use run_alex_db.Engine.Value.{
  Platform, Value, null, int, float, text, QueryResult, ok, err, rows, value_rows,
}
use run_alex_db.Engine.Expr.{Expr, is_bound}
use run_alex_db.Engine.Table.{Column, Row, Table, int_at, str_at, value_to_pk_str}
use run_alex_db.Engine.Rows.{map_stores, index_row, column_index, delete_where}
use run_alex_db.Engine.Assign.{Assignment, sync_int, sync_str, set_cell, update_where}
use run_alex_db.Engine.Compare.{Chars, expr_to_value}
use run_alex_db.Engine.Where.{eval_where_bound, extract_pk_eq_param}
use run_alex_db.Engine.Store.{Engine, split_name, at_table, bump_write_gen}
use run_alex_db.Engine.Statements.{or_test, unknown_database, table_not_found}
use run_alex_db.Engine.Prepared.Select.{SelectQuery, select_prepared}
use run_alex_db.Engine.Users.Privileges.{
  StatementKind, insert_stmt, update_stmt, delete_stmt, other_stmt, refuse,
}

-- `source`: no source, a query that is not VALUES, or the rows of VALUES.
pub data Source : Type 0 where
  no_source : Source
  other_source : Source
  values_of : List (List Expr) → Source

-- What the parser makes of a text; `other` is a statement that is not handled here.
pub data Statement (S : Type 0) : Type 0 where
  query : SelectQuery → Statement S
  insert : Str → Source → Statement S
  update : Str → List Assignment → Option Expr → Statement S
  delete : Str → Option Expr → Statement S
  other : StatementKind → S → Statement S

unfoldable pub kind_of : {S : Type 0} → Statement S → StatementKind
kind_of (query q) = other_stmt
kind_of (insert t src) = insert_stmt
kind_of (update t assignments selection) = update_stmt
kind_of (delete t selection) = delete_stmt
kind_of (other kind s) = kind

module _ (pf : Platform) (cs : Chars) (show : Expr → Str) where
  open pf use {F, float_parse}

  -- A parameter's text: an integer, a float or a text.
  unfoldable pub bind_param : Option Str → Value F
  bind_param none = null
  bind_param (some s) = elim (parse_i64 s) [
    | some n ↦ int n
    | none ↦ elim (float_parse s) [ some f ↦ float f | none ↦ text s ]
  ]

  -- `bound.get(i).cloned().unwrap_or(Value::Null)`.
  unfoldable pub bound_at : List (Value F) → ℕ → Value F
  bound_at bound i = elim (get_elem? bound i) [ none ↦ null | some v ↦ v ]

  -- The values of one row, and the number of the next question mark.
  unfoldable pub bind_row : List (Value F) → ℕ → List Expr → Row F × ℕ
  unfolding bound_at
  bind_row bound i [] = ([], i)
  bind_row bound i (e ∷ es) =
      let marked = bind_row bound (suc i) es in
      let plain = bind_row bound i es in
      if is_bound e
      then (bound_at bound i ∷ marked.0, marked.1)
      else (expr_to_value pf show e ∷ plain.0, plain.1)

  -- The row goes to the end; `next_auto` stays.
  unfoldable pub push_row : Row F → Table F → Table F
  push_row row t = record t {
    pk_index = index_row pf t.pk_col_idx row (length t.rows) t.pk_index;
    col_int_data = map_stores (λ ci s. s ++ (int_at ci row ∷ [])) 0 t.col_int_data;
    col_str_data = map_stores (λ ci s. s ++ (str_at ci row ∷ [])) 0 t.col_str_data;
    rows = t.rows ++ (row ∷ []);
  }

  unfoldable pub push_rows : List (Value F) → ℕ → List (List Expr) → Table F → Table F
  unfolding bind_row push_row
  push_rows bound i [] t = t
  push_rows bound i (es ∷ ess) t =
      let (row, i') = bind_row bound i es in push_rows bound i' ess (push_row row t)

  unfoldable pub insert_prepared :
      Str → Str → Source → List (Value F) → Engine F → Engine F × QueryResult F
  unfolding push_rows
  insert_prepared db_name table_name no_source bound e = (e, err 1064 (str "INSERT without VALUES"))
  insert_prepared db_name table_name other_source bound e =
      (e, err 1064 (str "Only VALUES inserts supported"))
  insert_prepared db_name table_name (values_of ess) bound e =
      let (db, t) = split_name db_name table_name in
      at_table db t unknown_database table_not_found
        (λ table. (push_rows bound 0 ess table, ok (length ess) 0)) e

  -- How many assignments have a question mark: the parameter of the key comes behind theirs.
  unfoldable pub count_bound : List Assignment → ℕ
  count_bound [] = 0
  count_bound ((name, e) ∷ as') = let n = count_bound as' in if is_bound e then suc n else n

  -- The value of column `idx` of the row at `ri`, in its store as well.
  unfoldable pub put_value : ℕ → ℕ → Value F → Table F → Table F
  put_value ri idx new_val t = record t {
    col_int_data = sync_int idx ri new_val t.col_int_data;
    col_str_data = sync_str idx ri new_val t.col_str_data;
    rows = set_cell ri idx new_val t.rows;
  }

  -- One assignment to a column that is there uses a parameter up, if it has a question mark.
  unfoldable pub bind_assignment : List (Value F) → ℕ → ℕ → Expr → Option ℕ → Table F → Table F × ℕ
  unfolding put_value bound_at
  bind_assignment bound i ri e none t = (t, i)
  bind_assignment bound i ri e (some idx) t =
      if is_bound e
      then (put_value ri idx (bound_at bound i) t, suc i)
      else (put_value ri idx (expr_to_value pf show e) t, i)

  unfoldable pub bind_assignments : List (Value F) → ℕ → ℕ → List Assignment → Table F → Table F
  unfolding bind_assignment
  bind_assignments bound i ri [] t = t
  bind_assignments bound i ri ((name, e) ∷ as') t =
      let (t', i') = bind_assignment bound i ri e (column_index t.columns name) t in
      bind_assignments bound i' ri as' t'

  -- The fast path on the key that a parameter gives: one row is answered, found or not.
  unfoldable pub update_found : List (Value F) → List Assignment → Option ℕ → Table F → Table F
  unfolding bind_assignments
  update_found bound assignments none t = t
  update_found bound assignments (some ri) t =
      if ltb ri (length t.rows) then bind_assignments bound 0 ri assignments t else t

  -- The value that the selection compares the key with, if it has that form.
  unfoldable pub bound_key : List (Value F) → List Assignment → Option Expr → Table F → Option Str
  unfolding count_bound
  bound_key bound assignments none t = none
  bound_key bound assignments (some w) t = elim t.pk_col_idx [
    | none ↦ none
    | some pk ↦ elim (get_elem? t.columns pk) [
      | none ↦ none
      | some c ↦ elim (extract_pk_eq_param c.name w (count_bound assignments)) [
        | none ↦ none
        | some i ↦ elim (get_elem? bound i) [ none ↦ none | some v ↦ some (value_to_pk_str pf v) ]
      ]
    ]
  ]

  module _ (eval : Row F → List Column → Expr → Value F) where
    unfoldable pub bound_selects : List (Value F) → List Column → Option Expr → Row F → Bool
    bound_selects bound columns none row = true
    bound_selects bound columns (some w) row = eval_where_bound pf cs eval row columns bound w

    unfoldable pub bound_stays : List (Value F) → List Column → Option Expr → Row F → Bool
    bound_stays bound columns none row = false
    bound_stays bound columns (some w) row = not (eval_where_bound pf cs eval row columns bound w)

    unfoldable pub update_bound :
        List (Value F)
        → List Assignment
        → Option Expr
        → Option Str
        → Table F
        → Table F × QueryResult F
    unfolding update_found bound_selects
    update_bound bound assignments selection (some key) t =
        (update_found bound assignments (lookup key t.pk_index) t, ok 1 0)
    update_bound bound assignments selection none t =
        let (t', n) =
          update_where pf eval (bound_selects bound t.columns selection) assignments t in
        (t', ok n 0)

    unfoldable pub update_prepared :
        Str
        → Str
        → List Assignment
        → Option Expr
        → List (Value F)
        → Engine F
        → Engine F × QueryResult F
    unfolding update_bound bound_key
    update_prepared db_name table_name assignments selection bound e =
        let (db, t) = split_name db_name table_name in
        at_table db t unknown_database table_not_found
          (λ table.
            update_bound bound assignments selection (bound_key bound assignments selection table)
              table)
          e

    unfoldable pub delete_prepared :
        Str → Str → Option Expr → List (Value F) → Engine F → Engine F × QueryResult F
    unfolding bound_stays
    delete_prepared db_name table_name selection bound e =
        let (db, t) = split_name db_name table_name in
        at_table db t unknown_database table_not_found
          (λ table.
            let t' = delete_where pf (bound_stays bound table.columns selection) table in
            (t', ok (length table.rows - length t'.rows) 0))
          e

    module _ {S : Type 0} (exec_other : S → Option Str → Engine F → Engine F × QueryResult F) where
      unfoldable pub exec_stmt_prepared :
          Statement S → List (Value F) → Option Str → Engine F → Engine F × QueryResult F
      unfolding insert_prepared update_prepared delete_prepared select_prepared
      exec_stmt_prepared (query q) bound current_db e =
          (e, select_prepared pf cs show eval (or_test current_db) q bound e)
      exec_stmt_prepared (insert t src) bound current_db e =
          insert_prepared (or_test current_db) t src bound e
      exec_stmt_prepared (update t assignments selection) bound current_db e =
          update_prepared (or_test current_db) t assignments selection bound e
      exec_stmt_prepared (delete t selection) bound current_db e =
          delete_prepared (or_test current_db) t selection bound e
      exec_stmt_prepared (other kind s) bound current_db e = exec_other s current_db e

      -- The loop over the statements; the last one's result is the answer.
      unfoldable pub run_prepared_stmts :
          List (Statement S)
          → List (Value F)
          → Option Str
          → Engine F × QueryResult F
          → Engine F × QueryResult F
      unfolding exec_stmt_prepared
      run_prepared_stmts [] bound current_db (e, last) = (e, last)
      run_prepared_stmts (s ∷ ss) bound current_db (e, last) =
          run_prepared_stmts ss bound current_db (exec_stmt_prepared s bound current_db e)

      -- An error of the privilege check ends the statements before the first one runs.
      unfoldable pub unless_refused :
          Option (ℕ × Str) → Engine F → Engine F × QueryResult F → Engine F × QueryResult F
      unless_refused none e ran = ran
      unless_refused (some (code, message)) e ran = (e, err code message)

      unfoldable pub execute_prepared_parsed :
          Result (List (Statement S))
          → List (Option Str)
          → Option Str
          → Str
          → Engine F
          → Engine F × QueryResult F
      unfolding run_prepared_stmts unless_refused bind_param kind_of
      execute_prepared_parsed (failed message) params current_db user_name e = (e, err 1064 message)
      execute_prepared_parsed (done stmts) params current_db user_name e =
          unless_refused (refuse user_name (map kind_of stmts) current_db e) e
            (run_prepared_stmts stmts (map bind_param params) current_db (e, ok 0 0))

      unfoldable pub execute_prepared :
          (Str → Result (List (Statement S)))
          → Str
          → List (Option Str)
          → Option Str
          → Str
          → Engine F
          → Engine F × QueryResult F
      unfolding execute_prepared_parsed
      execute_prepared parse sql params current_db user_name e =
          execute_prepared_parsed (parse sql) params current_db user_name e
