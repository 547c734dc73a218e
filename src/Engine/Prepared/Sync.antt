-- ===== src/Engine/Prepared/Sync.antt =====
-- Prepared INSERT and DELETE keep the column stores in step with the rows.
use mathlib.Core.List.{map-append}
use run_alex_db.Common.{ℕ, sym, Option, List, [], ◌∷◌, ◌++◌}
use run_alex_db.Common.Dict.{Str}
use run_alex_db.Engine.Value.{Platform, Value}
use run_alex_db.Engine.Expr.{Expr}
use run_alex_db.Engine.Table.{Column, Row, Table, int_at, str_at, is_int_column, is_str_column}
use run_alex_db.Engine.Compare.{Chars}
use run_alex_db.Engine.Rows.Sync.{InSync, map_stores-stores_of, rows_InSync}
use run_alex_db.Engine.Store.{Engine}
use run_alex_db.Engine.Store.Sync.{AllInSync, at_table-AllInSync}
use run_alex_db.Engine.Prepared.{
  Source, no_source, other_source, values_of, bind_row, push_row, push_rows, insert_prepared,
  delete_prepared,
}

module _ (pf : Platform) (cs : Chars) (show : Expr → Str) where
  open pf use {F}

  push_row-InSync : (row : Row F) (t : Table F) → InSync t → InSync (push_row pf cs show row t)
  unfolding push_row
  push_row-InSync row t s = record {
    ints = rw s.ints (
        map_stores-stores_of is_int_column int_at _ t.rows (t.rows ++ (row ∷ [])) 0 t.columns
          (λ k. sym (map-append (int_at k) t.rows (row ∷ []))));
    strs = rw s.strs (
        map_stores-stores_of is_str_column str_at _ t.rows (t.rows ++ (row ∷ [])) 0 t.columns
          (λ k. sym (map-append (str_at k) t.rows (row ∷ []))));
  }

  push_rows-InSync :
      (bound : List (Value F)) (i : ℕ) (ess : List (List Expr)) (t : Table F)
      → InSync t
      → InSync (push_rows pf cs show bound i ess t)
  unfolding push_rows
  push_rows-InSync bound i [] t s = s
  push_rows-InSync bound i (es ∷ ess) t s =
      push_rows-InSync bound (bind_row pf cs show bound i es).1 ess
        (push_row pf cs show (bind_row pf cs show bound i es).0 t)
        (push_row-InSync (bind_row pf cs show bound i es).0 t s)

  insert_prepared-AllInSync :
      (db t : Str) (src : Source) (bound : List (Value F)) (e : Engine F)
      → AllInSync e
      → AllInSync (insert_prepared pf cs show db t src bound e).0
  unfolding insert_prepared
  insert_prepared-AllInSync db t no_source bound e h = h
  insert_prepared-AllInSync db t other_source bound e h = h
  insert_prepared-AllInSync db t (values_of ess) bound e h =
      at_table-AllInSync _ _ _ _ _ e (λ table s. push_rows-InSync bound 0 ess table s) h

  -- Prepared INSERT and DELETE, whatever values are bound and whatever database and table they name, keep
  -- the column stores of every table of the engine in step with its rows.
  pub prepared_AllInSync :
      (eval : Row F → List Column → Expr → Value F) (e : Engine F)
      → AllInSync e
      → ((db t : Str) (src : Source) (bound : List (Value F))
          → AllInSync (insert_prepared pf cs show db t src bound e).0)
        × ((db t : Str) (selection : Option Expr) (bound : List (Value F))
            → AllInSync (delete_prepared pf cs show eval db t selection bound e).0)
  unfolding delete_prepared
  prepared_AllInSync eval e h = (
    λ db t src bound. insert_prepared-AllInSync db t src bound e h,
    λ db t selection bound.
        at_table-AllInSync _ _ _ _ _ e (λ table s. (rows_InSync pf table s).2 _) h,
  )
