-- ===== src/Engine/Assign.antt =====
-- src/engine.rs: the assignments of UPDATE. How a value expression is evaluated (`eval_row_expr`) is an
-- argument. An assignment to a column past the end of a short row panics in the source; here it leaves
-- the row as it is.
use run_alex_db.Common.{ℕ, suc, Option, none, some, List, [], ◌∷◌, Bool}
use run_alex_db.Common.{get_elem?, if◌then◌else◌, ltb, ◌==◌, length, set}
use run_alex_db.Common.Int.{ℤ}
use run_alex_db.Common.Dict.{Str, lookup}
use run_alex_db.Engine.Value.{Platform, Value, int, text}
use run_alex_db.Engine.Expr.{Expr}
use run_alex_db.Engine.Table.{Column, Row, Table}
use run_alex_db.Engine.Rows.{map_stores, if_inside, column_index}

-- The column's name and the new value's expression.
abbrev pub Assignment : Type 0
Assignment = Str × Expr

module _ {F : Type 0} where
  -- `if let (Some(store), Value::Int(n))`: the store of column `idx` follows an integer.
  unfoldable pub sync_int : ℕ → ℕ → Value F → List (Option (List ℤ)) → List (Option (List ℤ))
  sync_int idx ri (int n) stores =
      map_stores (λ ci s. if ci == idx then if_inside ri (λ s. set s ri n) s else s) 0 stores
  sync_int idx ri v stores = stores

  unfoldable pub sync_str : ℕ → ℕ → Value F → List (Option (List Str)) → List (Option (List Str))
  sync_str idx ri (text x) stores =
      map_stores (λ ci s. if ci == idx then if_inside ri (λ s. set s ri x) s else s) 0 stores
  sync_str idx ri v stores = stores

  -- The row at `ri` with one value replaced.
  unfoldable pub set_cell : ℕ → ℕ → Value F → List (Row F) → List (Row F)
  set_cell ri idx v rs = elim (get_elem? rs ri) [ none ↦ rs | some row ↦ set rs ri (set row idx v) ]

module _ (pf : Platform) (eval : List (Value pf.F) → List Column → Expr → Value pf.F) where
  open pf use {F}

  -- One assignment of the fast path, to the row at `ri`.
  unfoldable pub assign_at : ℕ → Assignment → Table F → Table F
  unfolding set_cell sync_int sync_str
  assign_at ri (name, e) t = elim (column_index t.columns name) [
    | none ↦ t
    | some idx ↦
        let row : Row F = elim (get_elem? t.rows ri) [ none ↦ [] | some r ↦ r ] in
        let new_val = eval row t.columns e in
        record t {
          col_int_data = sync_int idx ri new_val t.col_int_data;
          col_str_data = sync_str idx ri new_val t.col_str_data;
          rows = set_cell ri idx new_val t.rows;
        }
  ]

  unfoldable pub assign_all_at : ℕ → List Assignment → Table F → Table F
  unfolding assign_at
  assign_all_at ri [] t = t
  assign_all_at ri (a ∷ as') t = assign_all_at ri as' (assign_at ri a t)

  -- UPDATE by a key: the table and how many rows were changed.
  unfoldable pub update_by_key : Str → List Assignment → Table F → Table F × ℕ
  update_by_key key assignments t = elim (lookup key t.pk_index) [
    | none ↦ (t, 0)
    | some ri ↦ if ltb ri (length t.rows) then (assign_all_at ri assignments t, 1) else (t, 0)
  ]

  -- The assignments of the general path, to one row.
  unfoldable pub assign_row : List Column → List Assignment → Row F → Row F
  assign_row columns [] row = row
  assign_row columns ((name, e) ∷ as') row =
      assign_row columns as' (elim (column_index columns name) [
        | none ↦ row
        | some idx ↦ set row idx (eval row columns e)
      ])

  unfoldable pub update_rows :
      (Row F → Bool) → List Column → List Assignment → List (Row F) → List (Row F) × ℕ
  unfolding assign_row
  update_rows selected columns assignments [] = ([], 0)
  update_rows selected columns assignments (r ∷ rs) =
      let (rs', n) = update_rows selected columns assignments rs in
      if selected r then (assign_row columns assignments r ∷ rs', suc n) else (r ∷ rs', n)

  -- UPDATE by a test on rows.
  unfoldable pub update_where : (Row F → Bool) → List Assignment → Table F → Table F × ℕ
  unfolding update_rows
  update_where selected assignments t =
      let (rs, n) = update_rows selected t.columns assignments t.rows in (record t { rows = rs }, n)
