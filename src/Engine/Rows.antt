-- ===== src/Engine/Rows.antt =====
-- src/engine.rs: what INSERT, UPDATE and DELETE do to the rows, the index and the stores of one table.
pub mod Sync
pub mod SwapRemove
pub mod Index
use run_alex_db.Common.{
  ℕ, zero, suc, ◌+◌, ◌-◌, Option, none, some, List, [], ◌∷◌, ◌++◌, map, Bool, true, false,
}
use run_alex_db.Common.{
  get_elem?, position, if◌then◌else◌, ltb, ◌==◌, length, set, remove_at, keep, last?, not,
}
use run_alex_db.Common.Int.{ℤ, pos, negsuc, ltb_ℤ, wrap_i64}
use run_alex_db.Common.Dict.{Str, lookup, insert, remove}
use run_alex_db.Common.Text.{eq_ignore_ascii_case}
use run_alex_db.Engine.Value.{Platform, Value, null, int, float, text, bytes}
use run_alex_db.Engine.Table.{
  Column, Row, Table, int_at, str_at, row_pk_key, rebuild_index, is_int_column, is_str_column,
}

-- `i64` addition of one.
abbrev pub next_i64 : ℤ → ℤ
next_i64 z =
    wrap_i64 (elim z [ pos n ↦ pos (suc n) | negsuc zero ↦ pos 0 | negsuc (suc n) ↦ negsuc n ])

-- `iter_mut().enumerate()` over stores of which some are there.
unfoldable pub map_stores {ℓ} :
    {A : Type ℓ} → (ℕ → List A → List A) → ℕ → List (Option (List A)) → List (Option (List A))
map_stores f ci [] = []
map_stores f ci (none ∷ ss) = none ∷ map_stores f (suc ci) ss
map_stores f ci (some v ∷ ss) = some (f ci v) ∷ map_stores f (suc ci) ss

-- `Vec::swap_remove(i)` for `i` in range: the last element takes the place of the `i`-th.
unfoldable pub refill {ℓ} : {A : Type ℓ} → List A → Option A → List A
refill xs none = []
refill xs (some y) = y ∷ remove_at xs (length xs - 1)

unfoldable pub swap_remove {ℓ} : {A : Type ℓ} → List A → ℕ → List A
swap_remove [] i = []
swap_remove (x ∷ xs) zero = refill xs (last? xs)
swap_remove (x ∷ xs) (suc i) = x ∷ swap_remove xs i

-- `if i < store.len() { … }`.
abbrev pub if_inside {ℓ} : {A : Type ℓ} → ℕ → (List A → List A) → List A → List A
if_inside i f store = if ltb i (length store) then f store else store

-- The position of a column, by its name.
unfoldable pub column_index : List Column → Str → Option ℕ
column_index columns name = position (λ c. eq_ignore_ascii_case c.name name) columns

module _ (pf : Platform) where
  open pf use {F}

  -- A row in the table's column order, from the values of an INSERT that names its columns, and the
  -- counter after it. A primary key that the INSERT leaves out gets the counter's value.
  unfoldable pub remap : List (Option ℕ) → List Column → Row F → ℤ → Row F × ℤ
  remap [] cs src next_auto = ([], next_auto)
  remap (m ∷ ms) [] src next_auto = ([], next_auto)
  remap (some si ∷ ms) (c ∷ cs) src next_auto =
      let (row, n) = remap ms cs src next_auto in
      (elim (get_elem? src si) [ none ↦ null | some v ↦ v ] ∷ row, n)
  remap (none ∷ ms) (c ∷ cs) src next_auto =
      let (row, n) = remap ms cs src (if c.primary_key then next_i64 next_auto else next_auto) in
      ((if c.primary_key then int next_auto else null) ∷ row, n)

  -- `col_map`: empty where the INSERT names no columns.
  unfoldable pub column_map : List Str → List Column → List (Option ℕ)
  column_map [] columns = []
  column_map (n ∷ ns) columns =
      map (λ c. position (λ name. eq_ignore_ascii_case name c.name) (n ∷ ns)) columns

  unfoldable pub source_row : List (Option ℕ) → List Column → Row F → ℤ → Row F × ℤ
  unfolding remap
  source_row [] columns src next_auto = (src, next_auto)
  source_row (m ∷ ms) columns src next_auto = remap (m ∷ ms) columns src next_auto

  -- REPLACE: the row that the index holds for the new row's key goes, from the stores too, and the index
  -- is built anew.
  unfoldable pub remove_row : ℕ → ℕ → Table F → Table F
  remove_row pk old t =
      let rows' = remove_at t.rows old in
      record t {
        rows = rows';
        col_int_data = map_stores (λ ci. if_inside old (λ s. remove_at s old)) 0 t.col_int_data;
        col_str_data = map_stores (λ ci. if_inside old (λ s. remove_at s old)) 0 t.col_str_data;
        pk_index = rebuild_index pf pk rows';
      }

  unfoldable pub replace_found : ℕ → Option ℕ → Table F → Table F
  replace_found pk none t = t
  replace_found pk (some old) t = remove_row pk old t

  unfoldable pub replace_keyed : Option ℕ → Row F → Table F → Table F
  unfolding replace_found
  replace_keyed none row t = t
  replace_keyed (some pk) row t = replace_found pk (lookup (row_pk_key pf row pk) t.pk_index) t

  unfoldable pub replace_row : Row F → Table F → Table F
  unfolding replace_keyed
  replace_row row t = replace_keyed t.pk_col_idx row t

  -- The counter after an inserted key: past it, if it is an integer not below the counter.
  unfoldable pub advance_auto : Option (Value F) → ℤ → ℤ
  advance_auto (some (int n)) next_auto = if ltb_ℤ n next_auto then next_auto else next_i64 n
  advance_auto v next_auto = next_auto

  unfoldable pub index_row : Option ℕ → Row F → ℕ → List (Str × ℕ) → List (Str × ℕ)
  index_row none row i m = m
  index_row (some pk) row i m = insert (row_pk_key pf row pk) i m

  -- The row goes to the end, into the index and into every store.
  unfoldable pub append_row : Row F → Table F → Table F
  append_row row t = record t {
    pk_index = index_row t.pk_col_idx row (length t.rows) t.pk_index;
    next_auto = elim t.pk_col_idx [
      | none ↦ t.next_auto
      | some pk ↦ advance_auto (get_elem? row pk) t.next_auto
    ];
    col_int_data = map_stores (λ ci s. s ++ (int_at ci row ∷ [])) 0 t.col_int_data;
    col_str_data = map_stores (λ ci s. s ++ (str_at ci row ∷ [])) 0 t.col_str_data;
    rows = t.rows ++ (row ∷ []);
  }

  -- One round of the loop over the source rows.
  unfoldable pub insert_row : Bool → List (Option ℕ) → Row F → Table F → Table F
  insert_row replace_into col_map src t =
      let (row, next_auto) = source_row col_map t.columns src t.next_auto in
      let t1 = record t { next_auto = next_auto } in
      append_row row (if replace_into then replace_row row t1 else t1)

  unfoldable pub insert_rows : Bool → List (Option ℕ) → List (Row F) → Table F → Table F
  insert_rows replace_into col_map [] t = t
  insert_rows replace_into col_map (r ∷ rs) t =
      insert_rows replace_into col_map rs (insert_row replace_into col_map r t)

  -- The row that is moved into the gap is indexed at its new place.
  unfoldable pub index_moved : ℕ → ℕ → Option (Row F) → List (Str × ℕ) → List (Str × ℕ)
  index_moved pk ri none m = m
  index_moved pk ri (some r) m = insert (row_pk_key pf r pk) ri m

  -- DELETE by the key of an indexed row: the last row takes its place.
  unfoldable pub delete_at : ℕ → Str → ℕ → Table F → Table F
  delete_at pk key ri t =
      let last_idx = length t.rows - 1 in
      let index = remove key t.pk_index in
      if ltb ri (length t.rows)
      then record t {
        pk_index =
            if ri == last_idx then index else index_moved pk ri (get_elem? t.rows last_idx) index;
        rows = swap_remove t.rows ri;
        col_int_data = map_stores (λ ci. if_inside ri (λ s. swap_remove s ri)) 0 t.col_int_data;
        col_str_data = map_stores (λ ci. if_inside ri (λ s. swap_remove s ri)) 0 t.col_str_data;
      }
      else record t { pk_index = index }

  unfoldable pub delete_found : ℕ → Str → Option ℕ → Table F → Table F
  delete_found pk key none t = t
  delete_found pk key (some ri) t = delete_at pk key ri t

  unfoldable pub delete_by_key : ℕ → Str → Table F → Table F
  unfolding delete_found
  delete_by_key pk key t = delete_found pk key (lookup key t.pk_index) t

  unfoldable pub index_again : Option ℕ → List (Row F) → List (Str × ℕ) → List (Str × ℕ)
  index_again none rs m = m
  index_again (some pk) rs m = rebuild_index pf pk rs

  -- DELETE by a test on rows: the index and the stores are built anew from the rows that stay.
  unfoldable pub delete_where : (Row F → Bool) → Table F → Table F
  delete_where stays t =
      let rows' = keep stays t.rows in
      record t {
        rows = rows';
        pk_index = index_again t.pk_col_idx rows' t.pk_index;
        col_int_data = map_stores (λ ci s. map (int_at ci) rows') 0 t.col_int_data;
        col_str_data = map_stores (λ ci s. map (str_at ci) rows') 0 t.col_str_data;
      }
