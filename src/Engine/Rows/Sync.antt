-- ===== src/Engine/Rows/Sync.antt =====
-- The column stores follow the rows.
use mathlib.Core.List.{map-append}
use run_alex_db.Common.{ℕ, zero, suc, ◌-◌, ◌≡◌, ◌≤◌, refl, sym, ap, ◌∙◌, arith, Option, none, some}
use run_alex_db.Common.{List, [], ◌∷◌, ◌++◌, map, Bool, true, false, inl, inr, Bool-cases}
use run_alex_db.Common.{
  if◌then◌else◌, ltb, length, remove_at, keep, last?, length-map, map-remove_at,
}
use run_alex_db.Common.Dict.{Str}
use run_alex_db.Engine.Value.{Platform}
use run_alex_db.Engine.Table.{
  Column, ColumnDef, Row, Table, int_at, str_at, is_int_column, is_str_column, new_table,
  empty_int_stores, empty_str_stores,
}
use run_alex_db.Engine.Rows.{
  map_stores, if_inside, swap_remove, refill, replace_found, replace_keyed, delete_found,
  remove_row, replace_row, append_row, insert_row, insert_rows, delete_at, delete_by_key,
  delete_where,
}

module _ {ℓ} {F : Type 0} {A : Type ℓ} (test : Column → Bool) (at : ℕ → Row F → A) where
  -- The stores that the rows call for, column by column.
  abbrev pub stores_of : ℕ → List Column → List (Row F) → List (Option (List A))
  stores_of ci [] rs = []
  stores_of ci (c ∷ cs) rs =
      (if test c then some (map (at ci) rs) else none) ∷ stores_of (suc ci) cs rs

  -- An operation on the stores that matches one on the rows.
  pub map_stores-stores_of :
      (f : ℕ → List A → List A) (rs rs' : List (Row F)) (ci : ℕ) (cs : List Column)
      → ((k : ℕ) → f k (map (at k) rs) ≡ map (at k) rs')
      → map_stores f ci (stores_of ci cs rs) ≡ stores_of ci cs rs'
  unfolding map_stores
  map_stores-stores_of f rs rs' ci [] h = refl
  map_stores-stores_of f rs rs' ci (c ∷ cs) h = elim (Bool-cases (test c)) [
    | inl has ↦ rw has (rw (h ci, map_stores-stores_of f rs rs' (suc ci) cs h))
    | inr no_store ↦ rw no_store (rw (map_stores-stores_of f rs rs' (suc ci) cs h))
  ]

  pub stores_of-nil :
      (ci : ℕ) (cs : List Column)
      → map (λ c. if test c then some [] else none) cs ≡ stores_of ci cs []
  stores_of-nil ci [] = refl
  stores_of-nil ci (c ∷ cs) =
      ap (λ l. (if test c then some [] else none) ∷ l) (stores_of-nil (suc ci) cs)

-- Each store of a column holds, row by row, what the row has there.
pub record InSync {F : Type 0} (t : Table F) : Type 0 where
  pub ints : t.col_int_data ≡ stores_of is_int_column int_at 0 t.columns t.rows
  pub strs : t.col_str_data ≡ stores_of is_str_column str_at 0 t.columns t.rows

-- Removing past the end changes nothing, so the test on the index does not matter.
remove_at_past {ℓ} : {A : Type ℓ} (xs : List A) (i : ℕ) → length xs ≤ i → remove_at xs i ≡ xs
remove_at_past [] i h = refl
remove_at_past (x ∷ xs) zero h = absurd (omega arith)
remove_at_past (x ∷ xs) (suc i) h = ap (λ l. x ∷ l) (remove_at_past xs i (omega arith))

swap_remove_past {ℓ} : {A : Type ℓ} (xs : List A) (i : ℕ) → length xs ≤ i → swap_remove xs i ≡ xs
unfolding swap_remove
swap_remove_past [] i h = refl
swap_remove_past (x ∷ xs) zero h = absurd (omega arith)
swap_remove_past (x ∷ xs) (suc i) h = ap (λ l. x ∷ l) (swap_remove_past xs i (omega arith))

if_inside-remove_at {ℓ} :
    {A : Type ℓ} (i : ℕ) (xs : List A) → if_inside i (λ s. remove_at s i) xs ≡ remove_at xs i
if_inside-remove_at i xs = ground (arith, remove_at_past xs i)

if_inside-swap_remove {ℓ} :
    {A : Type ℓ} (i : ℕ) (xs : List A) → if_inside i (λ s. swap_remove s i) xs ≡ swap_remove xs i
if_inside-swap_remove i xs = ground (arith, swap_remove_past xs i)

module _ {ℓ κ} {A : Type ℓ} {B : Type κ} (f : A → B) where
  abbrev map_option : Option A → Option B
  map_option none = none
  map_option (some x) = some (f x)

  last?-map : (xs : List A) → last? (map f xs) ≡ map_option (last? xs)
  last?-map [] = refl
  last?-map (x ∷ []) = refl
  last?-map (x ∷ y ∷ xs) = last?-map (y ∷ xs)

  map-refill : (xs : List A) (o : Option A) → map f (refill xs o) ≡ refill (map f xs) (map_option o)
  unfolding refill
  map-refill xs none = refl
  map-refill xs (some y) =
      ap (λ l. f y ∷ l)
        (map-remove_at f xs (length xs - 1)
          ∙ ap (λ n. remove_at (map f xs) (n - 1)) (sym (length-map xs f)))

  pub map-swap_remove : (xs : List A) (i : ℕ) → map f (swap_remove xs i) ≡ swap_remove (map f xs) i
  unfolding swap_remove
  map-swap_remove [] i = refl
  map-swap_remove (x ∷ xs) zero =
      map-refill xs (last? xs) ∙ ap (refill (map f xs)) (sym (last?-map xs))
  map-swap_remove (x ∷ xs) (suc i) = ap (λ l. f x ∷ l) (map-swap_remove xs i)

module _ (pf : Platform) where
  open pf use {F}

  append_row-InSync : (row : Row F) (t : Table F) → InSync t → InSync (append_row pf row t)
  unfolding append_row
  append_row-InSync row t s = record {
    ints = rw s.ints (
        map_stores-stores_of is_int_column int_at _ t.rows (t.rows ++ (row ∷ [])) 0 t.columns
          (λ k. sym (map-append (int_at k) t.rows (row ∷ []))));
    strs = rw s.strs (
        map_stores-stores_of is_str_column str_at _ t.rows (t.rows ++ (row ∷ [])) 0 t.columns
          (λ k. sym (map-append (str_at k) t.rows (row ∷ []))));
  }

  remove_row-InSync : (pk old : ℕ) (t : Table F) → InSync t → InSync (remove_row pf pk old t)
  unfolding remove_row
  remove_row-InSync pk old t s = record {
    ints = rw s.ints (
        map_stores-stores_of is_int_column int_at _ t.rows (remove_at t.rows old) 0 t.columns
          (λ k. if_inside-remove_at old _ ∙ sym (map-remove_at (int_at k) t.rows old)));
    strs = rw s.strs (
        map_stores-stores_of is_str_column str_at _ t.rows (remove_at t.rows old) 0 t.columns
          (λ k. if_inside-remove_at old _ ∙ sym (map-remove_at (str_at k) t.rows old)));
  }

  replace_found-InSync :
      (pk : ℕ) (o : Option ℕ) (t : Table F) → InSync t → InSync (replace_found pf pk o t)
  unfolding replace_found
  replace_found-InSync pk none t s = s
  replace_found-InSync pk (some old) t s = remove_row-InSync pk old t s

  replace_keyed-InSync :
      (o : Option ℕ) (row : Row F) (t : Table F) → InSync t → InSync (replace_keyed pf o row t)
  unfolding replace_keyed
  replace_keyed-InSync none row t s = s
  replace_keyed-InSync (some pk) row t s = replace_found-InSync pk _ t s

  insert_row-InSync :
      (replace_into : Bool) (col_map : List (Option ℕ)) (src : Row F) (t : Table F)
      → InSync t
      → InSync (insert_row pf replace_into col_map src t)
  unfolding insert_row replace_row
  insert_row-InSync false col_map src t s =
      append_row-InSync _ _ (record { ints = s.ints; strs = s.strs })
  insert_row-InSync true col_map src t s =
      append_row-InSync _ _
        (replace_keyed-InSync t.pk_col_idx _ _ (record { ints = s.ints; strs = s.strs }))

  pub insert_rows-InSync :
      (replace_into : Bool) (col_map : List (Option ℕ)) (srcs : List (Row F)) (t : Table F)
      → InSync t
      → InSync (insert_rows pf replace_into col_map srcs t)
  unfolding insert_rows
  insert_rows-InSync replace_into col_map [] t s = s
  insert_rows-InSync replace_into col_map (r ∷ rs) t s =
      insert_rows-InSync replace_into col_map rs (insert_row pf replace_into col_map r t)
        (insert_row-InSync replace_into col_map r t s)

  delete_at-InSync :
      (pk : ℕ) (key : Str) (ri : ℕ) (t : Table F) → InSync t → InSync (delete_at pf pk key ri t)
  unfolding delete_at
  delete_at-InSync pk key ri t s = elim (Bool-cases (ltb ri (length t.rows))) [
    | inl inside ↦ rw inside (record {
      ints = rw s.ints (
          map_stores-stores_of is_int_column int_at _ t.rows (swap_remove t.rows ri) 0 t.columns
            (λ k. if_inside-swap_remove ri _ ∙ sym (map-swap_remove (int_at k) t.rows ri)));
      strs = rw s.strs (
          map_stores-stores_of is_str_column str_at _ t.rows (swap_remove t.rows ri) 0 t.columns
            (λ k. if_inside-swap_remove ri _ ∙ sym (map-swap_remove (str_at k) t.rows ri)));
    })
    | inr outside ↦ rw outside (record { ints = s.ints; strs = s.strs })
  ]

  delete_found-InSync :
      (pk : ℕ) (key : Str) (o : Option ℕ) (t : Table F)
      → InSync t
      → InSync (delete_found pf pk key o t)
  unfolding delete_found
  delete_found-InSync pk key none t s = s
  delete_found-InSync pk key (some ri) t s = delete_at-InSync pk key ri t s

  delete_where-InSync :
      (stays : Row F → Bool) (t : Table F) → InSync t → InSync (delete_where pf stays t)
  unfolding delete_where
  delete_where-InSync stays t s = record {
    ints = rw s.ints (
        map_stores-stores_of is_int_column int_at _ t.rows (keep stays t.rows) 0 t.columns
          (λ k. refl));
    strs = rw s.strs (
        map_stores-stores_of is_str_column str_at _ t.rows (keep stays t.rows) 0 t.columns
          (λ k. refl));
  }

  pub new_table-InSync :
      (schema name : Str) (defs : List ColumnDef) → InSync {F = F} (new_table schema name defs)
  unfolding new_table empty_int_stores empty_str_stores
  new_table-InSync schema name defs = record {
    ints = stores_of-nil is_int_column (int_at {F = F}) 0 _;
    strs = stores_of-nil is_str_column (str_at {F = F}) 0 _;
  }

  -- INSERT and REPLACE of any rows, DELETE by key and DELETE by a test keep the column stores in step
  -- with the rows, and a new table's stores are.
  pub rows_InSync :
      (t : Table F)
      → InSync t
      → ((replace_into : Bool) (col_map : List (Option ℕ)) (srcs : List (Row F))
          → InSync (insert_rows pf replace_into col_map srcs t))
        × ((pk : ℕ) (key : Str) → InSync (delete_by_key pf pk key t))
        × ((stays : Row F → Bool) → InSync (delete_where pf stays t))
        × ((schema name : Str) (defs : List ColumnDef)
            → InSync {F = F} (new_table schema name defs))
  unfolding delete_by_key
  rows_InSync t s = (
    λ replace_into col_map srcs. insert_rows-InSync replace_into col_map srcs t s,
    λ pk key. delete_found-InSync pk key _ t s,
    λ stays. delete_where-InSync stays t s,
    new_table-InSync,
  )
