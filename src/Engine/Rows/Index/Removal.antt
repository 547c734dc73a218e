-- ===== src/Engine/Rows/Index/Removal.antt =====
-- The primary-key index when a row is taken out by its key.
use run_alex_db.Common.{ℕ, ◌-◌, ◌≡◌, ◌≢◌, ◌<◌, refl, sym, ap, ◌∙◌, arith, Option, none, some}
use run_alex_db.Common.{List, Bool, true, inl, inr, Bool-cases, ◌==◌, ltb}
use run_alex_db.Common.{get_elem?, length, get_elem?-lt, get_elem?-in, none-ne-some, lt→ltb}
use run_alex_db.Common.Dict.{
  Str, str_eq, str_eq_iff, lookup, insert, remove, lookup-insert, lookup-remove,
}
use run_alex_db.Engine.Value.{Platform}
use run_alex_db.Engine.Table.{Row, Table, row_pk_key}
use run_alex_db.Engine.Rows.{
  swap_remove, insert_rows, index_moved, delete_at, delete_found, delete_by_key, delete_where,
}
use run_alex_db.Engine.Rows.SwapRemove.{get_elem?-swap_remove_other, get_elem?-swap_remove_self}
use run_alex_db.Engine.Rows.Index.{
  IndexSound, IsIndexed, insert_rows-IsIndexed, delete_where-IsIndexed,
}

module _ (pf : Platform) where
  open pf use {F}

  -- What is left of a sound index once the key of row `ri` is taken out names neither that row nor,
  -- under another key, any row wrongly.
  removed_sound :
      (pk ri : ℕ) (key : Str) (rs : List (Row F)) (m : List (Str × ℕ))
      → IndexSound pf pk rs m
      → lookup key m ≡ some ri
      → (k : Str) (i : ℕ) → lookup k (remove key m) ≡ some i
      → (i ≢ ri) × (lookup k m ≡ some i)
  removed_sound pk ri key rs m s found k i h =
      let h' = rw (lookup-remove key k m) at h in
      elim (Bool-cases (str_eq key k)) [
        | inl same ↦ absurd (none-ne-some (rw same at h'))
        | inr other ↦
            let there : lookup k m ≡ some i = rw other at h' in
            (
              λ q.
                  let (row, at, is_key) = s key ri found in
                  let (row', at', is_k) = s k i there in
                  let one_row : row ≡ row' = cc (at, at', q) in
                  let one_key : key ≡ k =
                    sym is_key ∙ ap (λ r. row_pk_key pf r pk) one_row ∙ is_k in
                  cc ((str_eq_iff key k).1 one_key, other),
              there,
            )
      ]

  kept_sound :
      (pk ri : ℕ) (key : Str) (rs : List (Row F)) (m : List (Str × ℕ))
      → IndexSound pf pk rs m
      → (k : Str) (i : ℕ) → i ≢ ri
      → i ≢ length rs - 1
      → lookup k m ≡ some i
      → (row : Row F) × (get_elem? (swap_remove rs ri) i ≡ some row) × (row_pk_key pf row pk ≡ k)
  kept_sound pk ri key rs m s k i ne not_last there =
      let (row, at, is_k) = s k i there in
      let inside : i < length rs = get_elem?-lt rs i at in
      (row, get_elem?-swap_remove_other rs ri i ne (omega arith) ∙ at, is_k)

  moved_sound :
      (pk ri : ℕ) (key : Str) (rs : List (Row F)) (m : List (Str × ℕ)) (moved : Row F)
      → IndexSound pf pk rs m
      → lookup key m ≡ some ri
      → ri < length rs - 1
      → get_elem? rs (length rs - 1) ≡ some moved
      → IndexSound pf pk (swap_remove rs ri) (insert (row_pk_key pf moved pk) ri (remove key m))
  moved_sound pk ri key rs m moved s found inside last k i h =
      let h' = rw (lookup-insert (row_pk_key pf moved pk) k ri (remove key m)) at h in
      elim (Bool-cases (str_eq (row_pk_key pf moved pk) k)) [
        | inl same ↦
            let e : ri ≡ i = cc (rw same at h') in
            (
              moved,
              rw (sym e) (get_elem?-swap_remove_self rs ri inside ∙ last),
              (str_eq_iff (row_pk_key pf moved pk) k).0 same,
            )
        | inr other ↦
            let (ne, there) = removed_sound pk ri key rs m s found k i (rw other at h') in
            kept_sound pk ri key rs m s k i ne
              (λ q.
                let (row, at, is_k) = s k i there in
                let one_row : moved ≡ row = cc (at, last, q) in
                let one_key : row_pk_key pf moved pk ≡ k =
                  ap (λ r. row_pk_key pf r pk) one_row ∙ is_k in
                cc ((str_eq_iff (row_pk_key pf moved pk) k).1 one_key, other))
              there
      ]

  delete_at_sound :
      (pk ri : ℕ) (key : Str) (t : Table F)
      → lookup key t.pk_index ≡ some ri
      → IndexSound pf pk t.rows t.pk_index
      → IndexSound pf pk (delete_at pf pk key ri t).rows (delete_at pf pk key ri t).pk_index
  unfolding delete_at index_moved
  delete_at_sound pk ri key t found s =
      let (row, at, is_key) = s key ri found in
      let inside : ri < length t.rows = get_elem?-lt t.rows ri at in
      let test : ltb ri (length t.rows) ≡ true = lt→ltb _ _ inside in
      elim (Bool-cases (ri == (length t.rows - 1))) [
        | inl last ↦
            rw (test, last)
              (λ k i h.
                let (ne, there) = removed_sound pk ri key t.rows t.pk_index s found k i h in
                let is_last : ri ≡ length t.rows - 1 = ground arith in
                kept_sound pk ri key t.rows t.pk_index s k i ne (λ q. ne (q ∙ sym is_last)) there)
        | inr middle ↦
            let (moved, e) = get_elem?-in t.rows (length t.rows - 1) (omega arith) in
            let before : ri < length t.rows - 1 = ground arith in
            rw (test, middle, e) (moved_sound pk ri key t.rows t.pk_index moved s found before e)
      ]

  delete_found_sound :
      (pk : ℕ) (key : Str) (o : Option ℕ) (t : Table F)
      → lookup key t.pk_index ≡ o
      → IndexSound pf pk t.rows t.pk_index
      → IndexSound pf pk (delete_found pf pk key o t).rows (delete_found pf pk key o t).pk_index
  unfolding delete_found
  delete_found_sound pk key none t found s = s
  delete_found_sound pk key (some ri) t found s = delete_at_sound pk ri key t found s

  delete_found-pk_col_idx :
      (pk : ℕ) (key : Str) (o : Option ℕ) (t : Table F)
      → (delete_found pf pk key o t).pk_col_idx ≡ t.pk_col_idx
  unfolding delete_found delete_at
  delete_found-pk_col_idx pk key none t = refl
  delete_found-pk_col_idx pk key (some ri) t = elim (Bool-cases (ltb ri (length t.rows))) [
    | inl inside ↦ rw inside refl
    | inr outside ↦ rw outside refl
  ]

  delete_by_key-IsIndexed :
      (pk : ℕ) (key : Str) (t : Table F)
      → t.pk_col_idx ≡ some pk
      → IsIndexed pf t
      → IsIndexed pf (delete_by_key pf pk key t)
  unfolding delete_by_key
  delete_by_key-IsIndexed pk key t h s q e =
      let same : pk ≡ q =
        cc (sym (delete_found-pk_col_idx pk key (lookup key t.pk_index) t) ∙ e, h) in
      rw (sym same) (delete_found_sound pk key (lookup key t.pk_index) t refl (s pk h))

  -- INSERT and REPLACE of any rows, DELETE by a key and DELETE by a test keep the primary-key index of
  -- a table with a key column sound: every key in it names a row that has that key. DELETE by a key
  -- moves the last row into the gap, and its entry follows.
  pub rows_IsIndexed :
      (t : Table F) (pk : ℕ)
      → t.pk_col_idx ≡ some pk
      → IsIndexed pf t
      → ((replace_into : Bool) (col_map : List (Option ℕ)) (srcs : List (Row F))
          → IsIndexed pf (insert_rows pf replace_into col_map srcs t))
        × ((key : Str) → IsIndexed pf (delete_by_key pf pk key t))
        × ((stays : Row F → Bool) → IsIndexed pf (delete_where pf stays t))
  rows_IsIndexed t pk h s = (
    λ replace_into col_map srcs. insert_rows-IsIndexed pf replace_into col_map srcs t s,
    λ key. delete_by_key-IsIndexed pk key t h s,
    λ stays. delete_where-IsIndexed pf stays t,
  )
