-- ===== src/Engine/Rows/Index.antt =====
-- The primary-key index points at rows with their keys: what INSERT, REPLACE and DELETE by a test do.
pub mod Removal
use run_alex_db.Common.{
  ℕ, zero, suc, ◌+◌, ◌-◌, ◌≡◌, ◌≢◌, ◌≤◌, ◌<◌, refl, sym, ap, ◌∙◌, arith, Option, none, some,
}
use run_alex_db.Common.{
  List, [], ◌∷◌, ◌++◌, map, Bool, true, false, inl, inr, Bool-cases, ◌==◌, ltb, keep,
}
use run_alex_db.Common.{
  get_elem?, if◌then◌else◌, length, remove_at, last?, get_elem?-append_lt, get_elem?-append_length,
  get_elem?-lt, get_elem?-in, none-ne-some, lt→ltb,
}
use run_alex_db.Common.Dict.{
  Str, str_eq, str_eq_iff, str_eq_refl, lookup, insert, remove, lookup-insert, lookup-remove,
  lookup-nil,
}
use run_alex_db.Engine.Value.{Platform, Value}
use run_alex_db.Engine.Table.{Row, Table, row_pk_key, index_rows, rebuild_index}
use run_alex_db.Engine.Rows.{
  swap_remove, refill, replace_found, replace_keyed, replace_row, remove_row, index_row, append_row,
  insert_row, insert_rows, index_moved, delete_at, delete_found, delete_by_key, index_again,
  delete_where,
}

module _ (pf : Platform) where
  open pf use {F}

  -- Every entry of an index names a row with that key.
  abbrev pub IndexSound : ℕ → List (Row F) → List (Str × ℕ) → Type 0
  IndexSound pk rs m =
      (k : Str) (i : ℕ)
      → lookup k m ≡ some i
      → (row : Row F) × (get_elem? rs i ≡ some row) × (row_pk_key pf row pk ≡ k)

  insert_sound :
      (pk : ℕ) (rs : List (Row F)) (m : List (Str × ℕ)) (row : Row F) (i : ℕ)
      → IndexSound pk rs m
      → get_elem? rs i ≡ some row
      → IndexSound pk rs (insert (row_pk_key pf row pk) i m)
  insert_sound pk rs m row i s at k j h =
      let h' = rw (lookup-insert (row_pk_key pf row pk) k i m) at h in
      elim (Bool-cases (str_eq (row_pk_key pf row pk) k)) [
        | inl same ↦
            let e : i ≡ j = cc (rw same at h') in
            (row, rw (sym e) at, (str_eq_iff (row_pk_key pf row pk) k).0 same)
        | inr other ↦ s k j (rw other at h')
      ]

  index_rows_sound :
      (pk i : ℕ) (all rs : List (Row F)) (m : List (Str × ℕ))
      → ((j : ℕ) (r : Row F) → get_elem? rs j ≡ some r → get_elem? all (i + j) ≡ some r)
      → IndexSound pk all m
      → IndexSound pk all (index_rows pf pk i rs m)
  unfolding index_rows
  index_rows_sound pk i all [] m h s = s
  index_rows_sound pk i all (r ∷ rs) m h s =
      index_rows_sound pk (suc i) all rs (insert (row_pk_key pf r pk) i m)
        (λ j x e. ap (λ n. get_elem? all n) (omega arith) ∙ h (suc j) x e)
        (insert_sound pk all m r i s (ap (λ n. get_elem? all n) (omega arith) ∙ h 0 r refl))

  rebuild_index_sound : (pk : ℕ) (rs : List (Row F)) → IndexSound pk rs (rebuild_index pf pk rs)
  unfolding rebuild_index
  rebuild_index_sound pk rs =
      index_rows_sound pk 0 rs rs [] (λ j r e. ap (λ n. get_elem? rs n) (omega arith) ∙ e)
        (λ k i q. absurd (none-ne-some (sym (lookup-nil k) ∙ q)))

  -- The index of a table with a key column is sound.
  abbrev pub IsIndexed : Table F → Type 0
  IsIndexed t = (pk : ℕ) → t.pk_col_idx ≡ some pk → IndexSound pk t.rows t.pk_index

  grown_sound :
      (pk : ℕ) (rs ys : List (Row F)) (m : List (Str × ℕ))
      → IndexSound pk rs m
      → IndexSound pk (rs ++ ys) m
  grown_sound pk rs ys m s k i h =
      let (row, at, key) = s k i h in
      (row, get_elem?-append_lt rs ys i (get_elem?-lt rs i at) ∙ at, key)

  index_row_sound :
      (o : Option ℕ) (pk : ℕ) (row : Row F) (rs : List (Row F)) (m : List (Str × ℕ))
      → o ≡ some pk
      → IndexSound pk rs m
      → IndexSound pk (rs ++ (row ∷ [])) (index_row pf o row (length rs) m)
  unfolding index_row
  index_row_sound none pk row rs m e s = absurd (none-ne-some e)
  index_row_sound (some q) pk row rs m e s =
      let same : q ≡ pk = cc in
      rw same (
        insert_sound pk (rs ++ (row ∷ [])) m row (length rs) (grown_sound pk rs (row ∷ []) m s)
          (get_elem?-append_length rs [] row))

  append_row-IsIndexed : (row : Row F) (t : Table F) → IsIndexed t → IsIndexed (append_row pf row t)
  unfolding append_row
  append_row-IsIndexed row t s pk e =
      index_row_sound t.pk_col_idx pk row t.rows t.pk_index e (s pk e)

  replace_found-IsIndexed :
      (q : ℕ) (o : Option ℕ) (t : Table F)
      → t.pk_col_idx ≡ some q
      → IsIndexed t
      → IsIndexed (replace_found pf q o t)
  unfolding replace_found remove_row
  replace_found-IsIndexed q none t e s pk e' = s pk e'
  replace_found-IsIndexed q (some old) t e s pk e' =
      let same : q ≡ pk = cc (e, e') in rw same (rebuild_index_sound pk (remove_at t.rows old))

  replace_keyed-IsIndexed :
      (o : Option ℕ) (row : Row F) (t : Table F)
      → t.pk_col_idx ≡ o
      → IsIndexed t
      → IsIndexed (replace_keyed pf o row t)
  unfolding replace_keyed
  replace_keyed-IsIndexed none row t e s = s
  replace_keyed-IsIndexed (some q) row t e s = replace_found-IsIndexed q _ t e s

  insert_row-IsIndexed :
      (replace_into : Bool) (col_map : List (Option ℕ)) (src : Row F) (t : Table F)
      → IsIndexed t
      → IsIndexed (insert_row pf replace_into col_map src t)
  unfolding insert_row replace_row
  insert_row-IsIndexed false col_map src t s = append_row-IsIndexed _ _ s
  insert_row-IsIndexed true col_map src t s =
      append_row-IsIndexed _ _ (replace_keyed-IsIndexed t.pk_col_idx _ _ refl s)

  pub insert_rows-IsIndexed :
      (replace_into : Bool) (col_map : List (Option ℕ)) (srcs : List (Row F)) (t : Table F)
      → IsIndexed t
      → IsIndexed (insert_rows pf replace_into col_map srcs t)
  unfolding insert_rows
  insert_rows-IsIndexed replace_into col_map [] t s = s
  insert_rows-IsIndexed replace_into col_map (r ∷ rs) t s =
      insert_rows-IsIndexed replace_into col_map rs (insert_row pf replace_into col_map r t)
        (insert_row-IsIndexed replace_into col_map r t s)

  index_again_sound :
      (o : Option ℕ) (pk : ℕ) (rs : List (Row F)) (m : List (Str × ℕ))
      → o ≡ some pk
      → IndexSound pk rs (index_again pf o rs m)
  unfolding index_again
  index_again_sound none pk rs m e = absurd (none-ne-some e)
  index_again_sound (some q) pk rs m e =
      let same : q ≡ pk = cc in rw same (rebuild_index_sound pk rs)

  pub delete_where-IsIndexed :
      (stays : Row F → Bool) (t : Table F) → IsIndexed (delete_where pf stays t)
  unfolding delete_where
  delete_where-IsIndexed stays t pk e = index_again_sound t.pk_col_idx pk _ t.pk_index e
