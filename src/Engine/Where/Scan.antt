-- ===== src/Engine/Where/Scan.antt =====
-- What the scan of a column store selects, row by row.
use run_alex_db.Common.{
  ℕ, zero, suc, ◌+◌, ◌≡◌, refl, ap, ◌∙◌, arith, Option, none, some, List, [], ◌∷◌, map,
}
use run_alex_db.Common.{Bool, true, get_elem?}
use run_alex_db.Common.Int.{ℤ, ltb_ℤ, eqb_ℤ}
use run_alex_db.Common.Decimal.{parse_i64}
use run_alex_db.Common.Dict.{Str}
use run_alex_db.SimdScan.Laws.{contains, test_at, contains-scan_i64}
use run_alex_db.Engine.Expr.{
  Expr, BinaryOperator, value, number, identifier, binary_op, eq_op, gt_op, lt_op,
}
use run_alex_db.Engine.Table.{Column, Row, Table, int_at, is_int_column}
use run_alex_db.Engine.Rows.{column_index}
use run_alex_db.Engine.Rows.Sync.{InSync, stores_of}
use run_alex_db.Engine.Where.{
  try_simd_scan, scan_column, scan_int, column_name, int_literal, store_at,
}

test_at-map {ℓ κ} :
    {A : Type ℓ} {B : Type κ} (f : A → B) (p : B → Bool) (xs : List A) (k : ℕ)
    → test_at p (map f xs) k ≡ test_at (λ x. p (f x)) xs k
unfolding test_at
test_at-map f p [] k = refl
test_at-map f p (x ∷ xs) zero = refl
test_at-map f p (x ∷ xs) (suc k) = test_at-map f p xs k

module _ {ℓ} {F : Type 0} {A : Type ℓ} (test : Column → Bool) (at : ℕ → Row F → A) where
  -- The store of a column that calls for one.
  store_at-stores_of :
      (ci : ℕ) (cs : List Column) (rs : List (Row F)) (i : ℕ) (c : Column)
      → get_elem? cs i ≡ some c
      → test c ≡ true
      → store_at (stores_of test at ci cs rs) i ≡ some (map (at (i + ci)) rs)
  store_at-stores_of ci [] rs i c h p = cc
  store_at-stores_of ci (d ∷ cs) rs zero c h p =
      let same : d ≡ c = cc in rw (same, p) (ap (λ k. some (map (at k) rs)) (omega arith))
  store_at-stores_of ci (d ∷ cs) rs (suc i) c h p =
      store_at-stores_of (suc ci) cs rs i c h p ∙ ap (λ k. some (map (at k) rs)) (omega arith)

abbrev pub where_number : Str → BinaryOperator → Str → Expr
where_number name op n = binary_op (identifier name) op (value (number n))

-- Is row `k` among the rows that a scan names, if there was a scan?
abbrev pub map_hits : ℕ → Option (List ℕ) → Option Bool
map_hits k none = none
map_hits k (some hits) = some (contains hits k)

module _ {F : Type 0} where
  scan_of_store :
      (avx2 : Bool) (t : Table F) (name n : Str) (idx : ℕ) (c : Column) (target : ℤ)
      (op : BinaryOperator)
      → InSync t
      → column_index t.columns name ≡ some idx
      → get_elem? t.columns idx ≡ some c
      → is_int_column c ≡ true
      → parse_i64 n ≡ some target
      → try_simd_scan avx2 t (where_number name op n)
        ≡ scan_int avx2 op (map (int_at idx) t.rows) target
  unfolding try_simd_scan scan_column column_name int_literal
  scan_of_store avx2 t name n idx c target op s hi hc ht hn =
      let st : store_at t.col_int_data idx ≡ some (map (int_at idx) t.rows) =
        ap (λ stores. store_at stores idx) s.ints
        ∙ store_at-stores_of is_int_column int_at 0 t.columns t.rows idx c hc ht
        ∙ ap (λ k. some (map (int_at k) t.rows)) (omega arith) in
      rw hi (rw st (rw hn refl))

  -- On a table whose stores are in step with its rows, the scan for `column = n`, `column > n` or
  -- `column < n` on an integer column names exactly the rows whose integer there compares so, where a
  -- row without an integer counts as 0: with and without AVX2.
  pub try_simd_scan-InSync :
      (avx2 : Bool) (t : Table F) (name n : Str) (idx : ℕ) (c : Column) (target : ℤ) (k : ℕ)
      → InSync t
      → column_index t.columns name ≡ some idx
      → get_elem? t.columns idx ≡ some c
      → is_int_column c ≡ true
      → parse_i64 n ≡ some target
      → (map_hits k (try_simd_scan avx2 t (where_number name eq_op n))
          ≡ some (test_at (λ row. eqb_ℤ (int_at idx row) target) t.rows k))
        × (map_hits k (try_simd_scan avx2 t (where_number name gt_op n))
            ≡ some (test_at (λ row. ltb_ℤ target (int_at idx row)) t.rows k))
        × (map_hits k (try_simd_scan avx2 t (where_number name lt_op n))
            ≡ some (test_at (λ row. ltb_ℤ (int_at idx row) target) t.rows k))
  unfolding scan_int
  try_simd_scan-InSync avx2 t name n idx c target k s hi hc ht hn =
      let (eq, gt, lt) = contains-scan_i64 avx2 (map (int_at idx) t.rows) target k in
      (
        rw (scan_of_store avx2 t name n idx c target eq_op s hi hc ht hn)
            (ap some (eq ∙ test_at-map _ _ t.rows k)),
        rw (scan_of_store avx2 t name n idx c target gt_op s hi hc ht hn)
            (ap some (gt ∙ test_at-map _ _ t.rows k)),
        rw (scan_of_store avx2 t name n idx c target lt_op s hi hc ht hn)
            (ap some (lt ∙ test_at-map _ _ t.rows k)),
      )
