-- ===== src/Engine/Prepared/Binding.antt =====
-- A prepared INSERT stores the values bound to its question marks, in order.
use run_alex_db.Common.{
  ℕ, zero, suc, ◌+◌, ◌≤◌, ◌<◌, ◌≡◌, refl, sym, ap, ap₂, ◌∙◌, arith, List, [], ◌∷◌, ◌++◌, map, true,
  All, length, take, drop, append_assoc, append-nil,
}
use run_alex_db.Common.Dict.{Str}
use run_alex_db.Engine.Value.{Platform, Value}
use run_alex_db.Engine.Expr.{Expr, is_bound}
use run_alex_db.Engine.Table.{Row, Table}
use run_alex_db.Engine.Compare.{Chars}
use run_alex_db.Engine.Prepared.{bound_at, bind_row, push_row, push_rows}

-- A list cut into pieces of these lengths.
unfoldable pub chunks {ℓ} : {A : Type ℓ} → List ℕ → List A → List (List A)
chunks [] xs = []
chunks (n ∷ ns) xs = take n xs ∷ chunks ns (drop n xs)

unfoldable pub sum_of : List ℕ → ℕ
sum_of [] = 0
sum_of (n ∷ ns) = n + sum_of ns

drop-nil {ℓ} : (A : Type ℓ) (n : ℕ) → drop {A = A} n [] ≡ []
drop-nil A zero = refl
drop-nil A (suc n) = refl

drop-drop {ℓ} : {A : Type ℓ} (i n : ℕ) (xs : List A) → drop n (drop i xs) ≡ drop (i + n) xs
drop-drop zero n xs = ap (λ k. drop k xs) (omega arith)
drop-drop {A = A} (suc i) n [] = drop-nil A n ∙ sym (drop-nil A (suc i + n))
drop-drop (suc i) n (x ∷ xs) =
    let sum : suc (i + n) ≡ suc i + n = omega arith in
    drop-drop i n xs ∙ ap (λ k. drop k (x ∷ xs)) sum

module _ (pf : Platform) (cs : Chars) (show : Expr → Str) where
  open pf use {F}

  bound_at-drop :
      (bound : List (Value F)) (i n : ℕ)
      → i < length bound
      → bound_at pf cs show bound i ∷ take n (drop (suc i) bound) ≡ take (suc n) (drop i bound)
  unfolding bound_at
  bound_at-drop [] i n h = absurd (omega arith)
  bound_at-drop (v ∷ bound) zero n h = refl
  bound_at-drop (v ∷ bound) (suc i) n h = bound_at-drop bound i n (omega arith)

  bind_row-marks :
      (bound : List (Value F)) (i : ℕ) (es : List Expr)
      → All (λ e. is_bound e ≡ true) es
      → i + length es ≤ length bound
      → bind_row pf cs show bound i es ≡ (take (length es) (drop i bound), i + length es)
  unfolding bind_row
  bind_row-marks bound i [] h small = ap (λ n. ([], n)) (omega arith)
  bind_row-marks bound i (e ∷ es) (he, hs) small =
      let later = bind_row-marks bound (suc i) es hs (omega arith) in
      rw (he, later)
        (ap₂ (λ (row : Row F) (n : ℕ). (row, n)) (bound_at-drop bound i (length es) (omega arith))
          (omega arith))

  push_rows_marked :
      (bound : List (Value F)) (i : ℕ) (ess : List (List Expr)) (t : Table F)
      → All (All (λ e. is_bound e ≡ true)) ess
      → i + sum_of (map length ess) ≤ length bound
      → (push_rows pf cs show bound i ess t).rows ≡ t.rows ++ chunks (map length ess) (drop i bound)
  unfolding push_rows push_row chunks sum_of
  push_rows_marked bound i [] t h small = sym (append-nil t.rows)
  push_rows_marked bound i (es ∷ ess) t (hes, hess) small =
      let row = take (length es) (drop i bound) in
      ap (λ b. (push_rows pf cs show bound b.1 ess (push_row pf cs show b.0 t)).rows)
        (bind_row-marks bound i es hes (omega arith))
      ∙ push_rows_marked bound (i + length es) ess (push_row pf cs show row t) hess (omega arith)
      ∙ append_assoc t.rows (row ∷ []) _
      ∙ ap (λ l. t.rows ++ (row ∷ chunks (map length ess) l)) (sym (drop-drop i (length es) bound))

  -- A prepared INSERT whose values are all question marks adds the bound values to the table's rows in the
  -- order in which they are bound, cut into rows as its lists of values are, if there are values enough.
  pub push_rows-marks :
      (bound : List (Value F)) (ess : List (List Expr)) (t : Table F)
      → All (All (λ e. is_bound e ≡ true)) ess
      → sum_of (map length ess) ≤ length bound
      → (push_rows pf cs show bound 0 ess t).rows ≡ t.rows ++ chunks (map length ess) bound
  push_rows-marks bound ess t h small = push_rows_marked bound 0 ess t h (omega (arith, small))
