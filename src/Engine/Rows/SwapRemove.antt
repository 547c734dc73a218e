-- ===== src/Engine/Rows/SwapRemove.antt =====
-- Where the elements of a list are after `swap_remove`.
use run_alex_db.Common.{ℕ, zero, suc, ◌-◌, ◌≡◌, ◌≢◌, ◌<◌, refl, sym, ap, ◌∙◌, arith}
use run_alex_db.Common.{List, [], ◌∷◌}
use run_alex_db.Common.{get_elem?, length, remove_at, last?, get_elem?-in}
use run_alex_db.Engine.Rows.{swap_remove, refill}

module _ {ℓ} {A : Type ℓ} where
  get_elem?-remove_at_lt :
      (xs : List A) (i j : ℕ) → i < j → get_elem? (remove_at xs j) i ≡ get_elem? xs i
  get_elem?-remove_at_lt [] i j h = refl
  get_elem?-remove_at_lt (x ∷ xs) i zero h = absurd (omega arith)
  get_elem?-remove_at_lt (x ∷ xs) zero (suc j) h = refl
  get_elem?-remove_at_lt (x ∷ xs) (suc i) (suc j) h = get_elem?-remove_at_lt xs i j (omega arith)

  last?-get_elem? : (x : A) (xs : List A) → last? (x ∷ xs) ≡ get_elem? (x ∷ xs) (length xs)
  last?-get_elem? x [] = refl
  last?-get_elem? x (y ∷ xs) = last?-get_elem? y xs

  pub get_elem?-swap_remove_other :
      (xs : List A) (ri i : ℕ)
      → i ≢ ri
      → i < length xs - 1
      → get_elem? (swap_remove xs ri) i ≡ get_elem? xs i
  unfolding swap_remove refill
  get_elem?-swap_remove_other [] ri i ne h = refl
  get_elem?-swap_remove_other (x ∷ xs) zero zero ne h = absurd (ne refl)
  get_elem?-swap_remove_other (x ∷ []) zero (suc i) ne h = absurd (omega arith)
  get_elem?-swap_remove_other (x ∷ y ∷ xs) zero (suc i) ne h =
      let (z, e) = get_elem?-in (y ∷ xs) (length xs) (omega arith) in
      rw (last?-get_elem? y xs, e)
        (get_elem?-remove_at_lt (y ∷ xs) i (length (y ∷ xs) - 1) (omega arith))
  get_elem?-swap_remove_other (x ∷ xs) (suc ri) zero ne h = refl
  get_elem?-swap_remove_other (x ∷ xs) (suc ri) (suc i) ne h =
      get_elem?-swap_remove_other xs ri i (λ q. ne (ap suc q)) (omega arith)

  pub get_elem?-swap_remove_self :
      (xs : List A) (ri : ℕ)
      → ri < length xs - 1
      → get_elem? (swap_remove xs ri) ri ≡ get_elem? xs (length xs - 1)
  unfolding swap_remove refill
  get_elem?-swap_remove_self [] ri h = absurd (omega arith)
  get_elem?-swap_remove_self (x ∷ []) zero h = absurd (omega arith)
  get_elem?-swap_remove_self (x ∷ y ∷ xs) zero h =
      let (z, e) = get_elem?-in (y ∷ xs) (length xs) (omega arith) in
      let last_place : length (x ∷ y ∷ xs) - 1 ≡ suc (length xs) = omega arith in
      rw (last?-get_elem? y xs, e) (sym (ap (λ n. get_elem? (x ∷ y ∷ xs) n) last_place ∙ e))
  get_elem?-swap_remove_self (x ∷ []) (suc ri) h = absurd (omega arith)
  get_elem?-swap_remove_self (x ∷ y ∷ xs) (suc ri) h =
      let last_place : length (x ∷ y ∷ xs) - 1 ≡ suc (length (y ∷ xs) - 1) = omega arith in
      get_elem?-swap_remove_self (y ∷ xs) ri (omega arith)
      ∙ sym (ap (λ n. get_elem? (x ∷ y ∷ xs) n) last_place)
