-- ===== src/Engine/Alter/Sync.antt =====
-- The column stores under ALTER TABLE.
use run_alex_db.Common.{
  ℕ, zero, suc, ◌+◌, ◌<◌, ◌≤◌, ◌≡◌, refl, sym, ap, ap₂, ◌∙◌, arith, none, some, List, [], ◌∷◌, ◌++◌,
  map, Bool, All, length, get_elem?, remove_at, replicate, if◌then◌else◌,
}
use run_alex_db.Common.Dict.{Str}
use run_alex_db.Engine.Value.{Value}
use run_alex_db.Engine.Table.{Column, Row}
use run_alex_db.Engine.Rows.Sync.{stores_of}
use run_alex_db.Engine.Alter.{extend_stores, rename_at}

module _ {ℓ} {A : Type ℓ} where
  -- Taking a place out of a row moves what stands behind it, and nothing else.
  remove_before : (xs : List A) (k g : ℕ) → k < g → get_elem? (remove_at xs g) k ≡ get_elem? xs k
  remove_before [] k g h = refl
  remove_before (x ∷ xs) k zero h = absurd (omega arith)
  remove_before (x ∷ xs) zero (suc g) h = refl
  remove_before (x ∷ xs) (suc k) (suc g) h = remove_before xs k g (omega arith)

  remove_behind :
      (xs : List A) (k g : ℕ) → g ≤ k → get_elem? (remove_at xs g) k ≡ get_elem? xs (suc k)
  remove_behind [] k g h = refl
  remove_behind (x ∷ xs) k zero h = refl
  remove_behind (x ∷ xs) zero (suc g) h = absurd (omega arith)
  remove_behind (x ∷ xs) (suc k) (suc g) h = remove_behind xs k g (omega arith)

  snoc_before :
      (xs : List A) (y : A) (k : ℕ) → k < length xs → get_elem? (xs ++ (y ∷ [])) k ≡ get_elem? xs k
  snoc_before [] y k h = absurd (omega arith)
  snoc_before (x ∷ xs) y zero h = refl
  snoc_before (x ∷ xs) y (suc k) h = snoc_before xs y k (omega arith)

  snoc_at : (xs : List A) (y : A) → get_elem? (xs ++ (y ∷ [])) (length xs) ≡ some y
  snoc_at [] y = refl
  snoc_at (x ∷ xs) y = snoc_at xs y

-- A store's value is read from one place of the row.
module _ {ℓ} {F : Type 0} {A : Type ℓ} (test : Column → Bool) (at : ℕ → Row F → A)
    (read : (k j : ℕ) (r r' : Row F) → get_elem? r k ≡ get_elem? r' j → at k r ≡ at j r') where
  map_at :
      (f : Row F → Row F) (k j : ℕ) (rs : List (Row F))
      → ((r : Row F) → get_elem? (f r) k ≡ get_elem? r j)
      → map (at k) (map f rs) ≡ map (at j) rs
  map_at f k j [] h = refl
  map_at f k j (r ∷ rs) h = ap₂ (λ x l. x ∷ l) (read k j (f r) r (h r)) (map_at f k j rs h)

  stores_behind :
      (g ci : ℕ) (cs : List Column) (rs : List (Row F))
      → g ≤ ci
      → stores_of test at ci cs (map (λ r. remove_at r g) rs) ≡ stores_of test at (suc ci) cs rs
  stores_behind g ci [] rs h = refl
  stores_behind g ci (c ∷ cs) rs h =
      ap₂ (λ l ss. (if test c then some l else none) ∷ ss)
        (map_at (λ r. remove_at r g) ci (suc ci) rs (λ r. remove_behind r ci g h))
        (stores_behind g (suc ci) cs rs (omega arith))

  pub stores_of-remove_at :
      (i ci : ℕ) (cs : List Column) (rs : List (Row F))
      → stores_of test at ci (remove_at cs i) (map (λ r. remove_at r (ci + i)) rs)
        ≡ remove_at (stores_of test at ci cs rs) i
  stores_of-remove_at i ci [] rs = refl
  stores_of-remove_at zero ci (c ∷ cs) rs = stores_behind (ci + 0) ci cs rs (omega arith)
  stores_of-remove_at (suc i) ci (c ∷ cs) rs =
      let next : ci + suc i ≡ suc ci + i = omega arith in
      ap₂ (λ l ss. (if test c then some l else none) ∷ ss)
        (map_at (λ r. remove_at r (ci + suc i)) ci ci rs
          (λ r. remove_before r ci (ci + suc i) (omega arith)))
        (ap (λ g. stores_of test at (suc ci) (remove_at cs i) (map (λ r. remove_at r g) rs)) next
          ∙ stores_of-remove_at i (suc ci) cs rs)

  -- The values before the end of a row, where one is added.
  map_snoc :
      (k n : ℕ) (v : Value F) (rs : List (Row F))
      → All (λ r. length r ≡ n) rs
      → k < n
      → map (at k) (map (λ r. r ++ (v ∷ [])) rs) ≡ map (at k) rs
  map_snoc k n v [] h small = refl
  map_snoc k n v (r ∷ rs) (hr, hrs) small =
      ap₂ (λ x l. x ∷ l) (read k k _ r (snoc_before r v k (omega (arith, hr, small))))
        (map_snoc k n v rs hrs small)

  map_last :
      (n : ℕ) (v : Value F) (a : A) (rs : List (Row F))
      → All (λ r. length r ≡ n) rs
      → ((r : Row F) → get_elem? r n ≡ some v → at n r ≡ a)
      → map (at n) (map (λ r. r ++ (v ∷ [])) rs) ≡ replicate (length rs) a
  map_last n v a [] h last = refl
  map_last n v a (r ∷ rs) (hr, hrs) last =
      ap₂ (λ x l. x ∷ l)
        (last (r ++ (v ∷ [])) (ap (get_elem? (r ++ (v ∷ []))) (sym hr) ∙ snoc_at r v))
        (map_last n v a rs hrs last)

  pub stores_of-snoc :
      (a : A) (v : Value F) (n ci : ℕ) (c : Column) (cs : List Column) (rs : List (Row F))
      → All (λ r. length r ≡ n) rs
      → ci + length cs ≡ n
      → ((r : Row F) → get_elem? r n ≡ some v → at n r ≡ a)
      → extend_stores
          (length cs)
          (if test c then some (replicate (length rs) a) else none)
          (stores_of test at ci cs rs)
        ≡ stores_of test at ci (cs ++ (c ∷ [])) (map (λ r. r ++ (v ∷ [])) rs)
  unfolding extend_stores
  stores_of-snoc a v n ci c [] rs wide total last =
      let here : ci ≡ n = omega arith in
      ap (λ l. (if test c then some l else none) ∷ [])
        (sym (map_last n v a rs wide last)
          ∙ ap (λ k. map (at k) (map (λ r. r ++ (v ∷ [])) rs)) (sym here))
  stores_of-snoc a v n ci c (d ∷ cs) rs wide total last =
      ap₂ (λ l ss. (if test d then some l else none) ∷ ss)
        (sym (map_snoc ci n v rs wide (omega (arith, total))))
        (stores_of-snoc a v n (suc ci) c cs rs wide (omega (arith, total)) last)

  pub stores_of-rename_at :
      (i ci : ℕ) (name : Str) (cs : List Column) (rs : List (Row F))
      → ((c : Column) → test (record c { name = name }) ≡ test c)
      → stores_of test at ci cs rs ≡ stores_of test at ci (rename_at i name cs) rs
  unfolding rename_at
  stores_of-rename_at i ci name [] rs h = refl
  stores_of-rename_at zero ci name (c ∷ cs) rs h =
      ap (λ b. (if b then some (map (at ci) rs) else none) ∷ stores_of test at (suc ci) cs rs)
        (sym (h c))
  stores_of-rename_at (suc i) ci name (c ∷ cs) rs h =
      ap (λ ss. (if test c then some (map (at ci) rs) else none) ∷ ss)
        (stores_of-rename_at i (suc ci) name cs rs h)
