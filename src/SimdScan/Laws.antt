-- ===== src/SimdScan/Laws.antt =====
-- The vector paths find what the scalar paths find.
use native.Mathlib.Decide.{ℕ_discrete}
use native.Mathlib.Numerals.{towards_suc}
use run_alex_db.Common.{
  ℕ, zero, suc, ◌+◌, ◌-◌, ◌<◌, ◌≡◌, refl, arith, ap, ◌∙◌, sym, List, [], ◌∷◌, ◌++◌,
}
use run_alex_db.Common.{
  append_assoc, append-nil, Bool, true, false, ◌==◌, if◌then◌else◌, ◌&&◌, ◌||◌, length, replicate,
}
use run_alex_db.Common.{inl, inr, Bool-cases}
use run_alex_db.Common.Int.{ℤ, ltb_ℤ, eqb_ℤ}
use run_alex_db.Common.Dict.{Str, str_eq, str_eq_iff}
use run_alex_db.SimdScan.{
  scan_from, movemask, push_lanes, scan_tail, scan_avx2, scan_eq_avx2, scan_gt_avx2, scan_lt_avx2,
  scan_eq_i64, scan_gt_i64, scan_lt_i64, padded32, scan_eq_str_avx2, scan_eq_str,
}

ruleset lane_laws = (append_assoc, append-nil, towards_suc)

-- The bits of the mask are read lane by lane: what is pushed is what the scalar scan of the four rows
-- finds.
push_lanes_lem :
    (a b c d : Bool) (i : ℕ) (out : List ℕ)
    → push_lanes (movemask a b c d) i out
      ≡ out ++ scan_from (λ (x : Bool). x) i (a ∷ b ∷ c ∷ d ∷ [])
unfolding push_lanes movemask scan_from
push_lanes_lem true true true true i out = simp lane_laws
push_lanes_lem true true true false i out = simp lane_laws
push_lanes_lem true true false true i out = simp lane_laws
push_lanes_lem true true false false i out = simp lane_laws
push_lanes_lem true false true true i out = simp lane_laws
push_lanes_lem true false true false i out = simp lane_laws
push_lanes_lem true false false true i out = simp lane_laws
push_lanes_lem true false false false i out = refl
push_lanes_lem false true true true i out = simp lane_laws
push_lanes_lem false true true false i out = simp lane_laws
push_lanes_lem false true false true i out = simp lane_laws
push_lanes_lem false true false false i out = simp lane_laws
push_lanes_lem false false true true i out = simp lane_laws
push_lanes_lem false false true false i out = simp lane_laws
push_lanes_lem false false false true i out = simp lane_laws
push_lanes_lem false false false false i out = simp lane_laws

scan_tail_lem :
    (test : ℤ → Bool) (i : ℕ) (vs : List ℤ) (out : List ℕ)
    → scan_tail test i vs out ≡ out ++ scan_from test i vs
unfolding scan_tail scan_from
scan_tail_lem test i [] out = sym (append-nil out)
scan_tail_lem test i (v ∷ vs) out = elim (Bool-cases (test v)) [
  | inl hit ↦ rw hit (scan_tail_lem test (suc i) vs (out ++ (i ∷ [])) ∙ append_assoc out (i ∷ []) _)
  | inr miss ↦ rw miss (scan_tail_lem test (suc i) vs out)
]

scan_avx2_step :
    (test : ℤ → Bool) (i : ℕ) (a b c d : ℤ) (rest : List ℤ) (out : List ℕ)
    → scan_avx2 test i (a ∷ b ∷ c ∷ d ∷ rest) out
      ≡ scan_avx2 test
          (i + 4)
          rest
          (push_lanes (movemask (test a) (test b) (test c) (test d)) i out)
unfolding scan_avx2
scan_avx2_step test i a b c d rest out = refl

scan_from_four :
    (test : ℤ → Bool) (i : ℕ) (a b c d : ℤ) (rest : List ℤ)
    → scan_from (λ (x : Bool). x) i (test a ∷ test b ∷ test c ∷ test d ∷ [])
        ++ scan_from test (i + 4) rest
      ≡ scan_from test i (a ∷ b ∷ c ∷ d ∷ rest)
unfolding scan_from
scan_from_four test i a b c d rest = simp towards_suc (ground arith)

scan_avx2_lem :
    (test : ℤ → Bool) (i : ℕ) (vs : List ℤ) (out : List ℕ)
    → scan_avx2 test i vs out ≡ out ++ scan_from test i vs
scan_avx2_lem test i [] out = unfold scan_avx2 in scan_tail_lem test i [] out
scan_avx2_lem test i (a ∷ []) out = unfold scan_avx2 in scan_tail_lem test i (a ∷ []) out
scan_avx2_lem test i (a ∷ b ∷ []) out = unfold scan_avx2 in scan_tail_lem test i (a ∷ b ∷ []) out
scan_avx2_lem test i (a ∷ b ∷ c ∷ []) out =
    unfold scan_avx2 in scan_tail_lem test i (a ∷ b ∷ c ∷ []) out
scan_avx2_lem test i (a ∷ b ∷ c ∷ d ∷ rest) out =
    scan_avx2_step test i a b c d rest out
    ∙ scan_avx2_lem test (i + 4) rest _
    ∙ rw (push_lanes_lem (test a) (test b) (test c) (test d) i out)
        (append_assoc out _ _ ∙ ap (λ l. out ++ l) (scan_from_four test i a b c d rest))

-- The vector scans return what the scalar scans return, for every column and every target: whether the
-- processor has AVX2 makes no difference to the rows that are found or to their order.
pub scan_i64_paths :
    (data' : List ℤ) (target : ℤ)
    → (scan_eq_i64 true data' target ≡ scan_eq_i64 false data' target)
      × (scan_gt_i64 true data' target ≡ scan_gt_i64 false data' target)
      × (scan_lt_i64 true data' target ≡ scan_lt_i64 false data' target)
unfolding scan_eq_i64 scan_gt_i64 scan_lt_i64 scan_eq_avx2 scan_gt_avx2 scan_lt_avx2
scan_i64_paths data' target =
    (scan_avx2_lem _ 0 data' [], scan_avx2_lem _ 0 data' [], scan_avx2_lem _ 0 data' [])

-- Two strings of one length, padded with the same zeros, agree exactly when they are equal.
append_cancel : (a b c : List ℕ) → length a ≡ length b → a ++ c ≡ b ++ c → a ≡ b
append_cancel [] [] c h e = refl
append_cancel [] (y ∷ b) c h e = absurd (omega arith)
append_cancel (x ∷ a) [] c h e = absurd (omega arith)
append_cancel (x ∷ a) (y ∷ b) c h e = ground (arith, append_cancel a b c)

padded_test :
    (s target : Str)
    → (length s == length target && str_eq (padded32 s) (padded32 target)) ≡ str_eq s target
unfolding padded32
padded_test s target =
    let pad = λ (n : ℕ). replicate {A = ℕ} (32 - n) 0 in
    elim (Bool-cases (str_eq (padded32 s) (padded32 target))) [
      | inl same ↦
          let joined : s ++ pad (length s) ≡ target ++ pad (length target) =
            (str_eq_iff _ _).0 same in
          elim (ℕ_discrete (length s) (length target)) [
            | yes e ↦
                let equal = append_cancel s target (pad (length target)) e (rw e at joined) in
                ground (arith, same, (str_eq_iff s target).1 equal)
            | no ne ↦ ground (arith, str_eq_iff s target, λ (q : s ≡ target). ap length q)
          ]
      | inr other ↦ ground (
        arith,
        other,
        str_eq_iff s target,
        λ (q : s ≡ target). ap padded32 q,
        str_eq_iff (padded32 s) (padded32 target),
      )
    ]

if_same {ℓ} : {A : Type ℓ} (b : Bool) (x : A) → (if b then x else x) ≡ x
if_same true x = refl
if_same false x = refl

scan_from_ext {ℓ} :
    {A : Type ℓ} (f g : A → Bool) (i : ℕ) (xs : List A)
    → ((x : A) → f x ≡ g x)
    → scan_from f i xs ≡ scan_from g i xs
unfolding scan_from
scan_from_ext f g i [] h = refl
scan_from_ext f g i (x ∷ xs) h = rw (h x, scan_from_ext f g (suc i) xs h)

-- The vector scan of a text column, which compares 32-byte buffers padded with zeros, finds exactly the
-- rows that the byte-wise scan finds, for every column and every target.
pub scan_eq_str_paths :
    (data' : List Str) (target : Str)
    → scan_eq_str true data' target ≡ scan_eq_str false data' target
unfolding scan_eq_str scan_eq_str_avx2
scan_eq_str_paths data' target =
    rw (scan_from_ext _ (λ s. str_eq s target) 0 data' (λ s. padded_test s target)) (if_same _ _)

abbrev pub contains : List ℕ → ℕ → Bool
contains [] k = false
contains (i ∷ is) k = i == k || contains is k

scan_from_misses {ℓ} :
    {A : Type ℓ} (test : A → Bool) (i : ℕ) (xs : List A) (k : ℕ)
    → k < i
    → contains (scan_from test i xs) k ≡ false
unfolding scan_from
scan_from_misses test i [] k h = refl
scan_from_misses test i (x ∷ xs) k h =
    ground (arith, scan_from_misses test (suc i) xs k (omega arith))

unfoldable pub test_at {ℓ} : {A : Type ℓ} → (A → Bool) → List A → ℕ → Bool
test_at test [] k = false
test_at test (x ∷ xs) zero = test x
test_at test (x ∷ xs) (suc k) = test_at test xs k

contains-scan_from {ℓ} :
    {A : Type ℓ} (test : A → Bool) (i : ℕ) (xs : List A) (k : ℕ)
    → contains (scan_from test i xs) (i + k) ≡ test_at test xs k
unfolding scan_from test_at
contains-scan_from test i [] k = refl
contains-scan_from test i (x ∷ xs) zero =
    ground (arith, scan_from_misses test (suc i) xs i (omega arith))
contains-scan_from test i (x ∷ xs) (suc k) = ground (arith, contains-scan_from test (suc i) xs k)

contains_scan {ℓ} :
    {A : Type ℓ} (test : A → Bool) (xs : List A) (k : ℕ)
    → contains (scan_from test 0 xs) k ≡ test_at test xs k
contains_scan test xs k =
    ap (λ j. contains (scan_from test 0 xs) j) (omega arith) ∙ contains-scan_from test 0 xs k

contains_scalar :
    (data' : List ℤ) (target : ℤ) (k : ℕ)
    → (contains (scan_eq_i64 false data' target) k ≡ test_at (λ v. eqb_ℤ v target) data' k)
      × (contains (scan_gt_i64 false data' target) k ≡ test_at (λ v. ltb_ℤ target v) data' k)
      × (contains (scan_lt_i64 false data' target) k ≡ test_at (λ v. ltb_ℤ v target) data' k)
unfolding scan_eq_i64 scan_gt_i64 scan_lt_i64
contains_scalar data' target k = (
  contains_scan (λ v. eqb_ℤ v target) data' k,
  contains_scan (λ v. ltb_ℤ target v) data' k,
  contains_scan (λ v. ltb_ℤ v target) data' k,
)

-- A scan names row `k` exactly when the column has a value there that passes the comparison: on both
-- paths, for equality, greater-than and less-than.
pub contains-scan_i64 :
    (avx2 : Bool) (data' : List ℤ) (target : ℤ) (k : ℕ)
    → (contains (scan_eq_i64 avx2 data' target) k ≡ test_at (λ v. eqb_ℤ v target) data' k)
      × (contains (scan_gt_i64 avx2 data' target) k ≡ test_at (λ v. ltb_ℤ target v) data' k)
      × (contains (scan_lt_i64 avx2 data' target) k ≡ test_at (λ v. ltb_ℤ v target) data' k)
contains-scan_i64 false data' target k = contains_scalar data' target k
contains-scan_i64 true data' target k =
    let (eq, gt, lt) = scan_i64_paths data' target in
    rw (eq, gt, lt) (contains_scalar data' target k)
