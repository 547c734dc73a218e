-- ===== src/Protocol/Params/Nulls.antt =====
-- Which parameters of a statement are NULL, and how many there are.
use run_alex_db.Common.{ℕ, zero, suc, ◌+◌, ◌/◌, ◌%◌, ◌^◌, ◌≤◌, ◌<◌, ◌≡◌, arith, ap, ◌∙◌}
use run_alex_db.Common.{Option, none, some, List, [], ◌∷◌, inl, inr, Bool-cases, >>=-eq-some}
use run_alex_db.Common.{false, ◌||◌, ltb, ◌==◌, length, get_elem?, get_or, take, drop}
use run_alex_db.Common.Dict.{Str}
use run_alex_db.Engine.Value.{Platform}
use run_alex_db.Protocol.Params.{
  read_binary_param, read_params, param_types, new_bound_at, parse_execute_params,
}
use run_alex_db.Protocol.Response.Nulls.{bit_at, is_null, null_at}
use run_alex_db.Protocol.Params.Total.{slice_lem, length-param_types}

get_or_of_some : (xs : List ℕ) (i : ℕ) {x : ℕ} → get_elem? xs i ≡ some x → get_or xs i 0 ≡ x
get_or_of_some [] i h = cc
get_or_of_some (x ∷ xs) zero h = cc
get_or_of_some (x ∷ xs) (suc i) h = get_or_of_some xs i h

module _ (pf : Platform) where
  -- One round of the loop: the first entry is NULL exactly when its bit is set.
  read_params-cons :
      (payload null_bitmap : List ℕ) (t : ℕ) (ts : List ℕ) (i p : ℕ) (vs : List (Option Str))
      → read_params pf payload null_bitmap (t ∷ ts) i p ≡ some vs
      → (v : Option Str) × (rest : List (Option Str)) × (p' : ℕ) × (vs ≡ v ∷ rest)
        × (read_params pf payload null_bitmap ts (suc i) p' ≡ some rest)
        × (is_null v ≡ bit_at null_bitmap i)
  unfolding read_params
  read_params-cons payload null_bitmap t ts i p vs h =
      let (byte, eb, h1) = >>=-eq-some (get_elem? null_bitmap (i / 8)) _ h in
      let same = get_or_of_some null_bitmap (i / 8) eb in
      elim (Bool-cases (byte / 2 ^ (i % 8) % 2 == 1)) [
        | inl marked ↦
            let (rest, er, h2) =
              >>=-eq-some (read_params pf payload null_bitmap ts (suc i) p) _ (rw marked at h1) in
            (none, rest, p, cc, er, rw (same, marked))
        | inr clear ↦
            let (x, ex, h2) = >>=-eq-some (read_binary_param pf payload p t) _ (rw clear at h1) in
            let (rest, er, h3) =
              >>=-eq-some (read_params pf payload null_bitmap ts (suc i) x.1) _ h2 in
            (some x.0, rest, x.1, cc, er, rw (same, clear))
      ]

  length-read_params :
      (payload null_bitmap ts : List ℕ) (i p : ℕ) (vs : List (Option Str))
      → read_params pf payload null_bitmap ts i p ≡ some vs
      → length vs ≡ length ts
  length-read_params payload null_bitmap [] i p vs h = unfold read_params in ground arith
  length-read_params payload null_bitmap (t ∷ ts) i p vs h =
      let (v, rest, p', e, er, _) = read_params-cons payload null_bitmap t ts i p vs h in
      rw e (ap suc (length-read_params payload null_bitmap ts (suc i) p' rest er))

  null_at-read_params :
      (k : ℕ) (payload null_bitmap ts : List ℕ) (i p : ℕ) (vs : List (Option Str))
      → read_params pf payload null_bitmap ts i p ≡ some vs
      → k < length ts
      → null_at vs k ≡ bit_at null_bitmap (i + k)
  null_at-read_params k payload null_bitmap [] i p vs h lt = absurd (omega arith)
  null_at-read_params zero payload null_bitmap (t ∷ ts) i p vs h lt =
      let (v, rest, p', e, er, bit) = read_params-cons payload null_bitmap t ts i p vs h in
      rw e (bit ∙ ap (λ j. bit_at null_bitmap j) (omega arith))
  null_at-read_params (suc k) payload null_bitmap (t ∷ ts) i p vs h lt =
      let (v, rest, p', e, er, _) = read_params-cons payload null_bitmap t ts i p vs h in
      rw e (
        null_at-read_params k payload null_bitmap ts (suc i) p' rest er (omega arith)
        ∙ ap (λ j. bit_at null_bitmap j) (omega arith))

  -- When the payload of an execute command holds the whole NULL bitmap, one entry comes out for each
  -- parameter of the statement, and entry `i` is NULL exactly when bit `i` of the bitmap is set.
  pub parse_execute_params_nulls :
      (payload : List ℕ) (n : ℕ) (vs : List (Option Str))
      → 1 ≤ n
      → 10 + (n + 7) / 8 ≤ length payload
      → parse_execute_params pf payload n ≡ some vs
      → (length vs ≡ n)
        × ((i : ℕ) → i < n → null_at vs i ≡ bit_at (take ((n + 7) / 8) (drop 10 payload)) i)
  unfolding parse_execute_params
  parse_execute_params_nulls payload n vs hn fits h =
      let early : (n == 0 || ltb (length payload) 10) ≡ false = ground arith in
      let whole : ltb (length payload) (10 + (n + 7) / 8) ≡ false = ground arith in
      let h0 = rw (early, whole, slice_lem payload 10 ((n + 7) / 8) fits) at h in
      let (b, eb, h1) = >>=-eq-some (new_bound_at pf payload (10 + (n + 7) / 8)) _ h0 in
      let (ts, et, h2) = >>=-eq-some (param_types pf payload n b) _ h1 in
      let bitmap = take ((n + 7) / 8) (drop 10 payload) in
      let count = length-param_types pf payload n b ts et in
      (
        length-read_params payload bitmap ts 0 _ vs h2 ∙ count,
        λ i lt.
            null_at-read_params i payload bitmap ts 0 _ vs h2 (omega arith)
            ∙ ap (λ j. bit_at bitmap j) (omega arith),
      )
