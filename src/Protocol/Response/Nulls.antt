-- ===== src/Protocol/Response/Nulls.antt =====
-- The NULL bitmap of a binary row.
use Prim.Native.Nat.{bit_or}
use native.Mathlib.Decide.{ℕ_discrete}
use run_alex_db.Common.{ℕ, zero, suc, ◌+◌, ◌*◌, ◌/◌, ◌%◌, ◌^◌, ◌≤◌, ◌<◌, ◌≡◌, refl, arith, ap, ◌∙◌}
use run_alex_db.Common.{
  Option, none, some, List, [], ◌∷◌, Bool, true, false, ◌≢◌, ◌==◌, if◌then◌else◌,
}
use run_alex_db.Common.{length, get_or, replicate, length-set, length-replicate, get_or-replicate}
use run_alex_db.Common.{get_or-set_self, get_or-set_ne}
use run_alex_db.Common.Bytes.{or_bit, or_bit-IsByte}
use run_alex_db.Common.Dict.{Str}
use run_alex_db.Protocol.Response.{set_bit, mark_nulls, null_bitmap}

-- Bit `i` of a bitmap, lowest bit of each byte first.
abbrev pub bit_at : List ℕ → ℕ → Bool
bit_at bitmap i = get_or bitmap (i / 8) 0 / 2 ^ (i % 8) % 2 == 1

abbrev pub is_null : Option Str → Bool
is_null none = true
is_null (some s) = false

-- Whether entry `i` is there and NULL.
abbrev pub null_at : List (Option Str) → ℕ → Bool
null_at [] i = false
null_at (v ∷ vs) zero = is_null v
null_at (v ∷ vs) (suc i) = null_at vs i

abbrev Bytes : List ℕ → Type 0
Bytes bitmap = (i : ℕ) → get_or bitmap i 0 < 256

get_or-set_bit :
    (bitmap : List ℕ) (b i : ℕ)
    → b / 8 < length bitmap
    → get_or (set_bit bitmap b) i 0
      ≡ (if i == b / 8 then bit_or (get_or bitmap i 0) (2 ^ (b % 8)) else get_or bitmap i 0)
unfolding set_bit
get_or-set_bit bitmap b i h = elim (ℕ_discrete (b / 8) i) [
  | yes e ↦
      ground
        (arith, get_or-set_self bitmap (b / 8) (bit_or (get_or bitmap (b / 8) 0) (2 ^ (b % 8))) 0)
  | no ne ↦ ground (
    arith,
    get_or-set_ne bitmap {i = b / 8} {j = i} (bit_or (get_or bitmap (b / 8) 0) (2 ^ (b % 8))) 0,
  )
]

set_bit-Bytes :
    (bitmap : List ℕ) (b : ℕ) → b / 8 < length bitmap → Bytes bitmap → Bytes (set_bit bitmap b)
set_bit-Bytes bitmap b h bs i =
    ground (arith, bs i, get_or-set_bit bitmap b i h, or_bit-IsByte (get_or bitmap i 0) (b % 8))

bit_at-set_bit :
    (bitmap : List ℕ) (b i : ℕ)
    → b / 8 < length bitmap
    → Bytes bitmap
    → bit_at (set_bit bitmap b) i ≡ (if i == b then true else bit_at bitmap i)
bit_at-set_bit bitmap b i h bs = elim (ℕ_discrete (i / 8) (b / 8)) [
  | yes e ↦ ground (
    arith,
    get_or-set_bit bitmap b (i / 8) h,
    or_bit (get_or bitmap (i / 8) 0) (b % 8) (i % 8) (bs (i / 8)) (omega arith) (omega arith),
  )
  | no ne ↦ ground (arith, get_or-set_bit bitmap b (i / 8) h)
]

length-set_bit : (bitmap : List ℕ) (b : ℕ) → length (set_bit bitmap b) ≡ length bitmap
unfolding set_bit
length-set_bit bitmap b = length-set bitmap (b / 8) _

-- What the loop from value `i` on leaves in each bit: a bit below stays, the bit of a value still to
-- come is set if the value is NULL, and stays otherwise.
mark_nulls_below :
    (i : ℕ) (vs : List (Option Str)) (bitmap : List ℕ) (j : ℕ)
    → i + length vs + 2 ≤ 8 * length bitmap
    → Bytes bitmap
    → j < i + 2
    → bit_at (mark_nulls i vs bitmap) j ≡ bit_at bitmap j
unfolding mark_nulls
mark_nulls_below i [] bitmap j h bs lt = refl
mark_nulls_below i (some s ∷ vs) bitmap j h bs lt =
    mark_nulls_below (suc i) vs bitmap j (omega arith) bs (omega arith)
mark_nulls_below i (none ∷ vs) bitmap j h bs lt =
    let inside : (i + 2) / 8 < length bitmap = omega arith in
    mark_nulls_below (suc i) vs (set_bit bitmap (i + 2)) j
      (omega (arith, length-set_bit bitmap (i + 2))) (set_bit-Bytes bitmap (i + 2) inside bs)
      (omega arith)
    ∙ bit_at-set_bit bitmap (i + 2) j inside bs
    ∙ if_ne (omega arith)
  where
    if_ne : j ≢ i + 2 → (if j == i + 2 then true else bit_at bitmap j) ≡ bit_at bitmap j
    if_ne ne = ground arith

length-mark_nulls :
    (i : ℕ) (vs : List (Option Str)) (bitmap : List ℕ)
    → length (mark_nulls i vs bitmap) ≡ length bitmap
unfolding mark_nulls
length-mark_nulls i [] bitmap = refl
length-mark_nulls i (some s ∷ vs) bitmap = length-mark_nulls (suc i) vs bitmap
length-mark_nulls i (none ∷ vs) bitmap =
    length-mark_nulls (suc i) vs (set_bit bitmap (i + 2)) ∙ length-set_bit bitmap (i + 2)

zero_div : (k : ℕ) → 0 / 2 ^ k ≡ 0
zero_div k = omega arith

mark_nulls_lem :
    (k i : ℕ) (vs : List (Option Str)) (bitmap : List ℕ)
    → i + length vs + 2 ≤ 8 * length bitmap
    → Bytes bitmap
    → ((j : ℕ) → i + 2 ≤ j → bit_at bitmap j ≡ false)
    → k < length vs
    → bit_at (mark_nulls i vs bitmap) (i + 2 + k) ≡ null_at vs k
unfolding mark_nulls
mark_nulls_lem k i [] bitmap h bs clear lt = absurd (omega arith)
mark_nulls_lem zero i (some s ∷ vs) bitmap h bs clear lt =
    mark_nulls_below (suc i) vs bitmap (i + 2 + 0) (omega arith) bs (omega arith)
    ∙ clear (i + 2 + 0) (omega arith)
mark_nulls_lem zero i (none ∷ vs) bitmap h bs clear lt =
    let inside : (i + 2) / 8 < length bitmap = omega arith in
    let here : i + 2 + 0 ≡ i + 2 = omega arith in
    mark_nulls_below (suc i) vs (set_bit bitmap (i + 2)) (i + 2 + 0)
      (omega (arith, length-set_bit bitmap (i + 2))) (set_bit-Bytes bitmap (i + 2) inside bs)
      (omega arith)
    ∙ bit_at-set_bit bitmap (i + 2) (i + 2 + 0) inside bs
    ∙ ground arith
mark_nulls_lem (suc k) i (some s ∷ vs) bitmap h bs clear lt =
    ap (λ j. bit_at (mark_nulls (suc i) vs bitmap) j) (omega arith)
    ∙ mark_nulls_lem k (suc i) vs bitmap (omega arith) bs (λ j le. clear j (omega arith))
        (omega arith)
mark_nulls_lem (suc k) i (none ∷ vs) bitmap h bs clear lt =
    let inside : (i + 2) / 8 < length bitmap = omega arith in
    ap (λ j. bit_at (mark_nulls (suc i) vs (set_bit bitmap (i + 2))) j) (omega arith)
    ∙ mark_nulls_lem k (suc i) vs (set_bit bitmap (i + 2))
        (omega (arith, length-set_bit bitmap (i + 2))) (set_bit-Bytes bitmap (i + 2) inside bs)
        (λ j le. bit_at-set_bit bitmap (i + 2) j inside bs ∙ ground (arith, clear j (omega arith)))
        (omega arith)

-- In the bitmap of a binary row bit `i + 2` is set exactly when value `i` is NULL, and the two lowest
-- bits, which stand for no value, are clear; the bitmap has a bit for each value.
pub null_bitmap_lem :
    (values : List (Option Str))
    → ((i : ℕ) → i < length values → bit_at (null_bitmap values) (i + 2) ≡ null_at values i)
      × ((j : ℕ) → j < 2 → bit_at (null_bitmap values) j ≡ false)
      × (length (null_bitmap values) ≡ (length values + 9) / 8)
unfolding null_bitmap
null_bitmap_lem values =
    let n = (length values + 7 + 2) / 8 in
    let count = length-replicate {A = ℕ} n 0 in
    let zeros : Bytes (replicate n 0) = λ i. rw (get_or-replicate {A = ℕ} n 0 i) (omega arith) in
    let clear : (j : ℕ) → bit_at (replicate n 0) j ≡ false =
      λ j. rw (get_or-replicate {A = ℕ} n 0 (j / 8)) (ground (arith, zero_div (j % 8))) in
    (
      λ i lt.
          ap (λ j. bit_at (mark_nulls 0 values (replicate n 0)) j) (omega arith)
          ∙ mark_nulls_lem i 0 values (replicate n 0) (omega (arith, count)) zeros (λ j le. clear j)
              lt,
      λ j lt.
          mark_nulls_below 0 values (replicate n 0) j (omega (arith, count)) zeros (omega arith)
          ∙ clear j,
      length-mark_nulls 0 values (replicate n 0) ∙ count ∙ omega arith,
    )
