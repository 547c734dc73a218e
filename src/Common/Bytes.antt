-- ===== src/Common/Bytes.antt =====
-- Little-endian words, and bit operations on one byte.
use Prim.Native.Nat.{ℕ, zero, suc, ◌+◌, ◌*◌, ◌/◌, ◌%◌, ◌^◌, ◌<◌, bit_or, bit_xor}
use mathlib.Core.Path.{◌≡◌, refl, ap}
use mathlib.Core.Bool.{Bool, true, false, ◌&&◌}
use mathlib.Core.List.{List, [], ◌∷◌}
use native.Mathlib.Omega.{arith}
use native.Mathlib.Nat.{pow-suc}
use run_alex_db.Common.Tests.{◌==◌, ==_iff, if◌then◌else◌}
use run_alex_db.Common.Lists.{length, All}

abbrev pub IsByte : ℕ → Type 0
IsByte b = b < 256

-- The `k` low bytes of `v`, lowest first: `put_u16_le(v as u16)` is `le_bytes 2 v`.
unfoldable pub le_bytes : ℕ → ℕ → List ℕ
le_bytes zero v = []
le_bytes (suc k) v = (v % 256) ∷ le_bytes k (v / 256)

-- `from_le_bytes`.
unfoldable pub of_le_bytes : List ℕ → ℕ
of_le_bytes [] = 0
of_le_bytes (b ∷ bs) = b + 256 * of_le_bytes bs

pub length-le_bytes : (k v : ℕ) → length (le_bytes k v) ≡ k
unfolding le_bytes
length-le_bytes zero v = refl
length-le_bytes (suc k) v = ap suc (length-le_bytes k (v / 256))

pub le_bytes-IsByte : (k v : ℕ) → All IsByte (le_bytes k v)
unfolding le_bytes
le_bytes-IsByte zero v = tt
le_bytes-IsByte (suc k) v = (omega arith, le_bytes-IsByte k (v / 256))

below_pow : (k v : ℕ) → v < 256 ^ suc k → v / 256 < 256 ^ k
below_pow k v h = omega (arith, pow-suc 256 k)

pub of_le_bytes-le_bytes : (k v : ℕ) → v < 256 ^ k → of_le_bytes (le_bytes k v) ≡ v
unfolding le_bytes of_le_bytes
of_le_bytes-le_bytes zero v h = omega arith
of_le_bytes-le_bytes (suc k) v h = omega (arith, of_le_bytes-le_bytes k (v / 256) (below_pow k v h))

-- `test k` for every `k` below a bound, the bound given last.
holds_below : (ℕ → Bool) → ℕ → Bool
holds_below test zero = true
holds_below test (suc top) = holds_below test top && test top

at_each : (test : ℕ → Bool) (top k : ℕ) → k < top → holds_below test top ≡ true → test k ≡ true
unfolding holds_below
at_each test zero k below all = absurd (omega arith)
at_each test (suc top) k below all = ground (arith, at_each test top k)

-- Both bytes run through all their values.
xor_table : holds_below (λ a. holds_below (λ b. bit_xor (bit_xor a b) b == a) 256) 256 ≡ true
unfolding holds_below
xor_table = refl

pub bit_xor_cancel : (a b : ℕ) → IsByte a → IsByte b → bit_xor (bit_xor a b) b ≡ a
bit_xor_cancel a b ha hb = (==_iff _ a).0 (
    at_each (λ c. bit_xor (bit_xor a c) c == a) 256 b hb
      (at_each (λ x. holds_below (λ c. bit_xor (bit_xor x c) c == x) 256) 256 a ha xor_table))

xor_byte_table : holds_below (λ a. holds_below (λ b. bit_xor a b / 256 == 0) 256) 256 ≡ true
unfolding holds_below
xor_byte_table = refl

pub bit_xor-IsByte : (a b : ℕ) → IsByte a → IsByte b → IsByte (bit_xor a b)
bit_xor-IsByte a b ha hb =
    let e : bit_xor a b / 256 ≡ 0 = (==_iff _ 0).0 (
      at_each (λ c. bit_xor a c / 256 == 0) 256 b hb
        (at_each (λ x. holds_below (λ c. bit_xor x c / 256 == 0) 256) 256 a ha xor_byte_table)) in
    omega arith

-- Setting bit `k` of a byte sets that bit and no other, and leaves a byte.
or_bit_table :
    holds_below
      (λ x.
        holds_below
          (λ k.
            (bit_or x (2 ^ k) / 256 == 0)
            && holds_below
                (λ j. bit_or x (2 ^ k) / 2 ^ j % 2 == (if j == k then 1 else x / 2 ^ j % 2))
                8)
          8)
      256
    ≡ true
unfolding holds_below
or_bit_table = refl

or_bit_row :
    (x k : ℕ)
    → x < 256
    → k < 8
    → ((bit_or x (2 ^ k) / 256 == 0)
        && holds_below
            (λ j. bit_or x (2 ^ k) / 2 ^ j % 2 == (if j == k then 1 else x / 2 ^ j % 2))
            8)
      ≡ true
or_bit_row x k hx hk = at_each _ 8 k hk (at_each _ 256 x hx or_bit_table)

pub or_bit :
    (x k j : ℕ)
    → x < 256
    → k < 8
    → j < 8
    → bit_or x (2 ^ k) / 2 ^ j % 2 ≡ (if j == k then 1 else x / 2 ^ j % 2)
or_bit x k j hx hk hj = (==_iff _ _).0 (
    at_each (λ j. bit_or x (2 ^ k) / 2 ^ j % 2 == (if j == k then 1 else x / 2 ^ j % 2)) 8 j hj
      (and_right _ _ (or_bit_row x k hx hk)))
  where
    and_right : (a b : Bool) → (a && b) ≡ true → b ≡ true
    and_right true b h = h
    and_right false b h = cc

pub or_bit-IsByte : (x k : ℕ) → x < 256 → k < 8 → bit_or x (2 ^ k) < 256
or_bit-IsByte x k hx hk =
    let e : bit_or x (2 ^ k) / 256 ≡ 0 = (==_iff _ 0).0 (and_left _ _ (or_bit_row x k hx hk)) in
    omega arith
  where
    and_left : (a b : Bool) → (a && b) ≡ true → a ≡ true
    and_left true b h = refl
    and_left false b h = cc
