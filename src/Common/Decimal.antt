-- ===== src/Common/Decimal.antt =====
-- `to_string` and `parse::<i64>` on integers, over ASCII bytes.
use Prim.Native.Nat.{ℕ, zero, suc, ◌+◌, ◌-◌, ◌*◌, ◌/◌, ◌%◌, ◌^◌, ◌≤◌, ◌<◌}
use native.Mathlib.Nat.{pow-suc}
use mathlib.Core.Logic.{inl, inr}
use mathlib.Core.Path.{◌≡◌, refl, ◌∙◌}
use mathlib.Core.Bool.{Bool, true, false, ◌&&◌}
use mathlib.Core.List.{List, [], ◌∷◌, ◌++◌}
use mathlib.Core.Option.{Option, none, some}
use native.Mathlib.Omega.{arith}
use run_alex_db.Common.Tests.{ltb, leb, ◌==◌, if◌then◌else◌, Bool-cases, ltb→lt}
use run_alex_db.Common.Lists.{length, replicate}
use run_alex_db.Common.Int.{ℤ, pos, negsuc, IsI64}

-- The digits of `n`, highest first, put in front of `acc`; a number below 10 ^ fuel needs no more.
unfoldable pub digits_onto : ℕ → ℕ → List ℕ → List ℕ
digits_onto zero n acc = acc
digits_onto (suc f) n acc =
    let more = digits_onto f (n / 10) ((48 + n % 10) ∷ acc) in
    if ltb n 10 then (48 + n) ∷ acc else more

unfoldable pub show_ℕ : ℕ → List ℕ
unfolding digits_onto
show_ℕ n = digits_onto (suc n) n []

unfoldable pub show_ℤ : ℤ → List ℕ
unfolding show_ℕ
show_ℤ (pos n) = show_ℕ n
show_ℤ (negsuc n) = b'-' ∷ show_ℕ (suc n)

-- `{n:0width}` for a number, and for an `i64`, whose sign comes first and counts.
unfoldable pub padded : ℕ → ℕ → List ℕ
padded width n = replicate (width - length (show_ℕ n)) b'0' ++ show_ℕ n

unfoldable pub padded_ℤ : ℕ → ℤ → List ℕ
padded_ℤ width (pos n) = padded width n
padded_ℤ width (negsuc n) = b'-' ∷ padded (width - 1) (suc n)

-- The value of a run of digits read after `acc`; `none` at any other byte.
unfoldable pub digits_value : ℕ → List ℕ → Option ℕ
digits_value acc [] = some acc
digits_value acc (c ∷ cs) =
    let rest = digits_value (acc * 10 + (c - 48)) cs in if leb 48 c && leb c 57 then rest else none

-- At least one digit.
unfoldable pub digits_some : List ℕ → Option ℕ
unfolding digits_value
digits_some [] = none
digits_some (c ∷ cs) = digits_value 0 (c ∷ cs)

unfoldable pub in_i64 : Bool → ℕ → Option ℤ
in_i64 true zero = some (pos 0)
in_i64 true (suc n) = if ltb n (2 ^ 63) then some (negsuc n) else none
in_i64 false n = if ltb n (2 ^ 63) then some (pos n) else none

unfoldable pub of_magnitude : Bool → Option ℕ → Option ℤ
unfolding in_i64
of_magnitude sign none = none
of_magnitude sign (some n) = in_i64 sign n

unfoldable pub parse_i64 : List ℕ → Option ℤ
unfolding digits_some of_magnitude
parse_i64 [] = none
parse_i64 (c ∷ cs) =
    if c == b'-'
    then of_magnitude true (digits_some cs)
    else if c == b'+'
    then of_magnitude false (digits_some cs)
    else of_magnitude false (digits_some (c ∷ cs))

unfoldable pub within : ℕ → Option ℕ → Option ℕ
within bits none = none
within bits (some n) = if ltb n (2 ^ bits) then some n else none

-- `parse::<u64>` and `parse::<u32>`: digits, or a plus and digits, of a number of so many bits.
unfoldable pub parse_unsigned : ℕ → List ℕ → Option ℕ
unfolding digits_some
parse_unsigned bits [] = none
parse_unsigned bits (c ∷ cs) =
    within bits (if c == b'+' then digits_some cs else digits_some (c ∷ cs))

-- Reading back what `digits_onto` wrote.
digits_value-onto :
    (f n : ℕ) (acc : List ℕ) → n < f → digits_value 0 (digits_onto f n acc) ≡ digits_value n acc
unfolding digits_value digits_onto
digits_value-onto zero n acc h = absurd (omega arith)
digits_value-onto (suc f) n acc h =
    ground (arith, digits_value-onto f (n / 10) ((48 + n % 10) ∷ acc))

-- The first byte written is a digit.
unfoldable pub StartsDigit : List ℕ → Type 0
StartsDigit [] = ⊥
StartsDigit (c ∷ cs) = (48 ≤ c) × (c ≤ 57)

digits_onto-StartsDigit : (f n : ℕ) (acc : List ℕ) → n < f → StartsDigit (digits_onto f n acc)
unfolding digits_onto StartsDigit
digits_onto-StartsDigit zero n acc h = absurd (omega arith)
digits_onto-StartsDigit (suc f) n acc h = elim (Bool-cases (ltb n 10)) [
  | inl small ↦ rw small (omega (arith, ltb→lt n 10 small))
  | inr large ↦ rw large (digits_onto-StartsDigit f (n / 10) ((48 + n % 10) ∷ acc) (ground arith))
]

pub show_ℕ-StartsDigit : (n : ℕ) → StartsDigit (show_ℕ n)
unfolding show_ℕ
show_ℕ-StartsDigit n = digits_onto-StartsDigit (suc n) n [] (omega arith)

pub digits_some_of_StartsDigit : (s : List ℕ) → StartsDigit s → digits_some s ≡ digits_value 0 s
unfolding digits_some StartsDigit
digits_some_of_StartsDigit [] h = absurd h
digits_some_of_StartsDigit (c ∷ cs) h = refl

pub digits_some-show_ℕ : (n : ℕ) → digits_some (show_ℕ n) ≡ some n
digits_some-show_ℕ n =
    digits_some_of_StartsDigit (show_ℕ n) (show_ℕ-StartsDigit n)
    ∙ unfold show_ℕ digits_value in digits_value-onto (suc n) n [] (omega arith)

-- A text that begins with a digit has no sign.
pub parse_i64_of_StartsDigit :
    (s : List ℕ) → StartsDigit s → parse_i64 s ≡ of_magnitude false (digits_some s)
unfolding parse_i64 StartsDigit
parse_i64_of_StartsDigit [] h = absurd h
parse_i64_of_StartsDigit (c ∷ cs) h = ground arith

-- Parsing what `to_string` wrote gives the integer back, for every `i64`.
pub parse_i64-show_ℤ : (z : ℤ) → IsI64 z → parse_i64 (show_ℤ z) ≡ some z
unfolding show_ℤ
parse_i64-show_ℤ (pos n) h =
    parse_i64_of_StartsDigit (show_ℕ n) (show_ℕ-StartsDigit n)
    ∙ rw (digits_some-show_ℕ n) (unfold of_magnitude in_i64 in ground arith)
parse_i64-show_ℤ (negsuc n) h =
    unfold parse_i64 in rw (digits_some-show_ℕ (suc n)) (unfold of_magnitude in_i64 in ground arith)

-- Two integers with one text are equal.
pub show_ℤ-injective : (a b : ℤ) → IsI64 a → IsI64 b → show_ℤ a ≡ show_ℤ b → a ≡ b
show_ℤ-injective a b ha hb e = cc (parse_i64-show_ℤ a ha, parse_i64-show_ℤ b hb)

length-digits_onto :
    (f n k : ℕ) (acc : List ℕ)
    → n < f
    → n < 10 ^ suc k
    → length (digits_onto f n acc) ≤ length acc + suc k
unfolding digits_onto
length-digits_onto zero n k acc h b = absurd (omega arith)
length-digits_onto (suc f) n zero acc h b = ground (arith)
length-digits_onto (suc f) n (suc k) acc h b =
    ground (arith, pow-suc 10 (suc k), length-digits_onto f (n / 10) k ((48 + n % 10) ∷ acc))

-- The text of an `i64` is at most 20 bytes long.
pub length-show_ℤ : (z : ℤ) → IsI64 z → length (show_ℤ z) ≤ 20
unfolding show_ℤ
length-show_ℤ (pos n) h =
    omega (arith, length-digits_onto (suc n) n 18 [] (omega arith) (omega arith))
length-show_ℤ (negsuc n) h =
    omega (arith, length-digits_onto (suc (suc n)) (suc n) 18 [] (omega arith) (omega arith))
