-- ===== src/Common/Digits.antt =====
-- Numbers written with leading zeros are read back.
use Prim.Native.Nat.{ℕ, zero, suc, ◌+◌, ◌-◌, ◌/◌, ◌%◌, ◌^◌, ◌≤◌, ◌<◌}
use mathlib.Core.Logic.{inl, inr}
use mathlib.Core.Path.{◌≡◌, refl, ◌∙◌}
use mathlib.Core.Bool.{false}
use mathlib.Core.List.{List, [], ◌∷◌, ◌++◌}
use mathlib.Core.Option.{some}
use native.Mathlib.Omega.{arith}
use run_alex_db.Common.Tests.{ltb, ◌==◌, Bool-cases, ltb→lt, ltb→le, lt→ltb}
use run_alex_db.Common.Lists.{All, length, replicate}
use run_alex_db.Common.Int.{pos}
use run_alex_db.Common.Dict.{Str}
use run_alex_db.Common.Text.{split_at_first}
use run_alex_db.Common.Ascii.{is_space, NoSpace, trim, trim_start, trim_end, cons_trimmed, split}
use run_alex_db.Common.Decimal.{
  digits_onto, show_ℕ, padded, parse_i64, digits_value, digits_some, digits_some-show_ℕ,
  show_ℕ-StartsDigit, StartsDigit, parse_unsigned, within, parse_i64_of_StartsDigit,
  digits_some_of_StartsDigit, of_magnitude, in_i64,
}

abbrev pub IsDigit : ℕ → Type 0
IsDigit c = (48 ≤ c) × (c ≤ 57)

digits_onto-IsDigit :
    (f n : ℕ) (acc : List ℕ) → n < f → All IsDigit acc → All IsDigit (digits_onto f n acc)
unfolding digits_onto
digits_onto-IsDigit zero n acc h a = absurd (omega arith)
digits_onto-IsDigit (suc f) n acc h a = elim (Bool-cases (ltb n 10)) [
  | inl small ↦ rw small (omega (arith, ltb→lt n 10 small), a)
  | inr large ↦ rw large (
      digits_onto-IsDigit f (n / 10) ((48 + n % 10) ∷ acc) (omega (arith, ltb→le n 10 large))
        (omega arith, a))
]

zeros-IsDigit : (k : ℕ) (s : List ℕ) → All IsDigit s → All IsDigit (replicate k b'0' ++ s)
zeros-IsDigit zero s h = h
zeros-IsDigit (suc k) s h = (omega arith, zeros-IsDigit k s h)

pub show_ℕ-IsDigit : (n : ℕ) → All IsDigit (show_ℕ n)
unfolding show_ℕ
show_ℕ-IsDigit n = digits_onto-IsDigit (suc n) n [] (omega arith) tt

pub padded-IsDigit : (width n : ℕ) → All IsDigit (padded width n)
unfolding padded show_ℕ
padded-IsDigit width n =
    zeros-IsDigit (width - length (show_ℕ n)) _ (digits_onto-IsDigit (suc n) n [] (omega arith) tt)

zeros_value : (k : ℕ) (s : List ℕ) → digits_value 0 (replicate k b'0' ++ s) ≡ digits_value 0 s
unfolding digits_value
zeros_value zero s = refl
zeros_value (suc k) s = zeros_value k s

zeros-StartsDigit : (k : ℕ) (s : List ℕ) → StartsDigit s → StartsDigit (replicate k b'0' ++ s)
unfolding StartsDigit
zeros-StartsDigit zero s h = h
zeros-StartsDigit (suc k) s h = omega arith

-- A padded number is read back as itself.
pub parse_i64-padded : (width n : ℕ) → n < 2 ^ 63 → parse_i64 (padded width n) ≡ some (pos n)
unfolding padded
parse_i64-padded width n h =
    let k = width - length (show_ℕ n) in
    let starts = zeros-StartsDigit k (show_ℕ n) (show_ℕ-StartsDigit n) in
    parse_i64_of_StartsDigit _ starts
    ∙ rw
        (
          digits_some_of_StartsDigit _ starts,
          zeros_value k (show_ℕ n),
          ← digits_some_of_StartsDigit (show_ℕ n) (show_ℕ-StartsDigit n),
          digits_some-show_ℕ n,
        )
        (unfold of_magnitude in_i64 in ground arith)

-- Digits end at a dash, and hold no white space.
pub split_at_first-digits :
    (s rest : Str) → All IsDigit s → split_at_first b'-' (s ++ (b'-' ∷ rest)) ≡ some (s, rest)
unfolding split_at_first
split_at_first-digits [] rest h = refl
split_at_first-digits (c ∷ s) rest (hc, hs) =
    let other : (c == b'-') ≡ false = ground arith in
    rw (other, split_at_first-digits s rest hs) refl

pub digits-NoSpace : (s rest : Str) → All IsDigit s → NoSpace rest → NoSpace (s ++ rest)
digits-NoSpace [] rest h hr = hr
digits-NoSpace (c ∷ s) rest (hc, hs) hr = (ground arith, digits-NoSpace s rest hs hr)

-- A line with nothing but a number.
trim_end-digits : (s : Str) → All IsDigit s → trim_end (s ++ (10 ∷ [])) ≡ s
unfolding trim_end cons_trimmed
trim_end-digits [] h = refl
trim_end-digits (c ∷ []) (hc, hs) = let plain : is_space c ≡ false = ground arith in rw plain refl
trim_end-digits (c ∷ d ∷ s) (hc, hs) = rw (trim_end-digits (d ∷ s) hs) refl

pub trim-digits : (s : Str) → StartsDigit s → All IsDigit s → trim (s ++ (10 ∷ [])) ≡ s
unfolding trim trim_start StartsDigit
trim-digits [] starts h = absurd starts
trim-digits (c ∷ s) starts (hc, hs) =
    let plain : is_space c ≡ false = ground arith in rw plain (trim_end-digits (c ∷ s) (hc, hs))

parse_unsigned_of_StartsDigit :
    (bits : ℕ) (s : Str) → StartsDigit s → parse_unsigned bits s ≡ within bits (digits_some s)
unfolding parse_unsigned StartsDigit
parse_unsigned_of_StartsDigit bits [] h = absurd h
parse_unsigned_of_StartsDigit bits (c ∷ s) h =
    let plain : (c == b'+') ≡ false = ground arith in rw plain refl

pub parse_unsigned-show_ℕ : (bits n : ℕ) → n < 2 ^ bits → parse_unsigned bits (show_ℕ n) ≡ some n
parse_unsigned-show_ℕ bits n h =
    parse_unsigned_of_StartsDigit bits (show_ℕ n) (show_ℕ-StartsDigit n)
    ∙ rw (digits_some-show_ℕ n) (unfold within in rw (lt→ltb n (2 ^ bits) h) refl)

pub split-digits : (s : Str) → All IsDigit s → split b':' (s ++ (10 ∷ [])) ≡ (s ++ (10 ∷ [])) ∷ []
unfolding split
split-digits [] h = refl
split-digits (c ∷ s) (hc, hs) =
    let plain : (c == b':') ≡ false = ground arith in rw (plain, split-digits s hs) refl
