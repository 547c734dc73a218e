-- ===== src/Common/Text.antt =====
-- What the program uses of `str`, over bytes: splitting, trimming and ASCII case.
use run_alex_db.Common.Tests.{leb, ◌==◌, if◌then◌else◌}
use run_alex_db.Common.Dict.{Str, str_eq}
use Prim.Native.Nat.{ℕ, ◌+◌}
use mathlib.Core.Bool.{Bool, ◌&&◌}
use mathlib.Core.List.{[], ◌∷◌, reverse, map}
use mathlib.Core.Option.{Option, none, some}

-- `s.find(c)` for an ASCII character: what stands before and behind its first occurrence.
unfoldable pub split_at_first : ℕ → Str → Option (Str × Str)
split_at_first c [] = none
split_at_first c (b ∷ bs) =
    let rest = split_at_first c bs in
    if b == c then some ([], bs) else elim rest [ none ↦ none | some (l, r) ↦ some (b ∷ l, r) ]

unfoldable pub trim_start_matches : ℕ → Str → Str
trim_start_matches c [] = []
trim_start_matches c (b ∷ bs) =
    let rest = trim_start_matches c bs in if b == c then rest else b ∷ bs

-- `s.trim_matches(c)`.
unfoldable pub trim_matches : ℕ → Str → Str
unfolding trim_start_matches
trim_matches c s = reverse (trim_start_matches c (reverse (trim_start_matches c s)))

unfoldable pub to_ascii_lower : ℕ → ℕ
to_ascii_lower b = if leb b'A' b && leb b b'Z' then b + 32 else b

unfoldable pub eq_ignore_ascii_case : Str → Str → Bool
unfolding to_ascii_lower
eq_ignore_ascii_case s t = str_eq (map to_ascii_lower s) (map to_ascii_lower t)
