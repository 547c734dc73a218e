-- ===== src/Common/Ascii.antt =====
-- What the program uses of `str` on white space, case and substrings, for ASCII texts.
use run_alex_db.Common.Tests.{leb, ◌==◌, if◌then◌else◌}
use run_alex_db.Common.Lists.{All, length, drop, take}
use run_alex_db.Common.Dict.{Str}
use run_alex_db.Common.Text.{split_at_first}
use Prim.Native.Nat.{ℕ, zero, suc, ◌-◌}
use mathlib.Core.Path.{◌≡◌, refl, ap}
use mathlib.Core.Bool.{Bool, true, false, ◌&&◌, ◌||◌}
use mathlib.Core.List.{List, [], ◌∷◌, map}
use mathlib.Core.Option.{Option, none, some}

-- `char::is_whitespace`.
abbrev pub is_space : ℕ → Bool
is_space b = (leb 9 b && leb b 13) || (b == 32)

unfoldable pub trim_start : Str → Str
trim_start [] = []
trim_start (b ∷ bs) = let rest = trim_start bs in if is_space b then rest else b ∷ bs

-- A byte in front of a text whose end is trimmed.
unfoldable pub cons_trimmed : ℕ → Str → Str
cons_trimmed b [] = if is_space b then [] else b ∷ []
cons_trimmed b (c ∷ cs) = b ∷ c ∷ cs

unfoldable pub trim_end : Str → Str
unfolding cons_trimmed
trim_end [] = []
trim_end (b ∷ bs) = cons_trimmed b (trim_end bs)

unfoldable pub trim : Str → Str
trim s = trim_end (trim_start s)

-- What stands in front of the first white space.
unfoldable pub take_word : Str → Str
take_word [] = []
take_word (b ∷ bs) = let rest = take_word bs in if is_space b then [] else b ∷ rest

-- `s.split_whitespace().next()`.
unfoldable pub first_word : Str → Option Str
unfolding take_word
first_word [] = none
first_word (b ∷ bs) =
    let later = first_word bs in if is_space b then later else some (b ∷ take_word bs)

-- `to_uppercase`.
unfoldable pub to_upper : Str → Str
to_upper s = map (λ b. if leb b'a' b && leb b b'z' then b - 32 else b) s

unfoldable pub starts_with : Str → Str → Bool
starts_with s [] = true
starts_with [] (p ∷ ps) = false
starts_with (c ∷ cs) (p ∷ ps) = c == p && starts_with cs ps

-- `s.find(pattern)`: the first place where the pattern stands.
unfoldable pub find : Str → Str → Option ℕ
unfolding starts_with
find pattern [] = if starts_with [] pattern then some 0 else none
find pattern (b ∷ bs) =
    let later = find pattern bs in
    if starts_with (b ∷ bs) pattern
    then some 0
    else elim later [ none ↦ none | some i ↦ some (suc i) ]

-- `s.trim_start_matches(p)`.
unfoldable pub drop_while : (ℕ → Bool) → Str → Str
drop_while p [] = []
drop_while p (b ∷ bs) = let rest = drop_while p bs in if p b then rest else b ∷ bs

-- `s.find(p)`.
unfoldable pub find_where : (ℕ → Bool) → Str → Option ℕ
find_where p [] = none
find_where p (b ∷ bs) =
    let later = find_where p bs in
    if p b then some 0 else elim later [ none ↦ none | some i ↦ some (suc i) ]

-- `&s[i..]` and `&s[i..j]`: `none` where the program panics.
unfoldable pub slice_from : ℕ → Str → Option Str
slice_from i s = if leb i (length s) then some (drop i s) else none

unfoldable pub slice : ℕ → ℕ → Str → Option Str
slice i j s = if leb i j && leb j (length s) then some (take (j - i) (drop i s)) else none

-- `s.contains(pattern)`.
unfoldable pub contains_text : Str → Str → Bool
contains_text pattern s = elim (find pattern s) [ none ↦ false | some i ↦ true ]

-- `s.split(c).next()`.
unfoldable pub before_char : ℕ → Str → Str
before_char c s = elim (split_at_first c s) [ none ↦ s | some (l, r) ↦ l ]

unfoldable pub strip_prefix : Str → Str → Option Str
strip_prefix [] s = some s
strip_prefix (p ∷ ps) [] = none
strip_prefix (p ∷ ps) (c ∷ cs) = let rest = strip_prefix ps cs in if c == p then rest else none

-- A byte in front of a text that was split.
abbrev onto_first : ℕ → List Str → List Str
onto_first b [] = (b ∷ []) ∷ []
onto_first b (l ∷ ls) = (b ∷ l) ∷ ls

-- `s.split(c)`.
unfoldable pub split : ℕ → Str → List Str
split c [] = [] ∷ []
split c (b ∷ bs) = let rest = split c bs in if b == c then [] ∷ rest else onto_first b rest

-- `s.split(pattern)` for a text that is not empty; `skip` bytes of a pattern that was found are left to pass.
unfoldable pub split_skipping : ℕ → Str → Str → List Str
split_skipping skip pattern [] = [] ∷ []
split_skipping zero pattern (b ∷ bs) =
    let found = split_skipping (length pattern - 1) pattern bs in
    let other = split_skipping 0 pattern bs in
    if starts_with (b ∷ bs) pattern then [] ∷ found else onto_first b other
split_skipping (suc skip) pattern (b ∷ bs) = split_skipping skip pattern bs

unfoldable pub split_text : Str → Str → List Str
unfolding split_skipping
split_text pattern s = split_skipping 0 pattern s

-- `s.lines()`, where a carriage return in front of a line feed goes with it.
unfoldable pub lines : Str → List Str
lines [] = []
lines (b ∷ bs) =
    let rest = lines bs in
    if b == 10
    then [] ∷ rest
    else if (b == 13) && starts_with bs (10 ∷ [])
    then rest
    else onto_first b rest

-- A text without white space is its own first word, trimmed or not.
abbrev pub NoSpace : Str → Type 0
NoSpace = All (λ b. is_space b ≡ false)

trim_start_id : (s : Str) → NoSpace s → trim_start s ≡ s
unfolding trim_start
trim_start_id [] h = refl
trim_start_id (b ∷ s) (hb, hs) = rw hb refl

trim_end_id : (s : Str) → NoSpace s → trim_end s ≡ s
unfolding trim_end cons_trimmed
trim_end_id [] h = refl
trim_end_id (b ∷ []) (hb, hs) = rw hb refl
trim_end_id (b ∷ c ∷ s) (hb, hs) = rw (trim_end_id (c ∷ s) hs) refl

take_word_id : (s : Str) → NoSpace s → take_word s ≡ s
unfolding take_word
take_word_id [] h = refl
take_word_id (b ∷ s) (hb, hs) = rw hb (ap (λ l. b ∷ l) (take_word_id s hs))

pub first_word-trim : (b : ℕ) (s : Str) → NoSpace (b ∷ s) → first_word (trim (b ∷ s)) ≡ some (b ∷ s)
unfolding first_word trim
first_word-trim b s h =
    rw (trim_start_id (b ∷ s) h, trim_end_id (b ∷ s) h, h.0)
      (ap (λ l. some (b ∷ l)) (take_word_id s h.1))
