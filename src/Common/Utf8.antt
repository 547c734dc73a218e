-- ===== src/Common/Utf8.antt =====
-- `String::from_utf8_lossy`: bytes that do not continue a sequence become U+FFFD (EF BF BD), one for
-- each maximal ill-formed part. The pending bytes are the well-formed prefix of a sequence.
use Prim.Native.Nat.{ℕ, ◌<◌}
use mathlib.Core.Path.{◌≡◌, refl}
use mathlib.Core.Bool.{Bool, ◌&&◌}
use mathlib.Core.List.{List, [], ◌∷◌, ◌++◌}
use native.Mathlib.Omega.{arith}
use run_alex_db.Common.Tests.{ltb, leb, ◌==◌, if◌then◌else◌}
use run_alex_db.Common.Lists.{All}

abbrev between : ℕ → ℕ → ℕ → Bool
between lo hi b = leb lo b && leb b hi

abbrev replacement : List ℕ
replacement = 0xef ∷ 0xbf ∷ 0xbd ∷ []

-- The second byte's range depends on the first.
second_fits : ℕ → ℕ → Bool
second_fits a b =
    if a == 0xe0
    then between 0xa0 0xbf b
    else if a == 0xed
    then between 0x80 0x9f b
    else if a == 0xf0
    then between 0x90 0xbf b
    else if a == 0xf4
    then between 0x80 0x8f b
    else between 0x80 0xbf b

-- A byte that starts a sequence: what is written, and what is pending.
fresh : ℕ → List ℕ × List ℕ
fresh b =
    if ltb b 0x80
    then (b ∷ [], [])
    else if between 0xc2 0xf4 b
    then ([], b ∷ [])
    else (replacement, [])

restart : ℕ → List ℕ × List ℕ
unfolding fresh
restart b = let (out, pending) = fresh b in (replacement ++ out, pending)

utf8_step : List ℕ → ℕ → List ℕ × List ℕ
unfolding second_fits fresh restart
utf8_step [] b = fresh b
utf8_step (a ∷ []) b =
    if second_fits a b
    then (if ltb a 0xe0 then (a ∷ b ∷ [], []) else ([], a ∷ b ∷ []))
    else restart b
utf8_step (a ∷ c ∷ []) b =
    if between 0x80 0xbf b
    then (if ltb a 0xf0 then (a ∷ c ∷ b ∷ [], []) else ([], a ∷ c ∷ b ∷ []))
    else restart b
utf8_step (a ∷ c ∷ d ∷ rest) b = if between 0x80 0xbf b then (a ∷ c ∷ d ∷ b ∷ [], []) else restart b

lossy_from : List ℕ → List ℕ → List ℕ
unfolding utf8_step
lossy_from [] [] = []
lossy_from (a ∷ pending) [] = replacement
lossy_from pending (b ∷ bs) =
    let (out, pending') = utf8_step pending b in out ++ lossy_from pending' bs

unfoldable pub from_utf8_lossy : List ℕ → List ℕ
unfolding lossy_from
from_utf8_lossy bs = lossy_from [] bs

-- The bytes of a Rust string: decoding them changes nothing.
abbrev pub IsUtf8 : List ℕ → Type 0
IsUtf8 s = from_utf8_lossy s ≡ s

abbrev pub IsAscii : List ℕ → Type 0
IsAscii = All (λ b. b < 0x80)

pub IsAscii-IsUtf8 : (s : List ℕ) → IsAscii s → IsUtf8 s
unfolding from_utf8_lossy
IsAscii-IsUtf8 [] h = refl
IsAscii-IsUtf8 (b ∷ s) (hb, hs) = ground (arith, IsAscii-IsUtf8 s hs)
