-- ===== src/Protocol/Params.antt =====
-- src/protocol.rs, the parameters of COM_STMT_EXECUTE. A reader takes the payload and the position and
-- returns the text and the new position; `none` is a panic: an index or a slice out of bounds.
pub mod Total
pub mod Nulls
pub mod RoundTrip
use run_alex_db.Common.{
  ℕ, zero, suc, ◌+◌, ◌-◌, ◌*◌, ◌/◌, ◌%◌, ◌^◌, Option, none, some, List, [], ◌∷◌, ◌++◌,
}
use run_alex_db.Common.{
  ltb, leb, ◌==◌, if◌then◌else◌, ◌||◌, ◌&&◌, not, length, get_elem?, take, drop, replicate,
}
use run_alex_db.Common.{◌>>=◌, ◌>>◌, guard, Bool, true, false}
use run_alex_db.Common.Bytes.{of_le_bytes}
use run_alex_db.Common.Dict.{Str, str}
use run_alex_db.Common.Int.{ℤ, pos, negsuc}
use run_alex_db.Common.Decimal.{show_ℕ, show_ℤ, padded}
use run_alex_db.Common.Utf8.{from_utf8_lossy}
use run_alex_db.Engine.Value.{Platform}

-- `&payload[start..start + n]`.
unfoldable pub slice : List ℕ → ℕ → ℕ → Option (List ℕ)
slice payload start n = do
  guard (leb (start + n) (length payload))
  some (take n (drop start payload))

-- The integer that a two's complement word of `bits` bits stands for.
unfoldable pub signed : ℕ → ℕ → ℤ
signed bits w = if ltb w (2 ^ (bits - 1)) then pos w else negsuc (2 ^ bits - 1 - w)

-- The arms that read an integer of so many bytes.
unfoldable pub read_int : ℕ → List ℕ → ℕ → Option (Str × ℕ)
unfolding slice signed
read_int n payload p =
    if ltb (length payload) (p + n)
    then some ([], p)
    else do word ← slice payload p n; some (show_ℤ (signed (8 * n) (of_le_bytes word)), p + n)

-- The arms that read a float of so many bytes, with the float's text.
unfoldable pub read_float : (List ℕ → Str) → ℕ → List ℕ → ℕ → Option (Str × ℕ)
unfolding slice
read_float show n payload p =
    if ltb (length payload) (p + n)
    then some ([], p)
    else do word ← slice payload p n; some (show word, p + n)

-- Both numbers of the result are (length, increment); the outer `none` is a panic, the inner the early
-- return of an empty string with the position that it leaves.
unfoldable pub read_length : List ℕ → ℕ → ℕ → Option ((ℕ × ℕ) × Option ℕ)
unfolding slice
read_length payload p b =
    if b == 0xfb
    then some ((0, 0), some (p + 1))
    else if b == 0xfc
    then if leb (length payload) (p + 2)
      then some ((0, 0), some p)
      else (do word ← slice payload (p + 1) 2; some ((of_le_bytes word, 3), none))
    else if b == 0xfd
    then if leb (length payload) (p + 3)
      then some ((0, 0), some p)
      else (do word ← slice payload (p + 1) 3; some ((of_le_bytes word, 4), none))
    else some ((b, 1), none)

-- What follows the length: the bytes as text, if they are there.
unfoldable pub read_body : List ℕ → ℕ → (ℕ × ℕ) × Option ℕ → Option (Str × ℕ)
unfolding slice
read_body payload p (n, some p') = some ([], p')
read_body payload p ((len, inc), none) =
    if ltb (length payload) (p + inc + len)
    then some ([], p + inc)
    else do s ← slice payload (p + inc) len; some (from_utf8_lossy s, p + inc + len)

unfoldable pub read_lenenc_bytes_as_str : List ℕ → ℕ → Option (Str × ℕ)
read_lenenc_bytes_as_str payload p =
    if leb (length payload) p
    then some ([], p)
    else do b ← get_elem? payload p; n ← read_length payload p b; read_body payload p n

abbrev no_date : Str
no_date = str "0000-00-00"

abbrev no_datetime : Str
no_datetime = str "0000-00-00 00:00:00"

-- `format!("{y:04}-{m:02}-{d:02}")` of the four bytes at a position.
unfoldable pub date_at : List ℕ → ℕ → Option Str
unfolding slice padded
date_at payload p = do
  y ← slice payload p 2
  m ← get_elem? payload (p + 2)
  d ← get_elem? payload (p + 3)
  some (padded 4 (of_le_bytes y) ++ (b'-' ∷ (padded 2 m ++ (b'-' ∷ padded 2 d))))

unfoldable pub read_binary_date : List ℕ → ℕ → Option (Str × ℕ)
read_binary_date payload p = if leb (length payload) p then some (no_date, p) else do
  len ← get_elem? payload p
  if ltb len 4 || ltb (length payload) (p + 1 + 4)
      then some (no_date, p + 1 + len)
      else (do date ← date_at payload (p + 1); some (date, p + 1 + len))

-- The hour, minute and second, if the value has them.
unfoldable pub time_at : ℕ → List ℕ → ℕ → Option Str
unfolding padded
time_at len payload p = do
  h ← if ltb len 7 then some 0 else get_elem? payload (p + 4)
  mi ← if ltb len 7 then some 0 else get_elem? payload (p + 5)
  s ← if ltb len 7 then some 0 else get_elem? payload (p + 6)
  some (padded 2 h ++ (b':' ∷ (padded 2 mi ++ (b':' ∷ padded 2 s))))

unfoldable pub read_binary_datetime : List ℕ → ℕ → Option (Str × ℕ)
read_binary_datetime payload p = if leb (length payload) p then some (no_datetime, p) else do
  len ← get_elem? payload p
  if ltb len 4 || ltb (length payload) (p + 1 + len) then some (no_datetime, p + 1 + len) else (do
    date ← date_at payload (p + 1)
    time ← time_at len payload (p + 1)
    some (date ++ (b' ' ∷ time), p + 1 + len))

module _ (pf : Platform) where
  open pf use {f32_text, f64_text}

  unfoldable pub read_binary_param : List ℕ → ℕ → ℕ → Option (Str × ℕ)
  read_binary_param payload p type_byte =
      if leb (length payload) p
      then some ([], p)
      else if type_byte == 0x01
      then read_int 1 payload p
      else if type_byte == 0x02 || type_byte == 0x82
      then read_int 2 payload p
      else if type_byte == 0x03 || type_byte == 0x09
      then read_int 4 payload p
      else if type_byte == 0x04
      then read_float f32_text 4 payload p
      else if type_byte == 0x05
      then read_float f64_text 8 payload p
      else if type_byte == 0x08
      then read_int 8 payload p
      else if type_byte == 0x0a || type_byte == 0x0e
      then read_binary_date payload p
      else if type_byte == 0x07 || (type_byte == 0x0b || type_byte == 0x0c)
      then read_binary_datetime payload p
      else read_lenenc_bytes_as_str payload p

  -- The types of `n` parameters from a position on, two bytes each.
  unfoldable pub read_types : ℕ → List ℕ → ℕ → Option (List ℕ)
  read_types zero payload p = some []
  read_types (suc n) payload p = do
    t ← get_elem? payload p
    unsigned ← get_elem? payload (p + 1)
    ts ← read_types n payload (p + 2)
    some (t ∷ ts)

  -- The loop over the parameters from the `i`-th on, with the types that are left.
  unfoldable pub read_params : List ℕ → List ℕ → List ℕ → ℕ → ℕ → Option (List (Option Str))
  read_params payload null_bitmap [] i p = some []
  read_params payload null_bitmap (t ∷ ts) i p = do
    byte ← get_elem? null_bitmap (i / 8)
    elim (byte / 2 ^ (i % 8) % 2 == 1) [
      | true ↦ do vs ← read_params payload null_bitmap ts (suc i) p; some (none ∷ vs)
      | false ↦ do
        (v, p') ← read_binary_param payload p t
        vs ← read_params payload null_bitmap ts (suc i) p'
        some (some v ∷ vs)
    ]

  -- The types of the parameters: from the payload where it brings them, else all strings.
  unfoldable pub param_types : List ℕ → ℕ → ℕ → Option (List ℕ)
  param_types payload n new_bound =
      if new_bound == 1 && leb (10 + (n + 7) / 8 + 1 + n * 2) (length payload)
      then read_types n payload (10 + (n + 7) / 8 + 1)
      else some (replicate n 0xfd)

  -- Where the values start: behind the types, where the payload brings them.
  unfoldable pub values_start : List ℕ → ℕ → ℕ → ℕ
  values_start payload n new_bound =
      if new_bound == 1 && leb (10 + (n + 7) / 8 + 1 + n * 2) (length payload)
      then 10 + (n + 7) / 8 + 1 + n * 2
      else 10 + (n + 7) / 8 + 1

  -- The byte behind the bitmap, 0 if the payload ends there.
  unfoldable pub new_bound_at : List ℕ → ℕ → Option ℕ
  new_bound_at payload p = if ltb p (length payload) then get_elem? payload p else some 0

  unfoldable pub parse_execute_params : List ℕ → ℕ → Option (List (Option Str))
  parse_execute_params payload n =
      let bitmap_len = (n + 7) / 8 in
      if n == 0 || ltb (length payload) 10
      then some []
      else if ltb (length payload) (10 + bitmap_len)
      then some (replicate n none)
      else (do
        null_bitmap ← slice payload 10 bitmap_len
        new_bound ← new_bound_at payload (10 + bitmap_len)
        types ← param_types payload n new_bound
        read_params payload null_bitmap types 0 (values_start payload n new_bound))
