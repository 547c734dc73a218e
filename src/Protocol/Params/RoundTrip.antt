-- ===== src/Protocol/Params/RoundTrip.antt =====
-- A string that the server writes with its length is read back by the parameter reader.
use run_alex_db.Common.{ℕ, suc, ◌+◌, ◌^◌, ◌<◌, ◌≡◌, refl, arith, ap, ◌∙◌, sym}
use run_alex_db.Common.{
  none, some, List, [], ◌∷◌, ◌++◌, append_assoc, inl, inr, Bool-cases, true, false, ltb→lt,
}
use run_alex_db.Common.{ltb, leb, le→ltb, lt→leb, length, length-append}
use run_alex_db.Common.{take-length-append, drop-length-append, get_elem?-append_length}
use run_alex_db.Common.Bytes.{le_bytes, length-le_bytes, of_le_bytes-le_bytes}
use run_alex_db.Common.Utf8.{IsUtf8}
use run_alex_db.Protocol.Lenenc.{lenenc, put_lenenc_str}
use run_alex_db.Protocol.Params.{slice, read_length, read_body, read_lenenc_bytes_as_str}
use run_alex_db.Protocol.Params.Total.{slice_lem}

-- A slice of what stands behind `a`.
slice-append :
    (a s rest : List ℕ) (p n : ℕ)
    → p ≡ length a
    → n ≡ length s
    → slice (a ++ (s ++ rest)) p n ≡ some s
slice-append a s rest p n e f =
    rw (e, f)
      (slice_lem (a ++ (s ++ rest)) (length a) (length s)
          (omega (arith, length-append a (s ++ rest), length-append s rest))
        ∙ rw (drop-length-append, take-length-append))

read_body_lem :
    (head s rest : List ℕ) (p inc : ℕ)
    → p + inc ≡ length head
    → IsUtf8 s
    → read_body (head ++ (s ++ rest)) p ((length s, inc), none) ≡ some (s, length head + length s)
unfolding read_body
read_body_lem head s rest p inc e u =
    let fits : ltb (length (head ++ (s ++ rest))) (length head + length s) ≡ false =
      le→ltb _ _ (omega (arith, length-append head (s ++ rest), length-append s rest)) in
    rw (e, fits, slice-append head s rest (length head) (length s) refl refl) (rw u)

read_length_short :
    (payload : List ℕ) (p n : ℕ) → n < 251 → read_length payload p n ≡ some ((n, 1), none)
unfolding read_length
read_length_short payload p n h = ground arith

-- The length bytes behind the marker.
word_at :
    (front rest : List ℕ) (marker k n : ℕ)
    → n < 256 ^ k
    → (slice (front ++ (marker ∷ (le_bytes k n ++ rest))) (length front + 1) k
        ≡ some (le_bytes k n))
      × (leb (length (front ++ (marker ∷ (le_bytes k n ++ rest)))) (length front + k) ≡ false)
word_at front rest marker k n h =
    let split : front ++ (marker ∷ (le_bytes k n ++ rest))
        ≡ (front ++ (marker ∷ [])) ++ (le_bytes k n ++ rest) =
      sym (append_assoc front (marker ∷ []) (le_bytes k n ++ rest)) in
    let count = length-append front (marker ∷ []) in
    let long = length-append (front ++ (marker ∷ [])) (le_bytes k n ++ rest) in
    let word = length-append (le_bytes k n) rest in
    rw split (
      slice-append (front ++ (marker ∷ [])) (le_bytes k n) rest (length front + 1) k
          (omega (arith, count)) (sym (length-le_bytes k n)),
      lt→leb _ _ (omega (arith, count, long, word, length-le_bytes k n)),
    )

read_length_two :
    (front rest : List ℕ) (n : ℕ)
    → n < 65536
    → read_length (front ++ (0xfc ∷ (le_bytes 2 n ++ rest))) (length front) 0xfc
      ≡ some ((n, 3), none)
read_length_two front rest n h =
    let (word, inside) = word_at front rest 0xfc 2 n h in
    unfold read_length in rw (inside, word) (rw (of_le_bytes-le_bytes 2 n h))

read_length_three :
    (front rest : List ℕ) (n : ℕ)
    → n < 16_777_216
    → read_length (front ++ (0xfd ∷ (le_bytes 3 n ++ rest))) (length front) 0xfd
      ≡ some ((n, 4), none)
read_length_three front rest n h =
    let (word, inside) = word_at front rest 0xfd 3 n h in
    unfold read_length in rw (inside, word) (rw (of_le_bytes-le_bytes 3 n h))

-- The reader, from its three parts.
read_of_parts :
    (front tail s rest : List ℕ) (b inc : ℕ)
    → read_length (front ++ ((b ∷ tail) ++ (s ++ rest))) (length front) b
      ≡ some ((length s, inc), none)
    → inc ≡ suc (length tail)
    → IsUtf8 s
    → read_lenenc_bytes_as_str (front ++ ((b ∷ tail) ++ (s ++ rest))) (length front)
      ≡ some (s, length front + length ((b ∷ tail) ++ s))
read_of_parts front tail s rest b inc h e u =
    let whole = sym (append_assoc front (b ∷ tail) (s ++ rest)) in
    let more = length-append front ((b ∷ tail) ++ (s ++ rest)) in
    let inside : leb (length (front ++ ((b ∷ tail) ++ (s ++ rest)))) (length front) ≡ false =
      lt→leb _ _ (omega (arith, more)) in
    let body =
      read_body_lem (front ++ (b ∷ tail)) s rest (length front) inc
        (omega (arith, length-append front (b ∷ tail))) u in
    unfold read_lenenc_bytes_as_str in
    rw (inside, get_elem?-append_length front (tail ++ (s ++ rest)) b, h)
      (rw (← whole) at body
        ∙ ap (λ k. some (s, k))
            (omega (arith, length-append front (b ∷ tail), length-append tail s)))

lenenc_one : (n : ℕ) → ltb n 251 ≡ true → lenenc n ≡ n ∷ []
unfolding lenenc le_bytes
lenenc_one n h = ground arith

lenenc_two : (n : ℕ) → ltb n 251 ≡ false → ltb n 65536 ≡ true → lenenc n ≡ 0xfc ∷ le_bytes 2 n
unfolding lenenc
lenenc_two n h k = rw (h, k)

lenenc_three : (n : ℕ) → ltb n 65536 ≡ false → n < 2 ^ 24 → lenenc n ≡ 0xfd ∷ le_bytes 3 n
unfolding lenenc
lenenc_three n h k = ground arith

-- A string that `put_lenenc_str` wrote, wherever it stands in a payload, is read back as itself, and
-- the position moves just behind it: for strings in UTF-8 shorter than 2 ^ 24 bytes.
pub read_lenenc_bytes_as_str-put_lenenc_str :
    (front s rest : List ℕ)
    → length s < 2 ^ 24
    → IsUtf8 s
    → read_lenenc_bytes_as_str (front ++ (put_lenenc_str [] s ++ rest)) (length front)
      ≡ some (s, length front + length (put_lenenc_str [] s))
unfolding put_lenenc_str
read_lenenc_bytes_as_str-put_lenenc_str front s rest h u = elim (Bool-cases (ltb n 251)) [
  | inl one ↦ rw (lenenc_one n one) (
      rw (append_assoc (n ∷ []) s rest) (
        read_of_parts front [] s rest n 1 (read_length_short _ (length front) n (ltb→lt _ _ one))
          refl u))
  | inr more ↦ elim (Bool-cases (ltb n 65536)) [
    | inl two ↦ rw (lenenc_two n more two) (
        rw (append_assoc (0xfc ∷ le_bytes 2 n) s rest) (
          read_of_parts front (le_bytes 2 n) s rest 0xfc 3
            (read_length_two front (s ++ rest) n (ltb→lt _ _ two))
            (omega (arith, length-le_bytes 2 n)) u))
    | inr three ↦ rw (lenenc_three n three h) (
        rw (append_assoc (0xfd ∷ le_bytes 3 n) s rest) (
          read_of_parts front (le_bytes 3 n) s rest 0xfd 4 (read_length_three front (s ++ rest) n h)
            (omega (arith, length-le_bytes 3 n)) u))
  ]
]
  where
    n : ℕ
    n = length s
