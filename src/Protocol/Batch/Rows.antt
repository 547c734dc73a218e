-- ===== src/Protocol/Batch/Rows.antt =====
-- Each inline writer appends the packet that the payload's builder and `encode_packet` give.
use run_alex_db.Common.{ℕ, ◌≡◌, refl, ap, ◌∙◌, arith}
use run_alex_db.Common.{List, [], ◌∷◌, ◌++◌, append_assoc, Option, none, some}
use run_alex_db.Common.{length, length-append, set-append_add}
use run_alex_db.Common.Bytes.{le_bytes}
use run_alex_db.Common.Dict.{Str, str}
use run_alex_db.Protocol.Packet.{encode_packet}
use run_alex_db.Protocol.Lenenc.{put_lenenc_str}
use run_alex_db.Protocol.Response.{
  column_def, eof_packet, put_text_values, text_row, null_bitmap, put_present, binary_row,
}
use run_alex_db.Protocol.Batch.{
  write_packet_into, write_eof_into, fill_header, write_col_def_into, write_text_row_into,
  write_binary_row_into,
}

-- Filling in the header that was reserved behind `out` frames what was written after it.
pub fill_header_lem :
    (out payload : List ℕ) (seq : ℕ)
    → fill_header (out ++ (0 ∷ 0 ∷ 0 ∷ 0 ∷ payload)) (length out) seq
      ≡ out ++ encode_packet payload seq
unfolding fill_header encode_packet le_bytes
fill_header_lem out payload seq =
    simp set-append_add
      (ap (λ h. out ++ h) (ground (arith, length-append out (0 ∷ 0 ∷ 0 ∷ 0 ∷ payload))))

-- The writers of values only append.
pub put_lenenc_str-append : (a b s : List ℕ) → put_lenenc_str (a ++ b) s ≡ a ++ put_lenenc_str b s
unfolding put_lenenc_str
put_lenenc_str-append a b s = simp append_assoc

pub put_text_values-append :
    (a b : List ℕ) (vs : List (Option Str))
    → put_text_values (a ++ b) vs ≡ a ++ put_text_values b vs
unfolding put_text_values
put_text_values-append a b [] = refl
put_text_values-append a b (none ∷ vs) =
    rw (append_assoc a b (0xfb ∷ [])) (put_text_values-append a (b ++ (0xfb ∷ [])) vs)
put_text_values-append a b (some s ∷ vs) =
    rw (put_lenenc_str-append a b s) (put_text_values-append a (put_lenenc_str b s) vs)

put_present-append :
    (a b : List ℕ) (vs : List (Option Str)) → put_present (a ++ b) vs ≡ a ++ put_present b vs
unfolding put_present
put_present-append a b [] = refl
put_present-append a b (none ∷ vs) = put_present-append a b vs
put_present-append a b (some s ∷ vs) =
    rw (put_lenenc_str-append a b s) (put_present-append a (put_lenenc_str b s) vs)

abbrev zeros : List ℕ
zeros = 0 ∷ 0 ∷ 0 ∷ 0 ∷ []

pub write_packet_into_lem :
    (out payload : List ℕ) (seq : ℕ)
    → write_packet_into out payload seq ≡ out ++ encode_packet payload seq
unfolding write_packet_into encode_packet
write_packet_into_lem out payload seq = refl

pub write_eof_into_lem :
    (out : List ℕ) (seq : ℕ) → write_eof_into out seq ≡ out ++ encode_packet eof_packet seq
unfolding write_eof_into encode_packet eof_packet le_bytes
write_eof_into_lem out seq = refl

pub write_text_row_into_lem :
    (out : List ℕ) (row : List (Option Str)) (seq : ℕ)
    → write_text_row_into out row seq ≡ out ++ encode_packet (text_row row) seq
unfolding write_text_row_into text_row
write_text_row_into_lem out row seq =
    rw (put_text_values-append out zeros row, put_text_values-append zeros [] row)
      (fill_header_lem out (put_text_values [] row) seq)

pub write_binary_row_into_lem :
    (out : List ℕ) (row : List (Option Str)) (seq : ℕ)
    → write_binary_row_into out row seq ≡ out ++ encode_packet (binary_row row) seq
unfolding write_binary_row_into binary_row
write_binary_row_into_lem out row seq =
    let head = 0x00 ∷ null_bitmap row in
    rw (append_assoc (out ++ zeros) (0x00 ∷ []) (null_bitmap row), append_assoc out zeros head)
      (rw (put_present-append out (zeros ++ head) row, put_present-append zeros head row)
        (fill_header_lem out (put_present head row) seq))

abbrev col_fields : List ℕ → Str → ℕ → List ℕ
col_fields b name col_type =
    put_lenenc_str
      (put_lenenc_str
        (put_lenenc_str (put_lenenc_str (put_lenenc_str (put_lenenc_str b (str "def")) []) []) [])
        name)
      name
    ++ (0x0c
        ∷ (le_bytes 2 0x21
            ++ (le_bytes 4 255 ++ (col_type ∷ (le_bytes 2 0 ++ (0 ∷ le_bytes 2 0))))))

col_fields-append :
    (a b : List ℕ) (name : Str) (col_type : ℕ)
    → col_fields (a ++ b) name col_type ≡ a ++ col_fields b name col_type
col_fields-append a b name col_type = simp (put_lenenc_str-append, append_assoc)

pub write_col_def_into_lem :
    (out : List ℕ) (name : Str) (col_type seq : ℕ)
    → write_col_def_into out name col_type seq
      ≡ out ++ encode_packet (column_def [] [] name col_type 0) seq
unfolding write_col_def_into column_def
write_col_def_into_lem out name col_type seq =
    ap (λ l. fill_header l (length out) seq)
      (col_fields-append out zeros name col_type
        ∙ ap (λ l. out ++ l) (col_fields-append zeros [] name col_type))
    ∙ fill_header_lem out (col_fields [] name col_type) seq
