-- ===== src/Protocol/Batch.antt =====
-- src/protocol.rs, the inline writers: each reserves a header, writes the payload behind it, and fills
-- the header in, so that a whole result goes out in one write.
pub mod Rows
pub mod Frames
pub mod Values
pub mod Results
use run_alex_db.Common.{ℕ, suc, ◌+◌, ◌-◌, ◌/◌, ◌%◌, ◌^◌, Option, none, some, List, [], ◌∷◌, ◌++◌}
use run_alex_db.Common.{length, set, replicate}
use run_alex_db.Common.Bytes.{le_bytes}
use run_alex_db.Common.Dict.{Str, str}
use run_alex_db.Common.Int.{ℤ}
use run_alex_db.Common.Decimal.{show_ℤ}
use run_alex_db.Engine.Value.{Platform, Value, null, int, float, text, bytes}
use run_alex_db.Engine.Value.{QueryResult, ok, err, rows, value_rows}
use run_alex_db.Protocol.Lenenc.{put_lenenc, put_lenenc_str}
use run_alex_db.Protocol.Response.{ok_packet, err_packet, put_text_values, null_bitmap, put_present}

unfoldable pub write_packet_into : List ℕ → List ℕ → ℕ → List ℕ
write_packet_into out payload seq = out ++ (le_bytes 3 (length payload % 2 ^ 32) ++ (seq ∷ payload))

unfoldable pub write_eof_into : List ℕ → ℕ → List ℕ
write_eof_into out seq = out ++ (0x05 ∷ 0x00 ∷ 0x00 ∷ seq ∷ 0xfe ∷ 0x00 ∷ 0x00 ∷ 0x02 ∷ 0x00 ∷ [])

-- The four assignments to `out[hdr_pos ..]` that end each writer.
unfoldable pub fill_header : List ℕ → ℕ → ℕ → List ℕ
fill_header out hdr_pos seq =
    let pl = length out - hdr_pos - 4 in
    let out = set out (hdr_pos + 0) (pl % 256) in
    let out = set out (hdr_pos + 1) (pl / 2 ^ 8 % 256) in
    let out = set out (hdr_pos + 2) (pl / 2 ^ 16 % 256) in set out (hdr_pos + 3) seq

unfoldable pub write_col_def_into : List ℕ → Str → ℕ → ℕ → List ℕ
write_col_def_into out name col_type seq =
    let hdr_pos = length out in
    let out = out ++ replicate 4 0 in
    let out = put_lenenc_str out (str "def") in
    let out = put_lenenc_str out [] in
    let out = put_lenenc_str out [] in
    let out = put_lenenc_str out [] in
    let out = put_lenenc_str out name in
    let out = put_lenenc_str out name in
    let out =
      out
      ++ (0x0c
          ∷ (le_bytes 2 0x21
              ++ (le_bytes 4 255 ++ (col_type ∷ (le_bytes 2 0 ++ (0 ∷ le_bytes 2 0)))))) in
    fill_header out hdr_pos seq

unfoldable pub write_text_row_into : List ℕ → List (Option Str) → ℕ → List ℕ
write_text_row_into out row seq =
    let hdr_pos = length out in fill_header (put_text_values (out ++ replicate 4 0) row) hdr_pos seq

unfoldable pub write_binary_row_into : List ℕ → List (Option Str) → ℕ → List ℕ
write_binary_row_into out row seq =
    let hdr_pos = length out in
    let out = out ++ replicate 4 0 in
    let out = (out ++ (0x00 ∷ [])) ++ null_bitmap row in
    fill_header (put_present out row) hdr_pos seq

-- The decimal digits behind a one-byte length, which is filled in afterwards.
unfoldable pub write_i64_digits : List ℕ → ℤ → List ℕ
write_i64_digits out n =
    let lenenc_pos = length out in
    let out = out ++ (0 ∷ []) in
    let out = out ++ show_ℤ n in set out (lenenc_pos + 0) (length (show_ℤ n) % 256)

-- `for row in rows { write(buf, row, s); s = s.wrapping_add(1); }`: the buffer and the next number.
unfoldable pub write_each {ℓ} :
    {A : Type ℓ} → (List ℕ → A → ℕ → List ℕ) → List ℕ → List A → ℕ → List ℕ × ℕ
write_each write buf [] s = (buf, s)
write_each write buf (x ∷ xs) s = write_each write (write buf x s) xs ((s + 1) % 256)

-- The column count, the column definitions, EOF, the rows and EOF.
unfoldable pub write_result_set {ℓ} :
    {A : Type ℓ} → (List ℕ → A → ℕ → List ℕ) → List ℕ → List Str → List A → ℕ → List ℕ
write_result_set write_row buf columns rs seq =
    let buf = write_packet_into buf ((length columns % 256) ∷ []) seq in
    let (buf, s) =
      write_each (λ out col n. write_col_def_into out col 0xfd n) buf columns ((seq + 1) % 256) in
    let buf = write_eof_into buf s in
    let (buf, s) = write_each write_row buf rs ((s + 1) % 256) in write_eof_into buf s

module _ (pf : Platform) where
  open pf use {F, float_text, hex_encode}

  unfoldable pub write_value_text : List ℕ → Value F → List ℕ
  unfolding write_i64_digits
  write_value_text out null = out ++ (0xfb ∷ [])
  write_value_text out (int n) = write_i64_digits out n
  write_value_text out (float f) = put_lenenc out (length (float_text f)) ++ float_text f
  write_value_text out (text s) = put_lenenc out (length s) ++ s
  write_value_text out (bytes b) = put_lenenc out (length (hex_encode b)) ++ hex_encode b

  unfoldable pub write_values : List ℕ → List (Value F) → List ℕ
  unfolding write_value_text
  write_values out [] = out
  write_values out (v ∷ vs) = write_values (write_value_text out v) vs

  unfoldable pub write_value_row_into : List ℕ → List (Value F) → ℕ → List ℕ
  write_value_row_into out row seq =
      let hdr_pos = length out in fill_header (write_values (out ++ replicate 4 0) row) hdr_pos seq

  unfoldable pub build_value_result_into : List ℕ → List Str → List (List (Value F)) → ℕ → List ℕ
  build_value_result_into buf columns rs seq =
      write_result_set write_value_row_into buf columns rs seq

  unfoldable pub build_result_into : List ℕ → QueryResult F → ℕ → List ℕ
  unfolding build_value_result_into
  build_result_into buf (ok affected id) seq = write_packet_into buf (ok_packet affected id) seq
  build_result_into buf (err code message) seq = write_packet_into buf (err_packet code message) seq
  build_result_into buf (rows columns rs) seq =
      write_result_set write_text_row_into buf columns rs seq
  build_result_into buf (value_rows columns rs) seq = build_value_result_into buf columns rs seq

  unfoldable pub build_binary_result_into : List ℕ → QueryResult F → ℕ → List ℕ
  unfolding build_value_result_into
  build_binary_result_into buf (ok affected id) seq =
      write_packet_into buf (ok_packet affected id) seq
  build_binary_result_into buf (err code message) seq =
      write_packet_into buf (err_packet code message) seq
  build_binary_result_into buf (rows columns rs) seq =
      write_result_set write_binary_row_into buf columns rs seq
  build_binary_result_into buf (value_rows columns rs) seq =
      build_value_result_into buf columns rs seq
