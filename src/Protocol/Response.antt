-- ===== src/Protocol/Response.antt =====
-- src/protocol.rs, the payloads of the server's answers.
pub mod Nulls
use Prim.Native.Nat.{bit_or}
use run_alex_db.Common.{ℕ, suc, ◌+◌, ◌/◌, ◌%◌, ◌^◌, Option, none, some, List, [], ◌∷◌, ◌++◌}
use run_alex_db.Common.{length, get_or, set, replicate}
use run_alex_db.Common.Bytes.{le_bytes}
use run_alex_db.Common.Dict.{Str, str}
use run_alex_db.Protocol.Lenenc.{put_lenenc, put_lenenc_str}

unfoldable pub ok_packet : ℕ → ℕ → List ℕ
ok_packet affected last_insert_id =
    put_lenenc (put_lenenc (0x00 ∷ []) affected) last_insert_id ++ (le_bytes 2 2 ++ le_bytes 2 0)

unfoldable pub err_packet : ℕ → Str → List ℕ
err_packet code msg = 0xff ∷ (le_bytes 2 code ++ (str "#HY000" ++ msg))

unfoldable pub eof_packet : List ℕ
eof_packet = 0xfe ∷ (le_bytes 2 0 ++ le_bytes 2 2)

unfoldable pub column_def : Str → Str → Str → ℕ → ℕ → List ℕ
column_def schema table name col_type flags =
    let out = put_lenenc_str [] (str "def") in
    let out = put_lenenc_str out schema in
    let out = put_lenenc_str out table in
    let out = put_lenenc_str out table in
    let out = put_lenenc_str out name in
    let out = put_lenenc_str out name in
    out
    ++ (0x0c
        ∷ (le_bytes 2 0x21
            ++ (le_bytes 4 255 ++ (col_type ∷ (le_bytes 2 flags ++ (0 ∷ le_bytes 2 0))))))

-- One value of a text row: 0xfb stands for NULL.
unfoldable pub put_text_value : List ℕ → Option Str → List ℕ
put_text_value out none = out ++ (0xfb ∷ [])
put_text_value out (some s) = put_lenenc_str out s

unfoldable pub put_text_values : List ℕ → List (Option Str) → List ℕ
unfolding put_text_value
put_text_values out [] = out
put_text_values out (v ∷ vs) = put_text_values (put_text_value out v) vs

unfoldable pub text_row : List (Option Str) → List ℕ
text_row values = put_text_values [] values

unfoldable pub stmt_prepare_ok : ℕ → ℕ → ℕ → List ℕ
stmt_prepare_ok stmt_id num_params num_columns =
    0x00
    ∷ (le_bytes 4 stmt_id
        ++ (le_bytes 2 num_columns ++ (le_bytes 2 num_params ++ (0 ∷ le_bytes 2 0))))

-- `null_bitmap[bit / 8] |= 1 << (bit % 8)`.
unfoldable pub set_bit : List ℕ → ℕ → List ℕ
set_bit bitmap bit = set bitmap (bit / 8) (bit_or (get_or bitmap (bit / 8) 0) (2 ^ (bit % 8)))

-- The loop over `values.iter().enumerate()`, from the `i`-th value on.
unfoldable pub mark_nulls : ℕ → List (Option Str) → List ℕ → List ℕ
unfolding set_bit
mark_nulls i [] bitmap = bitmap
mark_nulls i (none ∷ vs) bitmap = mark_nulls (suc i) vs (set_bit bitmap (i + 2))
mark_nulls i (some s ∷ vs) bitmap = mark_nulls (suc i) vs bitmap

unfoldable pub null_bitmap : List (Option Str) → List ℕ
unfolding mark_nulls
null_bitmap values = mark_nulls 0 values (replicate ((length values + 7 + 2) / 8) 0)

-- The values that are not NULL, one after the other.
unfoldable pub put_present : List ℕ → List (Option Str) → List ℕ
put_present out [] = out
put_present out (none ∷ vs) = put_present out vs
put_present out (some s ∷ vs) = put_present (put_lenenc_str out s) vs

unfoldable pub binary_row : List (Option Str) → List ℕ
binary_row values = put_present (0x00 ∷ null_bitmap values) values
