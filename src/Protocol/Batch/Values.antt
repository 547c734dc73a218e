-- ===== src/Protocol/Batch/Values.antt =====
-- Rows of engine values, written without intermediate strings: the same bytes as the text row of
-- their display form.
use run_alex_db.Common.{ℕ, ◌≡◌, refl, ap, ◌∙◌, arith}
use run_alex_db.Common.{List, [], ◌∷◌, ◌++◌, append_assoc, map}
use run_alex_db.Common.{length, replicate, All, lt→ltb, set-append_add}
use run_alex_db.Common.Bytes.{le_bytes}
use run_alex_db.Common.Int.{ℤ, IsI64}
use run_alex_db.Common.Decimal.{show_ℤ, length-show_ℤ}
use run_alex_db.Engine.Value.{Platform, Value, null, int, float, text, bytes, to_display}
use run_alex_db.Protocol.Lenenc.{lenenc, put_lenenc_str}
use run_alex_db.Protocol.Response.{put_text_values}
use run_alex_db.Protocol.Batch.{
  write_i64_digits, write_values, write_value_row_into, write_text_row_into,
}

-- The integers of a value are 64-bit.
abbrev pub IsValue : {F : Type 0} → Value F → Type 0
IsValue (int n) = IsI64 n
IsValue v = Unit {0}

-- The length byte that is filled in is the length-encoded form of the number of digits.
write_i64_digits_lem :
    (out : List ℕ) (n : ℤ) → IsI64 n → write_i64_digits out n ≡ put_lenenc_str out (show_ℤ n)
unfolding write_i64_digits put_lenenc_str lenenc le_bytes
write_i64_digits_lem out n h =
    rw (append_assoc out (0 ∷ []) (show_ℤ n), append_assoc out _ (show_ℤ n), set-append_add)
      (rw (lt→ltb (length (show_ℤ n)) 251 (omega (arith, length-show_ℤ n h))) refl)

module _ (pf : Platform) where
  open pf use {F}

  write_values_lem :
      (out : List ℕ) (row : List (Value F))
      → All (IsValue {F = F}) row
      → write_values pf out row ≡ put_text_values out (map (to_display pf) row)
  unfolding write_values put_text_values put_lenenc_str to_display
  write_values_lem out [] h = refl
  write_values_lem out (null ∷ row) (hv, hs) = write_values_lem (out ++ (0xfb ∷ [])) row hs
  write_values_lem out (int n ∷ row) (hv, hs) =
      write_values_lem (write_i64_digits out n) row hs
      ∙ ap (λ l. put_text_values l (map (to_display pf) row)) (write_i64_digits_lem out n hv)
  write_values_lem out (float f ∷ row) (hv, hs) = write_values_lem _ row hs
  write_values_lem out (text s ∷ row) (hv, hs) = write_values_lem _ row hs
  write_values_lem out (bytes b ∷ row) (hv, hs) = write_values_lem _ row hs

  -- A row of values is written as the text row of what `to_display` gives for them.
  pub write_value_row_into_lem :
      (out : List ℕ) (row : List (Value F)) (seq : ℕ)
      → All (IsValue {F = F}) row
      → write_value_row_into pf out row seq ≡ write_text_row_into out (map (to_display pf) row) seq
  unfolding write_value_row_into write_text_row_into
  write_value_row_into_lem out row seq h = rw (write_values_lem (out ++ replicate 4 0) row h)
