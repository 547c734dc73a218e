-- ===== src/Protocol/Batch/Results.antt =====
-- `build_result_into` and `build_binary_result_into` against the packets of each result.
use run_alex_db.Common.{ℕ, ◌+◌, ◌%◌, ◌≡◌, refl, ◌∙◌}
use run_alex_db.Common.{List, [], ◌∷◌, ◌++◌, append-nil, Option, map, All}
use run_alex_db.Common.Dict.{Str}
use run_alex_db.Engine.Value.{Platform, Value, to_display, display_rows}
use run_alex_db.Engine.Value.{QueryResult, ok, err, rows, value_rows}
use run_alex_db.Protocol.Packet.{decode_packet, decode_packets, encode_packets}
use run_alex_db.Protocol.Packet.Laws.{AllFit, decode_packets-encode_packets}
use run_alex_db.Protocol.Response.{ok_packet, err_packet, text_row, binary_row}
use run_alex_db.Protocol.Batch.{
  write_text_row_into, write_binary_row_into, write_value_row_into, write_each, write_result_set,
  build_result_into, build_binary_result_into,
}
use run_alex_db.Protocol.Batch.Rows.{
  write_packet_into_lem, write_text_row_into_lem, write_binary_row_into_lem,
}
use run_alex_db.Protocol.Batch.Values.{IsValue, write_value_row_into_lem}
use run_alex_db.Protocol.Batch.Frames.{number, result_set_payloads, write_result_set_lem}

module _ (pf : Platform) where
  open pf use {F}

  -- The payloads that a client should see for a result, in order, each built by its own function. A
  -- result set of engine values stands for the text of the values.
  abbrev pub result_payloads : (List (Option Str) → List ℕ) → QueryResult F → List (List ℕ)
  result_payloads row_payload (ok affected id) = ok_packet affected id ∷ []
  result_payloads row_payload (err code message) = err_packet code message ∷ []
  result_payloads row_payload (rows columns rs) = result_set_payloads columns (map row_payload rs)
  result_payloads row_payload (value_rows columns rs) =
      result_set_payloads columns (map text_row (map (map (to_display pf)) rs))

  -- The integers of a result are 64-bit.
  abbrev pub IsResult : QueryResult F → Type 0
  IsResult (value_rows columns rs) = All (All (IsValue {F = F})) rs
  IsResult r = Unit {0}

  write_each-display :
      (buf : List ℕ) (rs : List (List (Value F))) (seq : ℕ)
      → All (All (IsValue {F = F})) rs
      → write_each (write_value_row_into pf) buf rs seq
        ≡ write_each write_text_row_into buf (map (map (to_display pf)) rs) seq
  unfolding write_each
  write_each-display buf [] seq h = refl
  write_each-display buf (r ∷ rs) seq (hr, hs) = rw (write_value_row_into_lem pf buf r seq hr) (
      write_each-display (write_text_row_into buf (map (to_display pf) r) seq) rs ((seq + 1) % 256)
        hs)

  -- The path that writes engine values straight into the buffer writes the same bytes as the path
  -- through strings does for the `to_display` text of each value: for every result set of values whose
  -- integers are 64-bit.
  pub build_result_into-display_rows :
      (buf : List ℕ) (columns : List Str) (rs : List (List (Value F))) (seq : ℕ)
      → IsResult (value_rows columns rs)
      → build_result_into pf buf (value_rows columns rs) seq
        ≡ build_result_into pf buf (rows columns (display_rows pf rs)) seq
  unfolding build_result_into write_result_set display_rows
  build_result_into-display_rows buf columns rs seq h = rw (write_each-display _ rs _ h)

  build_frames :
      (buf : List ℕ) (r : QueryResult F) (seq : ℕ)
      → IsResult r
      → build_result_into pf buf r seq
        ≡ buf ++ encode_packets (number seq (result_payloads text_row r))
  build_frames buf (ok affected id) seq h =
      unfold build_result_into in
      rw (write_packet_into_lem buf (ok_packet affected id) seq, append-nil)
  build_frames buf (err code message) seq h =
      unfold build_result_into in
      rw (write_packet_into_lem buf (err_packet code message) seq, append-nil)
  build_frames buf (rows columns rs) seq h =
      unfold build_result_into in
      write_result_set_lem write_text_row_into text_row write_text_row_into_lem buf columns rs seq
  build_frames buf (value_rows columns rs) seq h =
      build_result_into-display_rows buf columns rs seq h
      ∙ unfold build_result_into display_rows in
        write_result_set_lem write_text_row_into text_row write_text_row_into_lem buf columns _ seq

  -- One batched write is the same bytes as the packets of the result sent one by one, each built by its
  -- own function and numbered from `seq` on modulo 256: for every result, text or binary, whose integers
  -- are 64-bit, and whatever is in the buffer already.
  pub build_result_into-encode_packets :
      (buf : List ℕ) (r : QueryResult F) (seq : ℕ)
      → IsResult r
      → (build_result_into pf buf r seq
          ≡ buf ++ encode_packets (number seq (result_payloads text_row r)))
        × (build_binary_result_into pf buf r seq
            ≡ buf ++ encode_packets (number seq (result_payloads binary_row r)))
  build_result_into-encode_packets buf r seq h = (build_frames buf r seq h, binary r h)
    where
      binary :
          (r : QueryResult F)
          → IsResult r
          → build_binary_result_into pf buf r seq
            ≡ buf ++ encode_packets (number seq (result_payloads binary_row r))
      binary (ok affected id) h =
          unfold build_binary_result_into build_result_into in
          build_frames buf (ok affected id) seq h
      binary (err code message) h =
          unfold build_binary_result_into build_result_into in
          build_frames buf (err code message) seq h
      binary (rows columns rs) h =
          unfold build_binary_result_into in
          write_result_set_lem write_binary_row_into binary_row write_binary_row_into_lem buf
            columns rs seq
      binary (value_rows columns rs) h =
          unfold build_binary_result_into build_result_into in
          build_frames buf (value_rows columns rs) seq h

  -- A client that decodes the batched bytes gets exactly the packets of the result, in order, numbered
  -- from `seq` on modulo 256, with nothing left over: for every result whose integers are 64-bit and
  -- whose payloads are all shorter than 2 ^ 24.
  pub decode_packets-build_result_into :
      (r : QueryResult F) (seq : ℕ)
      → IsResult r
      → AllFit (number seq (result_payloads text_row r))
      → decode_packets (build_result_into pf [] r seq)
        ≡ (number seq (result_payloads text_row r), [])
  decode_packets-build_result_into r seq h fit = rw (build_frames [] r seq h) (
      rw append-nil at (
        decode_packets-encode_packets (number seq (result_payloads text_row r)) [] fit
          (unfold decode_packet in refl)))
