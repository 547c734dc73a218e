-- ===== src/Protocol/Tests.antt =====
-- The laws of src/protocol.rs at concrete packets, results and commands.
use run_alex_db.Common.{
  ℕ, ◌+◌, ◌/◌, ◌<◌, ◌≡◌, ◌≢◌, refl, arith, Option, none, some, List, [], ◌∷◌, ◌++◌, length, take,
  drop,
}
use run_alex_db.Common.Bytes.{le_bytes}
use run_alex_db.Common.Int.{negsuc}
use run_alex_db.Common.Dict.{Str, str}
use run_alex_db.Common.Utf8.{IsAscii-IsUtf8}
use run_alex_db.Engine.Value.{QueryResult, value_rows, rows, int, null, ok, display_rows}
use run_alex_db.Engine.Sample.{platform}
use run_alex_db.Protocol.Packet.{decode_packet, encode_packet, decode_packets, encode_packets}
use run_alex_db.Protocol.Packet.Laws.{
  decode_packet-encode_packet, decode_packet_prefix, decode_packets-encode_packets, AllFit,
}
use run_alex_db.Protocol.Lenenc.{put_lenenc_str, put_lenenc, lenenc}
use run_alex_db.Protocol.Response.{ok_packet, text_row, binary_row}
use run_alex_db.Protocol.Response.Nulls.{bit_at, null_at}
use run_alex_db.Protocol.Batch.{build_result_into, build_binary_result_into}
use run_alex_db.Protocol.Batch.Frames.{number}
use run_alex_db.Protocol.Batch.Results.{
  result_payloads, build_result_into-display_rows, build_result_into-encode_packets,
  decode_packets-build_result_into,
}
use run_alex_db.Protocol.Command.{stmt_execute, parse_command}
use run_alex_db.Protocol.Command.Laws.{encode_command, parse_command-encode_command}
use run_alex_db.Protocol.Params.{
  parse_execute_params, slice, new_bound_at, param_types, read_types, read_params, values_start,
  read_lenenc_bytes_as_str,
}
use run_alex_db.Protocol.Params.Total.{parse_execute_params-ne-none}
use run_alex_db.Protocol.Params.Nulls.{parse_execute_params_nulls}
use run_alex_db.Protocol.Params.RoundTrip.{read_lenenc_bytes_as_str-put_lenenc_str}

decode_packet-encode_packet_example :
    decode_packet (encode_packet (14 ∷ 15 ∷ []) 3 ++ (9 ∷ [])) ≡ (some (14 ∷ 15 ∷ [], 3), 9 ∷ [])
decode_packet-encode_packet_example =
    decode_packet-encode_packet (14 ∷ 15 ∷ []) 3 (9 ∷ []) (omega arith)

decode_packet_prefix_example :
    decode_packet (2 ∷ 0 ∷ 0 ∷ 3 ∷ 14 ∷ []) ≡ (none, 2 ∷ 0 ∷ 0 ∷ 3 ∷ 14 ∷ [])
unfolding encode_packet le_bytes
decode_packet_prefix_example =
    decode_packet_prefix (14 ∷ 15 ∷ []) 3 (2 ∷ 0 ∷ 0 ∷ 3 ∷ 14 ∷ []) 15 [] (omega arith) refl

decode_packets-encode_packets_example :
    decode_packets (encode_packets ((14 ∷ [], 0) ∷ (1 ∷ [], 0) ∷ []) ++ (9 ∷ []))
    ≡ ((14 ∷ [], 0) ∷ (1 ∷ [], 0) ∷ [], 9 ∷ [])
decode_packets-encode_packets_example =
    decode_packets-encode_packets ((14 ∷ [], 0) ∷ (1 ∷ [], 0) ∷ []) (9 ∷ [])
      (omega arith, (omega arith, tt)) (unfold decode_packet in refl)

abbrev result : QueryResult ℕ
result = value_rows (str "id" ∷ []) ((int (negsuc 4) ∷ []) ∷ (null ∷ []) ∷ [])

build_result_into-display_rows_example :
    build_result_into platform [] result 1
    ≡ build_result_into platform []
        (rows (str "id" ∷ []) (display_rows platform ((int (negsuc 4) ∷ []) ∷ (null ∷ []) ∷ [])))
        1
build_result_into-display_rows_example =
    build_result_into-display_rows platform [] (str "id" ∷ [])
      ((int (negsuc 4) ∷ []) ∷ (null ∷ []) ∷ []) 1
      (((omega arith, omega arith), tt), ((tt, tt), tt))

build_result_into-encode_packets_example :
    (build_result_into platform (7 ∷ []) result 1
      ≡ 7 ∷ encode_packets (number 1 (result_payloads platform text_row result)))
    × (build_binary_result_into platform (7 ∷ []) result 1
        ≡ 7 ∷ encode_packets (number 1 (result_payloads platform binary_row result)))
build_result_into-encode_packets_example =
    build_result_into-encode_packets platform (7 ∷ []) result 1
      (((omega arith, omega arith), tt), ((tt, tt), tt))

ok_fits : AllFit (number 1 (result_payloads platform text_row (ok 3 4)))
unfolding ok_packet put_lenenc lenenc le_bytes
ok_fits = (omega arith, tt)

decode_packets-build_result_into_example :
    decode_packets (build_result_into platform [] (ok 3 4) 1)
    ≡ (number 1 (result_payloads platform text_row (ok 3 4)), [])
decode_packets-build_result_into_example =
    decode_packets-build_result_into platform (ok 3 4) 1 tt ok_fits

parse_command-encode_command_example :
    parse_command (encode_command (stmt_execute 77) (0 ∷ [])) ≡ stmt_execute 77
parse_command-encode_command_example =
    parse_command-encode_command (stmt_execute 77) (0 ∷ []) (omega arith)

-- One text parameter, `hi`, behind a bitmap with no bit set.
abbrev payload : List ℕ
payload = 0x17 ∷ 1 ∷ 0 ∷ 0 ∷ 0 ∷ 0 ∷ 1 ∷ 0 ∷ 0 ∷ 0 ∷ 0 ∷ 1 ∷ 0xfd ∷ 0 ∷ 2 ∷ b'h' ∷ b'i' ∷ []

parse_execute_params-ne-none_example : parse_execute_params platform payload 1 ≢ none
parse_execute_params-ne-none_example = parse_execute_params-ne-none platform payload 1

abbrev null_payload : List ℕ
null_payload = 0x17 ∷ 1 ∷ 0 ∷ 0 ∷ 0 ∷ 0 ∷ 1 ∷ 0 ∷ 0 ∷ 0 ∷ 1 ∷ 1 ∷ 0xfd ∷ 0 ∷ []

run_null : parse_execute_params platform null_payload 1 ≡ some (none ∷ [])
unfolding parse_execute_params slice new_bound_at param_types read_types read_params values_start
run_null = refl

parse_execute_params_nulls_example :
    (length {A = Option Str} (none ∷ []) ≡ 1)
    × ((i : ℕ)
        → i < 1
        → null_at (none ∷ []) i ≡ bit_at (take ((1 + 7) / 8) (drop 10 null_payload)) i)
parse_execute_params_nulls_example =
    parse_execute_params_nulls platform null_payload 1 (none ∷ []) (omega arith) (omega arith)
      run_null

read_lenenc_example :
    read_lenenc_bytes_as_str ((8 ∷ []) ++ (put_lenenc_str [] (str "hi") ++ [])) 1
    ≡ some (str "hi", 1 + length (put_lenenc_str [] (str "hi")))
read_lenenc_example =
    read_lenenc_bytes_as_str-put_lenenc_str (8 ∷ []) (str "hi") [] (omega arith)
      (IsAscii-IsUtf8 (str "hi") (omega arith, (omega arith, tt)))
