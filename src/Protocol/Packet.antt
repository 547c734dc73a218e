-- ===== src/Protocol/Packet.antt =====
-- src/protocol.rs, packet framing: a three-byte length, a sequence number and the payload.
pub mod Laws
use run_alex_db.Common.{ℕ, zero, suc, ◌+◌, ◌*◌, ◌%◌, ◌^◌, Option, none, some, List, [], ◌∷◌, ◌++◌}
use run_alex_db.Common.{ltb, if◌then◌else◌, length, get_or, take, drop}
use run_alex_db.Common.Bytes.{le_bytes}

-- The bytes are shifted to places that do not overlap, so `|` adds them.
unfoldable pub u24_le : List ℕ → ℕ
u24_le b = get_or b 0 0 + get_or b 1 0 * 2 ^ 8 + get_or b 2 0 * 2 ^ 16

-- The packet, if the buffer holds a whole one, and what is left in the buffer.
unfoldable pub decode_packet : List ℕ → Option (List ℕ × ℕ) × List ℕ
unfolding u24_le
decode_packet buf =
    let len = u24_le (take 3 buf) in
    let body = drop 4 buf in
    if ltb (length buf) 4
    then (none, buf)
    else if ltb (length buf) (4 + len)
    then (none, buf)
    else (some (take len body, get_or buf 3 0), drop len body)

-- The length goes through `u32`, and its three low bytes are written.
unfoldable pub encode_packet : List ℕ → ℕ → List ℕ
encode_packet payload seq = le_bytes 3 (length payload % 2 ^ 32) ++ (seq ∷ payload)

-- `while let Some((payload, seq)) = decode_packet(&mut buf)`, with what the packets were and what is
-- left. Each round takes four bytes at least, so the length of the buffer is fuel enough.
decode_loop : ℕ → List ℕ → List (List ℕ × ℕ) × List ℕ
decode_loop zero buf = ([], buf)
decode_loop (suc fuel) buf =
    let (out, rest) = decode_packet buf in
    elim out [
      | none ↦ ([], rest)
      | some packet ↦ let (more, left) = decode_loop fuel rest in (packet ∷ more, left)
    ]

pub decode_packets : List ℕ → List (List ℕ × ℕ) × List ℕ
decode_packets buf = decode_loop (suc (length buf)) buf

-- Packets one after the other, as a peer writes them.
abbrev pub encode_packets : List (List ℕ × ℕ) → List ℕ
encode_packets [] = []
encode_packets ((payload, seq) ∷ ps) = encode_packet payload seq ++ encode_packets ps
