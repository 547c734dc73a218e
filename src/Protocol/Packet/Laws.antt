-- ===== src/Protocol/Packet/Laws.antt =====
-- What the packet framing guarantees to both peers.
use run_alex_db.Common.{ℕ, zero, suc, ◌+◌, ◌*◌, ◌%◌, ◌/◌, ◌^◌, ◌≤◌, ◌<◌, ◌≡◌, refl, ap, ◌∙◌, arith}
use run_alex_db.Common.{none, some, List, [], ◌∷◌, ◌++◌, append_assoc, append-nil}
use run_alex_db.Common.{ltb, length, get_or, take, drop}
use run_alex_db.Common.{take-append_le, drop-append_le, Bool-cases, inl, inr, ◌⊎◌}
use run_alex_db.Common.{length-append, length-drop, take-length-append, drop-length-append}
use run_alex_db.Common.Bytes.{le_bytes}
use run_alex_db.Protocol.Packet.{
  u24_le, decode_packet, encode_packet, decode_loop, decode_packets, encode_packets,
}

-- What fits the three-byte length.
abbrev pub Fits : List ℕ → Type 0
Fits payload = length payload < 2 ^ 24

-- The three bytes of the header give the length back.
header_value :
    (n : ℕ)
    → n < 2 ^ 24
    → n % 2 ^ 32 % 256 + n % 2 ^ 32 / 256 % 256 * 2 ^ 8 + n % 2 ^ 32 / 256 / 256 % 256 * 2 ^ 16 ≡ n
header_value n h = omega arith

-- A whole encoded packet in front of other bytes is decoded to its payload and sequence number, and
-- the other bytes stay in the buffer, for every payload shorter than 2 ^ 24.
pub decode_packet-encode_packet :
    (payload : List ℕ) (seq : ℕ) (rest : List ℕ)
    → Fits payload
    → decode_packet (encode_packet payload seq ++ rest) ≡ (some (payload, seq), rest)
unfolding decode_packet encode_packet le_bytes
decode_packet-encode_packet payload seq rest h =
    rw
      (
        header_value (length payload) h,
        take-length-append payload rest,
        drop-length-append payload rest,
      )
      (ground (arith, length-append payload rest))

-- A decoded packet does not depend on the bytes that follow it.
decode_packet-append :
    (buf more rest : List ℕ) (packet : List ℕ × ℕ)
    → decode_packet buf ≡ (some packet, rest)
    → decode_packet (buf ++ more) ≡ (some packet, rest ++ more)
unfolding decode_packet
decode_packet-append [] more rest packet h = ground arith
decode_packet-append (a ∷ []) more rest packet h = ground arith
decode_packet-append (a ∷ b ∷ []) more rest packet h = ground arith
decode_packet-append (a ∷ b ∷ c ∷ []) more rest packet h = ground arith
decode_packet-append (a ∷ b ∷ c ∷ d ∷ body) more rest packet h =
    let len = a + b * 2 ^ 8 + c * 2 ^ 16 in
    ground
      (arith, length-append body more, take-append_le len body more, drop-append_le len body more)

decode_packet-shorter :
    (buf rest : List ℕ) (packet : List ℕ × ℕ)
    → decode_packet buf ≡ (some packet, rest)
    → length rest + 4 ≤ length buf
unfolding decode_packet
decode_packet-shorter [] rest packet h = ground arith
decode_packet-shorter (a ∷ []) rest packet h = ground arith
decode_packet-shorter (a ∷ b ∷ []) rest packet h = ground arith
decode_packet-shorter (a ∷ b ∷ c ∷ []) rest packet h = ground arith
decode_packet-shorter (a ∷ b ∷ c ∷ d ∷ body) rest packet h =
    ground (arith, length-drop (a + b * 2 ^ 8 + c * 2 ^ 16) body)

decode_packet_cases :
    (buf : List ℕ)
    → (decode_packet buf ≡ (none, buf))
      ⊎ ((packet : List ℕ × ℕ) × (rest : List ℕ) × (decode_packet buf ≡ (some packet, rest)))
unfolding decode_packet
decode_packet_cases buf =
    let len = u24_le (take 3 buf) in
    elim (Bool-cases (ltb (length buf) 4)) [
      | inl short ↦ inl (rw short)
      | inr long ↦ elim (Bool-cases (ltb (length buf) (4 + len))) [
        | inl part ↦ inl (rw (long, part))
        | inr whole ↦
            inr ((take len (drop 4 buf), get_or buf 3 0), drop len (drop 4 buf), rw (long, whole))
      ]
    ]

-- A buffer with less than one whole packet is left alone: on every proper prefix of an encoded packet
-- nothing is decoded and the buffer stays as it is, so that the rest can still arrive.
pub decode_packet_prefix :
    (payload : List ℕ) (seq : ℕ) (front : List ℕ) (x : ℕ) (back : List ℕ)
    → Fits payload
    → encode_packet payload seq ≡ front ++ (x ∷ back)
    → decode_packet front ≡ (none, front)
decode_packet_prefix payload seq front x back h e = elim (decode_packet_cases front) [
  | inl quiet ↦ quiet
  | inr (packet, rest, found) ↦
      let whole : decode_packet (encode_packet payload seq ++ []) ≡ (some (payload, seq), []) =
        decode_packet-encode_packet payload seq [] h in
      let longer : decode_packet (front ++ (x ∷ back)) ≡ (some packet, rest ++ (x ∷ back)) =
        decode_packet-append front (x ∷ back) rest packet found in
      let same : rest ++ (x ∷ back) ≡ [] =
        cc (whole, longer, e, append-nil (encode_packet payload seq)) in
      absurd (omega (arith, ap length same, length-append rest (x ∷ back)))
]

decode_loop_step :
    (fuel : ℕ) (buf rest : List ℕ) (packet : List ℕ × ℕ)
    → decode_packet buf ≡ (some packet, rest)
    → decode_loop (suc fuel) buf
      ≡ (let (more, left) = decode_loop fuel rest in (packet ∷ more, left))
unfolding decode_loop
decode_loop_step fuel buf rest packet h = rw (h, decode_loop) (rw h)

decode_loop_stop :
    (fuel : ℕ) (rest : List ℕ)
    → decode_packet rest ≡ (none, rest)
    → decode_loop (suc fuel) rest ≡ ([], rest)
unfolding decode_loop
decode_loop_stop fuel rest h = rw (h, decode_loop) (rw h)

abbrev pub AllFit : List (List ℕ × ℕ) → Type 0
AllFit [] = Unit
AllFit ((payload, seq) ∷ ps) = Fits payload × AllFit ps

decode_loop-encode_packets :
    (ps : List (List ℕ × ℕ)) (fuel : ℕ) (rest : List ℕ)
    → AllFit ps
    → length (encode_packets ps) < fuel
    → decode_packet rest ≡ (none, rest)
    → decode_loop fuel (encode_packets ps ++ rest) ≡ (ps, rest)
decode_loop-encode_packets ps zero rest h f q = absurd (omega arith)
decode_loop-encode_packets [] (suc fuel) rest h f q = decode_loop_stop fuel rest q
decode_loop-encode_packets ((payload, seq) ∷ ps) (suc fuel) rest (hp, hs) f q =
    let head = encode_packet payload seq in
    let tail = encode_packets ps in
    rw (append_assoc head tail rest) (
      decode_loop_step fuel (head ++ (tail ++ rest)) (tail ++ rest) (payload, seq)
        (decode_packet-encode_packet payload seq (tail ++ rest) hp)
      ∙ rw
          (decode_loop-encode_packets ps fuel rest hs
            (omega (
              arith,
              length-append head tail,
              decode_packet-shorter (head ++ []) [] (payload, seq)
                  (decode_packet-encode_packet payload seq [] hp),
              length-append head [],
            ))
            q)
          refl)

-- The server's loop over a buffer takes exactly the packets that the peer wrote, in order, and leaves
-- an incomplete packet behind them in the buffer: for packets whose payloads are shorter than 2 ^ 24
-- and any rest from which nothing can be decoded.
pub decode_packets-encode_packets :
    (ps : List (List ℕ × ℕ)) (rest : List ℕ)
    → AllFit ps
    → decode_packet rest ≡ (none, rest)
    → decode_packets (encode_packets ps ++ rest) ≡ (ps, rest)
unfolding decode_packets
decode_packets-encode_packets ps rest h q =
    decode_loop-encode_packets ps _ rest h (omega (arith, length-append (encode_packets ps) rest)) q
