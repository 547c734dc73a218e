-- ===== src/Protocol/Command/Laws.antt =====
-- `parse_command` reads back what a client writes.
use run_alex_db.Common.{ℕ, ◌^◌, ◌<◌, ◌≡◌, refl, arith, List, [], ◌∷◌, ◌++◌, append-nil}
use run_alex_db.Common.Bytes.{le_bytes, of_le_bytes}
use run_alex_db.Common.Utf8.{IsUtf8}
use run_alex_db.Protocol.Command.{
  Command, query, ping, quit, init_db, field_list, stmt_prepare, stmt_execute, stmt_close,
  stmt_reset, unknown, with_stmt_id, parse_command,
}

-- How a client writes a command: its byte, then a text or a four-byte statement number. What it sends
-- behind the number of a statement to execute is up to the statement's parameters.
abbrev pub encode_command : Command → List ℕ → List ℕ
encode_command (query s) params = 0x03 ∷ s
encode_command ping params = 0x0e ∷ []
encode_command quit params = 0x01 ∷ []
encode_command (init_db s) params = 0x02 ∷ s
encode_command (field_list s) params = 0x04 ∷ s
encode_command (stmt_prepare s) params = 0x16 ∷ s
encode_command (stmt_execute n) params = 0x17 ∷ (le_bytes 4 n ++ params)
encode_command (stmt_close n) params = 0x19 ∷ le_bytes 4 n
encode_command (stmt_reset n) params = 0x1a ∷ le_bytes 4 n
encode_command (unknown b) params = b ∷ params

-- The commands of the protocol: texts are UTF-8 and statement numbers are 32-bit.
abbrev pub IsCommand : Command → Type 0
IsCommand (query s) = IsUtf8 s
IsCommand (init_db s) = IsUtf8 s
IsCommand (field_list s) = IsUtf8 s
IsCommand (stmt_prepare s) = IsUtf8 s
IsCommand (stmt_execute n) = n < 2 ^ 32
IsCommand (stmt_close n) = n < 2 ^ 32
IsCommand (stmt_reset n) = n < 2 ^ 32
IsCommand (unknown b) = ⊥
IsCommand c = Unit {0}

with_stmt_id_lem :
    (command : ℕ → Command) (byte n : ℕ) (rest : List ℕ)
    → n < 2 ^ 32
    → with_stmt_id command byte (le_bytes 4 n ++ rest) ≡ command n
unfolding with_stmt_id le_bytes of_le_bytes
with_stmt_id_lem command byte n rest h = ground arith

-- Every command that a client writes is read back as itself, with its text or its statement number:
-- for texts in UTF-8 and 32-bit statement numbers, whatever parameters follow.
pub parse_command-encode_command :
    (c : Command) (params : List ℕ) → IsCommand c → parse_command (encode_command c params) ≡ c
unfolding parse_command
parse_command-encode_command (query s) params h = rw h
parse_command-encode_command ping params h = refl
parse_command-encode_command quit params h = refl
parse_command-encode_command (init_db s) params h = rw h
parse_command-encode_command (field_list s) params h = rw h
parse_command-encode_command (stmt_prepare s) params h = rw h
parse_command-encode_command (stmt_execute n) params h =
    with_stmt_id_lem stmt_execute 0x17 n params h
parse_command-encode_command (stmt_close n) params h =
    rw append-nil at (with_stmt_id_lem stmt_close 0x19 n [] h)
parse_command-encode_command (stmt_reset n) params h =
    rw append-nil at (with_stmt_id_lem stmt_reset 0x1a n [] h)
parse_command-encode_command (unknown b) params h = absurd h
