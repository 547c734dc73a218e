-- ===== src/Protocol/Command.antt =====
-- src/protocol.rs, `parse_command`.
pub mod Laws
use run_alex_db.Common.{ℕ, List, [], ◌∷◌, ltb, ◌==◌, if◌then◌else◌, length, take}
use run_alex_db.Common.Bytes.{of_le_bytes}
use run_alex_db.Common.Dict.{Str}
use run_alex_db.Common.Utf8.{from_utf8_lossy}

pub data Command : Type 0 where
  query : Str → Command
  ping quit : Command
  init_db : Str → Command
  field_list : Str → Command
  stmt_prepare : Str → Command
  stmt_execute : ℕ → Command
  stmt_close : ℕ → Command
  stmt_reset : ℕ → Command
  unknown : ℕ → Command

-- The arms that read a statement number: four bytes must follow the command byte.
unfoldable pub with_stmt_id : (ℕ → Command) → ℕ → List ℕ → Command
with_stmt_id command byte rest =
    if ltb (length rest) 4 then unknown byte else command (of_le_bytes (take 4 rest))

-- The match on the first byte.
unfoldable pub parse_byte : ℕ → List ℕ → Command
unfolding with_stmt_id
parse_byte b rest =
    if b == 0x01
    then quit
    else if b == 0x02
    then init_db (from_utf8_lossy rest)
    else if b == 0x03
    then query (from_utf8_lossy rest)
    else if b == 0x04
    then field_list (from_utf8_lossy rest)
    else if b == 0x0e
    then ping
    else if b == 0x16
    then stmt_prepare (from_utf8_lossy rest)
    else if b == 0x17
    then with_stmt_id stmt_execute 0x17 rest
    else if b == 0x19
    then with_stmt_id stmt_close 0x19 rest
    else if b == 0x1a
    then with_stmt_id stmt_reset 0x1a rest
    else unknown b

unfoldable pub parse_command : List ℕ → Command
unfolding parse_byte
parse_command [] = unknown 0
parse_command (b ∷ rest) = parse_byte b rest
