-- ===== src/Server.antt =====
-- src/server.rs: a connection's state and what each command does to it. The engine is seen through its
-- operations; `trim` and `to_uppercase` are those of the standard library.
pub mod Replay
pub mod Prepared
pub mod Handshake
pub mod Start
mod Tests
use run_alex_db.Common.{
  ℕ, zero, suc, ◌+◌, ◌/◌, ◌%◌, ◌^◌, Option, none, some, List, [], ◌∷◌, ◌++◌, Bool, true, false,
}
use run_alex_db.Common.{if◌then◌else◌, ◌==◌, ◌&&◌, ◌||◌, not, length, drop, keep, get_or}
use run_alex_db.Common.Dict.{Str, str, str_eq}
use run_alex_db.Common.Text.{trim_matches, split_at_first}
use run_alex_db.SimdScan.{hash_query, starts_with}
use run_alex_db.Engine.Value.{Platform, QueryResult, ok, err, rows, value_rows}
use run_alex_db.Engine.Store.{Engine, Tables, take_snapshot, restore_snapshot, is_there}
use run_alex_db.Protocol.Packet.{encode_packet}
use run_alex_db.Protocol.Command.{
  Command, query, ping, quit, init_db, field_list, stmt_prepare, stmt_execute, stmt_close,
  stmt_reset, unknown, parse_command,
}
use run_alex_db.Protocol.Response.{ok_packet, err_packet, eof_packet, column_def, stmt_prepare_ok}
use run_alex_db.Protocol.Batch.{build_result_into, build_binary_result_into}
use run_alex_db.Protocol.Params.{parse_execute_params}

-- `SELECT_1_RESPONSE`.
abbrev pub select_1_response : List ℕ
select_1_response =
    0x01 ∷ 0x00 ∷ 0x00 ∷ 0x01 ∷ 0x01 ∷ 0x18 ∷ 0x00 ∷ 0x00 ∷ 0x02 ∷ 0x03 ∷ 0x64 ∷ 0x65 ∷ 0x66 ∷ 0x00
    ∷ 0x00 ∷ 0x00 ∷ 0x01 ∷ 0x31 ∷ 0x01 ∷ 0x31 ∷ 0x0c ∷ 0x21 ∷ 0x00 ∷ 0xff ∷ 0x00 ∷ 0x00 ∷ 0x00
    ∷ 0xfd ∷ 0x00 ∷ 0x00 ∷ 0x00 ∷ 0x00 ∷ 0x00 ∷ 0x05 ∷ 0x00 ∷ 0x00 ∷ 0x03 ∷ 0xfe ∷ 0x00 ∷ 0x00
    ∷ 0x02 ∷ 0x00 ∷ 0x02 ∷ 0x00 ∷ 0x00 ∷ 0x04 ∷ 0x01 ∷ 0x31 ∷ 0x05 ∷ 0x00 ∷ 0x00 ∷ 0x05 ∷ 0xfe
    ∷ 0x00 ∷ 0x00 ∷ 0x02 ∷ 0x00 ∷ []

pub record PreparedStmt : Type 0 where
  pub sql : Str
  pub num_params : ℕ

pub record Session (F : Type 0) : Type 0 where
  pub current_db : Option Str
  pub effective_user : Str
  pub txn_snapshot : Option (List (Str × Tables F))
  pub stmt_cache : List (ℕ × PreparedStmt)
  pub next_stmt_id : ℕ
  pub l0_hash : ℕ
  pub l0_gen : ℕ
  pub l0_bytes : Option (List ℕ)

-- The engine's entry points, with the statement, the current database and the user; and text functions.
pub record Backend (F : Type 0) : Type 0 where
  pub execute : Str → Option Str → Str → Engine F → Engine F × QueryResult F
  pub execute_prepared :
      Str → List (Option Str) → Option Str → Str → Engine F → Engine F × QueryResult F
  pub trim : Str → Str
  pub trim_end_semicolons : Str → Str
  pub to_uppercase : Str → Str
  pub mm_crc32_u64 : ℕ → ℕ → ℕ
  pub sse42 : Bool

-- What a command leaves: the engine, the session and the bytes sent; or the connection ends.
pub data Outcome (F : Type 0) : Type 0 where
  next : Engine F → Session F → List ℕ → Outcome F
  closed : Engine F → Outcome F

-- `stmt_cache.get`, `insert` and `remove`.
unfoldable pub find_stmt : ℕ → List (ℕ × PreparedStmt) → Option PreparedStmt
find_stmt id [] = none
find_stmt id ((k, p) ∷ m) = let rest = find_stmt id m in if k == id then some p else rest

unfoldable pub remove_stmt : ℕ → List (ℕ × PreparedStmt) → List (ℕ × PreparedStmt)
remove_stmt id [] = []
remove_stmt id ((k, p) ∷ m) = let rest = remove_stmt id m in if k == id then rest else (k, p) ∷ rest

unfoldable pub insert_stmt : ℕ → PreparedStmt → List (ℕ × PreparedStmt) → List (ℕ × PreparedStmt)
insert_stmt id p m = (id, p) ∷ remove_stmt id m

-- The definitions of the parameters, one packet each, and the sequence number behind them.
unfoldable pub param_definitions : ℕ → ℕ → List ℕ
param_definitions zero seq = encode_packet eof_packet seq
param_definitions (suc n) seq =
    encode_packet (column_def [] [] (str "?") 0xfd 0) seq ++ param_definitions n ((seq + 1) % 256)

unfoldable pub prepare_answer : ℕ → ℕ → List ℕ
prepare_answer stmt_id num_params =
    encode_packet (stmt_prepare_ok stmt_id num_params 0) 1
    ++ (if num_params == 0 then [] else param_definitions num_params 2)

abbrev hex_digits : List ℕ
hex_digits = str "0123456789abcdef"

-- `{c:02x}`.
abbrev hex_byte : ℕ → Str
hex_byte c = get_or hex_digits (c / 16) 0 ∷ get_or hex_digits (c % 16) 0 ∷ []

abbrev pub ok_answer : List ℕ
ok_answer = encode_packet (ok_packet 0 0) 1

abbrev pub unknown_stmt : List ℕ
unknown_stmt = encode_packet (err_packet 1243 (str "Unknown prepared statement handler")) 1

module _ (pf : Platform) where
  open pf use {F}

  module _ (be : Backend F) where
    open be use {
      execute, execute_prepared, trim, trim_end_semicolons, to_uppercase, mm_crc32_u64, sse42,
    }

    -- `USE name` sets the current database, unless a `;` follows.
    unfoldable pub use_database : Str → Session F → Session F
    use_database sql s =
        let rest = trim (drop 4 (trim sql)) in
        if starts_with (to_uppercase (trim sql)) (str "USE ")
          && not (is_there (split_at_first b';' rest))
        then record s { current_db = some (trim_matches b'`' rest) }
        else s

    abbrev pub is_err : QueryResult F → Bool
    is_err r = elim r [ err code message ↦ true | _ ↦ false ]

    -- The result is sent, and kept unless it is an error.
    unfoldable pub finish_query : ℕ → Session F → Engine F × QueryResult F → Outcome F
    finish_query qhash s (e, result) =
        let write_buf = build_result_into pf [] result 1 in
        if is_err result
        then next e s write_buf
        else next e (record s { l0_hash = qhash; l0_gen = e.write_gen; l0_bytes = some write_buf })
            write_buf

    unfoldable pub answer_query :
        Bool → Option (List ℕ) → ℕ → Str → Engine F → Session F → Outcome F
    answer_query true (some cached) qhash sql e s = next e s cached
    answer_query true none qhash sql e s =
        finish_query qhash s (execute sql s.current_db s.effective_user e)
    answer_query false cached qhash sql e s =
        finish_query qhash s (execute sql s.current_db s.effective_user e)

    -- Behind the special cases: the cached bytes if the statement and the write generation are those of
    -- the last result, or else the engine.
    unfoldable pub cached_query : Str → Engine F → Session F → Outcome F
    cached_query sql e s =
        let qhash = hash_query mm_crc32_u64 sse42 sql in
        answer_query (qhash == s.l0_hash && e.write_gen == s.l0_gen) s.l0_bytes qhash sql e s

    unfoldable pub rollback : Option (List (Str × Tables F)) → Engine F → Session F → Outcome F
    rollback none e s = next e s ok_answer
    rollback (some snap) e s =
        next (restore_snapshot snap e) (record s { txn_snapshot = none }) ok_answer

    -- `Command::Query`.
    unfoldable pub run_query : Str → Engine F → Session F → Outcome F
    run_query sql e s =
        let sql_up = to_uppercase (trim sql) in
        let sql_tc = to_uppercase (trim_end_semicolons (trim sql)) in
        let s' = use_database sql s in
        if str_eq sql_up (str "SELECT 1") || str_eq sql_up (str "SELECT 1;")
        then next e s select_1_response
        else if str_eq sql_tc (str "BEGIN") || str_eq sql_tc (str "START TRANSACTION")
        then next e (record s' { txn_snapshot = some (take_snapshot e) }) ok_answer
        else if str_eq sql_tc (str "COMMIT")
        then next e (record s' { txn_snapshot = none }) ok_answer
        else if str_eq sql_tc (str "ROLLBACK")
        then rollback s'.txn_snapshot e s'
        else cached_query sql e s'

    -- `Command::StmtPrepare`: as many parameters as the text has question marks, as a `u16`.
    unfoldable pub run_prepare : Str → Engine F → Session F → Outcome F
    run_prepare sql e s =
        let num_params = length (keep (λ b. b == b'?') sql) % 2 ^ 16 in
        next e
          (record s {
            stmt_cache =
                insert_stmt s.next_stmt_id (record { sql = sql; num_params = num_params })
                  s.stmt_cache;
            next_stmt_id = (s.next_stmt_id + 1) % 2 ^ 32;
          })
          (prepare_answer s.next_stmt_id num_params)

    unfoldable pub send_binary : Session F → Engine F × QueryResult F → Outcome F
    send_binary s (e, result) = next e s (build_binary_result_into pf [] result 1)

    unfoldable pub run_bound : Str → Option (List (Option Str)) → Engine F → Session F → Outcome F
    run_bound sql none e s = closed e
    run_bound sql (some params) e s =
        send_binary s (execute_prepared sql params s.current_db s.effective_user e)

    -- `Command::StmtExecute`; a panic in the parameters would end the connection.
    unfoldable pub run_execute : Option PreparedStmt → List ℕ → Engine F → Session F → Outcome F
    run_execute none payload e s = next e s unknown_stmt
    run_execute (some stmt) payload e s =
        run_bound stmt.sql (parse_execute_params pf payload stmt.num_params) e s

    unfoldable pub run_reset : Option PreparedStmt → Engine F → Session F → Outcome F
    run_reset none e s = next e s unknown_stmt
    run_reset (some stmt) e s = next e s ok_answer

    unfoldable pub run_command : Command → List ℕ → Engine F → Session F → Outcome F
    run_command quit payload e s = closed e
    run_command ping payload e s = next e s ok_answer
    run_command (init_db db_name) payload e s =
        next e (record s { current_db = some db_name; l0_hash = 0 }) ok_answer
    run_command (query sql) payload e s = run_query sql e s
    run_command (field_list t) payload e s = next e s (encode_packet eof_packet 1)
    run_command (stmt_prepare sql) payload e s = run_prepare sql e s
    run_command (stmt_execute id) payload e s = run_execute (find_stmt id s.stmt_cache) payload e s
    run_command (stmt_close id) payload e s =
        next e (record s { stmt_cache = remove_stmt id s.stmt_cache }) []
    run_command (stmt_reset id) payload e s = run_reset (find_stmt id s.stmt_cache) e s
    run_command (unknown c) payload e s =
        next e s (encode_packet (err_packet 1047 (str "Unknown command 0x" ++ hex_byte c)) 1)

    -- One packet of the command loop.
    unfoldable pub step : List ℕ → Engine F → Session F → Outcome F
    step payload e s = run_command (parse_command payload) payload e s
