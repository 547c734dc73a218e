-- ===== src/Lib.antt =====
-- Verification of RunAlexDB, an in-memory SQL server that speaks the MySQL wire protocol.
--
-- A client's bytes are cut into packets and parsed into commands (src/protocol.rs); the session
-- (src/server.rs) authenticates it (src/auth.rs), keeps its prepared statements, its transaction
-- snapshot and the cache of its last result, and hands statements to the engine (src/engine.rs), which
-- keeps databases of tables. A table has its rows, an index on the primary key, and column stores that
-- the scans of src/simd_scan.rs run over. A result goes back through the batched writers of
-- src/protocol.rs.
--
-- Common: what the parts share. Bytes and texts are lists of numbers over the native naturals; an `i64`
-- is an integer of Common/Int with its wrap-around written out; a `HashMap` is an association list
-- (Common/Dict); Common/Decimal is `i64::to_string` and `str::parse::<i64>`, Common/Utf8 is
-- `String::from_utf8_lossy`, Common/Text and Common/Ascii the text functions of ASCII, and Common/Process
-- the programs that a process runs.
--
-- Protocol models src/protocol.rs. Packet: decode_packet, encode_packet and the loop of src/server.rs
-- over a buffer. Lenenc: put_lenenc. Response: the payloads of single packets. Batch: the writers of
-- whole results. Handshake: the greetings. Command: parse_command. Params: parse_execute_params and the
-- readers under it, where `none` is a panic.
--
-- Auth models src/auth.rs and `double_sha1` of src/engine.rs, with SHA-1 as a parameter whose digests
-- are 20 bytes.
--
-- SimdScan models src/simd_scan.rs. A register of four 64-bit lanes is four integers; the instructions'
-- documented results are written out, and the CRC instruction is a parameter.
--
-- Engine models a part of src/engine.rs. Value, Table, Expr: the data. Rows: what INSERT, REPLACE and
-- DELETE do to a table's rows, its index (Rows/Index) and its stores (Rows/Sync). Assign: what UPDATE
-- does. Compare: comparison of values, LIKE, literals. Where: WHERE clauses, plain and of prepared
-- statements, key detection and try_simd_scan. Store: the databases and the statements on them, and
-- snapshots.
--
-- Engine/Date: days and dates, and in Text dates as texts, sums of dates and DATE_FORMAT. Engine/Users: the
-- accounts. Grants: GRANT, REVOKE and SHOW GRANTS; Privileges: logins and which statements an account may
-- run. `none` is a panic. Engine/Prepared: `execute_prepared` and the statements with bound values, with
-- SELECT in Prepared/Select. Engine/Execute: `execute` from the text on. Engine/Statements: `exec_stmt` on
-- tables and databases as a whole and the loop over parsed statements; Engine/Alter: ALTER TABLE.
-- Engine/Dump: the SQL dump and its restoration.
--
-- Firewall models src/firewall/backend.rs and IcmpGuard src/icmp_guard/mod.rs: what a program answers may
-- depend on all that were run before it, and the list of these is the state.
--
-- Server models a session of src/server.rs: its state and its command loop, where the engine is seen
-- through `Backend`, in Handshake the first packet of a client and its authentication, and in Start the
-- state with which the command loop begins.
--
-- Loops are structural recursion, but for three on fuel: decode_loop takes four bytes of the buffer a
-- round at least, and crc32_loop one byte, so the length of the buffer is enough; and year_loop, which
-- takes a year of days a round, so the number of days is enough.
--
-- Parameters: IEEE floats and the crate `hex` (Engine/Value, Platform), SHA-1, the CRC instruction,
-- Unicode case and `trim` (Chars, Backend), and how the parser library prints an expression. The
-- evaluation of a value expression, `eval_row_expr`, is an argument of Engine/Assign, Engine/Where,
-- Engine/Store and Engine/Prepared; the parser and the statements on INFORMATION_SCHEMA are arguments of
-- Engine/Execute and Engine/Prepared. What `exec_stmt` does with the statements that Engine/Statements does
-- not tell apart (INSERT, UPDATE, DELETE, CREATE, SELECT and further SHOW statements) is an argument there,
-- and no theorem assumes anything of it; the first four are modelled as operations in Engine/Store.
-- `execute` is an argument of Engine/Dump, and with `execute_prepared` of Server.
--
-- Not modelled: SELECT with its joins and groups outside prepared statements, `eval_row_expr`, the SHOW
-- statements that describe the server and those on INFORMATION_SCHEMA, CREATE TABLE ... AS SELECT and
-- INSERT ... SELECT; TLS, sockets, timeouts and threads; configuration, the web interface, XDP and NUMA
-- pinning, which are input and output.
pub mod Common
pub mod Protocol
pub mod Engine
pub mod Auth
pub mod SimdScan
pub mod Server
pub mod Firewall
pub mod IcmpGuard
