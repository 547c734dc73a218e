-- ===== src/Server/Tests.antt =====
-- The laws of src/server.rs at a concrete connection.
use run_alex_db.Common.{
  ◌++◌, ◌⊎◌, true, ◌<◌, ◌↔◌, length, replicate, ℕ, ◌≡◌, ◌≢◌, refl, arith, none, some, List, [], ◌∷◌,
  false, ◌==◌, ◌&&◌,
}
use run_alex_db.Common.Dict.{Str, str, str_eq}
use run_alex_db.SimdScan.{hash_query}
use run_alex_db.Engine.Value.{ok, rows}
use run_alex_db.Engine.Store.{Engine}
use run_alex_db.Engine.Sample.{platform, engine}
use run_alex_db.Protocol.Command.{stmt_prepare, stmt_execute, stmt_close}
use run_alex_db.Protocol.Params.{parse_execute_params}
use run_alex_db.Protocol.Batch.{
  build_result_into, write_result_set, write_eof_into, write_each, write_text_row_into, fill_header,
  write_col_def_into, write_packet_into,
}
use run_alex_db.Protocol.Response.{put_text_values}
use run_alex_db.Protocol.Lenenc.{put_lenenc_str}
use run_alex_db.Common.Bytes.{le_bytes}
use run_alex_db.Server.{
  Session, Backend, next, cached_query, run_command, run_bound, prepare_answer, unknown_stmt,
  find_stmt, select_1_response,
}
use run_alex_db.Server.Handshake.{handshake}
use run_alex_db.Server.Handshake.Access.{handshake_access, GetsIn, IsTurnedAway, Granted}
use run_alex_db.Server.Handshake.Layout.{Sent, whole}
use run_alex_db.Server.Start.{start_session, start_session_iff, runs_as}
use run_alex_db.Auth.{xor_zip, verify_native_password}
use run_alex_db.Server.Replay.{cached_query_again}
use run_alex_db.Server.Prepared.{prepare-execute-close, params_of}

-- An engine that counts what it is asked to execute.
abbrev backend : Backend ℕ
backend = record {
  execute = λ sql db user e. (record e { write_gen = 5 }, ok 1 0);
  execute_prepared = λ sql params db user e. (e, ok 1 0);
  trim = λ s. s;
  trim_end_semicolons = λ s. s;
  to_uppercase = λ s. s;
  mm_crc32_u64 = λ crc w. crc;
  sse42 = false;
}

abbrev session : Session ℕ
session = record {
  current_db = some (str "app");
  effective_user = str "root";
  txn_snapshot = none;
  stmt_cache = [];
  next_stmt_id = 1;
  l0_hash = 0;
  l0_gen = 0;
  l0_bytes = none;
}

abbrev statement : Str
statement = str "INSERT INTO people VALUES (3)"

misses : (hash_query backend.mm_crc32_u64 false statement == 0 && engine.write_gen == 0) ≡ false
misses = ground arith

cached_query_example :
    (s' : Session ℕ) × (cached_query platform backend statement engine session
      ≡ next (record engine { write_gen = 5 }) s' (build_result_into platform [] (ok 1 0) 1))
    × (cached_query platform backend statement (record engine { write_gen = 5 }) s'
        ≡ next (record engine { write_gen = 5 }) s' (build_result_into platform [] (ok 1 0) 1))
cached_query_example = cached_query_again platform backend statement engine session misses refl

prepare-execute-close_example :
    (s' : Session ℕ) × (s'' : Session ℕ) × (run_command platform backend
        (stmt_prepare (str "SELECT ?"))
        []
        engine
        session
      ≡ next engine s' (prepare_answer 1 (params_of platform backend (str "SELECT ?"))))
    × ((run : List ℕ) (e' : Engine ℕ)
        → run_command platform backend (stmt_execute 1) run e' s'
          ≡ run_bound platform backend
              (str "SELECT ?")
              (parse_execute_params platform run (params_of platform backend (str "SELECT ?")))
              e'
              s')
    × ((e' : Engine ℕ) → run_command platform backend (stmt_close 1) [] e' s' ≡ next e' s'' [])
    × ((run : List ℕ) (e' : Engine ℕ)
        → run_command platform backend (stmt_execute 1) run e' s'' ≡ next e' s'' unknown_stmt)
    × ((j : ℕ)
        → j ≢ 1
        → (find_stmt j s'.stmt_cache ≡ find_stmt j session.stmt_cache)
          × (find_stmt j s''.stmt_cache ≡ find_stmt j session.stmt_cache))
prepare-execute-close_example =
    prepare-execute-close platform backend (str "SELECT ?") [] engine session

-- The precomputed answer is what the batched writer gives.
select_1_test :
    select_1_response
    ≡ build_result_into platform [] (rows (str "1" ∷ []) ((some (str "1") ∷ []) ∷ [])) 1
unfolding build_result_into write_result_set write_eof_into write_each write_text_row_into
    fill_header put_text_values put_lenenc_str write_col_def_into write_packet_into le_bytes
select_1_test = refl

-- A digest of 20 bytes, the same for every input.
abbrev digest : List ℕ → List ℕ
digest bytes = replicate 20 7

-- The user `root` with a response of 20 bytes.
abbrev root_handshake : List ℕ
root_handshake = replicate 32 0 ++ (str "root" ++ (0 ∷ 20 ∷ replicate 20 0))

root-Sent : Sent root_handshake (str "root") (replicate 20 0)
root-Sent = record {
  head = replicate 32 0;
  after = 20 ∷ replicate 20 0;
  parts = refl;
  head_size = refl;
  no_zero = ((λ h. cc), ((λ h. cc), ((λ h. cc), ((λ h. cc), tt))));
  response_in = whole (replicate 20 0) [];
}

handshake_access_example :
    GetsIn digest
      (str "secret")
      (λ s. s)
      root_handshake
      (str "root")
      (replicate 20 0)
      (replicate 20 3)
      engine
    ⊎ IsTurnedAway digest
        (str "secret")
        (λ s. s)
        root_handshake
        (str "root")
        (replicate 20 0)
        (replicate 20 3)
        engine
handshake_access_example =
    handshake_access digest (str "secret") (λ s. s) root_handshake (str "root") (replicate 20 0)
      (replicate 20 3) engine root-Sent

-- The configured password accepts that response.
root_gets_in : verify_native_password digest (str "secret") (replicate 20 3) (replicate 20 0) ≡ true
unfolding verify_native_password xor_zip str_eq
root_gets_in = refl

start_session_example :
    (runs_as (
        start_session engine
          (handshake digest (str "secret") (λ s. s) (1 ∷ 2 ∷ []) (replicate 20 3) engine))
      ≡ some (str "root"))
    ↔ (((length {A = ℕ} (1 ∷ 2 ∷ []) < 33) × (str "root" ≡ str "root"))
        ⊎ Granted digest (str "secret") (λ s. s) (1 ∷ 2 ∷ []) (str "root") (replicate 20 3) engine)
start_session_example =
    start_session_iff digest (str "secret") (λ s. s) (1 ∷ 2 ∷ []) (replicate 20 3) engine
      (str "root")
