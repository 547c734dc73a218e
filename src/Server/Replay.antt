-- ===== src/Server/Replay.antt =====
-- The cache of the last result of a connection.
use run_alex_db.Common.{ℕ, ◌≡◌, refl, arith, some, [], true, false, ◌==◌, ◌&&◌}
use run_alex_db.Common.Dict.{Str}
use run_alex_db.SimdScan.{hash_query}
use run_alex_db.Engine.Value.{Platform}
use run_alex_db.Engine.Store.{Engine}
use run_alex_db.Protocol.Batch.{build_result_into}
use run_alex_db.Server.{Session, Backend, next, cached_query, answer_query, finish_query, is_err}

same_tests : (a b : ℕ) → (a == a && b == b) ≡ true
same_tests a b = ground arith

module _ (pf : Platform) (be : Backend pf.F) where
  open pf use {F}
  open be use {execute, mm_crc32_u64, sse42}

  -- A statement that misses the cache is executed once and its bytes are sent. If its result is no error
  -- then the same statement, sent again before any other write, changes nothing: the engine is not
  -- asked, and the same bytes are sent again. This holds for statements that write, too.
  pub cached_query_again :
      (sql : Str) (e : Engine F) (s : Session F)
      → (hash_query mm_crc32_u64 sse42 sql == s.l0_hash && e.write_gen == s.l0_gen) ≡ false
      → is_err pf be (execute sql s.current_db s.effective_user e).1 ≡ false
      → (s' : Session F) × (cached_query pf be sql e s
          ≡ next
              (execute sql s.current_db s.effective_user e).0
              s'
              (build_result_into pf [] (execute sql s.current_db s.effective_user e).1 1))
        × (cached_query pf be sql (execute sql s.current_db s.effective_user e).0 s'
            ≡ next
                (execute sql s.current_db s.effective_user e).0
                s'
                (build_result_into pf [] (execute sql s.current_db s.effective_user e).1 1))
  unfolding cached_query answer_query finish_query
  cached_query_again sql e s miss fine =
      let ran = execute sql s.current_db s.effective_user e in
      let h = hash_query mm_crc32_u64 sse42 sql in
      let out = build_result_into pf [] ran.1 1 in
      let s' : Session F = record s {
        l0_hash = h;
        l0_gen = ran.0.write_gen;
        l0_bytes = some out;
      } in
      (s', rw miss (rw fine refl), rw (same_tests h ran.0.write_gen) refl)
