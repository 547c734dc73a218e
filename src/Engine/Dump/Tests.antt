-- ===== src/Engine/Dump/Tests.antt =====
-- The dump and its restoration at concrete engines.
use run_alex_db.Common.{ℕ, ◌≡◌, refl, some, [], ◌∷◌, Option, true}
use run_alex_db.Common.Dict.{Str, str, str_eq}
use run_alex_db.Engine.Sample.{platform, people, engine}
use run_alex_db.Engine.Store.{Engine}
use run_alex_db.Engine.Dump.{dump_sql, restore_sql, is_system}
use run_alex_db.Engine.Dump.Empty.{restore_sql-dump_sql}

-- An engine whose only database is `test`.
abbrev only_test : Engine ℕ
only_test = record {
  databases = (str "test", (str "people", people) ∷ []) ∷ [];
  users = [];
  write_gen = 0;
  last_insert_id = 0;
}

-- Every statement that is executed leads to this engine.
abbrev executed : Str → Option Str → Engine ℕ → Option (Engine ℕ)
executed sql current_db e = some engine

test_is_system : is_system (str "test") ≡ true
unfolding is_system str_eq
test_is_system = refl

restore_sql-dump_sql_example :
    restore_sql platform executed (dump_sql platform 7 only_test) only_test ≡ some only_test
restore_sql-dump_sql_example =
    restore_sql-dump_sql platform executed 7 only_test only_test (test_is_system, tt)
