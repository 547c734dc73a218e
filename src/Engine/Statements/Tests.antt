-- ===== src/Engine/Statements/Tests.antt =====
-- The laws of the statements on tables at a concrete engine.
use run_alex_db.Common.{ℕ, refl, some, List, [], ◌∷◌, false, Option}
use run_alex_db.Common.Dict.{Str, str}
use run_alex_db.Engine.Value.{QueryResult, ok}
use run_alex_db.Engine.Table.{big_integer}
use run_alex_db.Engine.Sample.{people, engine}
use run_alex_db.Engine.Store.{Engine}
use run_alex_db.Engine.Store.Sync.{insert-AllIn, nil-AllIn}
use run_alex_db.Engine.Tests.{people-InSync}
use run_alex_db.Engine.Alter.{add_column, drop_column}
use run_alex_db.Engine.Alter.Tables.{IsSound}
use run_alex_db.Engine.Statements.{Statement, truncate, alter_table, drop_tables, run_stmts}
use run_alex_db.Engine.Statements.Sound.{AllSound, run_stmts-AllSound}

people-IsSound : IsSound people
people-IsSound = record { synced = people-InSync; wide = (refl, (refl, tt)) }

engine-AllSound : AllSound engine
engine-AllSound =
    insert-AllIn _ _ [] (insert-AllIn _ _ [] people-IsSound (nil-AllIn _)) (nil-AllIn _)

abbrev nothing_else : ℕ → Option Str → Engine ℕ → Engine ℕ × QueryResult ℕ
nothing_else s current_db e = (e, ok 0 0)

abbrev changes : List (Statement ℕ)
changes =
    alter_table (str "people") (add_column (str "age") big_integer ∷ drop_column (str "name") ∷ [])
    ∷ truncate (str "people" ∷ [])
    ∷ drop_tables (str "people" ∷ []) false
    ∷ []

run_stmts-AllSound_example :
    AllSound (run_stmts nothing_else changes (some (str "app")) (engine, ok 0 0)).0
run_stmts-AllSound_example =
    run_stmts-AllSound nothing_else changes (some (str "app")) (engine, ok 0 0)
      (refl, (refl, (refl, tt))) engine-AllSound
