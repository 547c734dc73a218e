-- ===== src/Engine/Prepared/Tests.antt =====
-- The laws of prepared statements at a concrete engine.
use run_alex_db.Common.{
  ℕ, ◌≡◌, refl, none, some, List, [], ◌∷◌, ◌++◌, map, true, length, Option, arith,
}
use run_alex_db.Common.Int.{pos}
use run_alex_db.Common.Dict.{Str, str, str_eq}
use run_alex_db.Common.Process.{done, Result}
use run_alex_db.Engine.Value.{Value, display_rows, rows, int, text, err, ok, QueryResult}
use run_alex_db.Engine.Expr.{Expr, value, placeholder, is_bound}
use run_alex_db.Engine.Sample.{platform, people, engine, ascii, show, eval}
use run_alex_db.Engine.Store.{Engine}
use run_alex_db.Engine.Store.Sync.{AllInSync}
use run_alex_db.Engine.Tests.{engine-AllInSync}
use run_alex_db.Engine.Users.Privileges.{access_denied}
use run_alex_db.Engine.Users.Tests.{with_bob, bob_user, bob_within, bob_there, same_bytes}
use run_alex_db.Engine.Prepared.{
  Source, Statement, insert, values_of, push_rows, insert_prepared, delete_prepared,
  execute_prepared,
}
use run_alex_db.Engine.Prepared.Binding.{chunks, sum_of}
use run_alex_db.Engine.Prepared.Select.Stored.{show_row}
use run_alex_db.Engine.Prepared.Stored.{select_rows-push_rows}
use run_alex_db.Engine.Prepared.Select.{select_rows, wildcard}
use run_alex_db.Engine.Prepared.Sync.{prepared_AllInSync}
use run_alex_db.Engine.Prepared.Refused.{execute_prepared-write_gen, execute_prepared_shut_out}

abbrev mark : Expr
mark = value (placeholder (str "?"))

abbrev cat_dan : List (Value ℕ)
cat_dan = int (pos 3) ∷ text (str "cat") ∷ int (pos 4) ∷ text (str "dan") ∷ []

abbrev two_rows : List (List Expr)
two_rows = (mark ∷ mark ∷ []) ∷ (mark ∷ mark ∷ []) ∷ []

is_mark : is_bound mark ≡ true
unfolding is_bound str_eq
is_mark = refl

select_rows-push_rows_example :
    select_rows platform ascii show eval []
      (wildcard (str "*") ∷ [])
      none
      none
      (push_rows platform ascii show cat_dan 0 two_rows people)
    ≡ rows (map (λ c. c.name) people.columns) (
        map (show_row platform ascii show people.columns) people.rows
        ++ display_rows platform (chunks (map length two_rows) cat_dan))
unfolding sum_of
select_rows-push_rows_example =
    select_rows-push_rows platform ascii show eval cat_dan [] two_rows (str "*") people
      ((is_mark, (is_mark, tt)), ((is_mark, (is_mark, tt)), tt)) (refl, (refl, tt)) (omega arith)

abbrev insert_cat : Statement ℕ
insert_cat = insert (str "people") (values_of ((mark ∷ mark ∷ []) ∷ []))

-- The parser finds this one statement in every text.
abbrev parse : Str → Result (List (Statement ℕ))
parse sql = done (insert_cat ∷ [])

abbrev nothing_else : ℕ → Option Str → Engine ℕ → Engine ℕ × QueryResult ℕ
nothing_else s current_db e = (e, ok 0 0)

prepared_AllInSync_example :
    ((db t : Str) (src : Source) (bound : List (Value ℕ))
      → AllInSync (insert_prepared platform ascii show db t src bound engine).0)
    × ((db t : Str) (selection : Option Expr) (bound : List (Value ℕ))
        → AllInSync (delete_prepared platform ascii show eval db t selection bound engine).0)
prepared_AllInSync_example = prepared_AllInSync platform ascii show eval engine engine-AllInSync

execute_prepared-write_gen_example :
    (execute_prepared platform ascii show eval nothing_else parse
      (str "INSERT INTO people VALUES (?, ?)")
      (some (str "3") ∷ some (str "cat") ∷ [])
      (some (str "app"))
      (str "root")
      engine).0.write_gen
    ≡ engine.write_gen
execute_prepared-write_gen_example =
    execute_prepared-write_gen platform ascii show eval nothing_else parse
      (str "INSERT INTO people VALUES (?, ?)") (insert_cat ∷ [])
      (some (str "3") ∷ some (str "cat") ∷ []) (some (str "app")) (str "root") engine refl (tt, tt)

execute_prepared_shut_out_example :
    execute_prepared platform ascii show eval nothing_else parse
      (str "INSERT INTO people VALUES (?, ?)")
      []
      (some (str "app"))
      (str "bob")
      with_bob
    ≡ (
      with_bob,
      err (access_denied (str "bob") (str "app")).0 (access_denied (str "bob") (str "app")).1,
    )
execute_prepared_shut_out_example =
    execute_prepared_shut_out platform ascii show eval nothing_else same_bytes parse
      (str "INSERT INTO people VALUES (?, ?)") (insert_cat ∷ []) [] (str "app") (str "bob") bob_user
      with_bob refl bob_within (λ same. cc) bob_there
