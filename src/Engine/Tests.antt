-- ===== src/Engine/Tests.antt =====
-- The laws of src/engine.rs at concrete tables.
use run_alex_db.Common.{
  sym, ◌∙◌, none-ne-some, false, ◌≡◌, ◌↔◌, some, [], ◌∷◌, true, ℕ, Option, refl, Bool, List,
}
use run_alex_db.Common.Dict.{Str}
use run_alex_db.Engine.Table.{Table, int_at, str_at, Row, ColumnDef}
use run_alex_db.Engine.Rows.{insert_rows, delete_by_key, delete_where}
use run_alex_db.Engine.Rows.{insert_row, append_row}
use run_alex_db.Engine.Rows.Index.{IsIndexed, insert_rows-IsIndexed}
use run_alex_db.Engine.Rows.Index.Removal.{rows_IsIndexed}
use run_alex_db.Engine.Rows.Sync.{InSync}
use run_alex_db.Common.Int.{pos, ltb_ℤ, eqb_ℤ}
use run_alex_db.Common.Decimal.{parse_i64}
use run_alex_db.Common.Dict.{lookup-nil, str, str_eq}
use run_alex_db.Common.Text.{eq_ignore_ascii_case}
use run_alex_db.SimdScan.Laws.{test_at}
use run_alex_db.Engine.Value.{text}
use run_alex_db.Engine.Expr.{
  is_bound, number, Expr, binary_op, identifier, value, placeholder, eq_op, gt_op, lt_op,
}
use run_alex_db.Engine.Rows.{column_index}
use run_alex_db.Engine.Compare.{like_match, value_from_sqlparser}
use run_alex_db.Engine.Compare.Like.{Like, like_match_iff}
use run_alex_db.Engine.Where.{eval_where_bound, try_simd_scan}
use run_alex_db.Engine.Where.Bound.{put_literal, eval_where_bound-put_literal}
use run_alex_db.Engine.Where.Scan.{try_simd_scan-InSync, map_hits, where_number}
use run_alex_db.Engine.Store.{create_database, create_table, insert_into, delete}
use run_alex_db.Engine.Store.Sync.{AllInSync, engine_AllInSync, insert-AllIn, nil-AllIn}
use run_alex_db.Engine.Sample.{
  bob, platform, people, ann, id_column, name_column, engine, ascii, show, eval,
}

pub people-InSync : InSync people
unfolding int_at str_at
people-InSync = record { ints = refl; strs = refl }

pub engine-AllInSync : AllInSync engine
engine-AllInSync =
    insert-AllIn _ _ [] (insert-AllIn _ _ [] people-InSync (nil-AllIn _)) (nil-AllIn _)

engine_AllInSync_example :
    ((name : Str) → AllInSync (create_database {F = ℕ} name engine).0)
    × ((db : Str) (parts : List Str) (defs : List ColumnDef) (if_not_exists : Bool)
        → AllInSync (create_table db parts defs if_not_exists engine).0)
    × ((db t : Str) (values : List (List Expr)) (replace_into : Bool) (cols : List Str)
        → AllInSync (insert_into platform ascii show db t values replace_into cols engine).0)
    × ((db t : Str) (selection : Option Expr)
        → AllInSync (delete platform ascii show eval db t selection engine).0)
engine_AllInSync_example = engine_AllInSync platform ascii show eval engine engine-AllInSync

like_match_example :
    (like_match ascii (str "anna") (str "a%_") ≡ true) ↔ Like ascii (str "a%_") (str "anna")
like_match_example = like_match_iff ascii (str "anna") (str "a%_")

-- `id = ?`
abbrev id_is : Expr
id_is = binary_op (identifier (str "id")) eq_op (value (placeholder (str "?")))

plain_one : is_bound (value (number (str "1"))) ≡ false
unfolding is_bound
plain_one = refl

eval_where_bound_example :
    eval_where_bound platform ascii eval ann
      (id_column ∷ name_column ∷ [])
      (value_from_sqlparser platform (number (str "1")) ∷ text (str "x") ∷ [])
      id_is
    ≡ eval_where_bound platform ascii eval ann
        (id_column ∷ name_column ∷ [])
        []
        (put_literal (number (str "1")) id_is)
eval_where_bound_example =
    eval_where_bound-put_literal platform ascii eval ann (id_column ∷ name_column ∷ [])
      (number (str "1")) plain_one (text (str "x") ∷ []) id_is

id_at : column_index people.columns (str "ID") ≡ some 0
unfolding column_index eq_ignore_ascii_case str_eq
id_at = refl

one : parse_i64 (str "1") ≡ some (pos 1)
unfolding parse_i64
one = refl

try_simd_scan_example :
    (map_hits 1 (try_simd_scan true people (where_number (str "ID") eq_op (str "1")))
      ≡ some (test_at (λ row. eqb_ℤ (int_at 0 row) (pos 1)) people.rows 1))
    × (map_hits 1 (try_simd_scan true people (where_number (str "ID") gt_op (str "1")))
        ≡ some (test_at (λ row. ltb_ℤ (pos 1) (int_at 0 row)) people.rows 1))
    × (map_hits 1 (try_simd_scan true people (where_number (str "ID") lt_op (str "1")))
        ≡ some (test_at (λ row. ltb_ℤ (int_at 0 row) (pos 1)) people.rows 1))
try_simd_scan_example =
    try_simd_scan-InSync true people (str "ID") (str "1") 0 id_column (pos 1) 1 people-InSync id_at
      refl refl one

abbrev no_people : Table ℕ
no_people = record people { rows = []; pk_index = [] }

-- The table after an INSERT of two rows.
abbrev two_people : Table ℕ
two_people = insert_rows platform false [] (ann ∷ bob ∷ []) no_people

two_people-IsIndexed : IsIndexed platform two_people
two_people-IsIndexed =
    insert_rows-IsIndexed platform false [] (ann ∷ bob ∷ []) no_people
      (λ pk e k i h. absurd (none-ne-some (sym (lookup-nil k) ∙ h)))

two_people_key : two_people.pk_col_idx ≡ some 0
unfolding insert_rows insert_row append_row
two_people_key = refl

rows_IsIndexed_example :
    ((replace_into : Bool) (col_map : List (Option ℕ)) (srcs : List (Row ℕ))
      → IsIndexed platform (insert_rows platform replace_into col_map srcs two_people))
    × ((key : Str) → IsIndexed platform (delete_by_key platform 0 key two_people))
    × ((stays : Row ℕ → Bool) → IsIndexed platform (delete_where platform stays two_people))
rows_IsIndexed_example = rows_IsIndexed platform two_people 0 two_people_key two_people-IsIndexed
