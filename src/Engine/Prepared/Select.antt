-- ===== src/Engine/Prepared/Select.antt =====
-- src/engine.rs: SELECT as a prepared statement.
pub mod Stored
use run_alex_db.Common.{
  ℕ, zero, suc, Option, none, some, List, [], ◌∷◌, ◌++◌, map, Bool, true, false, ◌&&◌, ◌||◌, ◌>>=◌,
}
use run_alex_db.Common.{get_elem?, if◌then◌else◌, ltb, length, keep}
use run_alex_db.Common.Dict.{Str, str, str_eq, lookup}
use run_alex_db.Common.Decimal.{show_ℕ}
use run_alex_db.Common.Ascii.{to_upper}
use run_alex_db.Engine.Value.{Platform, Value, QueryResult, err, rows, to_display}
use run_alex_db.Engine.Expr.{Expr}
use run_alex_db.Engine.Table.{Column, Row, Table, value_to_pk_str}
use run_alex_db.Engine.Rows.{column_index}
use run_alex_db.Engine.Compare.{Chars}
use run_alex_db.Engine.Where.{eval_where_bound, extract_pk_eq_param, column_name}
use run_alex_db.Engine.Store.{Engine, split_name}

-- The items of `sqlparser::ast::SelectItem` that are told apart, each with the text that it prints as where
-- that is used: `*`, an expression, a call of a function with or without an alias, and any other.
pub data SelectItem : Type 0 where
  wildcard : Str → SelectItem
  unnamed_expr : Expr → SelectItem
  function_item : Str → Str → SelectItem
  other_item : Str → SelectItem

-- The names after FROM, the items and the WHERE clause.
pub data SelectQuery : Type 0 where
  complex : SelectQuery
  select : List Str → List SelectItem → Option Expr → SelectQuery

unfoldable pub has_wildcard : List SelectItem → Bool
has_wildcard [] = false
has_wildcard (wildcard s ∷ items) = true
has_wildcard (unnamed_expr e ∷ items) = has_wildcard items
has_wildcard (function_item name s ∷ items) = has_wildcard items
has_wildcard (other_item s ∷ items) = has_wildcard items

unfoldable pub all_columns : ℕ → List Column → List (Str × ℕ)
all_columns i [] = []
all_columns i (c ∷ cs) = (c.name, i) ∷ all_columns (suc i) cs

unfoldable pub item_column : List Column → SelectItem → Option (Str × ℕ)
item_column columns (unnamed_expr e) = do
  name ← column_name e
  i ← column_index columns name
  some (name, i)
item_column columns (wildcard s) = none
item_column columns (function_item name s) = none
item_column columns (other_item s) = none

unfoldable pub named_columns : List Column → List SelectItem → List (Str × ℕ)
unfolding item_column
named_columns columns [] = []
named_columns columns (item ∷ items) =
    let later = named_columns columns items in
    elim (item_column columns item) [ none ↦ later | some p ↦ p ∷ later ]

unfoldable pub projection : List Column → List SelectItem → List (Str × ℕ)
unfolding has_wildcard all_columns named_columns
projection columns items =
    if has_wildcard items then all_columns 0 columns else named_columns columns items

abbrev is_function : SelectItem → Bool
is_function (function_item name s) = true
is_function item = false

unfoldable pub all_functions : List SelectItem → Bool
all_functions [] = true
all_functions (item ∷ items) = is_function item && all_functions items

unfoldable pub is_aggregate : List SelectItem → Bool
unfolding all_functions
is_aggregate [] = false
is_aggregate (item ∷ items) = all_functions (item ∷ items)

-- COUNT is the number of rows, any other function NULL.
unfoldable pub aggregate : ℕ → SelectItem → Option Str
aggregate n (function_item name s) =
    if str_eq (to_upper name) (str "COUNT") then some (show_ℕ n) else none
aggregate n item = none

module _ (pf : Platform) (cs : Chars) (show : Expr → Str) where
  open pf use {F}

  unfoldable pub item_text : SelectItem → Str
  item_text (wildcard s) = s
  item_text (unnamed_expr e) = show e
  item_text (function_item name s) = s
  item_text (other_item s) = s

  -- `row.get(idx).and_then(|v| v.to_display())` for each column of the projection.
  unfoldable pub show_cells : List (Str × ℕ) → Row F → List (Option Str)
  show_cells [] row = []
  show_cells ((name, i) ∷ ps) row =
      (elim (get_elem? row i) [ none ↦ none | some v ↦ to_display pf v ]) ∷ show_cells ps row

  -- The row that the index has for the key, if it is there.
  unfoldable pub row_at : List (Str × ℕ) → Table F → Option ℕ → List (List (Option Str))
  unfolding show_cells
  row_at ps t none = []
  row_at ps t (some ri) = elim (get_elem? t.rows ri) [
    | none ↦ []
    | some row ↦ show_cells ps row ∷ []
  ]

  -- The value that the selection compares the key with, if it has that form.
  unfoldable pub selected_key : List (Value F) → Option Expr → Table F → Option Str
  selected_key bound none t = none
  selected_key bound (some w) t = do
    pk ← t.pk_col_idx
    c ← get_elem? t.columns pk
    i ← extract_pk_eq_param c.name w 0
    v ← get_elem? bound i
    some (value_to_pk_str pf v)

  module _ (eval : Row F → List Column → Expr → Value F) where
    unfoldable pub passing : List (Value F) → Option Expr → Table F → List (Row F)
    passing bound none t = t.rows
    passing bound (some w) t =
        keep (λ row. eval_where_bound pf cs eval row t.columns bound w) t.rows

    -- By the key, or the aggregates, or row by row.
    unfoldable pub select_rows :
        List (Value F) → List SelectItem → Option Expr → Option Str → Table F → QueryResult F
    unfolding row_at projection passing is_aggregate aggregate
    select_rows bound items selection (some key) t =
        let ps = projection t.columns items in
        rows (map (λ p. p.0) ps) (row_at ps t (lookup key t.pk_index))
    select_rows bound items selection none t =
        let ps = projection t.columns items in
        let found = passing bound selection t in
        if is_aggregate items
        then rows (map item_text items) (map (aggregate (length found)) items ∷ [])
        else rows (map (λ p. p.0) ps) (map (show_cells ps) found)

    unfoldable pub select_from :
        Str → Str → List (Value F) → List SelectItem → Option Expr → Engine F → QueryResult F
    unfolding select_rows selected_key
    select_from db t bound items selection e = elim (lookup db e.databases) [
      | none ↦ err 1049 (str "Unknown database '" ++ (db ++ str "'"))
      | some tables ↦ elim (lookup t tables) [
        | none ↦ err 1146 (str "Table not found: " ++ t)
        | some table ↦ select_rows bound items selection (selected_key bound selection table) table
      ]
    ]

    unfoldable pub select_prepared : Str → SelectQuery → List (Value F) → Engine F → QueryResult F
    unfolding select_from
    select_prepared db_name complex bound e = err 1295 (str "Complex SELECT not supported")
    select_prepared db_name (select [] items selection) bound e = err 1295 (str "No FROM")
    select_prepared db_name (select (raw ∷ froms) items selection) bound e =
        let (db, t) = split_name db_name raw in select_from db t bound items selection e
