-- ===== src/Engine/Where.antt =====
-- src/engine.rs: WHERE clauses, the keys that a WHERE clause asks for, and the scan of a column store.
-- How a value expression is evaluated (`eval_row_expr`) is an argument.
pub mod Bound
pub mod Scan
use Prim.Native.Nat.{Ordering}
use run_alex_db.Common.{
  ℕ, Option, none, some, List, [], ◌∷◌, Bool, true, false, if◌then◌else◌, not, ◌&&◌, ◌||◌,
}
use run_alex_db.Common.{get_elem?, position, last?, ◌>>=◌, guard, ◌>>◌}
use run_alex_db.Common.Int.{ℤ}
use run_alex_db.Common.Decimal.{parse_i64}
use run_alex_db.Common.Dict.{Str}
use run_alex_db.Common.Text.{eq_ignore_ascii_case}
use run_alex_db.SimdScan.{scan_eq_i64, scan_gt_i64, scan_lt_i64, scan_eq_str}
use run_alex_db.Engine.Value.{Platform, Value, null, text}
use run_alex_db.Engine.Expr
use run_alex_db.Engine.Expr.{
  Expr, Exprs, nil, cons, value, identifier, compound_identifier, binary_op, unary_op, is_null,
  is_not_null, nested, like, between, in_list, opaque, is_bound, number, single_quoted_string,
  not_op, BinaryOperator, and_op, or_op, eq_op, not_eq_op, lt_op, lt_eq_op, gt_op, gt_eq_op,
  other_op,
}
use run_alex_db.Engine.Table.{Column, Row, Table}
use run_alex_db.Engine.Rows.{column_index}
use run_alex_db.Engine.Compare.{
  values_cmp, values_eq, value_from_sqlparser, is_lt, is_gt, is_null_value, Chars, like_match,
}

-- The name of a column expression: an identifier, or the last part of a compound one.
unfoldable pub column_name : Expr → Option Str
column_name (identifier id) = some id
column_name (compound_identifier parts) = last? parts
column_name e = none

abbrev pub is_column : Expr → Bool
is_column (identifier id) = true
is_column (compound_identifier parts) = true
is_column e = false

unfoldable pub key_literal : Expr → Option Str
key_literal (value (number n)) = some n
key_literal (value (single_quoted_string s)) = some s
key_literal e = none

-- `WHERE pk = literal` or `literal = pk`: the literal's text.
unfoldable pub extract_pk_eq : Str → Expr → Option Str
extract_pk_eq pk_col_name (binary_op left eq_op right) = do
  name ← column_name (if is_column left then left else right)
  guard (eq_ignore_ascii_case name pk_col_name)
  key_literal (if is_column left then right else left)
extract_pk_eq pk_col_name e = none

-- `WHERE pk = ?`: the number of the parameter, which is the offset that the caller gives.
unfoldable pub extract_pk_eq_param : Str → Expr → ℕ → Option ℕ
extract_pk_eq_param pk_col_name (binary_op left eq_op right) param_offset = do
  name ← column_name (if is_column left then left else right)
  guard (eq_ignore_ascii_case name pk_col_name)
  guard (is_bound (if is_column left then right else left))
  some param_offset
extract_pk_eq_param pk_col_name e param_offset = none

unfoldable pub int_literal : Expr → Option ℤ
int_literal (value (number n)) = parse_i64 n
int_literal e = none

unfoldable pub str_literal : Expr → Option Str
str_literal (value (single_quoted_string s)) = some s
str_literal e = none

unfoldable pub scan_int : Bool → BinaryOperator → List ℤ → ℤ → Option (List ℕ)
scan_int avx2 eq_op store target = some (scan_eq_i64 avx2 store target)
scan_int avx2 gt_op store target = some (scan_gt_i64 avx2 store target)
scan_int avx2 lt_op store target = some (scan_lt_i64 avx2 store target)
scan_int avx2 op store target = none

unfoldable pub scan_str : Bool → BinaryOperator → List Str → Str → Option (List ℕ)
scan_str avx2 eq_op store target = some (scan_eq_str avx2 store target)
scan_str avx2 op store target = none

-- `if let Some(Some(store)) = stores.get(i)`.
abbrev pub store_at {ℓ} : {A : Type ℓ} → List (Option A) → ℕ → Option A
store_at stores i = elim (get_elem? stores i) [ some (some s) ↦ some s | _ ↦ none ]

module _ {F : Type 0} where
  -- The scan of column `col_idx`: its integer store, if it has one, or else its string store.
  unfoldable pub scan_column :
      Bool → Table F → BinaryOperator → Expr → ℕ → Option (List ℤ) → Option (List ℕ)
  unfolding scan_int scan_str
  scan_column avx2 table op right col_idx (some store) = do
    target ← int_literal right
    scan_int avx2 op store target
  scan_column avx2 table op right col_idx none = do
    store ← store_at table.col_str_data col_idx
    target ← str_literal right
    scan_str avx2 op store target

  -- `try_simd_scan`; `avx2` is what the CPU has.
  unfoldable pub try_simd_scan : Bool → Table F → Expr → Option (List ℕ)
  try_simd_scan avx2 table (binary_op left op right) = do
    name ← column_name left
    col_idx ← column_index table.columns name
    scan_column avx2 table op right col_idx (store_at table.col_int_data col_idx)
  try_simd_scan avx2 table e = none

module _ (pf : Platform) (cs : Chars) where
  open pf use {F}

  -- A comparison of two values; any other operator passes.
  unfoldable pub compare_by : BinaryOperator → Value F → Value F → Bool
  compare_by eq_op l r = values_eq pf l r
  compare_by not_eq_op l r = not (values_eq pf l r)
  compare_by lt_op l r = is_lt (values_cmp pf l r)
  compare_by lt_eq_op l r = not (is_gt (values_cmp pf l r))
  compare_by gt_op l r = is_gt (values_cmp pf l r)
  compare_by gt_eq_op l r = not (is_lt (values_cmp pf l r))
  compare_by op l r = true

  -- AND and OR join the outcomes of both sides, any other operator compares their values.
  unfoldable pub combine : BinaryOperator → Bool → Bool → Value F → Value F → Bool
  unfolding compare_by
  combine and_op l r lv rv = l && r
  combine or_op l r lv rv = l || r
  combine op l r lv rv = compare_by op lv rv

  unfoldable pub like_values : Value F → Value F → Bool → Bool
  like_values (text v) (text p) negated =
      if negated then not (like_match cs v p) else like_match cs v p
  like_values v p negated = false

  module _ (eval : Row F → List Column → Expr → Value F) (row : Row F) (cols : List Column) where
    unfoldable pub any_equal : Value F → Exprs → Bool
    any_equal v nil = false
    any_equal v (cons e es) = values_eq pf v (eval row cols e) || any_equal v es

    unfoldable pub eval_where : Expr → Bool
    unfolding any_equal like_values
    eval_where (binary_op left op right) =
        combine op (eval_where left) (eval_where right) (eval row cols left) (eval row cols right)
    eval_where (is_null e) = is_null_value pf (eval row cols e)
    eval_where (is_not_null e) = not (is_null_value pf (eval row cols e))
    eval_where (like e pattern negated) =
        like_values (eval row cols e) (eval row cols pattern) negated
    eval_where (nested e) = eval_where e
    eval_where (unary_op not_op e) = not (eval_where e)
    eval_where (between e low high negated) =
        let v = eval row cols e in
        let in_range =
          not (is_lt (values_cmp pf v (eval row cols low)))
          && not (is_gt (values_cmp pf v (eval row cols high))) in
        if negated then not in_range else in_range
    eval_where (in_list e es negated) =
        let found = any_equal (eval row cols e) es in if negated then not found else found
    eval_where e = true

    -- `resolve_expr_bound`: an expression that is `?` reads as the first bound value, a `?` inside any other
    -- expression is not looked for.
    unfoldable pub resolve_expr_bound : List (Value F) → Expr → Value F
    resolve_expr_bound bound e =
        if is_bound e then elim bound [ [] ↦ null | v ∷ vs ↦ v ] else elim e [
          | identifier id ↦ elim (column_index cols id) [
            | none ↦ null
            | some i ↦ elim (get_elem? row i) [ none ↦ null | some v ↦ v ]
          ]
          | value v ↦ value_from_sqlparser pf v
          | _ ↦ null
        ]

    unfoldable pub eval_where_bound : List (Value F) → Expr → Bool
    eval_where_bound bound (binary_op left op right) =
        combine op (eval_where_bound bound left) (eval_where_bound bound right)
          (resolve_expr_bound bound left) (resolve_expr_bound bound right)
    eval_where_bound bound (unary_op not_op e) = not (eval_where_bound bound e)
    eval_where_bound bound (is_null e) = is_null_value pf (resolve_expr_bound bound e)
    eval_where_bound bound (is_not_null e) = not (is_null_value pf (resolve_expr_bound bound e))
    eval_where_bound bound (nested e) = eval_where_bound bound e
    eval_where_bound bound e = eval_where e
