-- ===== src/Engine/Expr.antt =====
-- The parts of `sqlparser::ast::Expr` that src/engine.rs looks into. `placeholder` is the value that
-- prints as its own text, `?` for a bound parameter; every other form of expression is `opaque`, with
-- the text that it prints as.
use run_alex_db.Common.{Bool, false, List}
use run_alex_db.Common.Dict.{Str, str, str_eq}

pub data SqlValue : Type 0 where
  number : Str → SqlValue
  single_quoted_string : Str → SqlValue
  double_quoted_string : Str → SqlValue
  placeholder : Str → SqlValue
  sql_null : SqlValue
  other_value : Str → SqlValue

pub data BinaryOperator : Type 0 where
  and_op or_op eq_op not_eq_op lt_op lt_eq_op gt_op gt_eq_op other_op : BinaryOperator

pub data UnaryOperator : Type 0 where
  not_op minus_op plus_op other_unary : UnaryOperator

mutual
  pub data Expr : Type 0 where
    value : SqlValue → Expr
    identifier : Str → Expr
    compound_identifier : List Str → Expr
    binary_op : Expr → BinaryOperator → Expr → Expr
    unary_op : UnaryOperator → Expr → Expr
    is_null : Expr → Expr
    is_not_null : Expr → Expr
    nested : Expr → Expr
    like : Expr → Expr → Bool → Expr
    between : Expr → Expr → Expr → Bool → Expr
    in_list : Expr → Exprs → Bool → Expr
    opaque : Str → Expr

  pub data Exprs : Type 0 where
    nil : Exprs
    cons : Expr → Exprs → Exprs

-- `matches!(e, Expr::Value(vs) if vs.value.to_string() == "?")`.
unfoldable pub is_bound : Expr → Bool
is_bound (value (placeholder s)) = str_eq s (str "?")
is_bound e = false
