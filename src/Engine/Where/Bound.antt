-- ===== src/Engine/Where/Bound.antt =====
-- Which bound values a WHERE clause of a prepared statement reads.
use run_alex_db.Common.{◌≡◌, refl, ap, List, [], ◌∷◌, Bool, true, false, Bool-cases, inl, inr}
use run_alex_db.Common.{not, if◌then◌else◌}
use run_alex_db.Engine.Value.{Platform, Value}
use run_alex_db.Engine.Expr.{
  Expr, SqlValue, value, identifier, compound_identifier, binary_op, unary_op, is_null, is_not_null,
  nested, like, between, in_list, opaque, not_op, minus_op, plus_op, other_unary, is_bound,
}
use run_alex_db.Engine.Table.{Column, Row}
use run_alex_db.Engine.Compare.{Chars, value_from_sqlparser}
use run_alex_db.Engine.Where.{eval_where, eval_where_bound, resolve_expr_bound}

-- The clause with a literal written for each `?` under AND, OR, NOT, the comparisons, IS NULL and
-- parentheses. LIKE, BETWEEN and IN are left as they are.
abbrev pub put_literal : SqlValue → Expr → Expr
put_literal lit (value x) = if is_bound (value x) then value lit else value x
put_literal lit (binary_op left op right) =
    binary_op (put_literal lit left) op (put_literal lit right)
put_literal lit (unary_op op e) = unary_op op (put_literal lit e)
put_literal lit (is_null e) = is_null (put_literal lit e)
put_literal lit (is_not_null e) = is_not_null (put_literal lit e)
put_literal lit (nested e) = nested (put_literal lit e)
put_literal lit e = e

module _ (pf : Platform) (cs : Chars) where
  open pf use {F}

  module _ (eval : Row F → List Column → Expr → Value F) (row : Row F) (cols : List Column)
      (lit : SqlValue) (plain : is_bound (value lit) ≡ false) where
    resolve_literal :
        (vs : List (Value F)) (e : Expr)
        → resolve_expr_bound pf cs eval row cols (value_from_sqlparser pf lit ∷ vs) e
          ≡ resolve_expr_bound pf cs eval row cols [] (put_literal lit e)
    unfolding resolve_expr_bound value_from_sqlparser is_bound
    resolve_literal vs (value x) = elim (Bool-cases (is_bound (value x))) [
      | inl mark ↦ rw (mark, plain) refl
      | inr other ↦ rw (other, other) refl
    ]
    resolve_literal vs (identifier x) = refl
    resolve_literal vs (compound_identifier x) = refl
    resolve_literal vs (binary_op left op right) = refl
    resolve_literal vs (unary_op op e) = refl
    resolve_literal vs (is_null e) = refl
    resolve_literal vs (is_not_null e) = refl
    resolve_literal vs (nested e) = refl
    resolve_literal vs (like e p n) = refl
    resolve_literal vs (between e l h n) = refl
    resolve_literal vs (in_list e es n) = refl
    resolve_literal vs (opaque s) = refl

    value_passes :
        (vs : List (Value F)) (x : SqlValue) (b : Bool)
        → eval_where_bound pf cs eval row cols vs (value x)
          ≡ eval_where_bound pf cs eval row cols [] (if b then value lit else value x)
    unfolding eval_where_bound eval_where
    value_passes vs x true = refl
    value_passes vs x false = refl

    -- Where a literal other than `?` stands for the first bound value, a WHERE clause of a prepared statement
    -- passes a row exactly when the clause passes it, with nothing bound, in which that literal is written for
    -- every `?` under AND, OR, NOT, the comparisons, IS NULL and parentheses. So the values bound behind the
    -- first are never read, also when there are several `?`. A `?` inside LIKE, BETWEEN or IN is left in place.
    pub eval_where_bound-put_literal :
        (vs : List (Value F)) (e : Expr)
        → eval_where_bound pf cs eval row cols (value_from_sqlparser pf lit ∷ vs) e
          ≡ eval_where_bound pf cs eval row cols [] (put_literal lit e)
    unfolding eval_where_bound eval_where
    eval_where_bound-put_literal vs (binary_op left op right) = rw (
      eval_where_bound-put_literal vs left,
      eval_where_bound-put_literal vs right,
      resolve_literal vs left,
      resolve_literal vs right,
    )
    eval_where_bound-put_literal vs (unary_op not_op e) = ap not (eval_where_bound-put_literal vs e)
    eval_where_bound-put_literal vs (unary_op minus_op e) = refl
    eval_where_bound-put_literal vs (unary_op plus_op e) = refl
    eval_where_bound-put_literal vs (unary_op other_unary e) = refl
    eval_where_bound-put_literal vs (is_null e) = rw (resolve_literal vs e)
    eval_where_bound-put_literal vs (is_not_null e) = rw (resolve_literal vs e)
    eval_where_bound-put_literal vs (nested e) = eval_where_bound-put_literal vs e
    eval_where_bound-put_literal vs (value x) =
        value_passes (value_from_sqlparser pf lit ∷ vs) x (is_bound (value x))
    eval_where_bound-put_literal vs (identifier x) = refl
    eval_where_bound-put_literal vs (compound_identifier x) = refl
    eval_where_bound-put_literal vs (like e p n) = refl
    eval_where_bound-put_literal vs (between e l h n) = refl
    eval_where_bound-put_literal vs (in_list e es n) = refl
    eval_where_bound-put_literal vs (opaque s) = refl
