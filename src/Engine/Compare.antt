-- ===== src/Engine/Compare.antt =====
-- src/engine.rs: comparison of values, LIKE, and the values of literals.
pub mod Like
use Prim.Native.Nat.{Ordering, compare}
use run_alex_db.Common.{
  ℕ, suc, ◌+◌, Option, none, some, List, [], ◌∷◌, Bool, true, false, if◌then◌else◌, ◌&&◌, ◌||◌,
  ◌==◌,
}
use run_alex_db.Common.Int.{ℤ, pos_part, neg_part}
use run_alex_db.Common.Decimal.{parse_i64}
use run_alex_db.Common.Dict.{Str, str_eq}
use run_alex_db.Engine.Value.{Platform, Value, null, int, float, text, bytes, to_display}
use run_alex_db.Engine.Expr.{
  SqlValue, number, single_quoted_string, double_quoted_string, placeholder, sql_null, other_value,
  Expr, value,
}

-- `i64::cmp`.
unfoldable pub compare_ℤ : ℤ → ℤ → Ordering
compare_ℤ x y = compare (pos_part x + neg_part y) (pos_part y + neg_part x)

-- `str::cmp`: by bytes, from the left.
unfoldable pub compare_str : Str → Str → Ordering
compare_str [] [] = Ordering.eq
compare_str [] (b ∷ bs) = Ordering.lt
compare_str (a ∷ as') [] = Ordering.gt
compare_str (a ∷ as') (b ∷ bs) =
    let rest = compare_str as' bs in
    elim (compare a b) [
      | Ordering.lt ↦ Ordering.lt
      | Ordering.eq ↦ rest
      | Ordering.gt ↦ Ordering.gt
    ]

abbrev pub is_eq : Ordering → Bool
is_eq o = elim o [ Ordering.lt ↦ false | Ordering.eq ↦ true | Ordering.gt ↦ false ]

abbrev pub is_lt : Ordering → Bool
is_lt o = elim o [ Ordering.lt ↦ true | Ordering.eq ↦ false | Ordering.gt ↦ false ]

abbrev pub is_gt : Ordering → Bool
is_gt o = elim o [ Ordering.lt ↦ false | Ordering.eq ↦ false | Ordering.gt ↦ true ]

-- `unwrap_or(Ordering::Equal)`.
abbrev pub or_equal : Option Ordering → Ordering
or_equal none = Ordering.eq
or_equal (some o) = o

-- `unwrap_or_default()` on text.
abbrev pub or_empty : Option Str → Str
or_empty none = []
or_empty (some s) = s

module _ (pf : Platform) where
  open pf use {F, float_cmp, float_of_int, float_parse}

  -- The last arm: by the texts that the values display as.
  unfoldable pub compare_displays : Value F → Value F → Ordering
  compare_displays a b = compare_str (or_empty (to_display pf a)) (or_empty (to_display pf b))

  unfoldable pub values_cmp : Value F → Value F → Ordering
  unfolding compare_displays
  values_cmp null null = Ordering.eq
  values_cmp null (int y) = Ordering.lt
  values_cmp null (float y) = Ordering.lt
  values_cmp null (text y) = Ordering.lt
  values_cmp null (bytes y) = Ordering.lt
  values_cmp (int x) null = Ordering.gt
  values_cmp (int x) (int y) = compare_ℤ x y
  values_cmp (int x) (float y) = or_equal (float_cmp (float_of_int x) y)
  values_cmp (int x) (text y) = compare_displays (int x) (text y)
  values_cmp (int x) (bytes y) = compare_displays (int x) (bytes y)
  values_cmp (float x) null = Ordering.gt
  values_cmp (float x) (int y) = or_equal (float_cmp x (float_of_int y))
  values_cmp (float x) (float y) = or_equal (float_cmp x y)
  values_cmp (float x) (text y) = compare_displays (float x) (text y)
  values_cmp (float x) (bytes y) = compare_displays (float x) (bytes y)
  values_cmp (text x) null = Ordering.gt
  values_cmp (text x) (int y) = compare_displays (text x) (int y)
  values_cmp (text x) (float y) = compare_displays (text x) (float y)
  values_cmp (text x) (text y) = compare_str x y
  values_cmp (text x) (bytes y) = compare_displays (text x) (bytes y)
  values_cmp (bytes x) null = Ordering.gt
  values_cmp (bytes x) (int y) = compare_displays (bytes x) (int y)
  values_cmp (bytes x) (float y) = compare_displays (bytes x) (float y)
  values_cmp (bytes x) (text y) = compare_displays (bytes x) (text y)
  values_cmp (bytes x) (bytes y) = compare_displays (bytes x) (bytes y)

  abbrev pub is_null_value : Value F → Bool
  is_null_value v = elim v [ null ↦ true | _ ↦ false ]

  unfoldable pub values_eq : Value F → Value F → Bool
  values_eq a b = if is_null_value a || is_null_value b then false else is_eq (values_cmp a b)

  -- A number that is neither an `i64` nor an `f64` stays text.
  unfoldable pub parse_number : Str → Value F
  parse_number n = elim (parse_i64 n) [
    | some i ↦ int i
    | none ↦ elim (float_parse n) [ some f ↦ float f | none ↦ text n ]
  ]

  -- `value_from_sqlparser`.
  unfoldable pub value_from_sqlparser : SqlValue → Value F
  unfolding parse_number
  value_from_sqlparser (number n) = parse_number n
  value_from_sqlparser (single_quoted_string s) = text s
  value_from_sqlparser (double_quoted_string s) = text s
  value_from_sqlparser sql_null = null
  value_from_sqlparser (placeholder s) = null
  value_from_sqlparser (other_value s) = null

  -- `expr_to_value`; `show` is what the parser library prints an expression as.
  unfoldable pub expr_to_value : (Expr → Str) → Expr → Value F
  unfolding parse_number
  expr_to_value show (value (number n)) = parse_number n
  expr_to_value show (value (single_quoted_string s)) = text s
  expr_to_value show (value sql_null) = null
  expr_to_value show e = text (show e)

-- A text as its characters, and `char::to_lowercase`, which may give more than one.
pub record Chars : Type 0 where
  pub chars : Str → List ℕ
  pub to_lowercase : ℕ → List ℕ

module _ (cs : Chars) where
  open cs use {chars, to_lowercase}

  -- The loop of `%`: does some rest of the text pass?
  unfoldable pub any_suffix : (List ℕ → Bool) → List ℕ → Bool
  any_suffix f [] = f []
  any_suffix f (c ∷ v) = f (c ∷ v) || any_suffix f v

  -- The head of the text passes `f` and what follows it passes `g`.
  unfoldable pub head_and : (ℕ → Bool) → (List ℕ → Bool) → List ℕ → Bool
  head_and f g [] = false
  head_and f g (c ∷ v) = f c && g v

  unfoldable pub like_rec : List ℕ → List ℕ → Bool
  unfolding any_suffix head_and
  like_rec [] v = elim v [ [] ↦ true | c ∷ cs ↦ false ]
  like_rec (p ∷ ps) v =
      let rest = like_rec ps in
      if p == b'%'
      then any_suffix rest v
      else if p == b'_'
      then head_and (λ c. true) rest v
      else head_and (λ c. str_eq (to_lowercase p) (to_lowercase c)) rest v

  unfoldable pub like_match : Str → Str → Bool
  like_match v pattern = like_rec (chars pattern) (chars v)
