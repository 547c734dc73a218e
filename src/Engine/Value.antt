-- ===== src/Engine/Value.antt =====
-- src/engine.rs, `Value`, `QueryResult`, and what the program takes from outside its own code.
use Prim.Native.Nat.{Ordering}
use run_alex_db.Common.{ℕ, Option, none, some, List, map}
use run_alex_db.Common.Int.{ℤ}
use run_alex_db.Common.Dict.{Str}
use run_alex_db.Common.Decimal.{show_ℤ}

-- IEEE floats, which the language has none of, and the crate `hex`.
pub record Platform : Type 1 where
  pub F : Type 0
  -- `f64::to_string`
  pub float_text : F → Str
  -- `f64::partial_cmp`
  pub float_cmp : F → F → Option Ordering
  -- `as f64` on an `i64`
  pub float_of_int : ℤ → F
  -- `str::parse::<f64>`
  pub float_parse : Str → Option F
  -- `format!("{v}")` of the `f32` and the `f64` with these little-endian bytes
  pub f32_text : List ℕ → Str
  pub f64_text : List ℕ → Str
  -- `hex::encode`
  pub hex_encode : List ℕ → Str

pub data Value (F : Type 0) : Type 0 where
  null : Value F
  int : ℤ → Value F
  float : F → Value F
  text : Str → Value F
  bytes : List ℕ → Value F

pub data QueryResult (F : Type 0) : Type 0 where
  ok : ℕ → ℕ → QueryResult F
  err : ℕ → Str → QueryResult F
  rows : List Str → List (List (Option Str)) → QueryResult F
  value_rows : List Str → List (List (Value F)) → QueryResult F

module _ (pf : Platform) where
  open pf use {F, float_text, hex_encode}

  -- `Value::to_display`.
  unfoldable pub to_display : Value F → Option Str
  unfolding show_ℤ
  to_display null = none
  to_display (int i) = some (show_ℤ i)
  to_display (float f) = some (float_text f)
  to_display (text s) = some s
  to_display (bytes b) = some (hex_encode b)

  -- `rows.into_iter().map(|r| r.into_iter().map(|v| v.to_display()).collect())`.
  unfoldable pub display_rows : List (List (Value F)) → List (List (Option Str))
  display_rows rs = map (map to_display) rs
