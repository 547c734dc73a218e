-- ===== src/Engine/Sample.antt =====
-- A platform and a table for the tests: floats are natural numbers here.
use run_alex_db.Common.{ℕ, none, some, List, [], ◌∷◌, true, false}
use run_alex_db.Common.Int.{pos, negsuc}
use run_alex_db.Common.Decimal.{show_ℕ}
use run_alex_db.Common.Dict.{Str, str, insert}
use run_alex_db.Engine.Value.{Platform, Value, int, text, null}
use run_alex_db.Engine.Expr.{Expr}
use run_alex_db.Engine.Compare.{Chars}
use run_alex_db.Engine.Store.{Engine}
use run_alex_db.Engine.Table.{Row, Column, Table, big_int_type, text_type}

abbrev pub platform : Platform
platform = record {
  F = ℕ;
  float_text = show_ℕ;
  float_cmp = λ x y. none;
  float_of_int = λ z. elim z [ pos n ↦ n | negsuc n ↦ 0 ];
  float_parse = λ s. none;
  f32_text = λ bytes. str "0";
  f64_text = λ bytes. str "0";
  hex_encode = λ bytes. bytes;
}

abbrev pub id_column : Column
id_column = record {
  name = str "id";
  col_type = big_int_type;
  nullable = false;
  primary_key = true;
}

abbrev pub name_column : Column
name_column = record {
  name = str "name";
  col_type = text_type;
  nullable = true;
  primary_key = false;
}

abbrev pub ann : List (Value ℕ)
ann = int (pos 1) ∷ text (str "ann") ∷ []

abbrev pub bob : List (Value ℕ)
bob = int (pos 2) ∷ text (str "bob") ∷ []

abbrev pub people : Table ℕ
people = record {
  name = str "people";
  schema = str "app";
  columns = id_column ∷ name_column ∷ [];
  rows = ann ∷ bob ∷ [];
  pk_col_idx = some 0;
  pk_index = (str "1", 0) ∷ (str "2", 1) ∷ [];
  col_int_data = some (pos 1 ∷ pos 2 ∷ []) ∷ none ∷ [];
  col_str_data = none ∷ some (str "ann" ∷ str "bob" ∷ []) ∷ [];
  next_auto = pos 3;
}

abbrev pub engine : Engine ℕ
engine = record {
  databases = insert (str "app") (insert (str "people") people []) [];
  users = [];
  write_gen = 4;
  last_insert_id = 0;
}

-- Bytes as characters, with ASCII letters in lower case.
abbrev pub ascii : Chars
ascii = record { chars = λ s. s; to_lowercase = λ c. c ∷ [] }

-- Expressions that are not literals print as nothing and are NULL.
abbrev pub show : Expr → Str
show e = []

abbrev pub eval : Row ℕ → List Column → Expr → Value ℕ
eval row columns e = null
