-- ===== src/Engine/Prepared/Select/Stored.antt =====
-- `SELECT *` shows the rows that are stored.
use run_alex_db.Common.{
  ℕ, zero, suc, ◌≤◌, ◌≡◌, refl, sym, ap, ap₂, ◌∙◌, arith, Option, none, some, List, [], ◌∷◌, ◌++◌,
  map, All, length, get_elem?, append_assoc, length-map,
}
use run_alex_db.Common.{get_elem?-append_length}
use run_alex_db.Common.Dict.{Str}
use run_alex_db.Engine.Value.{Platform, Value, rows, to_display, display_rows}
use run_alex_db.Engine.Expr.{Expr}
use run_alex_db.Engine.Table.{Column, Row, Table}
use run_alex_db.Engine.Compare.{Chars}
use run_alex_db.Engine.Prepared.Select.{
  wildcard, all_columns, projection, has_wildcard, is_aggregate, all_functions, show_cells, passing,
  select_rows,
}

-- The first `n` cells, with NULL for those that are missing.
abbrev pub fit : ℕ → List (Option Str) → List (Option Str)
fit zero cells = []
fit (suc n) [] = none ∷ fit n []
fit (suc n) (c ∷ cells) = c ∷ fit n cells

fit-length : (cells : List (Option Str)) → fit (length cells) cells ≡ cells
fit-length [] = refl
fit-length (c ∷ cells) = ap (λ l. c ∷ l) (fit-length cells)

all_columns-names :
    (i : ℕ) (columns : List Column)
    → map (λ p. p.0) (all_columns i columns) ≡ map (λ c. c.name) columns
unfolding all_columns
all_columns-names i [] = refl
all_columns-names i (c ∷ columns) = ap (λ l. c.name ∷ l) (all_columns-names (suc i) columns)

get_elem?-past {ℓ} : {A : Type ℓ} (xs : List A) (i : ℕ) → length xs ≤ i → get_elem? xs i ≡ none
get_elem?-past [] i h = refl
get_elem?-past (x ∷ xs) zero h = absurd (omega arith)
get_elem?-past (x ∷ xs) (suc i) h = get_elem?-past xs i (omega arith)

length-snoc {ℓ} : {A : Type ℓ} (xs : List A) (y : A) → length (xs ++ (y ∷ [])) ≡ suc (length xs)
length-snoc [] y = refl
length-snoc (x ∷ xs) y = ap suc (length-snoc xs y)

module _ (pf : Platform) (cs : Chars) (show : Expr → Str) where
  open pf use {F}

  -- Past the end of a row there is NULL.
  show_cells-past :
      (row : Row F) (i : ℕ) (columns : List Column)
      → length row ≤ i
      → show_cells pf cs show (all_columns i columns) row ≡ fit (length columns) []
  unfolding show_cells all_columns
  show_cells-past row i [] h = refl
  show_cells-past row i (c ∷ columns) h =
      ap₂ (λ x l. x ∷ l)
        (ap
          (λ (o : Option (Value F)). elim o as (λ _. Option Str) [
            | none ↦ none
            | some w ↦ to_display pf w
          ])
          (get_elem?-past row i h))
        (show_cells-past row (suc i) columns (omega arith))

  -- The columns from the place on at which the rest of the row stands.
  show_cells_from :
      (before row : Row F) (columns : List Column)
      → show_cells pf cs show (all_columns (length before) columns) (before ++ row)
        ≡ fit (length columns) (map (to_display pf) row)
  unfolding show_cells all_columns
  show_cells_from before row [] = refl
  show_cells_from before [] (c ∷ columns) =
      show_cells-past (before ++ []) (length before) (c ∷ columns) (ends before)
    where
      ends : (xs : Row F) → length (xs ++ []) ≤ length xs
      ends [] = omega arith
      ends (x ∷ xs) = omega (arith, ends xs)
  show_cells_from before (v ∷ row) (c ∷ columns) =
      ap₂ (λ x l. x ∷ l)
        (ap
          (λ (o : Option (Value F)). elim o as (λ _. Option Str) [
            | none ↦ none
            | some w ↦ to_display pf w
          ])
          (get_elem?-append_length before row v))
        (ap₂ (λ i r. show_cells pf cs show (all_columns i columns) r) (sym (length-snoc before v))
            (sym (append_assoc before (v ∷ []) row))
          ∙ show_cells_from (before ++ (v ∷ [])) row columns)

  -- A row as `SELECT *` shows it.
  abbrev pub show_row : List Column → Row F → List (Option Str)
  show_row columns row = fit (length columns) (map (to_display pf) row)

  show_rows :
      (columns : List Column) (rs : List (Row F))
      → map (show_cells pf cs show (all_columns 0 columns)) rs ≡ map (show_row columns) rs
  show_rows columns [] = refl
  show_rows columns (r ∷ rs) =
      ap₂ (λ x l. x ∷ l) (show_cells_from [] r columns) (show_rows columns rs)

  -- A row as wide as the table is shown as it is.
  pub show_row-wide :
      (columns : List Column) (rs : List (Row F))
      → All (λ row. length row ≡ length columns) rs
      → map (show_row columns) rs ≡ display_rows pf rs
  unfolding display_rows
  show_row-wide columns [] h = refl
  show_row-wide columns (r ∷ rs) (hr, hrs) =
      ap₂ (λ x l. x ∷ l)
        (ap (λ n. fit n (map (to_display pf) r)) (sym hr ∙ sym (length-map r _))
          ∙ fit-length (map (to_display pf) r))
        (show_row-wide columns rs hrs)

  module _ (eval : Row F → List Column → Expr → Value F) where
    -- `SELECT *` without WHERE answers with the names of the columns and every row as it is displayed, cut
    -- or filled up with NULL to the table's width.
    pub select_rows-wildcard :
        (bound : List (Value F)) (star : Str) (t : Table F)
        → select_rows pf cs show eval bound (wildcard star ∷ []) none none t
          ≡ rows (map (λ c. c.name) t.columns) (map (show_row t.columns) t.rows)
    unfolding select_rows projection has_wildcard is_aggregate all_functions passing
    select_rows-wildcard bound star t =
        ap₂ (λ names rs. rows names rs) (all_columns-names 0 t.columns) (show_rows t.columns t.rows)
