-- ===== src/Engine/Prepared/Stored.antt =====
-- What a prepared INSERT stores is what a prepared SELECT answers with.
use run_alex_db.Common.{
  ℕ, ◌≤◌, ◌≡◌, refl, ap, ap₂, ◌∙◌, arith, none, List, [], ◌∷◌, ◌++◌, map, true, All, length, drop,
  length-drop, length-take,
}
use run_alex_db.Common.Dict.{Str}
use run_alex_db.Engine.Value.{Platform, Value, rows, display_rows}
use run_alex_db.Engine.Expr.{Expr, is_bound}
use run_alex_db.Engine.Table.{Column, Row, Table}
use run_alex_db.Engine.Compare.{Chars}
use run_alex_db.Engine.Prepared.{bind_row, push_row, push_rows}
use run_alex_db.Engine.Prepared.Binding.{chunks, sum_of, push_rows-marks}
use run_alex_db.Engine.Prepared.Select.{wildcard, select_rows}
use run_alex_db.Engine.Prepared.Select.Stored.{show_row, show_row-wide, select_rows-wildcard}

chunks-wide {ℓ} :
    {A : Type ℓ} (k : ℕ) (ns : List ℕ) (xs : List A)
    → All (λ n. n ≡ k) ns
    → sum_of ns ≤ length xs
    → All (λ r. length r ≡ k) (chunks ns xs)
unfolding chunks sum_of
chunks-wide k [] xs h small = tt
chunks-wide k (n ∷ ns) xs (hn, hs) small = (
  length-take n xs (omega arith) ∙ hn,
  chunks-wide k ns (drop n xs) hs (omega (arith, length-drop n xs)),
)

map_both {ℓ κ} :
    {A : Type ℓ} {B : Type κ} (f : A → B) (xs ys : List A) → map f (xs ++ ys) ≡ map f xs ++ map f ys
map_both f [] ys = refl
map_both f (x ∷ xs) ys = ap (λ l. f x ∷ l) (map_both f xs ys)

lengths-wide {ℓ} :
    {A : Type ℓ} (k : ℕ) (xss : List (List A))
    → All (λ xs. length xs ≡ k) xss
    → All (λ n. n ≡ k) (map length xss)
lengths-wide k [] h = tt
lengths-wide k (xs ∷ xss) (hx, hs) = (hx, lengths-wide k xss hs)

module _ (pf : Platform) (cs : Chars) (show : Expr → Str) where
  open pf use {F}

  push_rows-columns :
      (bound : List (Value F)) (i : ℕ) (ess : List (List Expr)) (t : Table F)
      → (push_rows pf cs show bound i ess t).columns ≡ t.columns
  unfolding push_rows push_row
  push_rows-columns bound i [] t = refl
  push_rows-columns bound i (es ∷ ess) t =
      push_rows-columns bound (bind_row pf cs show bound i es).1 ess
        (push_row pf cs show (bind_row pf cs show bound i es).0 t)

  module _ (eval : Row F → List Column → Expr → Value F) where
    -- After a prepared INSERT whose rows are as wide as the table and all question marks, with values enough
    -- bound, `SELECT *` answers with the rows that were there, each cut or filled up with NULL to the
    -- table's width, and then the bound values as they are, row by row in the order in which they were bound.
    pub select_rows-push_rows :
        (bound bound' : List (Value F)) (ess : List (List Expr)) (star : Str) (t : Table F)
        → All (All (λ e. is_bound e ≡ true)) ess
        → All (λ es. length es ≡ length t.columns) ess
        → sum_of (map length ess) ≤ length bound
        → select_rows pf cs show eval bound'
            (wildcard star ∷ [])
            none
            none
            (push_rows pf cs show bound 0 ess t)
          ≡ rows (map (λ c. c.name) t.columns) (
              map (show_row pf cs show t.columns) t.rows
              ++ display_rows pf (chunks (map length ess) bound))
    select_rows-push_rows bound bound' ess star t marks same enough =
        let stored = push_rows-marks pf cs show bound ess t marks enough in
        let columns = push_rows-columns bound 0 ess t in
        select_rows-wildcard pf cs show eval bound' star (push_rows pf cs show bound 0 ess t)
        ∙ ap₂ (λ cols rs. rows (map (λ c. c.name) cols) (map (show_row pf cs show cols) rs)) columns
            stored
        ∙ ap (rows (map (λ c. c.name) t.columns)) (
            map_both (show_row pf cs show t.columns) t.rows (chunks (map length ess) bound)
            ∙ ap (λ l. map (show_row pf cs show t.columns) t.rows ++ l)
                (show_row-wide pf cs show t.columns (chunks (map length ess) bound) (
                  chunks-wide (length t.columns) (map length ess) bound (lengths-wide _ ess same)
                    enough)))
