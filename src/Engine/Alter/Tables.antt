-- ===== src/Engine/Alter/Tables.antt =====
-- ALTER TABLE keeps a table sound: its stores are in step with its rows, and its rows are as wide as it is.
use run_alex_db.Common.{
  ℕ, zero, suc, ◌+◌, ◌≡◌, refl, sym, ap, ◌∙◌, arith, Option, none, some, List, [], ◌∷◌, ◌++◌, map,
  All, length, get_elem?, remove_at, Bool-cases, inl, inr, length-append,
}
use run_alex_db.Common.Int.{ℤ, pos}
use run_alex_db.Common.Dict.{Str}
use run_alex_db.Engine.Value.{Value, null, int, text, QueryResult, err}
use run_alex_db.Engine.Table.{Column, Row, Table, int_at, str_at, is_int_column, is_str_column}
use run_alex_db.Engine.Rows.{column_index}
use run_alex_db.Engine.Rows.Sync.{InSync, stores_of}
use run_alex_db.Engine.Alter.{
  new_column, with_column, without_column, extend_stores, is_primary, rename_at, rename_found,
  drop_found, is_some, alter_op, alter_all, AlterOp, add_column, drop_column, rename_column,
  other_operation,
}
use run_alex_db.Engine.Alter.Sync.{stores_of-remove_at, stores_of-snoc, stores_of-rename_at}

pub record IsSound {F : Type 0} (t : Table F) : Type 0 where
  pub synced : InSync t
  pub wide : All (λ r. length r ≡ length t.columns) t.rows

remove_at-same :
    {A B : Type 0} (i : ℕ) (xs : List A) (ys : List B)
    → length xs ≡ length ys
    → length (remove_at xs i) ≡ length (remove_at ys i)
remove_at-same i [] [] h = refl
remove_at-same i [] (y ∷ ys) h = absurd (omega arith)
remove_at-same i (x ∷ xs) [] h = absurd (omega arith)
remove_at-same zero (x ∷ xs) (y ∷ ys) h = omega arith
remove_at-same (suc i) (x ∷ xs) (y ∷ ys) h = ap suc (remove_at-same i xs ys (omega arith))

rename_at-length :
    (i : ℕ) (name : Str) (cs : List Column) → length (rename_at i name cs) ≡ length cs
unfolding rename_at
rename_at-length i name [] = refl
rename_at-length zero name (c ∷ cs) = refl
rename_at-length (suc i) name (c ∷ cs) = ap suc (rename_at-length i name cs)

module _ {F : Type 0} where
  read_int : (k j : ℕ) (r r' : Row F) → get_elem? r k ≡ get_elem? r' j → int_at k r ≡ int_at j r'
  unfolding int_at
  read_int k j r r' h =
      ap (λ (o : Option (Value F)). elim o as (λ _. ℤ) [ some (int n) ↦ n | _ ↦ pos 0 ]) h

  read_str : (k j : ℕ) (r r' : Row F) → get_elem? r k ≡ get_elem? r' j → str_at k r ≡ str_at j r'
  unfolding str_at
  read_str k j r r' h =
      ap (λ (o : Option (Value F)). elim o as (λ _. Str) [ some (text s) ↦ s | _ ↦ [] ]) h

  snoc-wide :
      (n : ℕ) (rs : List (Row F))
      → All (λ r. length r ≡ n) rs
      → All (λ r. length r ≡ suc n) (map (λ r. r ++ (null ∷ [])) rs)
  snoc-wide n [] h = tt
  snoc-wide n (r ∷ rs) (hr, hrs) =
      (length-append r (null ∷ []) ∙ ap (λ k. k + 1) hr ∙ omega arith, snoc-wide n rs hrs)

  remove_at-wide :
      (i : ℕ) (cs : List Column) (rs : List (Row F))
      → All (λ r. length r ≡ length cs) rs
      → All (λ r. length r ≡ length (remove_at cs i)) (map (λ r. remove_at r i) rs)
  remove_at-wide i cs [] h = tt
  remove_at-wide i cs (r ∷ rs) (hr, hrs) = (remove_at-same i r cs hr, remove_at-wide i cs rs hrs)

  with_column-IsSound : (c : Column) (t : Table F) → IsSound t → IsSound (with_column c t)
  unfolding with_column int_at str_at
  with_column-IsSound c t s =
      let n : length (t.columns ++ (c ∷ [])) ≡ suc (length t.columns) =
        omega (arith, length-append t.columns (c ∷ [])) in
      let wider : All (λ r. length r ≡ length (t.columns ++ (c ∷ [])))
          (map (λ r. r ++ (null ∷ [])) t.rows) =
        rw n (snoc-wide (length t.columns) t.rows s.wide) in
      record {
        synced = record {
          ints =
              ap (extend_stores (length t.columns) _) s.synced.ints
              ∙ stores_of-snoc is_int_column int_at read_int (pos 0) null (length t.columns) 0 c
                  t.columns t.rows s.wide (omega arith) (λ r h. read_int _ 0 r (null ∷ []) h);
          strs =
              ap (extend_stores (length t.columns) _) s.synced.strs
              ∙ stores_of-snoc is_str_column str_at read_str [] null (length t.columns) 0 c
                  t.columns t.rows s.wide (omega arith) (λ r h. read_str _ 0 r (null ∷ []) h);
        };
        wide = wider;
      }

  without_column-IsSound : (i : ℕ) (t : Table F) → IsSound t → IsSound (without_column i t)
  unfolding without_column
  without_column-IsSound i t s =
      let zero_add : 0 + i ≡ i = omega arith in
      record {
        synced = record {
          ints =
              ap (λ ss. remove_at ss i) s.synced.ints
              ∙ sym (stores_of-remove_at is_int_column int_at read_int i 0 t.columns t.rows)
              ∙ ap
                  (λ g.
                    stores_of is_int_column int_at 0 (remove_at t.columns i)
                      (map (λ r. remove_at r g) t.rows))
                  zero_add;
          strs =
              ap (λ ss. remove_at ss i) s.synced.strs
              ∙ sym (stores_of-remove_at is_str_column str_at read_str i 0 t.columns t.rows)
              ∙ ap
                  (λ g.
                    stores_of is_str_column str_at 0 (remove_at t.columns i)
                      (map (λ r. remove_at r g) t.rows))
                  zero_add;
        };
        wide = remove_at-wide i t.columns t.rows s.wide;
      }

  rename_found-IsSound :
      (old new : Str) (o : Option ℕ) (t : Table F)
      → IsSound t
      → IsSound (rename_found old new o t).0
  unfolding rename_found
  rename_found-IsSound old new none t s = s
  rename_found-IsSound old new (some i) t s =
      let same = rename_at-length i new t.columns in
      let wide : All (λ r. length r ≡ length (rename_at i new t.columns)) t.rows = rw same s.wide in
      record {
        synced = record {
          ints =
              s.synced.ints
              ∙ stores_of-rename_at is_int_column int_at read_int i 0 new t.columns t.rows
                  (λ c. refl);
          strs =
              s.synced.strs
              ∙ stores_of-rename_at is_str_column str_at read_str i 0 new t.columns t.rows
                  (λ c. refl);
        };
        wide = wide;
      }

  drop_found-IsSound :
      (name : Str) (o : Option ℕ) (t : Table F) → IsSound t → IsSound (drop_found name o t).0
  unfolding drop_found
  drop_found-IsSound name none t s = s
  drop_found-IsSound name (some i) t s = elim (Bool-cases (is_primary t.columns i)) [
    | inl primary ↦ rw primary s
    | inr plain ↦ rw plain (without_column-IsSound i t s)
  ]

  alter_op-IsSound : (op : AlterOp) (t : Table F) → IsSound t → IsSound (alter_op op t).0
  unfolding alter_op
  alter_op-IsSound (add_column name data_type) t s =
      elim (Bool-cases (is_some (column_index t.columns name))) [
        | inl there ↦ rw there s
        | inr new ↦ rw new (with_column-IsSound (new_column name data_type) t s)
      ]
  alter_op-IsSound (drop_column name) t s =
      drop_found-IsSound name (column_index t.columns name) t s
  alter_op-IsSound (rename_column old new) t s =
      rename_found-IsSound old new (column_index t.columns old) t s
  alter_op-IsSound other_operation t s = s

  ended :
      (o : Option (ℕ × Str)) (t : Table F) (later : Table F × QueryResult F)
      → IsSound t
      → IsSound later.0
      → IsSound
          (elim o as (λ _. Table F × QueryResult F) [
            | none ↦ later
            | some (code, message) ↦ (t, err code message)
          ]).0
  ended none t later s s' = s'
  ended (some (code, message)) t later s s' = s

  -- ALTER TABLE, whatever its operations are and whether or not one of them fails, keeps a table sound: the
  -- column stores stay in step with the rows, and every row stays as wide as the table.
  pub alter_all-IsSound :
      (ops : List AlterOp) (t : Table F) → IsSound t → IsSound (alter_all ops t).0
  unfolding alter_all
  alter_all-IsSound [] t s = s
  alter_all-IsSound (op ∷ ops) t s =
      let s' = alter_op-IsSound op t s in
      ended (alter_op op t).1 (alter_op op t).0 (alter_all ops (alter_op op t).0) s'
        (alter_all-IsSound ops (alter_op op t).0 s')
