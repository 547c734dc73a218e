-- ===== src/Engine/Store/Sync.antt =====
-- The stores of every table of the engine.
use mathlib.Core.Path.{subst}
use run_alex_db.Common.{ℕ, ◌≡◌, refl, ◌∙◌, sym, Option, none, some, List, [], Bool, inl, inr}
use run_alex_db.Common.{none-ne-some, Bool-cases, ◌&&◌}
use run_alex_db.Common.Dict.{Str, str_eq, lookup, insert, lookup-insert, lookup-nil}
use run_alex_db.Engine.Value.{Platform, Value, QueryResult, ok, err, rows, value_rows}
use run_alex_db.Engine.Expr.{Expr}
use run_alex_db.Engine.Table.{Column, ColumnDef, Row, Table, new_table}
use run_alex_db.Engine.Compare.{Chars}
use run_alex_db.Engine.Rows.Sync.{InSync, rows_InSync, new_table-InSync}
use run_alex_db.Engine.Store.{
  Engine, Tables, in_database, in_engine, at_table, ensure_in, ensure_database, create_database,
  create_in, is_there, create_table, insert_values, store_last_insert_id, insert_into, key_of,
  delete_pk, delete_keyed, delete_rows, delete,
}

-- Every value of a map has a property.
abbrev pub AllIn {ℓ κ} : {V : Type ℓ} → (V → Type κ) → List (Str × V) → Type (ℓ ⊔ κ)
AllIn {V = V} P m = (k : Str) (v : V) → lookup k m ≡ some v → P v

some_injective {ℓ} : {A : Type ℓ} {x y : A} → some x ≡ some y → x ≡ y
some_injective h = cc

pub insert-AllIn {ℓ κ} :
    {V : Type ℓ} {P : V → Type κ} (k : Str) (v : V) (m : List (Str × V))
    → P v
    → AllIn P m
    → AllIn P (insert k v m)
insert-AllIn {P = P} k v m pv h j w e =
    let e' = rw (lookup-insert k j v m) at e in
    elim (Bool-cases (str_eq k j)) [
      | inl same ↦ subst P (some_injective (rw same at e')) pv
      | inr other ↦ h j w (rw other at e')
    ]

pub nil-AllIn {ℓ κ} : {V : Type ℓ} (P : V → Type κ) → AllIn P []
nil-AllIn P = λ k v q. absurd (none-ne-some (sym (lookup-nil k) ∙ q))

-- The stores of every table of every database are in step with its rows.
abbrev pub AllInSync : {F : Type 0} → Engine F → Type 0
AllInSync {F = F} e = AllIn (AllIn (InSync {F = F})) e.databases

module _ {F : Type 0} where
  in_database-AllInSync :
      (db t missing : Str) (f : Table F → Table F × QueryResult F) (tables : Tables F)
      (o : Option (Table F)) (e : Engine F)
      → ((table : Table F) → InSync table → InSync (f table).0)
      → AllInSync e
      → AllIn (InSync {F = F}) tables
      → ((table : Table F) → o ≡ some table → InSync table)
      → AllInSync (in_database db t missing f tables o e).0
  unfolding in_database
  in_database-AllInSync db t missing f tables none e hf h ht ho = h
  in_database-AllInSync db t missing f tables (some table) e hf h ht ho =
      insert-AllIn db _ e.databases (insert-AllIn t _ tables (hf table (ho table refl)) ht) h

  in_engine-AllInSync :
      (db t unknown missing : Str) (f : Table F → Table F × QueryResult F) (o : Option (Tables F))
      (e : Engine F)
      → ((table : Table F) → InSync table → InSync (f table).0)
      → AllInSync e
      → ((tables : Tables F) → o ≡ some tables → AllIn (InSync {F = F}) tables)
      → AllInSync (in_engine db t unknown missing f o e).0
  unfolding in_engine
  in_engine-AllInSync db t unknown missing f none e hf h ho = h
  in_engine-AllInSync db t unknown missing f (some tables) e hf h ho =
      in_database-AllInSync db t missing f tables (lookup t tables) e hf h (ho tables refl)
        (λ table q. ho tables refl t table q)

  pub at_table-AllInSync :
      (db t unknown missing : Str) (f : Table F → Table F × QueryResult F) (e : Engine F)
      → ((table : Table F) → InSync table → InSync (f table).0)
      → AllInSync e
      → AllInSync (at_table db t unknown missing f e).0
  unfolding at_table
  at_table-AllInSync db t unknown missing f e hf h =
      in_engine-AllInSync db t unknown missing f (lookup db e.databases) e hf h
        (λ tables q. h db tables q)

  create_in-AllInSync :
      (db t : Str) (defs : List ColumnDef) (if_not_exists : Bool) (o : Option (Tables F))
      (e : Engine F)
      → AllInSync e
      → ((tables : Tables F) → o ≡ some tables → AllIn (InSync {F = F}) tables)
      → ((schema name : Str) (defs : List ColumnDef) → InSync {F = F} (new_table schema name defs))
      → AllInSync (create_in db t defs if_not_exists o e).0
  unfolding create_in
  create_in-AllInSync db t defs if_not_exists none e h ho new = h
  create_in-AllInSync db t defs if_not_exists (some tables) e h ho new =
      elim (Bool-cases (if_not_exists && is_there (lookup t tables))) [
        | inl there ↦ rw there h
        | inr missing ↦ rw missing (
            insert-AllIn db _ e.databases (insert-AllIn t _ tables (new db t defs) (ho tables refl))
              h)
      ]

  ensure_in-AllInSync :
      (name : Str) (o : Option (Tables F)) (e : Engine F)
      → AllInSync e
      → AllInSync (ensure_in name o e)
  unfolding ensure_in
  ensure_in-AllInSync name none e h = insert-AllIn name [] e.databases (nil-AllIn _) h
  ensure_in-AllInSync name (some tables) e h = h

module _ (pf : Platform) (cs : Chars) (show : Expr → Str) where
  open pf use {F}

  store_last_insert_id-AllInSync :
      (r : Engine F × QueryResult F)
      → AllInSync r.0
      → AllInSync (store_last_insert_id pf cs show r).0
  unfolding store_last_insert_id
  store_last_insert_id-AllInSync (e, ok n id) h = h
  store_last_insert_id-AllInSync (e, err code message) h = h
  store_last_insert_id-AllInSync (e, rows columns rs) h = h
  store_last_insert_id-AllInSync (e, value_rows columns rs) h = h

  module _ (eval : Row F → List Column → Expr → Value F) where
    delete_rows-InSync :
        (selection : Option Expr) (t : Table F)
        → InSync t
        → InSync (delete_rows pf cs show eval selection t).0
    unfolding delete_rows delete_keyed delete_pk
    delete_rows-InSync selection t s = keyed (key_of pf cs show t selection)
      where
        by_pk : (o : Option ℕ) (key : Str) → InSync (delete_pk pf cs show o key t)
        by_pk none key = s
        by_pk (some pk) key = (rows_InSync pf t s).1 pk key

        keyed : (o : Option Str) → InSync (delete_keyed pf cs show eval o selection t)
        keyed none = (rows_InSync pf t s).2 _
        keyed (some key) = by_pk t.pk_col_idx key

    -- CREATE DATABASE, CREATE TABLE, INSERT and REPLACE of values and DELETE, on whatever database and
    -- table they name and whether or not they are there, keep the column stores of every table of the
    -- engine in step with its rows.
    pub engine_AllInSync :
        (e : Engine F)
        → AllInSync e
        → ((name : Str) → AllInSync (create_database {F = F} name e).0)
          × ((db : Str) (parts : List Str) (defs : List ColumnDef) (if_not_exists : Bool)
              → AllInSync (create_table db parts defs if_not_exists e).0)
          × ((db t : Str) (values : List (List Expr)) (replace_into : Bool) (cols : List Str)
              → AllInSync (insert_into pf cs show db t values replace_into cols e).0)
          × ((db t : Str) (selection : Option Expr)
              → AllInSync (delete pf cs show eval db t selection e).0)
    unfolding insert_into create_table delete insert_values create_database ensure_database
    engine_AllInSync e h = (
      λ name. ensure_in-AllInSync name _ e h,
      λ db parts defs if_not_exists.
          create_in-AllInSync _ _ defs if_not_exists _ e h (λ tables q. h _ tables q)
            (new_table-InSync pf),
      λ db t values replace_into cols. store_last_insert_id-AllInSync _ (
          at_table-AllInSync _ _ _ _ _ e (λ table s. (rows_InSync pf table s).0 replace_into _ _)
            h),
      λ db t selection.
          at_table-AllInSync _ _ _ _ (delete_rows pf cs show eval selection) e
            (delete_rows-InSync selection) h,
    )
