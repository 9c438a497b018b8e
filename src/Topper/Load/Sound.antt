-- ===== src/Topper/Load/Sound.antt =====
-- What the relations of a loaded catalog satisfy.
pub mod Tables
pub mod Views
use money_insighter.Prelude.{
  ℕ, ◌≡◌, refl, sym, ap, ◌∙◌, subst, Bool, true, false, ◌||◌, ◌&&◌, ◌⊎◌, inl, inr, Option, none,
  some, List, [], ◌∷◌, ◌++◌, arith, Text, text_eq, one_of, is_empty, length, lookup, assign, All,
  ◌==◌, if◌then◌else◌, if-elim, Bool-cases,
}
use money_insighter.Topper.Catalog.{
  Relation, Column, Mode, classify, index, new_relation, Loaded, CatalogError,
}
use money_insighter.Topper.Catalog.Index.{IsIndexed, new_relation-IsIndexed, new_relation-index}
use money_insighter.Topper.Introspect.{
  Spec, ColumnRow, Answer, no_rows, query_failed, got, Database, LoadError, Try, fine, wrong, ◌>>=◌,
  relation_of, schema_public, schema_topper, answered, table_found, some_columns, column_of,
  table_relation, load_columns, load_table, columns_failed, key_failed,
}
use money_insighter.Topper.Load.{
  Loading, fail, add_table, denied_of, has_entry, load_read_tables, write_table, load_write_tables,
}

-- A column of a denied name is denied.
abbrev pub Hides : List Text → Column → Type 0
Hides denied c = (one_of c.name denied ≡ false) ⊎ (c.denied ≡ true)

-- What holds of a relation that is returned.
abbrev pub Succeeds : {A : Type 0} → (A → Type 0) → Try A → Type 0
Succeeds P (fine a) = P a
Succeeds P (wrong e) = Unit

pub Succeeds-bind :
    {A B : Type 0} (P : B → Type 0) (m : Try A) (f : A → Try B)
    → ((a : A) → m ≡ fine a → Succeeds P (f a))
    → Succeeds P (m >>= f)
Succeeds-bind P (fine a) f h = h a refl
Succeeds-bind P (wrong e) f h = tt

classify-name : (c : Column) → (classify c).name ≡ c.name
unfolding classify
classify-name c = ground arith

hidden_or_not :
    (denied : List Text) (n m : Text) → m ≡ n → (one_of m denied ≡ false) ⊎ (one_of n denied ≡ true)
hidden_or_not denied n m e = elim (Bool-cases (one_of n denied)) [
  | inl there ↦ inr there
  | inr away ↦ inl (ap (λ k. one_of k denied) e ∙ away)
]

load_columns-Hides :
    (denied : List Text) (rows : List ColumnRow) → All (Hides denied) (load_columns denied rows)
unfolding load_columns
load_columns-Hides denied [] = tt
load_columns-Hides denied (row ∷ rows) = (
  hidden_or_not denied row.name (classify (column_of row)).name (classify-name (column_of row)),
  load_columns-Hides denied rows,
)

-- What `NewRelation` leaves of a relation.
pub record From (r0 r : Relation) : Type 0 where
  pub indexed : IsIndexed r
  pub same_columns : r.columns ≡ r0.columns
  pub same_mode : r.mode ≡ r0.mode
  pub same_schema : r.schema ≡ r0.schema

From-index : (r0 r : Relation) → new_relation r0 ≡ Loaded.ok r → From r0 r
unfolding index
From-index r0 r h =
    let e = new_relation-index r0 r h in
    record {
      indexed = new_relation-IsIndexed r0 r h;
      same_columns = ap (λ x. x.columns) (sym e);
      same_mode = ap (λ x. x.mode) (sym e);
      same_schema = ap (λ x. x.schema) (sym e);
    }

pub relation_of-From : (r0 : Relation) → Succeeds (From r0) (relation_of (new_relation r0))
relation_of-From r0 = go (new_relation r0) refl
  where
    go : (out : Loaded Relation) → new_relation r0 ≡ out → Succeeds (From r0) (relation_of out)
    go (Loaded.ok r) e = From-index r0 r e
    go (Loaded.err x) e = tt

-- A table of a mode and a schema, without the columns that are denied for it.
pub record IsTable (mode : Mode) (schema : Text) (denied : List Text) (r : Relation) : Type 0 where
  pub indexed : IsIndexed r
  pub hides : All (Hides denied) r.columns
  pub has_mode : r.mode ≡ mode
  pub has_schema : r.schema ≡ schema

Succeeds-map :
    {A : Type 0} (P Q : A → Type 0) (m : Try A)
    → ((a : A) → P a → Q a)
    → Succeeds P m
    → Succeeds Q m
Succeeds-map P Q (fine a) f h = f a h
Succeeds-map P Q (wrong e) f h = tt

some_columns_same :
    (table : Text) (cs out : List Column) → some_columns table cs ≡ fine out → cs ≡ out
some_columns_same table [] out h = cc
some_columns_same table (c ∷ cs) out h = cc

pub load_table-IsTable :
    (db : Database) (schema table : Text) (mode : Mode) (denied : List Text)
    → Succeeds (IsTable mode schema denied) (load_table db schema table mode denied)
unfolding load_table
load_table-IsTable db schema table mode denied =
    let P = IsTable mode schema denied in
    Succeeds-bind P (table_found table (db.table_type schema table)) _ (λ _ _.
      Succeeds-bind P (answered (columns_failed table) (db.columns schema table)) _ (λ rows _.
        Succeeds-bind P (some_columns table (load_columns denied rows)) _ (λ cols e.
          Succeeds-bind P (answered (key_failed table) (db.primary_key schema table)) _ (λ pk _.
            Succeeds-map (From (table_relation schema table mode cols pk)) P _
              (λ r from. record {
                indexed = from.indexed;
                hides =
                    subst (All (Hides denied))
                      (some_columns_same table (load_columns denied rows) cols e
                        ∙ sym from.same_columns)
                      (load_columns-Hides denied rows);
                has_mode = from.same_mode;
                has_schema = from.same_schema;
              })
              (relation_of-From (table_relation schema table mode cols pk))))))
