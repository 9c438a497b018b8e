-- ===== src/Topper/Introspect.antt =====
-- A table as the database describes it: the Spec of postgres-topper/internal/catalog/catalog.go and
-- load.go's `loadTable`. What the database answers is a parameter.
use money_insighter.Prelude.{
  ℕ, Bool, true, false, Option, List, [], ◌∷◌, Text, codes, text_eq, one_of, if◌then◌else◌,
}
use money_insighter.Topper.Catalog.{
  Relation, Column, Order, Toggle, Mode, Kind, native, classify, qualified_name, new_relation,
  CatalogError, Loaded,
}

pub record ViewSpec : Type 0 where
  pub name : Text
  pub from_table : Text
  pub sql : Text
  pub default_order : List Order
  pub tiebreak : Option (List Text)
  pub forced : List Text
  pub toggles : List Toggle

-- A nil tiebreak of a spec is `none`.
pub record Spec : Type 0 where
  pub read_tables : List Text
  pub write_tables : List Text
  pub denied : List (Text × List Text)
  pub views : List ViewSpec

-- A row of information_schema.columns.
pub record ColumnRow : Type 0 where
  pub name : Text
  pub ordinal : ℕ
  pub udt_schema : Text
  pub udt : Text
  pub nullable : Bool
  pub writable : Bool

pub data Answer (A : Type 0) : Type 0 where
  no_rows query_failed : Answer A
  got : A → Answer A

-- A field of a prepared SELECT: its name, and its type's name if the type map has it.
pub record Database : Type 0 where
  pub table_type : Text → Text → Answer Text
  pub columns : Text → Text → Answer (List ColumnRow)
  pub primary_key : Text → Text → Answer (List Text)
  pub fields : Text → Answer (List (Text × Option Text))

pub data LoadError : Type 0 where
  no_table not_a_table no_columns lookup_failed columns_failed key_failed : Text → LoadError
  collides view_denied : Text → LoadError
  empty_name : LoadError
  not_one_source unknown_base writable_base describe_failed declared_twice : Text → LoadError
  bad_relation : CatalogError → LoadError

pub data Try (A : Type 0) : Type 0 where
  fine : A → Try A
  wrong : LoadError → Try A

infixl 5 ◌>>=◌
abbrev pub ◌>>=◌ : {A B : Type 0} → Try A → (A → Try B) → Try B
fine a >>= f = f a
wrong e >>= f = wrong e

abbrev pub relation_of : Loaded Relation → Try Relation
relation_of (Loaded.ok r) = fine r
relation_of (Loaded.err e) = wrong (bad_relation e)

abbrev pub schema_public : Text
schema_public = codes "public"

abbrev pub schema_topper : Text
schema_topper = codes "topper"

abbrev pub answered : {A : Type 0} → LoadError → Answer A → Try A
answered e (got a) = fine a
answered e no_rows = wrong e
answered e query_failed = wrong e

abbrev pub table_found : Text → Answer Text → Try (Unit {0})
table_found table (got kind) =
    if text_eq kind (codes "BASE TABLE") then fine tt else wrong (not_a_table table)
table_found table no_rows = wrong (no_table table)
table_found table query_failed = wrong (lookup_failed table)

abbrev pub column_of : ColumnRow → Column
column_of row = record {
  name = row.name;
  udt = row.udt;
  udt_schema = row.udt_schema;
  ordinal = row.ordinal;
  nullable = row.nullable;
  writable = row.writable;
  denied = false;
  text_like = false;
  value = native;
}

-- The rows of `loadColumns`, with the loop over the denied names of the table.
unfoldable pub load_columns : List Text → List ColumnRow → List Column
unfolding classify one_of
load_columns denied [] = []
load_columns denied (row ∷ rows) =
    record (classify (column_of row)) { denied = one_of row.name denied } ∷ load_columns denied rows

abbrev pub some_columns : Text → List Column → Try (List Column)
some_columns table [] = wrong (no_columns table)
some_columns table (c ∷ cs) = fine (c ∷ cs)

abbrev pub is_read : Mode → Bool
is_read Mode.read = true
is_read Mode.readwrite = false

abbrev pub table_relation : Text → Text → Mode → List Column → List Text → Relation
table_relation schema table mode cols pk = record {
  name = table;
  kind = Kind.table;
  mode = mode;
  schema = schema;
  table_name = table;
  source = qualified_name schema table;
  columns = cols;
  pk = pk;
  tiebreak = pk;
  default_order = [];
  forced = [];
  toggles = [];
  cacheable = is_read mode;
  by_name = [];
}

unfoldable pub load_table : Database → Text → Text → Mode → List Text → Try Relation
unfolding load_columns new_relation
load_table db schema table mode denied = do
  found ← table_found table (db.table_type schema table)
  rows ← answered (columns_failed table) (db.columns schema table)
  cols ← some_columns table (load_columns denied rows)
  pk ← answered (key_failed table) (db.primary_key schema table)
  relation_of (new_relation (table_relation schema table mode cols pk))
