-- ===== src/Topper/Views.antt =====
-- A view of the Spec: postgres-topper/internal/catalog/views.go.
use money_insighter.Prelude.{
  ℕ, suc, Bool, true, false, Option, none, some, List, [], ◌∷◌, ◌++◌, Text, codes, is_empty, lookup,
  if◌then◌else◌,
}
use money_insighter.Topper.Catalog.{Relation, Column, Mode, Kind, classify, new_relation}
use money_insighter.Topper.Introspect.{
  ViewSpec, Answer, no_rows, query_failed, got, Database, empty_name, not_one_source, unknown_base,
  writable_base, describe_failed, Try, wrong, relation_of, column_of, is_read,
}

abbrev udt_name : Option Text → Text
udt_name none = []
udt_name (some t) = t

abbrev udt_home : Option Text → Text
udt_home none = []
udt_home (some t) = codes "pg_catalog"

-- `describe`, from the position behind `n` on
unfoldable pub described : ℕ → List (Text × Option Text) → List Column
unfolding classify
described n [] = []
described n ((name, type) ∷ fields) =
    classify (
      column_of (record {
        name = name;
        ordinal = suc n;
        udt_schema = udt_home type;
        udt = udt_name type;
        nullable = true;
        writable = false;
      }))
    ∷ described (suc n) fields

abbrev or_default : Option (List Text) → List Text → List Text
or_default none ds = ds
or_default (some ts) ds = ts

-- The Relation of a view, before its source is known.
abbrev pub view_relation : ViewSpec → Relation
view_relation v = record {
  name = v.name;
  kind = Kind.view;
  mode = Mode.read;
  schema = [];
  table_name = [];
  source = [];
  columns = [];
  pk = [];
  tiebreak = or_default v.tiebreak [];
  default_order = v.default_order;
  forced = v.forced;
  toggles = v.toggles;
  cacheable = true;
  by_name = [];
}

abbrev pub over_table : ViewSpec → Relation → Relation
over_table v base = record (view_relation v) {
  schema = base.schema;
  table_name = base.table_name;
  source = base.source;
  columns = base.columns;
  pk = base.pk;
  tiebreak = or_default v.tiebreak base.pk;
}

abbrev pub over_sql : ViewSpec → List Column → Relation
over_sql v cols = record (view_relation v) {
  source = b'(' ∷ (v.sql ++ codes ") AS v");
  columns = cols;
}

abbrev pub based_on : ViewSpec → Option Relation → Try Relation
based_on v none = wrong (unknown_base v.from_table)
based_on v (some base) =
    if is_read base.mode
    then relation_of (new_relation (over_table v base))
    else wrong (writable_base v.from_table)

abbrev pub described_as : ViewSpec → Answer (List (Text × Option Text)) → Try Relation
described_as v (got fields) = relation_of (new_relation (over_sql v (described 0 fields)))
described_as v no_rows = wrong (describe_failed v.name)
described_as v query_failed = wrong (describe_failed v.name)

-- Exactly one of the two sources is set.
abbrev pub sourced : Database → List (Text × Relation) → ViewSpec → Bool → Bool → Try Relation
sourced db tables v true true = wrong (not_one_source v.name)
sourced db tables v false false = wrong (not_one_source v.name)
sourced db tables v false true = based_on v (lookup v.from_table tables)
sourced db tables v true false =
    described_as v (db.fields (codes "SELECT * FROM (" ++ (v.sql ++ codes ") AS v LIMIT 0")))

unfoldable pub load_view : Database → List (Text × Relation) → ViewSpec → Try Relation
unfolding lookup new_relation described
load_view db tables v =
    if is_empty v.name
    then wrong empty_name
    else sourced db tables v (is_empty v.from_table) (is_empty v.sql)
