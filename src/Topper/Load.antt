-- ===== src/Topper/Load.antt =====
-- The catalog of a start: `Load` of postgres-topper/internal/catalog/load.go.
pub mod Sound
pub mod Safe
use money_insighter.Prelude.{
  ℕ, suc, ◌⊎◌, inl, inr, ◌≡◌, Bool, true, false, ◌||◌, ◌&&◌, not, Option, none, some, List, [], ◌∷◌,
  ◌++◌, Text, codes, text_eq, one_of, is_empty, lookup, assign, if◌then◌else◌,
}
use money_insighter.Topper.Catalog.{
  Relation, Column, Order, Toggle, Mode, Kind, native, classify, qualified_name, new_relation,
  CatalogError, Loaded,
}
use money_insighter.Topper.Introspect.{
  ViewSpec, Spec, ColumnRow, Answer, no_rows, query_failed, got, Database, LoadError, collides,
  view_denied, empty_name, not_one_source, unknown_base, writable_base, describe_failed,
  declared_twice, bad_relation, Try, fine, wrong, ◌>>=◌, relation_of, schema_public, schema_topper,
  answered, column_of, is_read, load_table,
}
use money_insighter.Topper.Views.{load_view}

pub record Catalog : Type 0 where
  pub tables : List (Text × Relation)
  pub views : List (Text × Relation)

-- The maps and the errors so far.
pub record Loading : Type 0 where
  pub tables : List (Text × Relation)
  pub views : List (Text × Relation)
  pub errs : List LoadError

abbrev pub fail : LoadError → Loading → Loading
fail e st = record st { errs = st.errs ++ e ∷ [] }

abbrev pub add_table : Text → Try Relation → Loading → Loading
add_table name (fine r) st = record st { tables = assign name r st.tables }
add_table name (wrong e) st = fail e st

abbrev pub denied_of : Option (List Text) → List Text
denied_of none = []
denied_of (some cols) = cols

abbrev pub has_entry : {V : Type 0} → Option V → Bool
has_entry none = false
has_entry (some v) = true

unfoldable pub load_read_tables : Database → Spec → List Text → Loading → Loading
unfolding load_table lookup assign
load_read_tables db spec [] st = st
load_read_tables db spec (name ∷ names) st = load_read_tables db spec names (
    add_table name
      (load_table db schema_public name Mode.read (denied_of (lookup name spec.denied))) st)

abbrev pub write_table : Database → Text → Bool → Loading → Loading
write_table db name true st = fail (collides name) st
write_table db name false st =
    add_table name (load_table db schema_topper name Mode.readwrite []) st

unfoldable pub load_write_tables : Database → List Text → Loading → Loading
unfolding load_table lookup assign
load_write_tables db [] st = st
load_write_tables db (name ∷ names) st =
    load_write_tables db names (write_table db name (has_entry (lookup name st.tables)) st)

-- The names that any table denies.
unfoldable pub all_denied : List (Text × List Text) → List Text
all_denied [] = []
all_denied ((table, cols) ∷ more) = cols ++ all_denied more

-- An error for each exposed column of a denied name.
unfoldable pub view_errors : Text → List Text → List Column → List LoadError
unfolding one_of
view_errors name denied [] = []
view_errors name denied (c ∷ cs) =
    let rest = view_errors name denied cs in
    if one_of c.name denied && not c.denied then view_denied name ∷ rest else rest

abbrev pub store_view : Text → Relation → Bool → Loading → Loading
store_view name r true st = fail (declared_twice name) st
store_view name r false st = record st { views = assign name r st.views }

abbrev pub add_view : List Text → Text → Try Relation → Loading → Loading
add_view denied name (wrong e) st = fail e st
add_view denied name (fine r) st =
    store_view name r (has_entry (lookup name st.views))
      (record st { errs = st.errs ++ view_errors name denied r.columns })

unfoldable pub load_views : Database → List Text → List ViewSpec → Loading → Loading
unfolding load_view lookup assign view_errors
load_views db denied [] st = st
load_views db denied (v ∷ vs) st =
    load_views db denied vs (add_view denied v.name (load_view db st.tables v) st)

abbrev pub nothing_loaded : Loading
nothing_loaded = record { tables = []; views = []; errs = [] }

-- errors.Join of no errors is nil.
abbrev pub joined : Loading → List LoadError ⊎ Catalog
joined st =
    if is_empty st.errs then inr (record { tables = st.tables; views = st.views }) else inl st.errs

unfoldable pub load : Database → Spec → List LoadError ⊎ Catalog
unfolding load_read_tables load_write_tables load_views all_denied
load db spec = joined (
    load_views db (all_denied spec.denied) spec.views (
      load_write_tables db spec.write_tables
        (load_read_tables db spec spec.read_tables nothing_loaded)))
