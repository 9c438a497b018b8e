-- ===== src/Examples/Load.antt =====
-- Runs of postgres-topper's catalog loading.
use money_insighter.Prelude.{
  ◌≡◌, refl, ◌⊎◌, inl, inr, true, false, none, some, ◌∷◌, [], List, Text, codes, text_eq, All,
}
use money_insighter.Topper.Introspect.{ViewSpec, Spec, ColumnRow, got, Database, LoadError}
use money_insighter.Topper.Load.{Catalog, all_denied, load}
use money_insighter.Topper.Load.Sound.Tables.{IsServed}
use money_insighter.Topper.Load.Sound.Views.{IsView}
use money_insighter.Topper.Load.Safe.{load-IsServed}

abbrev row_of : Text → ColumnRow
row_of name = record {
  name = name;
  ordinal = 1;
  udt_schema = codes "pg_catalog";
  udt = codes "text";
  nullable = false;
  writable = true;
}

abbrev database : Database
database = record {
  table_type = λ schema table. got (codes "BASE TABLE");
  columns = λ schema table. got (row_of (codes "id") ∷ row_of (codes "token") ∷ []);
  primary_key = λ schema table. got (codes "id" ∷ []);
  fields = λ sql. got ((codes "id", some (codes "text")) ∷ []);
}

abbrev live : ViewSpec
live = record {
  name = codes "items/live";
  from_table = codes "items";
  sql = [];
  default_order = [];
  tiebreak = none;
  forced = [];
  toggles = [];
}

abbrev spec : Spec
spec = record {
  read_tables = codes "items" ∷ [];
  write_tables = codes "notes" ∷ [];
  denied = (codes "items", codes "token" ∷ []) ∷ [];
  views =
      live
      ∷ record live { name = codes "ids"; from_table = []; sql = codes "SELECT id FROM items" }
      ∷ [];
}

abbrev no_catalog : Catalog
no_catalog = record { tables = []; views = [] }

abbrev or_none : List LoadError ⊎ Catalog → Catalog
or_none (inl errs) = no_catalog
or_none (inr c) = c

abbrev catalog : Catalog
unfolding load
catalog = or_none (load database spec)

is_loaded : load database spec ≡ inr catalog
unfolding catalog text_eq
is_loaded = refl

load-IsServed_example :
    All (IsServed spec) catalog.tables
    × All (λ e. IsView (all_denied spec.denied) e.1) catalog.views
load-IsServed_example = load-IsServed database spec catalog is_loaded
