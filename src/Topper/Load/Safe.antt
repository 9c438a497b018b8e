-- ===== src/Topper/Load/Safe.antt =====
-- `Load` as a whole.
use money_insighter.Prelude.{
  ◌≡◌, refl, sym, ap, ◌∙◌, subst, Bool, true, false, inl, inr, List, [], ◌∷◌, Text, is_empty, All,
  if-elim,
}
use money_insighter.Topper.Catalog.{Relation}
use money_insighter.Topper.Introspect.{ViewSpec, Spec, Database, Try, fine, wrong}
use money_insighter.Topper.Views.{load_view}
use money_insighter.Topper.Load.{
  nothing_loaded, add_table, write_table, Catalog, Loading, load_read_tables, load_write_tables,
  all_denied, store_view, add_view, load_views, joined, load,
}
use money_insighter.Topper.Load.Sound.Tables.{
  IsServed, load_read_tables-IsServed, load_write_tables-IsServed,
}
use money_insighter.Topper.Load.Sound.Views.{IsView, IsSound, load_views-IsSound}

store_view-tables :
    (name : Text) (r : Relation) (dup : Bool) (st : Loading)
    → (store_view name r dup st).tables ≡ st.tables
store_view-tables name r true st = refl
store_view-tables name r false st = refl

add_view-tables :
    (denied : List Text) (name : Text) (out : Try Relation) (st : Loading)
    → (add_view denied name out st).tables ≡ st.tables
add_view-tables denied name (wrong e) st = refl
add_view-tables denied name (fine r) st = store_view-tables name r _ _

load_views-tables :
    (db : Database) (denied : List Text) (vs : List ViewSpec) (st : Loading)
    → (load_views db denied vs st).tables ≡ st.tables
unfolding load_views
load_views-tables db denied [] st = refl
load_views-tables db denied (v ∷ vs) st =
    load_views-tables db denied vs (add_view denied v.name (load_view db st.tables v) st)
    ∙ add_view-tables denied v.name (load_view db st.tables v) st

catalog_of : Loading → Catalog
catalog_of st = record { tables = st.tables; views = st.views }

joined_cases :
    (st : Loading) (c : Catalog)
    → joined st ≡ inr c
    → (is_empty st.errs ≡ true) × (catalog_of st ≡ c)
unfolding catalog_of
joined_cases st c =
    if-elim (λ out. out ≡ inr c → (is_empty st.errs ≡ true) × (catalog_of st ≡ c))
      (is_empty st.errs) (inr (record { tables = st.tables; views = st.views })) (inl st.errs)
      (λ clean h. (clean, cc h)) (λ dirty h. absurd (cc h))

unless_dirty :
    (denied : List Text) (st : Loading)
    → is_empty st.errs ≡ true
    → IsSound denied st
    → All (λ e. IsView denied e.1) st.views
unless_dirty denied st clean (inl dirty) = cc
unless_dirty denied st clean (inr all) = all

-- The loops over the tables leave the views alone.
add_table-views :
    (k : Text) (out : Try Relation) (st : Loading) → (add_table k out st).views ≡ st.views
add_table-views k (fine r) st = refl
add_table-views k (wrong e) st = refl

load_read_tables-views :
    (db : Database) (spec : Spec) (names : List Text) (st : Loading)
    → (load_read_tables db spec names st).views ≡ st.views
unfolding load_read_tables
load_read_tables-views db spec [] st = refl
load_read_tables-views db spec (name ∷ names) st =
    load_read_tables-views db spec names _ ∙ add_table-views name _ st

write_table-views :
    (db : Database) (name : Text) (dup : Bool) (st : Loading)
    → (write_table db name dup st).views ≡ st.views
write_table-views db name true st = refl
write_table-views db name false st = add_table-views name _ st

load_write_tables-views :
    (db : Database) (names : List Text) (st : Loading)
    → (load_write_tables db names st).views ≡ st.views
unfolding load_write_tables
load_write_tables-views db [] st = refl
load_write_tables-views db (name ∷ names) st =
    load_write_tables-views db names _ ∙ write_table-views db name _ st

no_views : (denied : List Text) (st : Loading) → st.views ≡ [] → IsSound denied st
no_views denied st e = inr (subst (All (λ x. IsView denied x.1)) (sym e) tt)

-- Whatever the database describes, every table of a loaded catalog is indexed and is either
-- read-only in the schema public, with every column that the spec denies for it denied, or writable
-- in the schema topper; and every view is indexed and read-only, and every one of its columns whose
-- name the spec denies for any table is denied.
pub load-IsServed :
    (db : Database) (spec : Spec) (c : Catalog)
    → load db spec ≡ inr c
    → All (IsServed spec) c.tables × All (λ e. IsView (all_denied spec.denied) e.1) c.views
unfolding load catalog_of
load-IsServed db spec c h =
    let read = load_read_tables db spec spec.read_tables nothing_loaded in
    let both = load_write_tables db spec.write_tables read in
    let denied = all_denied spec.denied in
    let st = load_views db denied spec.views both in
    let (clean, e) = joined_cases st c h in
    let tables =
      load_write_tables-IsServed db spec spec.write_tables read
        (load_read_tables-IsServed db spec spec.read_tables nothing_loaded tt) in
    let same = load_views-tables db denied spec.views both in
    (
      subst (All (IsServed spec)) (ap (λ x. x.tables) e)
          (subst (All (IsServed spec)) (sym same) tables),
      subst (All (λ x. IsView denied x.1)) (ap (λ x. x.views) e) (
          unless_dirty denied st clean (
            load_views-IsSound db denied spec.views both (
              no_views denied both (
                load_write_tables-views db spec.write_tables read
                ∙ load_read_tables-views db spec spec.read_tables nothing_loaded)))),
    )
