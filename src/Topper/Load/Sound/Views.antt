-- ===== src/Topper/Load/Sound/Views.antt =====
-- The loop of `Load` over the views.
use money_insighter.Prelude.{
  All-assign, ◌≡◌, refl, ◌∙◌, Bool, true, false, ◌&&◌, not, ◌⊎◌, inl, inr, Option, none, some, List,
  [], ◌∷◌, ◌++◌, Text, one_of, is_empty, lookup, All, if◌then◌else◌, if-elim, Bool-cases,
}
use money_insighter.Topper.Catalog.{Relation, Column, Mode, new_relation}
use money_insighter.Topper.Catalog.Index.{IsIndexed}
use money_insighter.Topper.Introspect.{
  ViewSpec, Answer, no_rows, query_failed, got, Database, LoadError, Try, fine, wrong, relation_of,
  is_read, view_denied,
}
use money_insighter.Topper.Views.{
  over_table, over_sql, based_on, described_as, sourced, described, load_view,
}
use money_insighter.Topper.Load.{Loading, has_entry, view_errors, store_view, add_view, load_views}
use money_insighter.Topper.Load.Sound.{Hides, Succeeds, From, relation_of-From}

-- A view: read-only, and without an exposed column of a name that some table denies.
pub record IsView (denied : List Text) (r : Relation) : Type 0 where
  pub indexed : IsIndexed r
  pub read_only : r.mode ≡ Mode.read
  pub hides : All (Hides denied) r.columns

-- An indexed relation that is read-only.
abbrev ReadOnly : Relation → Type 0
ReadOnly r = IsIndexed r × (r.mode ≡ Mode.read)

From-ReadOnly :
    (r0 : Relation) (out : Try Relation)
    → r0.mode ≡ Mode.read
    → Succeeds (From r0) out
    → Succeeds ReadOnly out
From-ReadOnly r0 (fine r) m h = (h.indexed, h.same_mode ∙ m)
From-ReadOnly r0 (wrong e) m h = tt

based_on-ReadOnly : (v : ViewSpec) (base : Option Relation) → Succeeds ReadOnly (based_on v base)
based_on-ReadOnly v none = tt
based_on-ReadOnly v (some base) =
    if-elim (Succeeds ReadOnly) (is_read base.mode) (relation_of (new_relation (over_table v base)))
      _ (λ _. From-ReadOnly (over_table v base) _ refl (relation_of-From (over_table v base)))
      (λ _. tt)

described_as-ReadOnly :
    (v : ViewSpec) (answer : Answer (List (Text × Option Text)))
    → Succeeds ReadOnly (described_as v answer)
described_as-ReadOnly v (got fields) =
    let r0 = over_sql v (described 0 fields) in From-ReadOnly r0 _ refl (relation_of-From r0)
described_as-ReadOnly v no_rows = tt
described_as-ReadOnly v query_failed = tt

sourced-ReadOnly :
    (db : Database) (tables : List (Text × Relation)) (v : ViewSpec) (no_table no_sql : Bool)
    → Succeeds ReadOnly (sourced db tables v no_table no_sql)
sourced-ReadOnly db tables v true true = tt
sourced-ReadOnly db tables v false false = tt
sourced-ReadOnly db tables v false true = based_on-ReadOnly v (lookup v.from_table tables)
sourced-ReadOnly db tables v true false = described_as-ReadOnly v _

load_view-ReadOnly :
    (db : Database) (tables : List (Text × Relation)) (v : ViewSpec)
    → Succeeds ReadOnly (load_view db tables v)
unfolding load_view
load_view-ReadOnly db tables v =
    if-elim (Succeeds ReadOnly) (is_empty v.name) _
      (sourced db tables v (is_empty v.from_table) (is_empty v.sql)) (λ _. tt)
      (λ _. sourced-ReadOnly db tables v (is_empty v.from_table) (is_empty v.sql))

view_errors_step :
    (b d : Bool) (e : LoadError) (rest : List LoadError)
    → is_empty (if b && not d then e ∷ rest else rest) ≡ true
    → ((b ≡ false) ⊎ (d ≡ true)) × (is_empty rest ≡ true)
view_errors_step true true e rest h = (inr refl, h)
view_errors_step true false e rest h = cc
view_errors_step false d e rest h = (inl refl, h)

-- Without an error for a column, no column of a denied name is exposed.
view_errors-Hides :
    (name : Text) (denied : List Text) (cs : List Column)
    → is_empty (view_errors name denied cs) ≡ true
    → All (Hides denied) cs
unfolding view_errors
view_errors-Hides name denied [] h = tt
view_errors-Hides name denied (c ∷ cs) h =
    let (here, rest) =
      view_errors_step (one_of c.name denied) c.denied (view_denied name)
        (view_errors name denied cs) h in
    (here, view_errors-Hides name denied cs rest)

-- While there is no error, the views are as they should be.
abbrev pub IsSound : List Text → Loading → Type 0
IsSound denied st = (is_empty st.errs ≡ false) ⊎ All (λ e. IsView denied e.1) st.views

not_empty : {A : Type 0} (xs ys : List A) → is_empty xs ≡ false → is_empty (xs ++ ys) ≡ false
not_empty [] ys h = cc
not_empty (x ∷ xs) ys h = refl

not_empty_right : {A : Type 0} (xs ys : List A) → is_empty ys ≡ false → is_empty (xs ++ ys) ≡ false
not_empty_right [] ys h = h
not_empty_right (x ∷ xs) ys h = refl

store_view-IsSound :
    (denied : List Text) (name : Text) (r : Relation) (dup : Bool) (st : Loading)
    → (is_empty st.errs ≡ false) ⊎ IsView denied r
    → IsSound denied st
    → IsSound denied (store_view name r dup st)
store_view-IsSound denied name r true st view sound = inl (not_empty_right st.errs _ refl)
store_view-IsSound denied name r false st (inl bad) sound = inl bad
store_view-IsSound denied name r false st (inr view) (inl bad) = inl bad
store_view-IsSound denied name r false st (inr view) (inr all) =
    inr (All-assign (λ e. IsView denied e.1) name r st.views view all)

grown :
    (denied : List Text) (st : Loading) (more : List LoadError)
    → IsSound denied st
    → IsSound denied (record st { errs = st.errs ++ more })
grown denied st more (inl bad) = inl (not_empty st.errs more bad)
grown denied st more (inr all) = inr all

add_view-IsSound :
    (denied : List Text) (name : Text) (out : Try Relation) (st : Loading)
    → Succeeds ReadOnly out
    → IsSound denied st
    → IsSound denied (add_view denied name out st)
add_view-IsSound denied name (wrong e) st h sound = inl (not_empty_right st.errs _ refl)
add_view-IsSound denied name (fine r) st (indexed, mode) sound =
    let errors = view_errors name denied r.columns in
    store_view-IsSound denied name r (has_entry (lookup name st.views))
      (record st { errs = st.errs ++ errors })
      (elim (Bool-cases (is_empty errors)) [
        | inl clean ↦ inr (record {
          indexed = indexed;
          read_only = mode;
          hides = view_errors-Hides name denied r.columns clean;
        })
        | inr dirty ↦ inl (not_empty_right st.errs errors dirty)
      ])
      (grown denied st errors sound)

pub load_views-IsSound :
    (db : Database) (denied : List Text) (vs : List ViewSpec) (st : Loading)
    → IsSound denied st
    → IsSound denied (load_views db denied vs st)
unfolding load_views
load_views-IsSound db denied [] st sound = sound
load_views-IsSound db denied (v ∷ vs) st sound =
    load_views-IsSound db denied vs (add_view denied v.name (load_view db st.tables v) st) (
      add_view-IsSound denied v.name (load_view db st.tables v) st
        (load_view-ReadOnly db st.tables v) sound)
