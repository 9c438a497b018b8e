-- ===== src/Topper/Load/Sound/Tables.antt =====
-- The loops of `Load` over the tables.
use money_insighter.Prelude.{
  All-assign, Bool, true, false, ◌⊎◌, inl, inr, List, [], ◌∷◌, Text, lookup, All,
}
use money_insighter.Topper.Catalog.{Relation, Mode}
use money_insighter.Topper.Introspect.{
  Spec, Database, Try, fine, wrong, schema_public, schema_topper, load_table,
}
use money_insighter.Topper.Load.{
  Loading, add_table, denied_of, has_entry, load_read_tables, write_table, load_write_tables,
}
use money_insighter.Topper.Load.Sound.{Succeeds, IsTable, load_table-IsTable}

-- A table that is served: read-only in the schema public with its denied columns hidden, or
-- writable in the schema topper.
abbrev pub IsServed : Spec → Text × Relation → Type 0
IsServed spec (k, r) =
    IsTable Mode.read schema_public (denied_of (lookup k spec.denied)) r
    ⊎ IsTable Mode.readwrite schema_topper [] r

module _ (db : Database) (spec : Spec) where
  add_table-IsServed :
      (k : Text) (out : Try Relation) (st : Loading)
      → Succeeds (λ r. IsServed spec (k, r)) out
      → All (IsServed spec) st.tables
      → All (IsServed spec) (add_table k out st).tables
  add_table-IsServed k (fine r) st h all = All-assign (IsServed spec) k r st.tables h all
  add_table-IsServed k (wrong e) st h all = all

  left_of :
      (P Q : Relation → Type 0) (out : Try Relation)
      → Succeeds P out
      → Succeeds (λ r. P r ⊎ Q r) out
  left_of P Q (fine r) h = inl h
  left_of P Q (wrong e) h = tt

  right_of :
      (P Q : Relation → Type 0) (out : Try Relation)
      → Succeeds Q out
      → Succeeds (λ r. P r ⊎ Q r) out
  right_of P Q (fine r) h = inr h
  right_of P Q (wrong e) h = tt

  pub load_read_tables-IsServed :
      (names : List Text) (st : Loading)
      → All (IsServed spec) st.tables
      → All (IsServed spec) (load_read_tables db spec names st).tables
  unfolding load_read_tables
  load_read_tables-IsServed [] st all = all
  load_read_tables-IsServed (name ∷ names) st all =
      let denied = denied_of (lookup name spec.denied) in
      let out = load_table db schema_public name Mode.read denied in
      load_read_tables-IsServed names (add_table name out st) (
        add_table-IsServed name out st
          (left_of (IsTable Mode.read schema_public denied)
            (IsTable Mode.readwrite schema_topper []) out
            (load_table-IsTable db schema_public name Mode.read denied))
          all)

  write_table-IsServed :
      (name : Text) (dup : Bool) (st : Loading)
      → All (IsServed spec) st.tables
      → All (IsServed spec) (write_table db name dup st).tables
  write_table-IsServed name true st all = all
  write_table-IsServed name false st all =
      let out = load_table db schema_topper name Mode.readwrite [] in
      add_table-IsServed name out st
        (right_of (IsTable Mode.read schema_public (denied_of (lookup name spec.denied)))
          (IsTable Mode.readwrite schema_topper []) out
          (load_table-IsTable db schema_topper name Mode.readwrite []))
        all

  pub load_write_tables-IsServed :
      (names : List Text) (st : Loading)
      → All (IsServed spec) st.tables
      → All (IsServed spec) (load_write_tables db names st).tables
  unfolding load_write_tables
  load_write_tables-IsServed [] st all = all
  load_write_tables-IsServed (name ∷ names) st all =
      load_write_tables-IsServed names (write_table db name (has_entry (lookup name st.tables)) st)
        (write_table-IsServed name (has_entry (lookup name st.tables)) st all)
