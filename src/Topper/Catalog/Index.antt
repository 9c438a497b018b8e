-- ===== src/Topper/Catalog/Index.antt =====
-- The name index of a relation (`index`, `NewRelation`, `Column`).
use money_insighter.Prelude.{
  ℕ, zero, suc, ◌+◌, ◌≤◌, ◌≡◌, refl, sym, ap, subst, ◌∙◌, arith, true, Bool-cases, ◌⊎◌, inl, inr,
  Option, none, some, List, [], ◌∷◌, Text, text_eq, text_eq_refl, text_eq-eq, length, get_elem?,
  lookup, assign, lookup-assign, length-assign_fresh, length-assign_old, length-assign-le, ◌==◌,
  ==-eq, All,
}
use native.Mathlib.Nat.{zero-add}
use money_insighter.Topper.Catalog.{
  Column, Relation, ok, err, column, index_from, index, new_relation, first_hidden, is_open,
  order_cols, check_order, check_tiebreak, duplicate_columns,
}

-- The column that an index entry points at.
abbrev Points : Text → ℕ → ℕ → List Column → Type 0
Points k j i cs = (p : ℕ) × (c : Column) × (j ≡ i + p) × (get_elem? cs p ≡ some c) × (c.name ≡ k)

index_from_sound :
    (i : ℕ) (m : List (Text × ℕ)) (cs : List Column) (k : Text) (j : ℕ)
    → lookup k (index_from i m cs) ≡ some j
    → (lookup k m ≡ some j) ⊎ Points k j i cs
unfolding index_from
index_from_sound i m [] k j h = inl h
index_from_sound i m (c ∷ cs) k j h = elim (index_from_sound (suc i) (assign c.name i m) cs k j h) [
  | inl old ↦ elim (Bool-cases (text_eq c.name k)) [
    | inl same ↦
        inr (0, c, ground (arith, lookup-assign c.name k i m), refl, text_eq-eq c.name k same)
    | inr other ↦ inl (ground (arith, lookup-assign c.name k i m))
  ]
  | inr (p, d, at, found, named) ↦ inr (suc p, d, omega arith, found, named)
]

length-index_from-le :
    (i : ℕ) (m : List (Text × ℕ)) (cs : List Column)
    → length (index_from i m cs) ≤ length m + length cs
unfolding index_from
length-index_from-le i m [] = omega arith
length-index_from-le i m (c ∷ cs) =
    omega (arith, length-index_from-le (suc i) (assign c.name i m) cs, length-assign-le c.name i m)

-- When the index has as many entries as there were columns, each step found a fresh name.
step_fresh :
    (i : ℕ) (m : List (Text × ℕ)) (c : Column) (cs : List Column)
    → length (index_from i m (c ∷ cs)) ≡ length m + length (c ∷ cs)
    → lookup c.name m ≡ none
unfolding index_from
step_fresh i m c cs full = go (lookup c.name m) refl
  where
    go : (o : Option ℕ) → lookup c.name m ≡ o → o ≡ none
    go none e = refl
    go (some v) e = absurd (
        omega (
          arith,
          length-index_from-le (suc i) (assign c.name i m) cs,
          length-assign_old c.name i v m e,
        ))

rest_full :
    (i : ℕ) (m : List (Text × ℕ)) (c : Column) (cs : List Column)
    → length (index_from i m (c ∷ cs)) ≡ length m + length (c ∷ cs)
    → length (index_from (suc i) (assign c.name i m) cs) ≡ length (assign c.name i m) + length cs
unfolding index_from
rest_full i m c cs full = omega (arith, length-assign_fresh c.name i m (step_fresh i m c cs full))

-- Old entries survive.
index_from_keeps :
    (i : ℕ) (m : List (Text × ℕ)) (cs : List Column) (k : Text) (j : ℕ)
    → length (index_from i m cs) ≡ length m + length cs
    → lookup k m ≡ some j
    → lookup k (index_from i m cs) ≡ some j
unfolding index_from
index_from_keeps i m [] k j full h = h
index_from_keeps i m (c ∷ cs) k j full h =
    index_from_keeps (suc i) (assign c.name i m) cs k j (rest_full i m c cs full)
      (ground (arith, lookup-assign c.name k i m, step_fresh i m c cs full, text_eq-eq c.name k))

index_from_complete :
    (i : ℕ) (m : List (Text × ℕ)) (cs : List Column) (p : ℕ) (d : Column)
    → length (index_from i m cs) ≡ length m + length cs
    → get_elem? cs p ≡ some d
    → lookup d.name (index_from i m cs) ≡ some (i + p)
unfolding index_from
index_from_complete i m [] p d full h = cc
index_from_complete i m (c ∷ cs) zero d full h =
    let same : c ≡ d = cc in
    let at : i + 0 ≡ i = omega arith in
    rw (← same, at)
      (index_from_keeps (suc i) (assign c.name i m) cs c.name i (rest_full i m c cs full)
        (ground (arith, lookup-assign c.name c.name i m, text_eq_refl c.name)))
index_from_complete i m (c ∷ cs) (suc p) d full h =
    let at : i + suc p ≡ suc i + p = omega arith in
    rw at (index_from_complete (suc i) (assign c.name i m) cs p d (rest_full i m c cs full) h)

-- What `NewRelation` has checked when it returns a relation.
pub record IsIndexed (r : Relation) : Type 0 where
  pub full : length r.by_name ≡ length r.columns
  pub built : r.by_name ≡ index_from 0 [] r.columns
  pub order_open : All (λ n. is_open (column r n) ≡ true) (order_cols r.default_order)
  pub tiebreak_open : All (λ n. is_open (column r n) ≡ true) r.tiebreak

first_hidden-none :
    (r : Relation) (ns : List Text)
    → first_hidden r ns ≡ none
    → All (λ n. is_open (column r n) ≡ true) ns
unfolding first_hidden
first_hidden-none r [] h = tt
first_hidden-none r (n ∷ ns) h = ground (arith, first_hidden-none r ns)

nothing : (n : Text) (i : ℕ) → lookup {V = ℕ} n [] ≡ some i → ⊥
unfolding lookup
nothing n i h = cc

ok_eq : (x r : Relation) → ok x ≡ ok r → x ≡ r
ok_eq x r h = cc

clash : (x : Relation) (n : Text) (r : Relation) → check_tiebreak x (some n) ≡ ok r → ⊥
clash x n r h = cc

clash' : (x : Relation) (n : Text) (r : Relation) → check_order x (some n) ≡ ok r → ⊥
clash' x n r h = cc

refused : (n : Text) (r : Relation) → err (duplicate_columns n) ≡ ok r → ⊥
refused n r h = cc

checked :
    (x r : Relation)
    → check_order x (first_hidden x (order_cols x.default_order)) ≡ ok r
    → (x ≡ r)
      × (first_hidden x (order_cols x.default_order) ≡ none)
      × (first_hidden x x.tiebreak ≡ none)
checked x r h =
    go (first_hidden x (order_cols x.default_order)) (first_hidden x x.tiebreak) refl refl h
  where
    go :
        (a b : Option Text)
        → first_hidden x (order_cols x.default_order) ≡ a
        → first_hidden x x.tiebreak ≡ b
        → check_order x a ≡ ok r
        → (x ≡ r)
          × (first_hidden x (order_cols x.default_order) ≡ none)
          × (first_hidden x x.tiebreak ≡ none)
    go none none e f h' = (ok_eq x r (rw f at h'), e, f)
    go none (some n) e f h' = absurd (clash x n r (rw f at h'))
    go (some n) b e f h' = absurd (clash' x n r h')

-- A relation that `NewRelation` returns is indexed, and its order and tiebreak columns are exposed.
pub new_relation-IsIndexed : (r0 r : Relation) → new_relation r0 ≡ ok r → IsIndexed r
unfolding new_relation
new_relation-IsIndexed r0 r h =
    elim (Bool-cases (length (index r0).by_name == length (index r0).columns)) [
      | inl full ↦ finish full (checked (index r0) r (rw full at h))
      | inr short ↦ absurd (refused r0.name r (rw short at h))
    ]
  where
    finish :
        (length (index r0).by_name == length (index r0).columns) ≡ true
        → (index r0 ≡ r)
          × (first_hidden (index r0) (order_cols r0.default_order) ≡ none)
          × (first_hidden (index r0) r0.tiebreak ≡ none)
        → IsIndexed r
    finish full (e, orders, ties) = subst IsIndexed e (record {
      full = ==-eq _ _ full;
      built = refl;
      order_open = first_hidden-none (index r0) (order_cols r0.default_order) orders;
      tiebreak_open = first_hidden-none (index r0) r0.tiebreak ties;
    })

-- In an indexed relation a name finds a column of that name.
pub column_sound :
    (r : Relation) (n : Text) (c : Column)
    → IsIndexed r
    → column r n ≡ some c
    → (c.name ≡ n) × (p : ℕ) × (get_elem? r.columns p ≡ some c)
unfolding column
column_sound r n c v h = found (lookup n r.by_name) refl
  where
    found :
        (o : Option ℕ)
        → lookup n r.by_name ≡ o
        → (c.name ≡ n) × (p : ℕ) × (get_elem? r.columns p ≡ some c)
    found none e = absurd (ground arith)
    found (some i) e = elim (index_from_sound 0 [] r.columns n i (rw v.built at e)) [
      | inl old ↦ absurd (nothing n i old)
      | inr (q, d, at, there, named) ↦
          let shift : q ≡ i = omega arith in
          let here : get_elem? r.columns i ≡ some c = ground arith in
          let there' : get_elem? r.columns i ≡ some d = rw shift at there in
          let same : c ≡ d = cc in (ap (λ (x : Column). x.name) same ∙ named, i, here)
    ]

-- In an indexed relation every column is found by its name.
pub column_complete :
    (r : Relation) (p : ℕ) (c : Column)
    → IsIndexed r
    → get_elem? r.columns p ≡ some c
    → column r c.name ≡ some c
unfolding column
column_complete r p c v h =
    let full : length (index_from 0 [] r.columns) ≡ 0 + length r.columns =
      ap length (sym v.built) ∙ v.full ∙ omega arith in
    let points : lookup c.name r.by_name ≡ some p =
      rw (v.built, ← zero-add p) (index_from_complete 0 [] r.columns p c full h) in
    ground arith

-- `NewRelation` returns the relation that it got, indexed.
pub new_relation-index : (r0 r : Relation) → new_relation r0 ≡ ok r → index r0 ≡ r
unfolding new_relation
new_relation-index r0 r h =
    elim (Bool-cases (length (index r0).by_name == length (index r0).columns)) [
      | inl full ↦ (checked (index r0) r (rw full at h)).0
      | inr short ↦ absurd (refused r0.name r (rw short at h))
    ]
