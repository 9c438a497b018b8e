-- ===== src/Topper/Query/Projection.antt =====
-- The SELECT list: postgres-topper/internal/query/projection.go.
use money_insighter.Prelude.{
  ℕ, suc, ◌≡◌, refl, ap, ◌∙◌, arith, false, not, if-elim, Option, none, some, List, [], ◌∷◌, ◌++◌,
  map, Text, codes, All, keep_if, get_elem?, if◌then◌else◌,
}
use money_insighter.Topper.Catalog.{
  Relation, Column, ValueKind, native, text, raw_json, column, exposed, is_array, quote_ident,
}
use money_insighter.Topper.Catalog.Index.{IsIndexed, column_sound, column_complete}
use money_insighter.Topper.Query.Json.{json_string}

pub record Projected : Type 0 where
  pub name : Text
  pub kind : ValueKind
  pub key : Text

unfoldable pub new_projected : Column → Projected
new_projected c = record { name = c.name; kind = c.value; key = json_string c.name }

unfoldable pub projection_expr : Column → Text
unfolding quote_ident is_array
projection_expr c =
    let q = quote_ident c.name in
    elim c.value [
      | native ↦ q
      | raw_json ↦
          if is_array c
          then codes "to_jsonb(" ++ (q ++ (codes ")::text AS " ++ q))
          else q ++ (codes "::text AS " ++ q)
      | text ↦ q ++ (codes "::text AS " ++ q)
    ]

abbrev pick : Option Column → List Column → List Column
pick none cs = cs
pick (some c) cs = if c.denied then cs else c ∷ cs

-- The selected names that are those of exposed columns.
unfoldable pub selected : Relation → List Text → List Column
selected rel [] = []
selected rel (n ∷ ns) = pick (column rel n) (selected rel ns)

abbrev columns_of : Relation → Option (List Text) → List Column
columns_of rel none = exposed rel
columns_of rel (some ns) = selected rel ns

unfoldable pub projection : Relation → Option (List Text) → List Text × List Projected
unfolding projection_expr new_projected selected
projection rel sel =
    let cols = columns_of rel sel in (map projection_expr cols, map new_projected cols)

-- The column is in the relation under its name, and not denied.
abbrev Shown : Relation → Column → Type 0
Shown rel c = (column rel c.name ≡ some c) × (c.denied ≡ false)

keep_if-Shown :
    (rel : Relation) (cs : List Column)
    → ((p : ℕ) (c : Column) → get_elem? cs p ≡ some c → column rel c.name ≡ some c)
    → All (Shown rel) (keep_if (λ c. not c.denied) cs)
keep_if-Shown rel [] found = tt
keep_if-Shown rel (c ∷ cs) found =
    let ih = keep_if-Shown rel cs (λ p d e. found (suc p) d e) in
    let here = found 0 c refl in ground arith

pick-Shown :
    (rel : Relation) (n : Text) (m : Option Column) (cs : List Column)
    → IsIndexed rel
    → column rel n ≡ m
    → All (Shown rel) cs
    → All (Shown rel) (pick m cs)
pick-Shown rel n none cs v e h = h
pick-Shown rel n (some c) cs v e h =
    let (named, at, found) = column_sound rel n c v e in
    if-elim (All (Shown rel)) c.denied cs (c ∷ cs) (λ _. h)
      (λ d. ((ap (column rel) named ∙ e, d), h))

selected-Shown :
    (rel : Relation) (ns : List Text) → IsIndexed rel → All (Shown rel) (selected rel ns)
unfolding selected
selected-Shown rel [] v = tt
selected-Shown rel (n ∷ ns) v =
    pick-Shown rel n (column rel n) (selected rel ns) v refl (selected-Shown rel ns v)

columns_of-Shown :
    (rel : Relation) (sel : Option (List Text))
    → IsIndexed rel
    → All (Shown rel) (columns_of rel sel)
unfolding exposed
columns_of-Shown rel none v = keep_if-Shown rel rel.columns (λ p c e. column_complete rel p c v e)
columns_of-Shown rel (some ns) v = selected-Shown rel ns v

abbrev pub IsProjectable : Relation → Projected → Type 0
IsProjectable rel pr = (c : Column) × (column rel pr.name ≡ some c) × (c.denied ≡ false)

map-IsProjectable :
    (rel : Relation) (cs : List Column)
    → All (Shown rel) cs
    → All (IsProjectable rel) (map new_projected cs)
unfolding new_projected
map-IsProjectable rel [] h = tt
map-IsProjectable rel (c ∷ cs) (hc, h) = ((c, hc.0, hc.1), map-IsProjectable rel cs h)

-- In an indexed relation a denied column is never projected: whatever names are asked for, and
-- when none are, every projected column is an exposed column of the relation.
pub projection-IsProjectable :
    (rel : Relation) (sel : Option (List Text))
    → IsIndexed rel
    → All (IsProjectable rel) (projection rel sel).1
unfolding projection
projection-IsProjectable rel sel v =
    map-IsProjectable rel (columns_of rel sel) (columns_of-Shown rel sel v)
