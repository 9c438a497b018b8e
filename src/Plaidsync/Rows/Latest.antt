-- ===== src/Plaidsync/Rows/Latest.antt =====
-- Elements by their ids, before and after `dedupeTransactions` and `dedupeAccounts`.
use money_insighter.Prelude.{
  ◌≡◌, refl, sym, ap, ◌∙◌, Option, none, some, List, [], ◌∷◌, arith, Text, text_eq, text_eq_refl,
  text_eq-eq, lookup, assign, lookup-assign, if◌then◌else◌, Bool-cases, inl, inr, subst,
}
use money_insighter.Plaidsync.Rows.Dedupe.{dedupe, latest_from, values, dedupe-latest_from}

-- The first element with an id.
unfoldable pub find : {A : Type 0} → (A → Text) → Text → List A → Option A
find key k [] = none
find key k (a ∷ rest) = if text_eq (key a) k then some a else find key k rest

-- The last element with an id, behind the one so far.
unfoldable pub last_from : {A : Type 0} → (A → Text) → Text → List A → Option A → Option A
last_from key k [] found = found
last_from key k (a ∷ rest) found =
    last_from key k rest (if text_eq (key a) k then some a else found)

-- No id occurs twice.
unfoldable pub Distinct : {A : Type 0} → (A → Text) → List A → Type 0
unfolding find
Distinct key [] = Unit
Distinct key (a ∷ rest) = (find key (key a) rest ≡ none) × Distinct key rest

lookup-latest_from :
    {A : Type 0} (key : A → Text) (k : Text) (xs : List A) (m : List (Text × A))
    → lookup k (latest_from key xs m) ≡ last_from key k xs (lookup k m)
unfolding latest_from last_from
lookup-latest_from key k [] m = refl
lookup-latest_from key k (a ∷ rest) m =
    lookup-latest_from key k rest (assign (key a) a m)
    ∙ ap (last_from key k rest) (lookup-assign (key a) k a m)

-- A map whose entries stand under their own ids, each once.
Keyed : {A : Type 0} → (A → Text) → List (Text × A) → Type 0
unfolding lookup
Keyed key [] = Unit
Keyed key ((k, a) ∷ m) = (key a ≡ k) × (lookup k m ≡ none) × Keyed key m

assign-Keyed :
    {A : Type 0} (key : A → Text) (a : A) (m : List (Text × A))
    → Keyed key m
    → Keyed key (assign (key a) a m)
unfolding Keyed lookup assign
assign-Keyed key a [] h = (refl, refl, tt)
assign-Keyed key a ((k, b) ∷ m) (own, once, h) = elim (Bool-cases (text_eq k (key a))) [
  | inl same ↦ rw same (refl, rw (← text_eq-eq k (key a) same) once, h)
  | inr apart ↦ rw apart (
    own,
    lookup-assign (key a) k a m ∙ ground (arith, text_eq-eq (key a) k, text_eq_refl k),
    assign-Keyed key a m h,
  )
]

latest_from-Keyed :
    {A : Type 0} (key : A → Text) (xs : List A) (m : List (Text × A))
    → Keyed key m
    → Keyed key (latest_from key xs m)
unfolding latest_from
latest_from-Keyed key [] m h = h
latest_from-Keyed key (a ∷ rest) m h =
    latest_from-Keyed key rest (assign (key a) a m) (assign-Keyed key a m h)

find-values :
    {A : Type 0} (key : A → Text) (k : Text) (m : List (Text × A))
    → Keyed key m
    → find key k (values m) ≡ lookup k m
unfolding find values Keyed lookup
find-values key k [] h = refl
find-values key k ((j, a) ∷ m) (own, once, h) = rw (own, find-values key k m h)

values-Distinct :
    {A : Type 0} (key : A → Text) (m : List (Text × A)) → Keyed key m → Distinct key (values m)
unfolding Distinct values Keyed
values-Distinct key [] h = tt
values-Distinct key ((j, a) ∷ m) (own, once, h) =
    (find-values key (key a) m h ∙ rw own once, values-Distinct key m h)

pub dedupe-Distinct : {A : Type 0} (key : A → Text) (xs : List A) → Distinct key (dedupe key xs)
unfolding Keyed
dedupe-Distinct key xs =
    subst (Distinct key) (sym (dedupe-latest_from key xs))
      (values-Distinct key (latest_from key xs []) (latest_from-Keyed key xs [] tt))

-- Whatever list goes in, no id occurs twice in what comes out, and for every id the element that
-- comes out is the last one that went in.
pub find-dedupe :
    {A : Type 0} (key : A → Text) (xs : List A)
    → Distinct key (dedupe key xs)
      × ((k : Text) → find key k (dedupe key xs) ≡ last_from key k xs none)
unfolding Keyed lookup
find-dedupe key xs = (
  dedupe-Distinct key xs,
  λ k.
      ap (find key k) (dedupe-latest_from key xs)
      ∙ find-values key k (latest_from key xs []) (latest_from-Keyed key xs [] tt)
      ∙ lookup-latest_from key k xs [],
)
