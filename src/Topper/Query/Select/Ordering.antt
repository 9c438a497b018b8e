-- ===== src/Topper/Query/Select/Ordering.antt =====
-- The ORDER BY terms: the requested or default ones first, then the missing tiebreak columns.
use money_insighter.Prelude.{
  ◌≡◌, refl, sym, ◌∙◌, arith, true, false, List, [], ◌∷◌, ◌++◌, append_assoc, append-nil, Text,
  text_eq_refl, All, if-elim, if◌then◌else◌,
}
use money_insighter.Topper.Catalog.{Relation, Order}
use money_insighter.Topper.Query.Types.{Params}
use money_insighter.Topper.Query.Select.{has_term, add_tiebreak, order_terms, base_terms}

has_term-left :
    (c : Text) (ts us : List Order) → has_term c ts ≡ true → has_term c (ts ++ us) ≡ true
unfolding has_term
has_term-left c [] us h = cc h
has_term-left c (t ∷ ts) us h = ground (arith, has_term-left c ts us)

has_term-new :
    (c : Text) (ts : List Order) → has_term c (ts ++ record { col = c; desc = false } ∷ []) ≡ true
unfolding has_term
has_term-new c [] = ground (arith, text_eq_refl c)
has_term-new c (t ∷ ts) = ground (arith, has_term-new c ts)

-- One step of the loop: the column is there afterwards.
abbrev step : Text → List Order → List Order
step tb terms = if has_term tb terms then terms else terms ++ record { col = tb; desc = false } ∷ []

step-has : (tb : Text) (terms : List Order) → has_term tb (step tb terms) ≡ true
step-has tb terms =
    if-elim (λ ts. has_term tb ts ≡ true) (has_term tb terms) terms _ (λ old. old)
      (λ _. has_term-new tb terms)

step-keeps :
    (c tb : Text) (terms : List Order) → has_term c terms ≡ true → has_term c (step tb terms) ≡ true
step-keeps c tb terms h =
    if-elim (λ ts. has_term c ts ≡ true) (has_term tb terms) terms _ (λ _. h)
      (λ _. has_term-left c terms _ h)

add_tiebreak-keeps :
    (c : Text) (tbs : List Text) (terms : List Order)
    → has_term c terms ≡ true
    → has_term c (add_tiebreak tbs terms) ≡ true
unfolding add_tiebreak
add_tiebreak-keeps c [] terms h = h
add_tiebreak-keeps c (tb ∷ tbs) terms h =
    add_tiebreak-keeps c tbs (step tb terms) (step-keeps c tb terms h)

add_tiebreak-has :
    (tbs : List Text) (terms : List Order)
    → All (λ tb. has_term tb (add_tiebreak tbs terms) ≡ true) tbs
unfolding add_tiebreak
add_tiebreak-has [] terms = tt
add_tiebreak-has (tb ∷ tbs) terms = (
  add_tiebreak-keeps tb tbs (step tb terms) (step-has tb terms),
  add_tiebreak-has tbs (step tb terms),
)

-- A term that the loop added: ascending, and a column that no earlier term has.
abbrev pub Added : List Order → List Order → Type 0
Added terms [] = Unit
Added terms (t ∷ ts) =
    (t.desc ≡ false) × (has_term t.col terms ≡ false) × Added (terms ++ t ∷ []) ts

abbrev pub Extends : List Order → List Order → Type 0
Extends terms all = (extra : List Order) × (all ≡ terms ++ extra) × Added terms extra

add_tiebreak-Extends :
    (tbs : List Text) (terms : List Order) → Extends terms (add_tiebreak tbs terms)
unfolding add_tiebreak
add_tiebreak-Extends [] terms = ([], sym (append-nil terms), tt)
add_tiebreak-Extends (tb ∷ tbs) terms =
    if-elim (λ ts. Extends terms (add_tiebreak tbs ts)) (has_term tb terms) terms _
      (λ _. add_tiebreak-Extends tbs terms)
      (λ new.
        front new (add_tiebreak-Extends tbs (terms ++ record { col = tb; desc = false } ∷ [])))
  where
    front :
        has_term tb terms ≡ false
        → Extends
            (terms ++ record { col = tb; desc = false } ∷ [])
            (add_tiebreak tbs (terms ++ record { col = tb; desc = false } ∷ []))
        → Extends terms (add_tiebreak tbs (terms ++ record { col = tb; desc = false } ∷ []))
    front new (extra, e, added) = (
      record { col = tb; desc = false } ∷ extra,
      e ∙ append_assoc terms _ extra,
      (refl, new, added),
    )

-- The ORDER BY terms begin with the requested term, or the default ones; every tiebreak column is
-- among them, so the order is total on the rows that the tiebreak tells apart; and each term that
-- was added is ascending and on a column that no term before it has.
pub order_terms_lem :
    (rel : Relation) (p : Params)
    → Extends (base_terms rel p.order) (order_terms rel p)
      × All (λ tb. has_term tb (order_terms rel p) ≡ true) rel.tiebreak
unfolding order_terms
order_terms_lem rel p = (
  add_tiebreak-Extends rel.tiebreak (base_terms rel p.order),
  add_tiebreak-has rel.tiebreak (base_terms rel p.order),
)
