-- ===== src/Topper/Query/Select/Refines.antt =====
-- The SELECT, COUNT and DELETE statements against their pieces (postgres-topper/internal/query).
use money_insighter.Prelude.{
  ℕ, ◌+◌, ◌≡◌, ◌≢◌, refl, sym, ap, ap₂, ◌∙◌, arith, false, ◌&&◌, some, List, [], ◌∷◌, ◌++◌,
  append_assoc, append-nil, Text, codes, length, length-append, All, All-impl, join, is_empty,
  Bool-cases, inl, inr, ◌⊎◌,
}
use native.Mathlib.Nat.{zero-add}
use money_insighter.Topper.Catalog.{Relation}
use money_insighter.Topper.Query.Types.{
  Cond, Params, Options, ok, err, bad_request, delete_unfiltered,
}
use money_insighter.Topper.Query.Filter.Safe.{HasArity, IsSafeCond, IsSafeGroup}
use money_insighter.Topper.Query.Grammar.Reserved.{IsSafe}
use money_insighter.Topper.Query.Projection.{projection}
use money_insighter.Topper.Query.Select.{
  int, user_predicates, off_predicates, where_text, write_where, write_order_by, build_select,
  build_count, build_delete,
}
use money_insighter.Topper.Query.Select.Pieces.{
  Piece, lit, bound, number, binds, join_pieces, conds_pieces, groups_pieces, numbers, all_binds,
  HasArities, predicates_lem, group_predicates_lem, number-append, number-join, binds-append,
  binds-join, length-snoc, length-snoc2,
}

-- Each condition has as many values as its operator takes.
pub record HasValues (p : Params) : Type 0 where
  pub conds : HasArities p.conds
  pub groups : All HasArities p.or_groups

pub IsSafe-HasValues : (rel : Relation) (o : Options) (p : Params) → IsSafe rel o p → HasValues p
IsSafe-HasValues rel o p h = record {
  conds =
      All-impl (IsSafeCond rel o) (λ c. HasArity c.op c.values) (λ c s. s.arity) p.conds h.conds;
  groups =
      All-impl (IsSafeGroup rel o) HasArities
        (λ g s.
          All-impl (IsSafeCond rel o) (λ c. HasArity c.op c.values) (λ c t. t.arity) g s.terms)
        p.or_groups h.groups;
}

unfoldable pub lits : List Text → List (List Piece)
lits [] = []
lits (t ∷ ts) = (lit t ∷ []) ∷ lits ts

unfoldable pub user_pieces : Params → List (List Piece)
user_pieces p = conds_pieces p.conds ++ groups_pieces p.or_groups

abbrev pub where_pieces : List (List Piece) → List Piece
where_pieces [] = []
where_pieces (p ∷ ps) = lit (codes " WHERE ") ∷ join_pieces (codes " AND ") (p ∷ ps)

unfoldable pub filter_pieces : Relation → Params → List Piece
filter_pieces rel p =
    where_pieces (user_pieces p ++ lits (rel.forced ++ off_predicates p rel.toggles))

-- The SELECT statement: the condition values, the limit and the offset are the bound pieces.
unfoldable pub select_pieces : Relation → Params → List Piece
select_pieces rel p =
    lit (codes "SELECT ")
    ∷ lit (join (codes ", ") (projection rel p.select).0)
    ∷ lit (codes " FROM ")
    ∷ lit rel.source
    ∷ (filter_pieces rel p
        ++ (lit (write_order_by rel p)
            ∷ lit (codes " LIMIT ")
            ∷ bound (int p.limit)
            ∷ lit (codes " OFFSET ")
            ∷ bound (int p.offset)
            ∷ []))

numbers-append :
    (n : ℕ) (ps qs : List (List Piece))
    → numbers n (ps ++ qs) ≡ numbers n ps ++ numbers (n + length (all_binds ps)) qs
unfolding numbers all_binds
numbers-append n [] qs = ap (λ k. numbers k qs) (omega arith)
numbers-append n (p ∷ ps) qs =
    ap (λ t. number n p ∷ t)
      (numbers-append (n + length (binds p)) ps qs
        ∙ ap (λ k. numbers (n + length (binds p)) ps ++ numbers k qs)
            (omega (arith, length-append (binds p) (all_binds ps))))

all_binds-append : (ps qs : List (List Piece)) → all_binds (ps ++ qs) ≡ all_binds ps ++ all_binds qs
unfolding all_binds
all_binds-append [] qs = refl
all_binds-append (p ∷ ps) qs = simp (all_binds-append ps, append_assoc)

numbers-lits : (ts : List Text) (n : ℕ) → numbers n (lits ts) ≡ ts
unfolding numbers lits number binds
numbers-lits [] n = refl
numbers-lits (t ∷ ts) n = ap₂ (λ a b. a ∷ b) (append-nil t) (numbers-lits ts _)

all_binds-lits : (ts : List Text) → all_binds (lits ts) ≡ []
unfolding all_binds lits binds
all_binds-lits [] = refl
all_binds-lits (t ∷ ts) = all_binds-lits ts

user_predicates_lem :
    (p : Params)
    → HasValues p
    → user_predicates p [] ≡ some (numbers 0 (user_pieces p), all_binds (user_pieces p))
unfolding user_predicates user_pieces
user_predicates_lem p h = simp (
  predicates_lem p.conds [] h.conds,
  group_predicates_lem p.or_groups _ h.groups,
  numbers-append,
  all_binds-append,
  zero-add,
)

where_text_lem : (ps : List (List Piece)) → where_text (numbers 0 ps) ≡ number 0 (where_pieces ps)
unfolding number numbers
where_text_lem [] = refl
where_text_lem (p ∷ ps) =
    ap (λ t. codes " WHERE " ++ t) (sym (number-join 0 (codes " AND ") (p ∷ ps)))

where_binds_lem : (ps : List (List Piece)) → binds (where_pieces ps) ≡ all_binds ps
unfolding binds all_binds
where_binds_lem [] = refl
where_binds_lem (p ∷ ps) = binds-join (codes " AND ") (p ∷ ps)

write_where_lem :
    (rel : Relation) (p : Params)
    → HasValues p
    → write_where rel p [] ≡ some (number 0 (filter_pieces rel p), binds (filter_pieces rel p))
unfolding write_where filter_pieces
write_where_lem rel p h =
    let more = rel.forced ++ off_predicates p rel.toggles in
    let texts : numbers 0 (user_pieces p) ++ more ≡ numbers 0 (user_pieces p ++ lits more) =
      simp (numbers-append, numbers-lits) in
    let values : all_binds (user_pieces p) ≡ all_binds (user_pieces p ++ lits more) =
      simp (all_binds-append, all_binds-lits, append-nil) in
    rw (user_predicates_lem p h) (
      ap₂ (λ t a. some (where_text t, a)) texts values
      ∙ ap₂ (λ t a. some (t, a)) (where_text_lem (user_pieces p ++ lits more))
          (sym (where_binds_lem (user_pieces p ++ lits more))))

-- For parameters whose conditions have the values that their operators take, the SELECT statement
-- is built without a panic. Its text is the fixed text of its pieces with `$1`, `$2`, … in place of
-- the bound values, from left to right, and its arguments are those values in that order: the
-- conditions', then the limit and the offset.
pub build_select-pieces :
    (rel : Relation) (p : Params)
    → HasValues p
    → build_select rel p
      ≡ some (
        record { sql = number 0 (select_pieces rel p); args = binds (select_pieces rel p) },
        (projection rel p.select).1,
      )
unfolding build_select select_pieces number binds
build_select-pieces rel p h = rw (write_where_lem rel p h) (
    simp
      (number-append, binds-append, length-snoc, length-snoc2, append_assoc, append-nil, zero-add))

-- The COUNT statement has the same WHERE clause and the same condition values as the SELECT.
pub build_count-pieces :
    (rel : Relation) (p : Params)
    → HasValues p
    → build_count rel p
      ≡ some (record {
        sql = codes "SELECT count(*) FROM " ++ (rel.source ++ number 0 (filter_pieces rel p));
        args = binds (filter_pieces rel p);
      })
unfolding build_count
build_count-pieces rel p h = rw (write_where_lem rel p h)

conds_pieces-ne :
    (cs : List Cond) (gs : List (List Cond))
    → (is_empty cs && is_empty gs) ≡ false
    → conds_pieces cs ++ groups_pieces gs ≢ []
unfolding conds_pieces groups_pieces
conds_pieces-ne [] [] h e = cc h
conds_pieces-ne [] (g ∷ gs) h e = cc e
conds_pieces-ne (c ∷ cs) gs h e = cc e

-- DELETE is refused when there is no condition and no group. Otherwise it is built without a panic,
-- and its WHERE clause joins at least one predicate, over the request's own values in order.
pub build_delete-cases :
    (rel : Relation) (p : Params)
    → HasValues p
    → ((p.conds ≡ [])
        × (p.or_groups ≡ [])
        × (build_delete rel p ≡ some (err (bad_request delete_unfiltered))))
      ⊎ ((user_pieces p ≢ [])
          × (build_delete rel p
              ≡ some (
                  ok (record {
                    sql =
                        codes "DELETE FROM "
                        ++ (rel.source
                            ++ (codes " WHERE "
                                ++ number 0 (join_pieces (codes " AND ") (user_pieces p))));
                    args = all_binds (user_pieces p);
                  }))))
unfolding build_delete
build_delete-cases rel p h = elim (Bool-cases (is_empty p.conds && is_empty p.or_groups)) [
  | inl none_asked ↦ inl (ground arith, ground arith, rw none_asked)
  | inr asked ↦ inr (
    unfold user_pieces in conds_pieces-ne p.conds p.or_groups asked,
    rw (asked, user_predicates_lem p h, number-join),
  )
]
