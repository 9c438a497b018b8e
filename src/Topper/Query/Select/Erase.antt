-- ===== src/Topper/Query/Select/Erase.antt =====
-- The text of a statement against the values of the request (postgres-topper/internal/query).
use money_insighter.Prelude.{
  ℕ, suc, ◌≡◌, refl, sym, ap, ap₂, ◌∙◌, arith, Bool, Option, none, some, List, [], ◌∷◌, ◌++◌, Text,
  codes, itoa, length, All,
}
use money_insighter.Topper.Catalog.{Relation, Toggle}
use money_insighter.Topper.Query.Types.{Op, op_in, op_is, eq, Cond, Params}
use money_insighter.Topper.Query.Filter.Safe.{HasArity}
use money_insighter.Topper.Query.Projection.{Projected}
use money_insighter.Topper.Query.Select.{
  null, Statement, build_select, off_predicates, write_order_by, order_terms,
}
use money_insighter.Topper.Query.Select.Pieces.{
  Piece, lit, bound, number, join_pieces, conds_pieces, groups_pieces, cond_pieces, values_pieces,
  first_piece, HasArities,
}
use money_insighter.Topper.Query.Select.Refines.{
  HasValues, user_pieces, where_pieces, filter_pieces, select_pieces, build_select-pieces,
}

-- The same conditions with every value the empty text.
abbrev pub erase_values : List Text → List Text
erase_values [] = []
erase_values (v ∷ vs) = [] ∷ erase_values vs

abbrev pub erase_cond : Cond → Cond
erase_cond c = record c { values = erase_values c.values }

abbrev pub erase_conds : List Cond → List Cond
erase_conds [] = []
erase_conds (c ∷ cs) = erase_cond c ∷ erase_conds cs

abbrev pub erase_groups : List (List Cond) → List (List Cond)
erase_groups [] = []
erase_groups (g ∷ gs) = erase_conds g ∷ erase_groups gs

-- The request without its values: only the names, the operators and how many values there are.
abbrev pub erase : Params → Params
erase p = record p {
  conds = erase_conds p.conds;
  or_groups = erase_groups p.or_groups;
  limit = 0;
  offset = 0;
}

blank : List Piece → List Piece
blank [] = []
blank (lit s ∷ ps) = lit s ∷ blank ps
blank (bound a ∷ ps) = bound null ∷ blank ps

blanks : List (List Piece) → List (List Piece)
blanks [] = []
blanks (p ∷ ps) = blank p ∷ blanks ps

number-blank : (n : ℕ) (ps : List Piece) → number n (blank ps) ≡ number n ps
unfolding number blank
number-blank n [] = refl
number-blank n (lit s ∷ ps) = ap (λ t. s ++ t) (number-blank n ps)
number-blank n (bound a ∷ ps) = ap (λ t. (b'$' ∷ itoa (suc n)) ++ t) (number-blank (suc n) ps)

blank-append : (ps qs : List Piece) → blank (ps ++ qs) ≡ blank ps ++ blank qs
unfolding blank
blank-append [] qs = refl
blank-append (lit s ∷ ps) qs = ap (λ (l : List Piece). lit s ∷ l) (blank-append ps qs)
blank-append (bound a ∷ ps) qs = ap (λ (l : List Piece). bound null ∷ l) (blank-append ps qs)

blank-join :
    (sep : Text) (ps : List (List Piece)) → blank (join_pieces sep ps) ≡ join_pieces sep (blanks ps)
unfolding join_pieces blank blanks
blank-join sep [] = refl
blank-join sep (p ∷ []) = refl
blank-join sep (p ∷ q ∷ ps) = simp (blank-append, blank-join sep (q ∷ ps))

blanks-values :
    (vs : List Text) → blanks (values_pieces vs) ≡ blanks (values_pieces (erase_values vs))
unfolding values_pieces blanks blank
blanks-values [] = refl
blanks-values (v ∷ vs) = simp (blanks-values vs)

blank-first : (vs : List Text) → blank (first_piece vs) ≡ blank (first_piece (erase_values vs))
unfolding first_piece blank
blank-first [] = refl
blank-first (v ∷ vs) = refl

blank-cond :
    (op : Op) (col : Text) (vs : List Text) (nn : Bool)
    → blank (cond_pieces op col vs nn) ≡ blank (cond_pieces op col (erase_values vs) nn)
unfolding cond_pieces blank
blank-cond op_is col vs nn = refl
blank-cond op_in col vs nn = simp (blank-append, blank-join, blanks-values vs)
blank-cond eq col vs nn = simp (blank-first vs)
blank-cond _ col vs nn = simp (blank-first vs)

blanks-conds : (cs : List Cond) → blanks (conds_pieces cs) ≡ blanks (conds_pieces (erase_conds cs))
unfolding conds_pieces blanks
blanks-conds [] = refl
blanks-conds (c ∷ cs) =
    ap₂ (λ (p : List Piece) (ps : List (List Piece)). p ∷ ps)
      (blank-cond c.op c.col c.values c.not_null) (blanks-conds cs)

blanks-groups :
    (gs : List (List Cond)) → blanks (groups_pieces gs) ≡ blanks (groups_pieces (erase_groups gs))
unfolding groups_pieces blanks blank
blanks-groups [] = refl
blanks-groups (g ∷ gs) = simp (blank-append, blank-join, blanks-conds g, blanks-groups gs)

blanks-append : (ps qs : List (List Piece)) → blanks (ps ++ qs) ≡ blanks ps ++ blanks qs
unfolding blanks
blanks-append [] qs = refl
blanks-append (p ∷ ps) qs = simp (blanks-append ps qs)

blank-where : (ps : List (List Piece)) → blank (where_pieces ps) ≡ where_pieces (blanks ps)
unfolding blank blanks
blank-where [] = refl
blank-where (p ∷ ps) =
    ap (λ (l : List Piece). lit (codes " WHERE ") ∷ l) (blank-join (codes " AND ") (p ∷ ps))

off_predicates-erase :
    (p : Params) (ts : List Toggle) → off_predicates p ts ≡ off_predicates (erase p) ts
unfolding off_predicates
off_predicates-erase p [] = refl
off_predicates-erase p (t ∷ ts) = simp (off_predicates-erase p ts)

blank-filter :
    (rel : Relation) (p : Params)
    → blank (filter_pieces rel p) ≡ blank (filter_pieces rel (erase p))
unfolding filter_pieces user_pieces
blank-filter rel p = simp (
  blank-where,
  blanks-append,
  blanks-conds p.conds,
  blanks-groups p.or_groups,
  off_predicates-erase p rel.toggles,
)

blank-select :
    (rel : Relation) (p : Params)
    → blank (select_pieces rel p) ≡ blank (select_pieces rel (erase p))
unfolding select_pieces blank write_order_by order_terms
blank-select rel p = simp (blank-append, blank-filter rel p)

length-erase_values : (vs : List Text) → length (erase_values vs) ≡ length vs
length-erase_values [] = refl
length-erase_values (v ∷ vs) = ap suc (length-erase_values vs)

arity_erase : (op : Op) (vs : List Text) → HasArity op vs → HasArity op (erase_values vs)
arity_erase op_is [] h = refl
arity_erase op_is (v ∷ vs) h = cc h
arity_erase op_in vs h = omega (arith, length-erase_values vs)
arity_erase eq vs h = omega (arith, length-erase_values vs)
arity_erase _ vs h = omega (arith, length-erase_values vs)

arities_erase : (cs : List Cond) → HasArities cs → HasArities (erase_conds cs)
arities_erase [] h = tt
arities_erase (c ∷ cs) (hc, h) = (arity_erase c.op c.values hc, arities_erase cs h)

groups_erase : (gs : List (List Cond)) → All HasArities gs → All HasArities (erase_groups gs)
groups_erase [] h = tt
groups_erase (g ∷ gs) (hg, h) = (arities_erase g hg, groups_erase gs h)

HasValues-erase : (p : Params) → HasValues p → HasValues (erase p)
HasValues-erase p h = record {
  conds = arities_erase p.conds h.conds;
  groups = groups_erase p.or_groups h.groups;
}

abbrev pub sql_of : Option (Statement × List Projected) → Option Text
sql_of none = none
sql_of (some (s, proj)) = some s.sql

-- No value of a request reaches the text of its SELECT statement: replacing every condition value
-- by the empty text, and the limit and the offset by 0, builds the same text. (The conditions have
-- the values that their operators take.)
pub build_select-erase :
    (rel : Relation) (p : Params)
    → HasValues p
    → (sql : Text) × (sql_of (build_select rel p) ≡ some sql)
      × (sql_of (build_select rel (erase p)) ≡ some sql)
build_select-erase rel p h =
    let same : number 0 (select_pieces rel (erase p)) ≡ number 0 (select_pieces rel p) =
      sym (number-blank 0 (select_pieces rel (erase p)))
      ∙ ap (number 0) (sym (blank-select rel p))
      ∙ number-blank 0 (select_pieces rel p) in
    (
      number 0 (select_pieces rel p),
      ap sql_of (build_select-pieces rel p h),
      ap sql_of (build_select-pieces rel (erase p) (HasValues-erase p h)) ∙ ap some same,
    )
