-- ===== src/Topper/Query/Select/Pieces.antt =====
-- A statement against its pieces: fixed text that a value never enters, and bound values, which
-- are numbered from left to right.
use money_insighter.Prelude.{
  ℕ, suc, ◌+◌, ◌≡◌, refl, sym, ap, ◌∙◌, arith, Bool, some, List, [], ◌∷◌, ◌++◌, append_assoc,
  append-nil, Text, codes, length, All, length-append, join, itoa, if◌then◌else◌,
}
use native.Mathlib.Numerals.{add-one}
use money_insighter.Topper.Catalog.{quote_ident}
use money_insighter.Topper.Query.Types.{Op, eq, op_in, op_is, sql_op, Cond}
use money_insighter.Topper.Query.Filter.Safe.{HasArity}
use money_insighter.Topper.Query.Select.{
  Arg, str, bind_all, bind_first, predicate_at, predicates, group_predicates,
}

pub data Piece : Type 0 where
  lit : Text → Piece
  bound : Arg → Piece

-- The text of the pieces, where `n` values were bound before.
unfoldable pub number : ℕ → List Piece → Text
number n [] = []
number n (lit s ∷ ps) = s ++ number n ps
number n (bound a ∷ ps) = (b'$' ∷ itoa (suc n)) ++ number (suc n) ps

unfoldable pub binds : List Piece → List Arg
binds [] = []
binds (lit s ∷ ps) = binds ps
binds (bound a ∷ ps) = a ∷ binds ps

-- strings.Join of pieces
unfoldable pub join_pieces : Text → List (List Piece) → List Piece
join_pieces sep [] = []
join_pieces sep (p ∷ []) = p
join_pieces sep (p ∷ q ∷ ps) = p ++ (lit sep ∷ join_pieces sep (q ∷ ps))

unfoldable pub values_pieces : List Text → List (List Piece)
values_pieces [] = []
values_pieces (v ∷ vs) = (bound (str v) ∷ []) ∷ values_pieces vs

unfoldable pub first_piece : List Text → List Piece
first_piece [] = []
first_piece (v ∷ vs) = bound (str v) ∷ []

unfoldable pub cond_pieces : Op → Text → List Text → Bool → List Piece
unfolding values_pieces first_piece join_pieces
cond_pieces op_is col vs not_null =
    lit (quote_ident col) ∷ lit (if not_null then codes " IS NOT NULL" else codes " IS NULL") ∷ []
cond_pieces op_in col vs not_null =
    lit (quote_ident col)
    ∷ lit (codes " IN (")
    ∷ (join_pieces (codes ", ") (values_pieces vs) ++ lit (codes ")") ∷ [])
cond_pieces op col vs not_null =
    lit (quote_ident col ++ (b' ' ∷ (sql_op op ++ b' ' ∷ []))) ∷ first_piece vs

unfoldable pub conds_pieces : List Cond → List (List Piece)
unfolding cond_pieces
conds_pieces [] = []
conds_pieces (c ∷ cs) = cond_pieces c.op c.col c.values c.not_null ∷ conds_pieces cs

unfoldable pub groups_pieces : List (List Cond) → List (List Piece)
unfolding conds_pieces
groups_pieces [] = []
groups_pieces (g ∷ gs) =
    (lit (codes "(") ∷ (join_pieces (codes " OR ") (conds_pieces g) ++ lit (codes ")") ∷ []))
    ∷ groups_pieces gs

-- The texts of several piece lists, numbered on from one to the next.
unfoldable pub numbers : ℕ → List (List Piece) → List Text
unfolding number binds
numbers n [] = []
numbers n (p ∷ ps) = number n p ∷ numbers (n + length (binds p)) ps

unfoldable pub all_binds : List (List Piece) → List Arg
unfolding binds
all_binds [] = []
all_binds (p ∷ ps) = binds p ++ all_binds ps

pub binds-append : (ps qs : List Piece) → binds (ps ++ qs) ≡ binds ps ++ binds qs
unfolding binds
binds-append [] qs = refl
binds-append (lit s ∷ ps) qs = binds-append ps qs
binds-append (bound a ∷ ps) qs = ap (λ (l : List Arg). a ∷ l) (binds-append ps qs)

pub number-append :
    (n : ℕ) (ps qs : List Piece)
    → number n (ps ++ qs) ≡ number n ps ++ number (n + length (binds ps)) qs
unfolding number binds
number-append n [] qs = ap (λ k. number k qs) (omega arith)
number-append n (lit s ∷ ps) qs =
    ap (λ t. s ++ t) (number-append n ps qs) ∙ sym (append_assoc s _ _)
number-append n (bound a ∷ ps) qs =
    let shift : suc n + length (binds ps) ≡ n + suc (length (binds ps)) = omega arith in
    ap (λ t. (b'$' ∷ itoa (suc n)) ++ t)
      (number-append (suc n) ps qs ∙ ap (λ k. number (suc n) ps ++ number k qs) shift)
    ∙ sym (append_assoc (b'$' ∷ itoa (suc n)) _ _)

pub binds-join : (sep : Text) (ps : List (List Piece)) → binds (join_pieces sep ps) ≡ all_binds ps
unfolding join_pieces binds all_binds
binds-join sep [] = refl
binds-join sep (p ∷ []) = sym (append-nil (binds p))
binds-join sep (p ∷ q ∷ ps) =
    binds-append p (lit sep ∷ join_pieces sep (q ∷ ps))
    ∙ ap (λ t. binds p ++ t) (binds-join sep (q ∷ ps))

pub number-join :
    (n : ℕ) (sep : Text) (ps : List (List Piece))
    → number n (join_pieces sep ps) ≡ join sep (numbers n ps)
unfolding join_pieces number numbers join
number-join n sep [] = refl
number-join n sep (p ∷ []) = refl
number-join n sep (p ∷ q ∷ ps) =
    number-append n p (lit sep ∷ join_pieces sep (q ∷ ps))
    ∙ ap (λ t. number n p ++ (sep ++ t)) (number-join (n + length (binds p)) sep (q ∷ ps))

pub length-snoc {ℓ} : {A : Type ℓ} (xs : List A) (x : A) → length (xs ++ x ∷ []) ≡ suc (length xs)
length-snoc xs x = omega (arith, length-append xs (x ∷ []))

pub length-snoc2 {ℓ} :
    {A : Type ℓ} (xs : List A) (x y : A) → length (xs ++ x ∷ y ∷ []) ≡ suc (suc (length xs))
length-snoc2 xs x y = omega (arith, length-append xs (x ∷ y ∷ []))

bind_all_lem :
    (vs : List Text) (args : List Arg)
    → bind_all vs args
      ≡ (numbers (length args) (values_pieces vs), args ++ all_binds (values_pieces vs))
unfolding bind_all numbers number values_pieces all_binds binds
bind_all_lem [] args = simp append-nil
bind_all_lem (v ∷ vs) args = simp (bind_all_lem vs, length-snoc, append-nil, append_assoc, add-one)

bind_first_lem :
    (col op : Text) (vs : List Text) (args : List Arg)
    → length vs ≡ 1
    → bind_first col op vs args
      ≡ some (
        number (length args) (lit (col ++ (b' ' ∷ (op ++ b' ' ∷ []))) ∷ first_piece vs),
        args ++ binds (first_piece vs),
      )
unfolding number binds first_piece
bind_first_lem col op [] args one = absurd (omega arith)
bind_first_lem col op (v ∷ w ∷ vs) args one = absurd (omega arith)
bind_first_lem col op (v ∷ []) args one = simp (append_assoc, append-nil, length-snoc)

predicate_lem :
    (op : Op) (c : Cond) (args : List Arg)
    → HasArity op c.values
    → predicate_at op c args
      ≡ some (
        number (length args) (cond_pieces op c.col c.values c.not_null),
        args ++ binds (cond_pieces op c.col c.values c.not_null),
      )
unfolding predicate_at cond_pieces binds number
predicate_lem op_is c args h = simp append-nil
predicate_lem op_in c args h =
    simp
      (bind_all_lem, number-append, number-join, binds-append, binds-join, append_assoc, append-nil)
predicate_lem eq c args h = bind_first_lem (quote_ident c.col) (sql_op eq) c.values args h
predicate_lem _ c args h = bind_first_lem (quote_ident c.col) (sql_op _) c.values args h

abbrev pub HasArities : List Cond → Type 0
HasArities = All (λ c. HasArity c.op c.values)

pub predicates_lem :
    (cs : List Cond) (args : List Arg)
    → HasArities cs
    → predicates cs args
      ≡ some (numbers (length args) (conds_pieces cs), args ++ all_binds (conds_pieces cs))
unfolding predicates conds_pieces numbers all_binds
predicates_lem [] args h = simp append-nil
predicates_lem (c ∷ cs) args (hc, h) =
    simp (predicate_lem c.op c args hc, predicates_lem cs _ h, length-append, append_assoc)

pub group_predicates_lem :
    (gs : List (List Cond)) (args : List Arg)
    → All HasArities gs
    → group_predicates gs args
      ≡ some (numbers (length args) (groups_pieces gs), args ++ all_binds (groups_pieces gs))
unfolding group_predicates groups_pieces numbers all_binds number binds
group_predicates_lem [] args h = simp append-nil
group_predicates_lem (g ∷ gs) args (hg, h) = simp (
  predicates_lem g args hg,
  group_predicates_lem gs _ h,
  number-append,
  number-join,
  binds-append,
  binds-join,
  length-append,
  append_assoc,
  append-nil,
)
