-- ===== src/Topper/Query/Select.antt =====
-- Statements: select.go and delete.go of postgres-topper/internal/query. `none` is the runtime
-- panic of `c.Values[0]` on a condition without values.
pub mod Pieces
pub mod Refines
pub mod Erase
pub mod Ordering
use money_insighter.Prelude.{
  ℕ, suc, ◌+◌, ◌≡◌, Bool, true, false, ◌||◌, ◌&&◌, Option, none, some, List, [], ◌∷◌, ◌++◌, Text,
  codes, text_eq, is_empty, length, any, join, lookup, itoa, if◌then◌else◌,
}
use money_insighter.Topper.Catalog.{Relation, Toggle, Order, quote_ident}
use money_insighter.Topper.Query.Types.{
  Op, op_in, op_is, sql_op, Cond, Params, Result, ok, err, bad_request, delete_unfiltered,
}
use money_insighter.Topper.Query.Projection.{Projected, projection}

-- A bound argument of a statement.
pub data Arg : Type 0 where
  null : Arg
  str : Text → Arg
  int : ℕ → Arg

pub record Statement : Type 0 where
  pub sql : Text
  pub args : List Arg

infixl 5 ◌>>=◌
abbrev pub ◌>>=◌ {ℓ κ} : {A : Type ℓ} {B : Type κ} → Option A → (A → Option B) → Option B
none >>= f = none
some a >>= f = f a

-- "$" and the number of arguments so far
abbrev pub placeholder : List Arg → Text
placeholder args = b'$' ∷ itoa (length args)

unfoldable pub bind_all : List Text → List Arg → List Text × List Arg
bind_all [] args = ([], args)
bind_all (v ∷ vs) args =
    let args' = args ++ str v ∷ [] in
    let (ph, rest) = bind_all vs args' in (placeholder args' ∷ ph, rest)

abbrev pub bind_first : Text → Text → List Text → List Arg → Option (Text × List Arg)
bind_first col op [] args = none
bind_first col op (v ∷ vs) args =
    let args' = args ++ str v ∷ [] in
    some (col ++ (b' ' ∷ (op ++ (b' ' ∷ placeholder args'))), args')

unfoldable pub predicate_at : Op → Cond → List Arg → Option (Text × List Arg)
unfolding bind_all quote_ident
predicate_at op_is c args =
    some
      (quote_ident c.col ++ (if c.not_null then codes " IS NOT NULL" else codes " IS NULL"), args)
predicate_at op_in c args =
    let (ph, args') = bind_all c.values args in
    some (quote_ident c.col ++ (codes " IN (" ++ (join (codes ", ") ph ++ codes ")")), args')
predicate_at op c args = bind_first (quote_ident c.col) (sql_op op) c.values args

unfoldable pub predicate : Cond → List Arg → Option (Text × List Arg)
unfolding predicate_at
predicate c args = predicate_at c.op c args

unfoldable pub predicates : List Cond → List Arg → Option (List Text × List Arg)
unfolding predicate
predicates [] args = some ([], args)
predicates (c ∷ cs) args = do
  (p, args1) ← predicate c args
  (ps, args2) ← predicates cs args1
  some (p ∷ ps, args2)

unfoldable pub group_predicates : List (List Cond) → List Arg → Option (List Text × List Arg)
unfolding predicates
group_predicates [] args = some ([], args)
group_predicates (g ∷ gs) args = do
  (parts, args1) ← predicates g args
  (ps, args2) ← group_predicates gs args1
  some ((b'(' ∷ (join (codes " OR ") parts ++ codes ")")) ∷ ps, args2)

unfoldable pub user_predicates : Params → List Arg → Option (List Text × List Arg)
unfolding group_predicates
user_predicates p args = do
  (ps, args1) ← predicates p.conds args
  (gs, args2) ← group_predicates p.or_groups args1
  some (ps ++ gs, args2)

abbrev pub is_on : Option Bool → Bool
is_on (some true) = true
is_on _ = false

-- The predicates of the toggles that are off.
unfoldable pub off_predicates : Params → List Toggle → List Text
off_predicates p [] = []
off_predicates p (t ∷ ts) =
    let rest = off_predicates p ts in
    if is_on (lookup t.key p.toggles) then rest else t.when_off ∷ rest

abbrev pub where_text : List Text → Text
where_text [] = []
where_text (p ∷ ps) = codes " WHERE " ++ join (codes " AND ") (p ∷ ps)

unfoldable pub write_where : Relation → Params → List Arg → Option (Text × List Arg)
write_where rel p args = do
  (ps, args1) ← user_predicates p args
  some (where_text (ps ++ (rel.forced ++ off_predicates p rel.toggles)), args1)

unfoldable pub has_term : Text → List Order → Bool
has_term col [] = false
has_term col (t ∷ ts) = text_eq t.col col || has_term col ts

abbrev ascending : List Text → List Order
ascending [] = []
ascending (c ∷ cs) = record { col = c; desc = false } ∷ ascending cs

abbrev default_terms : List Order → List Text → List Order
default_terms [] pk = ascending pk
default_terms (t ∷ ts) pk = t ∷ ts

abbrev pub base_terms : Relation → Option Order → List Order
base_terms rel none = default_terms rel.default_order rel.pk
base_terms rel (some t) = t ∷ []

-- The loop over `rel.Tiebreak`.
unfoldable pub add_tiebreak : List Text → List Order → List Order
unfolding has_term
add_tiebreak [] terms = terms
add_tiebreak (tb ∷ tbs) terms =
    add_tiebreak tbs
      (if has_term tb terms then terms else terms ++ record { col = tb; desc = false } ∷ [])

unfoldable pub order_terms : Relation → Params → List Order
unfolding add_tiebreak
order_terms rel p = add_tiebreak rel.tiebreak (base_terms rel p.order)

unfoldable pub term_texts : List Order → List Text
unfolding quote_ident
term_texts [] = []
term_texts (t ∷ ts) =
    (quote_ident t.col ++ (if t.desc then codes " DESC" else codes " ASC")) ∷ term_texts ts

abbrev pub order_text : List Order → Text
order_text [] = []
order_text (t ∷ ts) = codes " ORDER BY " ++ join (codes ", ") (term_texts (t ∷ ts))

unfoldable pub write_order_by : Relation → Params → Text
write_order_by rel p = order_text (order_terms rel p)

unfoldable pub build_select : Relation → Params → Option (Statement × List Projected)
build_select rel p =
    let (exprs, proj) = projection rel p.select in
    do
      (conds, args) ← write_where rel p []
      let args1 = args ++ int p.limit ∷ []
      let args2 = args1 ++ int p.offset ∷ []
      some (
        record {
          sql =
              codes "SELECT "
              ++ (join (codes ", ") exprs
                  ++ (codes " FROM "
                      ++ (rel.source
                          ++ (conds
                              ++ (write_order_by rel p
                                  ++ (codes " LIMIT "
                                      ++ (placeholder args1
                                          ++ (codes " OFFSET " ++ placeholder args2))))))));
          args = args2;
        },
        proj,
      )

unfoldable pub build_count : Relation → Params → Option Statement
build_count rel p = do
  (conds, args) ← write_where rel p []
  some (record { sql = codes "SELECT count(*) FROM " ++ (rel.source ++ conds); args = args })

abbrev delete_text : Relation → Option (List Text × List Arg) → Option (Result Statement)
delete_text rel none = none
delete_text rel (some (ps, args)) = some (
    ok (record {
      sql = codes "DELETE FROM " ++ (rel.source ++ (codes " WHERE " ++ join (codes " AND ") ps));
      args = args;
    }))

unfoldable pub build_delete : Relation → Params → Option (Result Statement)
build_delete rel p =
    if is_empty p.conds && is_empty p.or_groups
    then some (err (bad_request delete_unfiltered))
    else delete_text rel (user_predicates p [])
