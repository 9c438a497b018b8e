-- ===== src/Topper/Query/Grammar.antt =====
-- The request parameters: `Parse` of postgres-topper/internal/query/grammar.go. `url.Values` is an association
-- list of distinct keys, each with its first value and the others.
pub mod Safe
pub mod Reserved
use money_insighter.Prelude.{
  Bool, true, false, ◌||◌, Option, none, some, List, [], ◌∷◌, ◌++◌, Text, codes, text_eq, one_of,
  to_lower, sort, lookup, assign, ℤ, pos, atoi, ltb, if◌then◌else◌,
}
use money_insighter.Topper.Catalog.{Relation, Column, Toggle, Order, has_toggle}
use money_insighter.Topper.Query.Filter.{
  exposed_column, parse_select, parse_toggle, parse_filter, check_cond, parse_or_group,
}
use money_insighter.Topper.Query.Types.{
  Params, Options, Result, ok, err, ◌>>=◌, rewrap, bad_request, repeated_key, order_without_column,
  bad_order, bad_offset, bad_count, bad_limit, toggle_key, at_key,
}

abbrev pub Values : Type 0
Values = List (Text × (Text × List Text))

abbrev pub single_at : Text → Option (Text × List Text) → Result (Option Text)
single_at key none = ok none
single_at key (some (v, [])) = ok (some v)
single_at key (some (v, w ∷ ws)) = err (bad_request (repeated_key key))

unfoldable pub single : Values → Text → Result (Option Text)
single q key = single_at key (lookup key q)

-- A step of `Parse` on the value of a reserved key; an absent key changes nothing.
abbrev pub on_value : Option Text → (Text → Result Params) → Params → Result Params
on_value none f p = ok p
on_value (some v) f p = f v

unfoldable pub take_select : Relation → Params → Text → Result Params
take_select rel p v = do names ← parse_select v rel; ok (record p { select = some names })

unfoldable pub take_order_by : Relation → Params → Text → Result Params
take_order_by rel p v = do
  c ← exposed_column rel v
  ok (record p { order = some (record { col = v; desc = false }) })

abbrev order_to : Params → Option Order → Text → Result Params
order_to p none v = err (bad_request order_without_column)
order_to p (some t) v =
    if text_eq (to_lower v) (codes "asc")
    then ok p
    else if text_eq (to_lower v) (codes "desc")
    then ok (record p { order = some (record t { desc = true }) })
    else err (bad_request bad_order)

unfoldable pub take_order : Params → Text → Result Params
take_order p v = order_to p p.order v

abbrev limit_to : Options → Params → Option ℤ → Result Params
limit_to o p (some (pos n)) =
    if ltb n 1 || ltb o.max_limit n
    then err (bad_request (bad_limit o.max_limit))
    else ok (record p { limit = n })
limit_to o p _ = err (bad_request (bad_limit o.max_limit))

unfoldable pub take_limit : Options → Params → Text → Result Params
take_limit o p v = limit_to o p (atoi v)

abbrev offset_to : Params → Option ℤ → Result Params
offset_to p (some (pos n)) = ok (record p { offset = n })
offset_to p _ = err (bad_request bad_offset)

unfoldable pub take_offset : Params → Text → Result Params
take_offset p v = offset_to p (atoi v)

unfoldable pub take_count : Params → Text → Result Params
take_count p v =
    if text_eq (to_lower v) (codes "exact")
    then ok (record p { count = true })
    else if one_of (to_lower v) (codes "none" ∷ [] ∷ [])
    then ok p
    else err (bad_request bad_count)

unfoldable pub take_groups : Relation → Options → List Text → Params → Result Params
take_groups rel o [] p = ok p
take_groups rel o (v ∷ vs) p = do
  group ← parse_or_group v rel o
  take_groups rel o vs (record p { or_groups = p.or_groups ++ group ∷ [] })

abbrev pub all_values : Option (Text × List Text) → List Text
all_values none = []
all_values (some (v, vs)) = v ∷ vs

-- The values of one column key become conditions in order.
unfoldable pub take_filters :
    Relation → Options → Text → Column → List Text → Params → Result Params
take_filters rel o key col [] p = ok p
take_filters rel o key col (v ∷ vs) p = do
  c ← rewrap (at_key key) (parse_filter v true)
  d ← check_cond (record c { col = key }) col o
  take_filters rel o key col vs (record p { conds = p.conds ++ d ∷ [] })

abbrev toggle_to : Text → Params → Option Text → Result Params
toggle_to key p none = ok p
toggle_to key p (some v) = do
  b ← rewrap (λ m. toggle_key key) (parse_toggle v)
  ok (record p { toggles = assign key b p.toggles })

-- A toggle or a column filter.
unfoldable pub take_key : Values → Relation → Options → Text → Params → Result Params
unfolding single parse_toggle take_filters exposed_column
take_key q rel o key p =
    if has_toggle rel key
    then (do v ← single q key; toggle_to key p v)
    else (do col ← exposed_column rel key; take_filters rel o key col (all_values (lookup key q)) p)

unfoldable pub take_keys : Values → Relation → Options → List Text → Params → Result Params
unfolding take_key
take_keys q rel o [] p = ok p
take_keys q rel o (k ∷ ks) p = do p' ← take_key q rel o k p; take_keys q rel o ks p'

abbrev pub reserved : List Text
reserved =
    codes "select"
    ∷ codes "order_by"
    ∷ codes "order"
    ∷ codes "limit"
    ∷ codes "offset"
    ∷ codes "count"
    ∷ codes "or"
    ∷ []

-- The keys that are not reserved, in the order of the map.
unfoldable pub filter_keys : Values → List Text
filter_keys [] = []
filter_keys ((k, v) ∷ q) = let rest = filter_keys q in if one_of k reserved then rest else k ∷ rest

abbrev pub off_toggles : List Toggle → List (Text × Bool)
off_toggles [] = []
off_toggles (t ∷ ts) = assign t.key false (off_toggles ts)

unfoldable pub initial : Relation → Options → Params
initial rel o = record {
  select = none;
  conds = [];
  or_groups = [];
  order = none;
  limit = o.default_limit;
  offset = 0;
  count = false;
  toggles = off_toggles rel.toggles;
}

-- One reserved key, at most once.
unfoldable pub reserved_key :
    Values → Text → (Params → Text → Result Params) → Params → Result Params
unfolding single
reserved_key q key f p = do v ← single q key; on_value v (f p) p

unfoldable pub parse : Values → Relation → Options → Result Params
unfolding reserved_key take_select take_order_by take_order take_limit take_offset take_count
    take_groups take_keys filter_keys initial
parse q rel o = do
  p1 ← reserved_key q (codes "select") (take_select rel) (initial rel o)
  p2 ← reserved_key q (codes "order_by") (take_order_by rel) p1
  p3 ← reserved_key q (codes "order") take_order p2
  p4 ← reserved_key q (codes "limit") (take_limit o) p3
  p5 ← reserved_key q (codes "offset") take_offset p4
  p6 ← reserved_key q (codes "count") take_count p5
  p7 ← take_groups rel o (all_values (lookup (codes "or") q)) p6
  take_keys q rel o (sort (filter_keys q)) p7
