-- ===== src/Topper/Query/Filter.antt =====
-- The values of the request grammar: select lists, toggles, filters and or-groups
-- (postgres-topper/internal/query/grammar.go).
pub mod Safe
use money_insighter.Prelude.{
  ℕ, ◌+◌, ◌-◌, Bool, true, false, ◌&&◌, ◌||◌, not, Option, none, some, List, [], ◌∷◌, ◌++◌, map,
  Text, codes, text_eq, one_of, has_prefix, has_suffix, is_empty, length, drop, drop_last,
  trim_space, to_lower, cut, split, ltb, ◌==◌, if◌then◌else◌,
}
use money_insighter.Topper.Catalog.{Relation, Column, column}
use money_insighter.Topper.Query.Types.{
  Op, eq, op_in, op_is, binary_op, is_text_op, Cond, Options, Result, ok, err, ◌>>=◌, rewrap,
  bad_request, unknown_column, denied_column, repeated_select, bad_term, malformed_filter,
  empty_select, bad_toggle, empty_in, no_operator, not_parenthesised, empty_or, text_column_needed,
  too_many_values, at_key, in_or,
}

abbrev open_column : Text → Option Column → Result Column
open_column name none = err (bad_request (unknown_column name))
open_column name (some c) = if c.denied then err (bad_request (denied_column name)) else ok c

unfoldable pub exposed_column : Relation → Text → Result Column
exposed_column rel name = open_column name (column rel name)

-- The loop of `parseSelect`; `seen` holds the names so far.
unfoldable pub select_names : Relation → List Text → List Text → Result (List Text)
select_names rel seen [] = ok []
select_names rel seen (part ∷ parts) = do
  let name = trim_space part
  let rest = select_names rel (name ∷ seen) parts
  c ← exposed_column rel name
  if one_of name seen
      then err (bad_request (repeated_select name))
      else do names ← rest; ok (name ∷ names)

unfoldable pub parse_select : Text → Relation → Result (List Text)
unfolding select_names
parse_select v rel =
    if is_empty (trim_space v)
    then err (bad_request empty_select)
    else select_names rel [] (split b',' v)

unfoldable pub parse_toggle : Text → Result Bool
parse_toggle v =
    let w = to_lower v in
    if one_of w (codes "1" ∷ codes "true" ∷ codes "yes" ∷ codes "on" ∷ [])
    then ok true
    else if one_of w (codes "0" ∷ codes "false" ∷ codes "no" ∷ codes "off" ∷ [])
    then ok false
    else err (bad_request bad_toggle)

abbrev bare_value : Text → Bool → Result Cond
bare_value raw true = ok (record { col = []; op = eq; values = raw ∷ []; not_null = false })
bare_value raw false = err (bad_request no_operator)

abbrev operator_value : Text → Bool → Text → Text → Option Op → Result Cond
operator_value raw allow_bare name val (some o) =
    ok (record { col = []; op = o; values = val ∷ []; not_null = false })
operator_value raw allow_bare name val none =
    if one_of name (codes "in" ∷ codes "is" ∷ [])
    then err (bad_request (malformed_filter name))
    else bare_value raw allow_bare

abbrev cut_value : Text → Bool → Option (Text × Text) → Result Cond
cut_value raw allow_bare none = bare_value raw allow_bare
cut_value raw allow_bare (some (name, val)) =
    operator_value raw allow_bare name val (binary_op name)

unfoldable pub parse_filter : Text → Bool → Result Cond
parse_filter raw allow_bare =
    if has_prefix raw (codes "in.(") && has_suffix raw (codes ")")
    then (let inner = drop_last (drop 4 raw) in
        if is_empty (trim_space inner)
        then err (bad_request empty_in)
        else ok (record {
          col = [];
          op = op_in;
          values = map trim_space (split b',' inner);
          not_null = false;
        }))
    else if text_eq raw (codes "is.null")
    then ok (record { col = []; op = op_is; values = []; not_null = false })
    else if text_eq raw (codes "is.notnull")
    then ok (record { col = []; op = op_is; values = []; not_null = true })
    else cut_value raw allow_bare (cut b'.' raw)

abbrev is_in : Op → Bool
is_in op_in = true
is_in _ = false

-- `checkCond`, which returns the condition that it was given.
unfoldable pub check_cond : Cond → Column → Options → Result Cond
check_cond c col o =
    if is_text_op c.op && not col.text_like
    then err (bad_request (text_column_needed c.col))
    else if is_in c.op && ltb o.max_in_values (length c.values)
    then err (bad_request (too_many_values c.col))
    else ok c

-- The loop of `splitTopLevel`, with the depth and the current part.
unfoldable pub split_top : ℕ → Text → Text → List Text
split_top depth cur [] = cur ∷ []
split_top depth cur (c ∷ s) =
    let cut_here = split_top depth [] s in
    let go_on =
      split_top (if c == b'(' then depth + 1 else if c == b')' then depth - 1 else depth)
        (cur ++ c ∷ []) s in
    if (c == b',') && (depth == 0) then cur ∷ cut_here else go_on

unfoldable pub split_top_level : Text → List Text
unfolding split_top
split_top_level s = split_top 0 [] s

-- One term of an or-group, trimmed and not empty.
abbrev or_term_at : Relation → Options → Text → Option (Text × Text) → Result Cond
or_term_at rel o term none = err (bad_request (in_or (bad_term term)))
or_term_at rel o term (some (name, rest)) =
    if is_empty name then err (bad_request (in_or (bad_term term))) else do
      col ← rewrap in_or (exposed_column rel name)
      c ← rewrap (λ m. in_or (at_key name m)) (parse_filter rest false)
      rewrap in_or (check_cond (record c { col = name }) col o)

unfoldable pub or_term : Relation → Options → Text → Result Cond
unfolding exposed_column parse_filter check_cond
or_term rel o term = or_term_at rel o term (cut b'.' term)

unfoldable pub or_terms : Relation → Options → List Text → Result (List Cond)
or_terms rel o [] = ok []
or_terms rel o (t ∷ ts) = do
  let rest = or_terms rel o ts
  let term = trim_space t
  if is_empty term then rest else do c ← or_term rel o term; cs ← rest; ok (c ∷ cs)

abbrev non_empty_group : List Cond → Result (List Cond)
non_empty_group [] = err (bad_request empty_or)
non_empty_group (c ∷ cs) = ok (c ∷ cs)

unfoldable pub parse_or_group : Text → Relation → Options → Result (List Cond)
parse_or_group raw rel o =
    if not (has_prefix raw (codes "(")) || not (has_suffix raw (codes ")"))
    then err (bad_request not_parenthesised)
    else do group ← or_terms rel o (split_top_level (drop_last (drop 1 raw))); non_empty_group group
