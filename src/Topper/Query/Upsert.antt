-- ===== src/Topper/Query/Upsert.antt =====
-- INSERT … ON CONFLICT … RETURNING: `BuildUpsert` of postgres-topper/internal/query/upsert.go. A
-- decoded row is its keys and values; the code meets the keys in any order, here in that of the list.
pub mod Refines
use money_insighter.Prelude.{
  ℕ, suc, ◌≡◌, Bool, true, false, ◌||◌, ◌&&◌, not, Option, none, some, List, [], ◌∷◌, ◌++◌, Text,
  codes, text_eq, one_of, is_empty, length, join, lookup, itoa, keep_if, map, any, if◌then◌else◌,
}
use money_insighter.Topper.Catalog.{Relation, Column, column, quote_ident}
use money_insighter.Topper.Query.Types.{
  Result, ok, err, ◌>>=◌, rewrap, bad_request, row_unknown_column, row_no_columns, row_column,
}
use money_insighter.Topper.Query.Projection.{Projected, projection}
use money_insighter.Topper.Query.Select.{Arg, null, str, Statement}
use money_insighter.Topper.Query.Values.{Json, normalize_arg}

abbrev pub Row : Type 0
Row = List (Text × Json)

abbrev pub refused : Option Column → Bool
refused none = true
refused (some c) = c.denied

-- The loop over the keys of the row.
unfoldable pub check_keys : Relation → ℕ → Row → Result (Unit {0})
unfolding column
check_keys rel i [] = ok tt
check_keys rel i ((key, v) ∷ row) =
    let rest = check_keys rel i row in
    if refused (column rel key) then err (bad_request (row_unknown_column i key)) else rest

abbrev pub is_present : Option Json → Bool
is_present none = false
is_present (some v) = true

unfoldable pub written_columns : Relation → Row → List Column
unfolding lookup
written_columns rel row = keep_if (λ c. is_present (lookup c.name row) && c.writable) rel.columns

-- `row[c.Name]`; a missing key gives nil.
abbrev pub value_of : Option Json → Json
value_of none = Json.null
value_of (some v) = v

abbrev pub to_arg : Option Text → Arg
to_arg none = null
to_arg (some s) = str s

unfoldable pub arguments : ℕ → Row → List Column → Result (List Arg)
unfolding normalize_arg lookup
arguments i row [] = ok []
arguments i row (c ∷ cs) = do
  v ← rewrap (row_column i c.name) (normalize_arg (value_of (lookup c.name row)) c)
  rest ← arguments i row cs
  ok (to_arg v ∷ rest)

abbrev or_catalog : Text → Text
or_catalog [] = codes "pg_catalog"
or_catalog (c ∷ s) = c ∷ s

unfoldable pub type_name : Column → Text
unfolding quote_ident
type_name c = quote_ident (or_catalog c.udt_schema) ++ (b'.' ∷ quote_ident c.udt)

-- "$" and the position, with the cast to the column's type
unfoldable pub placeholders : ℕ → List Column → List Text
unfolding type_name itoa
placeholders n [] = []
placeholders n (c ∷ cs) =
    (b'$' ∷ (itoa (suc n) ++ (codes "::" ++ type_name c))) ∷ placeholders (suc n) cs

abbrev pub has_column : List Column → Text → Bool
has_column cols name = any (λ c. text_eq c.name name) cols

unfoldable pub has_all : List Column → List Text → Bool
unfolding text_eq
has_all cols [] = true
has_all cols (n ∷ names) = has_column cols n && has_all cols names

-- `q = EXCLUDED.q` for the columns outside the key
unfoldable pub sets : List Text → List Column → List Text
unfolding quote_ident one_of
sets pk [] = []
sets pk (c ∷ cs) =
    let rest = sets pk cs in
    if one_of c.name pk
    then rest
    else (quote_ident c.name ++ (codes " = EXCLUDED." ++ quote_ident c.name)) ∷ rest

abbrev pub action : List Text → Text
action [] = codes "DO NOTHING"
action (s ∷ rest) = codes "DO UPDATE SET " ++ join (codes ", ") (s ∷ rest)

unfoldable pub on_conflict : List Text → List Column → Text
unfolding sets has_all quote_ident
on_conflict pk cols =
    if not (is_empty pk) && has_all cols pk
    then codes " ON CONFLICT ("
      ++ (join (codes ", ") (map quote_ident pk) ++ (codes ") " ++ action (sets pk cols)))
    else []

unfoldable pub upsert_text : Relation → List Column → Text
unfolding on_conflict placeholders quote_ident
upsert_text rel cols =
    codes "INSERT INTO "
    ++ (rel.source
        ++ (codes " ("
            ++ (join (codes ", ") (map (λ c. quote_ident c.name) cols)
                ++ (codes ") VALUES ("
                    ++ (join (codes ", ") (placeholders 0 cols)
                        ++ (codes ")"
                            ++ (on_conflict rel.pk cols
                                ++ (codes " RETURNING "
                                    ++ join (codes ", ") (projection rel none).0))))))))

abbrev pub with_columns : Relation → ℕ → Row → List Column → Result (Statement × List Projected)
with_columns rel i row [] = err (bad_request (row_no_columns i))
with_columns rel i row (c ∷ cs) = do
  args ← arguments i row (c ∷ cs)
  ok (record { sql = upsert_text rel (c ∷ cs); args = args }, (projection rel none).1)

unfoldable pub build_upsert : Relation → ℕ → Row → Result (Statement × List Projected)
unfolding check_keys written_columns arguments upsert_text projection
build_upsert rel i row = do
  checked ← check_keys rel i row
  with_columns rel i row (written_columns rel row)
