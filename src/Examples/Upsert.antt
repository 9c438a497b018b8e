-- ===== src/Examples/Upsert.antt =====
-- Runs of postgres-topper's upsert on concrete rows.
use money_insighter.Prelude.{List, join, ◌≡◌, refl, true, some, [], ◌∷◌, codes, assign}
use money_insighter.Topper.Catalog.{exposed}
use money_insighter.Topper.Query.Types.{Result, ok, err, bad_request}
use money_insighter.Topper.Query.Types
use money_insighter.Topper.Query.Projection.{Projected}
use money_insighter.Topper.Query.Select.{Statement}
use money_insighter.Topper.Query.Values.{Json, Elements, done, item, array_literal}
use money_insighter.Topper.Query.Values
use money_insighter.Topper.Query.Literals.{
  bare_token, HaveBareNumbers, read_array, between, array_tokens,
}
use money_insighter.Topper.Query.Reread.{read_array-array_literal}
use money_insighter.Topper.Query.Upsert.{Row, build_upsert}
use money_insighter.Topper.Query.Upsert.Refines.{
  IsUpsert, keys, build_upsert-IsUpsert, build_upsert-keys,
}
use money_insighter.Examples.Topper.{items, items-IsIndexed}

abbrev elements : Elements
elements = item (Values.str (codes "a\",b\\")) (
    item (Values.number (codes "1.5"))
      (item Values.null (item (Values.array (item (Values.bool true) done)) done)))

is_literal : array_literal elements ≡ ok (codes "{\"a\\\",b\\\\\",1.5,NULL,{true}}")
unfolding array_literal
is_literal = refl

bare_numbers : HaveBareNumbers elements
unfolding HaveBareNumbers bare_token
bare_numbers = (tt, ((refl, (refl, (refl, (refl, tt))), refl), (tt, ((tt, tt), tt))))

read_array-array_literal_example :
    read_array between (codes "{\"a\\\",b\\\\\",1.5,NULL,{true}}") ≡ some (array_tokens elements)
read_array-array_literal_example =
    read_array-array_literal elements (codes "{\"a\\\",b\\\\\",1.5,NULL,{true}}") bare_numbers
      is_literal

abbrev row : Row
row = (codes "amount", Values.number (codes "1.5")) ∷ (codes "id", Values.str (codes "x")) ∷ []

abbrev other_row : Row
other_row =
    (codes "amount", Values.str (codes "); DROP TABLE items")) ∷ (codes "id", Values.null) ∷ []

abbrev no_statement : Statement × List Projected
no_statement = (record { sql = []; args = [] }, [])

abbrev or_none : Result (Statement × List Projected) → Statement × List Projected
or_none (ok out) = out
or_none (err e) = no_statement

abbrev built : Statement × List Projected
unfolding build_upsert items assign
built = or_none (build_upsert items 0 row)

abbrev other_built : Statement × List Projected
unfolding build_upsert items assign
other_built = or_none (build_upsert items 0 other_row)

is_built : build_upsert items 0 row ≡ ok built
unfolding built assign
is_built = refl

is_other_built : build_upsert items 0 other_row ≡ ok other_built
unfolding other_built assign
is_other_built = refl

refused_key :
    build_upsert items 3 ((codes "token", Values.null) ∷ [])
    ≡ err (bad_request (Types.row_unknown_column 3 (codes "token")))
unfolding build_upsert items assign
refused_key = refl

build_upsert-IsUpsert_example : IsUpsert items row built
build_upsert-IsUpsert_example = build_upsert-IsUpsert items 0 row built items-IsIndexed is_built

same : keys row ≡ keys other_row
unfolding keys
same = refl

build_upsert-keys_example : (built.0.sql ≡ other_built.0.sql) × (built.1 ≡ other_built.1)
build_upsert-keys_example =
    build_upsert-keys items 0 row other_row built other_built items-IsIndexed same is_built
      is_other_built

same_text :
    built.0.sql
    ≡ codes
        "INSERT INTO \"public\".\"items\" (\"id\", \"amount\") VALUES ($1::\"pg_catalog\".\"text\", $2::\"pg_catalog\".\"numeric\") ON CONFLICT (\"id\") DO UPDATE SET \"amount\" = EXCLUDED.\"amount\" RETURNING \"id\", \"amount\"::text AS \"amount\""
unfolding built assign join exposed
same_text = refl
