-- ===== src/Examples/Topper.antt =====
-- Runs of postgres-topper's catalog and query builders.
use money_insighter.Prelude.{
  ◌≡◌, ◌≢◌, ◌⊎◌, refl, arith, true, false, some, [], ◌∷◌, ◌++◌, Text, codes, assign, lookup,
  text_eq, one_of, to_lower, trim_space, split, cut, has_prefix, has_suffix, drop_last, sort,
  sort_in, text_le, atoi, itoa, join,
}
use money_insighter.Topper.Catalog.{
  Relation, Column, Order, Toggle, Loaded, read, table, native, text, column, new_relation, index,
}
use money_insighter.Topper.Catalog
use money_insighter.Topper.Catalog.Ident.{read_ident, read-quote_ident}
use money_insighter.Topper.Catalog.Index.{IsIndexed, new_relation-IsIndexed}
use money_insighter.Topper.Query.Types.{
  Params, Result, ok, err, default_options, Error, gte, lt, op_in, op_is, delete_unfiltered,
  denied_column, bad_request,
}
use money_insighter.Topper.Query.Types
use money_insighter.Topper.Query.Filter
use money_insighter.Topper.Query.Select
use money_insighter.Topper.Query.Grammar.{Values, parse}
use money_insighter.Topper.Query.Grammar.Reserved.{IsSafe}
use money_insighter.Topper.Query.Grammar.Safe.{parse-IsSafe}
use money_insighter.Topper.Query.Projection.{projection}
use money_insighter.Topper.Query.Select.{
  Statement, build_select, build_count, build_delete, order_terms, has_term, base_terms, str, int,
}
use money_insighter.Topper.Query.Select.Pieces.{number, binds, all_binds, join_pieces}
use money_insighter.Topper.Query.Select.Refines.{
  HasValues, IsSafe-HasValues, select_pieces, user_pieces, build_select-pieces, build_delete-cases,
}
use money_insighter.Topper.Query.Select.Erase.{erase, sql_of, build_select-erase}

abbrev pub id_column : Column
id_column = record {
  name = codes "id";
  udt = codes "text";
  udt_schema = codes "pg_catalog";
  ordinal = 1;
  nullable = false;
  writable = true;
  denied = false;
  text_like = true;
  value = native;
}

abbrev amount_column : Column
amount_column = record {
  name = codes "amount";
  udt = codes "numeric";
  udt_schema = codes "pg_catalog";
  ordinal = 2;
  nullable = false;
  writable = true;
  denied = false;
  text_like = false;
  value = text;
}

abbrev token_column : Column
token_column = record {
  name = codes "token";
  udt = codes "bytea";
  udt_schema = codes "pg_catalog";
  ordinal = 3;
  nullable = true;
  writable = true;
  denied = true;
  text_like = false;
  value = native;
}

abbrev raw_items : Relation
raw_items = record {
  name = codes "items";
  kind = table;
  mode = read;
  schema = codes "public";
  table_name = codes "items";
  source = codes "\"public\".\"items\"";
  columns = id_column ∷ amount_column ∷ token_column ∷ [];
  pk = codes "id" ∷ [];
  tiebreak = codes "id" ∷ [];
  default_order = [];
  forced = [];
  toggles = [];
  cacheable = true;
  by_name = [];
}

unfoldable pub items : Relation
unfolding index
items = index raw_items

new_items : new_relation raw_items ≡ Loaded.ok items
unfolding new_relation items assign lookup text_eq
new_items = refl

pub items-IsIndexed : IsIndexed items
items-IsIndexed = new_relation-IsIndexed raw_items items new_items

abbrev request : Values
request =
    (codes "amount", (codes "gte.10", []))
    ∷ (codes "id", (codes "in.(a,b)", []))
    ∷ (codes "limit", (codes "5", []))
    ∷ (codes "order_by", (codes "amount", []))
    ∷ (codes "order", (codes "DESC", []))
    ∷ (codes "or", (codes "(amount.lt.3,id.is.null)", []))
    ∷ (codes "select", (codes "id, amount", []))
    ∷ []

abbrev params : Params
params = record {
  select = some (codes "id" ∷ codes "amount" ∷ []);
  conds =
      record { col = codes "amount"; op = gte; values = codes "10" ∷ []; not_null = false }
      ∷ record {
        col = codes "id";
        op = op_in;
        values = codes "a" ∷ codes "b" ∷ [];
        not_null = false;
      }
      ∷ [];
  or_groups =
      (record { col = codes "amount"; op = lt; values = codes "3" ∷ []; not_null = false }
        ∷ record { col = codes "id"; op = op_is; values = []; not_null = false }
        ∷ [])
      ∷ [];
  order = some (record { col = codes "amount"; desc = true });
  limit = 5;
  offset = 0;
  count = false;
  toggles = [];
}

parse-request : parse request items default_options ≡ ok params
unfolding parse items assign lookup text_eq one_of to_lower trim_space split cut has_prefix
    has_suffix drop_last sort sort_in text_le atoi Catalog.column Catalog.has_toggle
    Filter.parse_select Filter.split_top_level Filter.exposed_column Filter.parse_or_group
    Filter.parse_filter Filter.check_cond Types.binary_op Filter.or_terms Filter.or_term
parse-request = refl

denied_select :
    parse ((codes "select", (codes "token", [])) ∷ []) items default_options
    ≡ err (bad_request (denied_column (codes "token")))
unfolding parse items assign lookup text_eq one_of trim_space split Catalog.column
    Filter.parse_select Filter.exposed_column
denied_select = refl

select_request :
    sql_of (build_select items params)
    ≡ some (
        codes
          "SELECT \"id\", \"amount\"::text AS \"amount\" FROM \"public\".\"items\" WHERE \"amount\" >= $1 AND \"id\" IN ($2, $3) AND (\"amount\" < $4 OR \"id\" IS NULL) ORDER BY \"amount\" DESC, \"id\" ASC LIMIT $5 OFFSET $6")
unfolding build_select items assign lookup text_eq itoa join Catalog.column Catalog.quote_ident
    projection Select.write_where Select.user_predicates Select.off_predicates Select.write_order_by
    Select.order_terms Select.term_texts Types.sql_op
select_request = refl

-- The theorems at these inputs.
parse-IsSafe_example : IsSafe items default_options params
parse-IsSafe_example =
    parse-IsSafe request items default_options params (omega arith) (omega arith) parse-request

read-quote_ident_example :
    read_ident (Catalog.quote_ident (codes "a\"b") ++ codes " = $1")
    ≡ some (codes "a\"b", codes " = $1")
read-quote_ident_example = read-quote_ident (codes "a\"b") (codes " = $1") (omega arith)

params-HasValues : HasValues params
params-HasValues =
    IsSafe-HasValues items default_options params
      (parse-IsSafe request items default_options params (omega arith) (omega arith) parse-request)

build_select-pieces_example :
    build_select items params
    ≡ some (
      record {
        sql = number 0 (select_pieces items params);
        args = binds (select_pieces items params);
      },
      (projection items params.select).1,
    )
build_select-pieces_example = build_select-pieces items params params-HasValues

build_select-erase_example :
    (sql : Text) × (sql_of (build_select items params) ≡ some sql)
    × (sql_of (build_select items (erase params)) ≡ some sql)
build_select-erase_example = build_select-erase items params params-HasValues

build_delete-cases_example :
    ((params.conds ≡ [])
      × (params.or_groups ≡ [])
      × (build_delete items params ≡ some (err (bad_request delete_unfiltered))))
    ⊎ ((user_pieces params ≢ [])
        × (build_delete items params
            ≡ some (
                ok (record {
                  sql =
                      codes "DELETE FROM "
                      ++ (items.source
                          ++ (codes " WHERE "
                              ++ number 0 (join_pieces (codes " AND ") (user_pieces params))));
                  args = all_binds (user_pieces params);
                }))))
build_delete-cases_example = build_delete-cases items params params-HasValues
