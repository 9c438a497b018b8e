-- ===== src/Topper/Query/Grammar/Safe.antt =====
-- What `Parse` of postgres-topper/internal/query/grammar.go accepts.
use money_insighter.Prelude.{
  ◌≤◌, ◌≡◌, true, Option, none, some, List, [], ◌∷◌, ◌++◌, Text, codes, All-append, lookup, sort,
}
use money_insighter.Topper.Catalog.{Relation, Column, has_toggle}
use money_insighter.Topper.Query.Types.{
  Params, Options, Result, ok, Ensures, returned, Ensures-bind, Ensures-rewrap, Ensures-ok,
  Ensures-if, Ensures-any, rewrap, at_key, toggle_key,
}
use money_insighter.Topper.Query.Filter.{parse_toggle}
use money_insighter.Topper.Query.Filter.Safe.{
  IsSafeCond, exposed_column_lem, parse_filter-Arity, check_cond-IsSafeCond, IsExposed,
}
use money_insighter.Topper.Query.Grammar.{
  Values, single_at, on_value, take_select, take_order_by, take_order, take_limit, take_offset,
  take_count, all_values, take_filters, toggle_to, take_key, take_keys, filter_keys, initial,
  reserved_key, parse,
}
use money_insighter.Topper.Query.Grammar.Reserved.{
  IsSafe, take_select-IsSafe, take_order_by-IsSafe, take_order-IsSafe, take_limit-IsSafe,
  take_offset-IsSafe, take_count-IsSafe, take_groups-IsSafe,
}

module _ (rel : Relation) (o : Options) where
  take_filters-IsSafe :
      (key : Text) (col : Column) (vs : List Text) (p : Params)
      → IsExposed rel key col
      → IsSafe rel o p
      → Ensures (IsSafe rel o) (take_filters rel o key col vs p)
  unfolding take_filters
  take_filters-IsSafe key col [] p shown h = returned h
  take_filters-IsSafe key col (v ∷ vs) p shown h =
      Ensures-bind (Ensures-rewrap (at_key key) (parse_filter-Arity v true)) (λ c arity.
        Ensures-bind (check_cond-IsSafeCond rel (record c { col = key }) col o shown arity)
          (λ d safe.
            take_filters-IsSafe key col vs (record p { conds = p.conds ++ d ∷ [] }) shown
              (record {
                selected = h.selected;
                conds = All-append (IsSafeCond rel o) p.conds (d ∷ []) h.conds (safe, tt);
                groups = h.groups;
                ordered = h.ordered;
                limit_pos = h.limit_pos;
                limit_max = h.limit_max;
              })))

  toggle_to-IsSafe :
      (key : Text) (p : Params) (m : Option Text)
      → IsSafe rel o p
      → Ensures (IsSafe rel o) (toggle_to key p m)
  toggle_to-IsSafe key p none h = returned h
  toggle_to-IsSafe key p (some v) h =
      Ensures-bind (Ensures-any (rewrap (λ m. toggle_key key) (parse_toggle v))) (λ b _.
        returned (record {
          selected = h.selected;
          conds = h.conds;
          groups = h.groups;
          ordered = h.ordered;
          limit_pos = h.limit_pos;
          limit_max = h.limit_max;
        }))

  take_key-IsSafe :
      (q : Values) (key : Text) (p : Params)
      → IsSafe rel o p
      → Ensures (IsSafe rel o) (take_key q rel o key p)
  unfolding take_key
  take_key-IsSafe q key p h =
      Ensures-if (has_toggle rel key)
        (λ _.
          Ensures-bind (Ensures-any (single_at key (lookup key q)))
            (λ v _. toggle_to-IsSafe key p v h))
        (λ _.
          Ensures-bind (exposed_column_lem rel key)
            (λ col shown. take_filters-IsSafe key col (all_values (lookup key q)) p shown h))

  take_keys-IsSafe :
      (q : Values) (ks : List Text) (p : Params)
      → IsSafe rel o p
      → Ensures (IsSafe rel o) (take_keys q rel o ks p)
  unfolding take_keys
  take_keys-IsSafe q [] p h = returned h
  take_keys-IsSafe q (k ∷ ks) p h =
      Ensures-bind (take_key-IsSafe q k p h) (λ p' h'. take_keys-IsSafe q ks p' h')

  reserved_key-IsSafe :
      (q : Values) (key : Text) (f : Params → Text → Result Params) (p : Params)
      → ((v : Text) → IsSafe rel o p → Ensures (IsSafe rel o) (f p v))
      → IsSafe rel o p
      → Ensures (IsSafe rel o) (reserved_key q key f p)
  unfolding reserved_key
  reserved_key-IsSafe q key f p step h =
      Ensures-bind (Ensures-any (single_at key (lookup key q))) (λ v _. go v)
    where
      go : (m : Option Text) → Ensures (IsSafe rel o) (on_value m (f p) p)
      go none = returned h
      go (some v) = step v h

  initial-IsSafe :
      1 ≤ o.default_limit → o.default_limit ≤ o.max_limit → IsSafe rel o (initial rel o)
  unfolding initial
  initial-IsSafe low high = record {
    selected = tt;
    conds = tt;
    groups = tt;
    ordered = tt;
    limit_pos = low;
    limit_max = high;
  }

  parse-Ensures :
      (q : Values)
      → 1 ≤ o.default_limit
      → o.default_limit ≤ o.max_limit
      → Ensures (IsSafe rel o) (parse q rel o)
  unfolding parse
  parse-Ensures q low high =
      Ensures-bind
        (reserved_key-IsSafe q (codes "select") (take_select rel) (initial rel o)
          (take_select-IsSafe rel o (initial rel o)) (initial-IsSafe low high))
        (λ p1 h1.
          Ensures-bind
            (reserved_key-IsSafe q (codes "order_by") (take_order_by rel) p1
              (take_order_by-IsSafe rel o p1) h1)
            (λ p2 h2.
              Ensures-bind
                (reserved_key-IsSafe q (codes "order") take_order p2 (take_order-IsSafe rel o p2)
                  h2)
                (λ p3 h3.
                  Ensures-bind
                    (reserved_key-IsSafe q (codes "limit") (take_limit o) p3
                      (take_limit-IsSafe rel o p3) h3)
                    (λ p4 h4.
                      Ensures-bind
                        (reserved_key-IsSafe q (codes "offset") take_offset p4
                          (take_offset-IsSafe rel o p4) h4)
                        (λ p5 h5.
                          Ensures-bind
                            (reserved_key-IsSafe q (codes "count") take_count p5
                              (take_count-IsSafe rel o p5) h5)
                            (λ p6 h6.
                              Ensures-bind
                                (take_groups-IsSafe rel o (all_values (lookup (codes "or") q)) p6
                                  h6)
                                (λ p7 h7. take_keys-IsSafe q (sort (filter_keys q)) p7 h7)))))))

-- When the default limit lies between 1 and the maximum, a request that `Parse` accepts selects,
-- filters and orders by exposed columns only (each selected once), uses LIKE and ILIKE on text
-- columns only, gives each operator as many values as it takes and `in` at most the maximum, has
-- no empty or-group, and its limit lies between 1 and the maximum.
pub parse-IsSafe :
    (q : Values) (rel : Relation) (o : Options) (p : Params)
    → 1 ≤ o.default_limit
    → o.default_limit ≤ o.max_limit
    → parse q rel o ≡ ok p
    → IsSafe rel o p
parse-IsSafe q rel o p low high e = Ensures-ok (parse-Ensures rel o q low high) e
