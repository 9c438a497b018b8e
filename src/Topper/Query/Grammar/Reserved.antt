-- ===== src/Topper/Query/Grammar/Reserved.antt =====
-- What the reserved keys of a request may set (`Parse` of postgres-topper/internal/query/grammar.go).
use money_insighter.Prelude.{
  ◌≤◌, arith, ◌||◌, Option, none, some, List, [], ◌∷◌, ◌++◌, Text, codes, text_eq, one_of, to_lower,
  All, All-append, ℤ, pos, negsuc, atoi, ltb,
}
use money_insighter.Topper.Catalog.{Relation, Order}
use money_insighter.Topper.Query.Types.{
  Params, Options, Ensures, returned, failed, Ensures-bind, Ensures-if,
}
use money_insighter.Topper.Query.Filter.Safe.{
  IsShown, IsSafeSelect, IsSafeCond, IsSafeGroup, exposed_column_lem, parse_or_group-IsSafeGroup,
  parse_select-IsSafeSelect,
}
use money_insighter.Topper.Query.Grammar.{
  take_select, take_order_by, order_to, take_order, limit_to, take_limit, offset_to, take_offset,
  take_count, take_groups,
}

abbrev pub Each {ℓ} : {A : Type 0} → (A → Type ℓ) → Option A → Type ℓ
Each P none = Unit
Each P (some a) = P a

-- What SQL generation may rely on.
pub record IsSafe (rel : Relation) (o : Options) (p : Params) : Type 0 where
  pub selected : Each (IsSafeSelect rel) p.select
  pub conds : All (IsSafeCond rel o) p.conds
  pub groups : All (IsSafeGroup rel o) p.or_groups
  pub ordered : Each (λ (t : Order). IsShown rel t.col) p.order
  pub limit_pos : 1 ≤ p.limit
  pub limit_max : p.limit ≤ o.max_limit

module _ (rel : Relation) (o : Options) where
  pub take_select-IsSafe :
      (p : Params) (v : Text) → IsSafe rel o p → Ensures (IsSafe rel o) (take_select rel p v)
  unfolding take_select
  take_select-IsSafe p v h = Ensures-bind (parse_select-IsSafeSelect v rel) (λ names safe.
      returned (record {
        selected = safe;
        conds = h.conds;
        groups = h.groups;
        ordered = h.ordered;
        limit_pos = h.limit_pos;
        limit_max = h.limit_max;
      }))

  pub take_order_by-IsSafe :
      (p : Params) (v : Text) → IsSafe rel o p → Ensures (IsSafe rel o) (take_order_by rel p v)
  unfolding take_order_by
  take_order_by-IsSafe p v h = Ensures-bind (exposed_column_lem rel v) (λ c shown.
      returned (record {
        selected = h.selected;
        conds = h.conds;
        groups = h.groups;
        ordered = (c, shown.0, shown.1);
        limit_pos = h.limit_pos;
        limit_max = h.limit_max;
      }))

  order_to-IsSafe :
      (p : Params) (m : Option Order) (v : Text)
      → Each (λ (t : Order). IsShown rel t.col) m
      → IsSafe rel o p
      → Ensures (IsSafe rel o) (order_to p m v)
  order_to-IsSafe p none v hm h = failed
  order_to-IsSafe p (some t) v hm h =
      Ensures-if (text_eq (to_lower v) (codes "asc")) (λ _. returned h)
        (λ _.
          Ensures-if (text_eq (to_lower v) (codes "desc"))
            (λ _. returned (record {
              selected = h.selected;
              conds = h.conds;
              groups = h.groups;
              ordered = hm;
              limit_pos = h.limit_pos;
              limit_max = h.limit_max;
            }))
            (λ _. failed))

  pub take_order-IsSafe :
      (p : Params) (v : Text) → IsSafe rel o p → Ensures (IsSafe rel o) (take_order p v)
  unfolding take_order
  take_order-IsSafe p v h = order_to-IsSafe p p.order v h.ordered h

  limit_to-IsSafe :
      (p : Params) (m : Option ℤ) → IsSafe rel o p → Ensures (IsSafe rel o) (limit_to o p m)
  limit_to-IsSafe p none h = failed
  limit_to-IsSafe p (some (negsuc n)) h = failed
  limit_to-IsSafe p (some (pos n)) h =
      Ensures-if (ltb n 1 || ltb o.max_limit n) (λ _. failed)
        (λ within. returned (record {
          selected = h.selected;
          conds = h.conds;
          groups = h.groups;
          ordered = h.ordered;
          limit_pos = ground arith;
          limit_max = ground arith;
        }))

  pub take_limit-IsSafe :
      (p : Params) (v : Text) → IsSafe rel o p → Ensures (IsSafe rel o) (take_limit o p v)
  unfolding take_limit
  take_limit-IsSafe p v h = limit_to-IsSafe p (atoi v) h

  offset_to-IsSafe :
      (p : Params) (m : Option ℤ) → IsSafe rel o p → Ensures (IsSafe rel o) (offset_to p m)
  offset_to-IsSafe p none h = failed
  offset_to-IsSafe p (some (negsuc n)) h = failed
  offset_to-IsSafe p (some (pos n)) h = returned (record {
    selected = h.selected;
    conds = h.conds;
    groups = h.groups;
    ordered = h.ordered;
    limit_pos = h.limit_pos;
    limit_max = h.limit_max;
  })

  pub take_offset-IsSafe :
      (p : Params) (v : Text) → IsSafe rel o p → Ensures (IsSafe rel o) (take_offset p v)
  unfolding take_offset
  take_offset-IsSafe p v h = offset_to-IsSafe p (atoi v) h

  pub take_count-IsSafe :
      (p : Params) (v : Text) → IsSafe rel o p → Ensures (IsSafe rel o) (take_count p v)
  unfolding take_count
  take_count-IsSafe p v h =
      Ensures-if (text_eq (to_lower v) (codes "exact"))
        (λ _. returned (record {
          selected = h.selected;
          conds = h.conds;
          groups = h.groups;
          ordered = h.ordered;
          limit_pos = h.limit_pos;
          limit_max = h.limit_max;
        }))
        (λ _.
          Ensures-if (one_of (to_lower v) (codes "none" ∷ [] ∷ [])) (λ _. returned h) (λ _. failed))

  pub take_groups-IsSafe :
      (vs : List Text) (p : Params)
      → IsSafe rel o p
      → Ensures (IsSafe rel o) (take_groups rel o vs p)
  unfolding take_groups
  take_groups-IsSafe [] p h = returned h
  take_groups-IsSafe (v ∷ vs) p h = Ensures-bind (parse_or_group-IsSafeGroup v rel o) (λ group safe.
      take_groups-IsSafe vs (record p { or_groups = p.or_groups ++ group ∷ [] })
        (record {
          selected = h.selected;
          conds = h.conds;
          groups = All-append (IsSafeGroup rel o) p.or_groups (group ∷ []) h.groups (safe, tt);
          ordered = h.ordered;
          limit_pos = h.limit_pos;
          limit_max = h.limit_max;
        }))
