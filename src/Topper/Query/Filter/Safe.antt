-- ===== src/Topper/Query/Filter/Safe.antt =====
-- What a parsed filter, select list or or-group promises about the relation's columns.
use money_insighter.Prelude.{
  ℕ, ◌≤◌, ◌≡◌, ◌≢◌, refl, arith, Bool, true, false, Option, none, some, List, [], ◌∷◌, ◌++◌, map,
  Text, codes, length, one_of, All, split, split_from, trim_space, is_empty, cut, drop, drop_last,
  has_prefix, has_suffix, text_eq, ◌&&◌, ◌||◌, not, ltb,
}
use money_insighter.Topper.Catalog.{Relation, Column, column}
use money_insighter.Topper.Query.Types.{
  Op, op_in, op_is, binary_op, is_text_op, Cond, Options, in_or, at_key, Ensures, returned, failed,
  Ensures-bind, Ensures-rewrap, Ensures-map, Ensures-if,
}
use money_insighter.Topper.Query.Filter.{
  split_top_level, exposed_column, open_column, select_names, parse_select, parse_filter,
  check_cond, or_term, or_term_at, or_terms, parse_or_group, non_empty_group, bare_value,
  operator_value, cut_value, is_in,
}

-- The name is that of a column which the API may show.
abbrev pub IsExposed : Relation → Text → Column → Type 0
IsExposed rel name c = (column rel name ≡ some c) × (c.denied ≡ false)

abbrev pub HasArity : Op → List Text → Type 0
HasArity op_is vs = vs ≡ []
HasArity op_in vs = 1 ≤ length vs
HasArity _ vs = length vs ≡ 1

-- A condition that may go into SQL: an exposed column, a text operator on a text column only, and as
-- many values as the operator takes.
pub record IsSafeCond (rel : Relation) (o : Options) (c : Cond) : Type 0 where
  pub on : Column
  pub shown : IsExposed rel c.col on
  pub text_ok : is_text_op c.op ≡ true → on.text_like ≡ true
  pub arity : HasArity c.op c.values
  pub few : is_in c.op ≡ true → length c.values ≤ o.max_in_values

pub exposed_column_lem :
    (rel : Relation) (name : Text) → Ensures (IsExposed rel name) (exposed_column rel name)
unfolding exposed_column
exposed_column_lem rel name = go (column rel name) refl
  where
    go :
        (m : Option Column)
        → column rel name ≡ m
        → Ensures (IsExposed rel name) (open_column name m)
    go none e = failed
    go (some c) e = Ensures-if c.denied (λ d. failed) (λ d. returned (e, d))

length-map : (f : Text → Text) (ts : List Text) → length (map f ts) ≡ length ts
length-map f [] = refl
length-map f (t ∷ ts) = ground (arith, length-map f ts)

split_from-pos : (sep : ℕ) (cur s : Text) → 1 ≤ length (split_from sep cur s)
unfolding split_from
split_from-pos sep cur [] = omega arith
split_from-pos sep cur (c ∷ s) = ground (arith, split_from-pos sep (cur ++ c ∷ []) s)

binary_op-arity : (s v : Text) (op : Op) → binary_op s ≡ some op → HasArity op (v ∷ [])
unfolding binary_op
binary_op-arity s v op h = ground arith

abbrev Arity : Cond → Type 0
Arity c = HasArity c.op c.values

bare_value-Arity : (raw : Text) (bare : Bool) → Ensures Arity (bare_value raw bare)
bare_value-Arity raw true = returned refl
bare_value-Arity raw false = failed

cut_value-Arity :
    (raw : Text) (bare : Bool) (m : Option (Text × Text)) → Ensures Arity (cut_value raw bare m)
cut_value-Arity raw bare none = bare_value-Arity raw bare
cut_value-Arity raw bare (some (name, val)) = go (binary_op name) refl
  where
    go : (m : Option Op) → binary_op name ≡ m → Ensures Arity (operator_value raw bare name val m)
    go (some op) e = returned (binary_op-arity name val op e)
    go none e =
        Ensures-if (one_of name (codes "in" ∷ codes "is" ∷ [])) (λ _. failed)
          (λ _. bare_value-Arity raw bare)

pub parse_filter-Arity : (raw : Text) (bare : Bool) → Ensures Arity (parse_filter raw bare)
unfolding parse_filter split
parse_filter-Arity raw bare =
    let inner = drop_last (drop 4 raw) in
    let listed : HasArity op_in (map trim_space (split_from b',' [] inner)) =
      omega
        (arith, length-map trim_space (split_from b',' [] inner), split_from-pos b',' [] inner) in
    Ensures-if (has_prefix raw (codes "in.(") && has_suffix raw (codes ")"))
      (λ _. Ensures-if (is_empty (trim_space inner)) (λ _. failed) (λ _. returned listed))
      (λ _.
        Ensures-if (text_eq raw (codes "is.null")) (λ _. returned refl)
          (λ _.
            Ensures-if (text_eq raw (codes "is.notnull")) (λ _. returned refl)
              (λ _. cut_value-Arity raw bare (cut b'.' raw))))

-- A condition that passes `checkCond` on an exposed column is safe.
pub check_cond-IsSafeCond :
    (rel : Relation) (c : Cond) (col : Column) (o : Options)
    → IsExposed rel c.col col
    → Arity c
    → Ensures (IsSafeCond rel o) (check_cond c col o)
unfolding check_cond
check_cond-IsSafeCond rel c col o shown arity =
    Ensures-if (is_text_op c.op && not col.text_like) (λ _. failed)
      (λ text.
        Ensures-if (is_in c.op && ltb o.max_in_values (length c.values)) (λ _. failed)
          (λ few. returned (record {
            on = col;
            shown = shown;
            text_ok = λ e. ground arith;
            arity = arity;
            few = λ e. ground arith;
          })))

or_term-IsSafeCond :
    (rel : Relation) (o : Options) (term : Text) → Ensures (IsSafeCond rel o) (or_term rel o term)
unfolding or_term
or_term-IsSafeCond rel o term = go (cut b'.' term)
  where
    go : (m : Option (Text × Text)) → Ensures (IsSafeCond rel o) (or_term_at rel o term m)
    go none = failed
    go (some (name, rest)) =
        Ensures-if (is_empty name) (λ _. failed)
          (λ _. Ensures-bind (Ensures-rewrap in_or (exposed_column_lem rel name)) (λ col shown.
            Ensures-bind
              (Ensures-rewrap (λ m. in_or (at_key name m)) (parse_filter-Arity rest false))
              (λ c arity.
                Ensures-rewrap in_or
                  (check_cond-IsSafeCond rel (record c { col = name }) col o shown arity))))

or_terms-IsSafeCond :
    (rel : Relation) (o : Options) (ts : List Text)
    → Ensures (All (IsSafeCond rel o)) (or_terms rel o ts)
unfolding or_terms
or_terms-IsSafeCond rel o [] = returned tt
or_terms-IsSafeCond rel o (t ∷ ts) =
    let ih = or_terms-IsSafeCond rel o ts in
    Ensures-if (is_empty (trim_space t)) (λ _. ih)
      (λ _.
        Ensures-bind (or_term-IsSafeCond rel o (trim_space t))
          (λ c sc. Ensures-bind ih (λ cs scs. returned (sc, scs))))

-- A group that is returned has a term, and its terms are safe.
pub record IsSafeGroup (rel : Relation) (o : Options) (g : List Cond) : Type 0 where
  pub some_term : g ≢ []
  pub terms : All (IsSafeCond rel o) g

pub parse_or_group-IsSafeGroup :
    (raw : Text) (rel : Relation) (o : Options)
    → Ensures (IsSafeGroup rel o) (parse_or_group raw rel o)
unfolding parse_or_group
parse_or_group-IsSafeGroup raw rel o =
    Ensures-if (not (has_prefix raw (codes "(")) || not (has_suffix raw (codes ")"))) (λ _. failed)
      (λ _. Ensures-bind (or_terms-IsSafeCond rel o (split_top_level (drop_last (drop 1 raw)))) go)
  where
    go :
        (g : List Cond) → All (IsSafeCond rel o) g → Ensures (IsSafeGroup rel o) (non_empty_group g)
    go [] h = failed
    go (c ∷ cs) h = returned (record { some_term = λ e. cc; terms = h })

-- A selected name is that of an exposed column.
abbrev pub IsShown : Relation → Text → Type 0
IsShown rel name = (c : Column) × (column rel name ≡ some c) × (c.denied ≡ false)

abbrev pub Distinct : List Text → List Text → Type 0
Distinct seen [] = Unit
Distinct seen (n ∷ ns) = (one_of n seen ≡ false) × Distinct (n ∷ seen) ns

pub record IsSafeSelect (rel : Relation) (ns : List Text) : Type 0 where
  pub shown : All (IsShown rel) ns
  pub distinct : Distinct [] ns

select_names_lem :
    (rel : Relation) (seen parts : List Text)
    → Ensures (λ ns. All (IsShown rel) ns × Distinct seen ns) (select_names rel seen parts)
unfolding select_names
select_names_lem rel seen [] = returned (tt, tt)
select_names_lem rel seen (part ∷ parts) =
    let name = trim_space part in
    let ih = select_names_lem rel (name ∷ seen) parts in
    Ensures-bind (exposed_column_lem rel name) (λ c shown.
      Ensures-if (one_of name seen) (λ _. failed)
        (λ fresh.
          Ensures-bind ih (λ ns rest. returned (((c, shown.0, shown.1), rest.0), (fresh, rest.1)))))

pub parse_select-IsSafeSelect :
    (v : Text) (rel : Relation) → Ensures (IsSafeSelect rel) (parse_select v rel)
unfolding parse_select
parse_select-IsSafeSelect v rel =
    Ensures-if (is_empty (trim_space v)) (λ _. failed)
      (λ _.
        Ensures-map (λ ns h. record { shown = h.0; distinct = h.1 })
          (select_names_lem rel [] (split b',' v)))
