-- ===== src/Topper/Catalog.antt =====
-- The registry of relations: postgres-topper/internal/catalog/catalog.go.
pub mod Ident
pub mod Index
use money_insighter.Prelude.{
  ℕ, suc, ◌≡◌, refl, Bool, true, false, ◌||◌, not, Option, none, some, List, [], ◌∷◌, ◌++◌, Text,
  codes, text_eq, one_of, has_prefix, is_empty, length, get_elem?, any, keep_if, lookup, assign,
  ◌==◌, if◌then◌else◌,
}

pub data Mode : Type 0 where
  read readwrite : Mode

pub data Kind : Type 0 where
  table view : Kind

pub data ValueKind : Type 0 where
  native text raw_json : ValueKind

pub record Column : Type 0 where
  pub name : Text
  pub udt : Text
  pub udt_schema : Text
  pub ordinal : ℕ
  pub nullable : Bool
  pub writable : Bool
  pub denied : Bool
  pub text_like : Bool
  pub value : ValueKind

pub record Order : Type 0 where
  pub col : Text
  pub desc : Bool

pub record Toggle : Type 0 where
  pub key : Text
  pub when_off : Text

pub record Relation : Type 0 where
  pub name : Text
  pub kind : Kind
  pub mode : Mode
  pub schema : Text
  pub table_name : Text
  pub source : Text
  pub columns : List Column
  pub pk : List Text
  pub tiebreak : List Text
  pub default_order : List Order
  pub forced : List Text
  pub toggles : List Toggle
  pub cacheable : Bool
  pub by_name : List (Text × ℕ)

unfoldable pub is_array : Column → Bool
is_array c = has_prefix c.udt (codes "_")

abbrev column_at : List Column → Option ℕ → Option Column
column_at cs none = none
column_at cs (some i) = get_elem? cs i

unfoldable pub column : Relation → Text → Option Column
column r name = column_at r.columns (lookup name r.by_name)

unfoldable pub exposed : Relation → List Column
exposed r = keep_if (λ c. not c.denied) r.columns

unfoldable pub has_toggle : Relation → Text → Bool
has_toggle r key = any (λ t. text_eq t.key key) r.toggles

-- The loop of `index`, from position `i` on.
unfoldable pub index_from : ℕ → List (Text × ℕ) → List Column → List (Text × ℕ)
index_from i m [] = m
index_from i m (c ∷ cs) = index_from (suc i) (assign c.name i m) cs

unfoldable pub index : Relation → Relation
unfolding index_from
index r = record r { by_name = index_from 0 [] r.columns }

-- strings.ReplaceAll(s, `"`, `""`)
unfoldable pub double_quotes : Text → Text
double_quotes [] = []
double_quotes (c ∷ s) = let rest = double_quotes s in if c == b'"' then c ∷ c ∷ rest else c ∷ rest

unfoldable pub quote_ident : Text → Text
unfolding double_quotes
quote_ident s = b'"' ∷ (double_quotes s ++ b'"' ∷ [])

unfoldable pub qualified_name : Text → Text → Text
unfolding quote_ident
qualified_name schema name = quote_ident schema ++ (b'.' ∷ quote_ident name)

abbrev text_types : List Text
text_types = codes "text" ∷ codes "varchar" ∷ codes "bpchar" ∷ codes "name" ∷ codes "citext" ∷ []

abbrev native_types : List Text
native_types =
    codes "bool"
    ∷ codes "int2"
    ∷ codes "int4"
    ∷ codes "int8"
    ∷ codes "float4"
    ∷ codes "float8"
    ∷ codes "bytea"
    ∷ codes "timestamptz"
    ∷ []

unfoldable pub classify : Column → Column
unfolding is_array
classify c =
    if one_of c.udt text_types
    then record c { text_like = true; value = native }
    else if one_of c.udt native_types
    then record c { value = native }
    else if one_of c.udt (codes "json" ∷ codes "jsonb" ∷ [])
    then record c { value = raw_json }
    else record c { value = if is_array c then raw_json else text }

-- The errors of `NewRelation`, with what their texts quote.
pub data CatalogError : Type 0 where
  duplicate_columns : Text → CatalogError
  order_not_exposed : Text → Text → CatalogError
  tiebreak_not_exposed : Text → Text → CatalogError

pub data Loaded (A : Type 0) : Type 0 where
  ok : A → Loaded A
  err : CatalogError → Loaded A

-- `c, ok := r.Column(name); !ok || c.Denied`, negated
abbrev is_open : Option Column → Bool
is_open none = false
is_open (some c) = not c.denied

unfoldable pub first_hidden : Relation → List Text → Option Text
unfolding column
first_hidden r [] = none
first_hidden r (n ∷ ns) = if is_open (column r n) then first_hidden r ns else some n

abbrev order_cols : List Order → List Text
order_cols [] = []
order_cols (o ∷ os) = o.col ∷ order_cols os

abbrev check_tiebreak : Relation → Option Text → Loaded Relation
check_tiebreak r none = ok r
check_tiebreak r (some n) = err (tiebreak_not_exposed r.name n)

abbrev check_order : Relation → Option Text → Loaded Relation
check_order r none = check_tiebreak r (first_hidden r r.tiebreak)
check_order r (some n) = err (order_not_exposed r.name n)

unfoldable pub new_relation : Relation → Loaded Relation
unfolding index first_hidden
new_relation r =
    let indexed = index r in
    if length indexed.by_name == length indexed.columns
    then check_order indexed (first_hidden indexed (order_cols indexed.default_order))
    else err (duplicate_columns r.name)
