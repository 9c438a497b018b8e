-- ===== src/Topper/Query/Types.antt =====
-- The data of internal/query: operators (ops.go), conditions and parameters (grammar.go), request
-- errors (errors.go). A message is its format with the arguments that it quotes.
use money_insighter.Prelude.{
  ℕ, ◌≡◌, refl, Bool, true, false, Option, none, some, List, [], Text, codes, text_eq,
  if◌then◌else◌, subst,
}
use money_insighter.Topper.Catalog.{Order}

-- `op_in` and `op_is` are the operators that bind a list and nothing.
pub data Op : Type 0 where
  eq neq gt gte lt lte like ilike op_in op_is : Op

-- The keys of `sqlOps`.
unfoldable pub binary_op : Text → Option Op
binary_op s =
    if text_eq s (codes "eq")
    then some eq
    else if text_eq s (codes "neq")
    then some neq
    else if text_eq s (codes "gt")
    then some gt
    else if text_eq s (codes "gte")
    then some gte
    else if text_eq s (codes "lt")
    then some lt
    else if text_eq s (codes "lte")
    then some lte
    else if text_eq s (codes "like")
    then some like
    else if text_eq s (codes "ilike")
    then some ilike
    else none

-- `sqlOps[op]`: the zero value of a missing key is the empty text.
unfoldable pub sql_op : Op → Text
sql_op eq = codes "="
sql_op neq = codes "<>"
sql_op gt = codes ">"
sql_op gte = codes ">="
sql_op lt = codes "<"
sql_op lte = codes "<="
sql_op like = codes "LIKE"
sql_op ilike = codes "ILIKE"
sql_op op_in = []
sql_op op_is = []

abbrev pub is_text_op : Op → Bool
is_text_op like = true
is_text_op ilike = true
is_text_op _ = false

pub record Cond : Type 0 where
  pub col : Text
  pub op : Op
  pub values : List Text
  pub not_null : Bool

pub record Params : Type 0 where
  pub select : Option (List Text)
  pub conds : List Cond
  pub or_groups : List (List Cond)
  pub order : Option Order
  pub limit : ℕ
  pub offset : ℕ
  pub count : Bool
  pub toggles : List (Text × Bool)

pub record Options : Type 0 where
  pub default_limit : ℕ
  pub max_limit : ℕ
  pub max_in_values : ℕ

abbrev pub default_options : Options
default_options = record { default_limit = 100; max_limit = 1000; max_in_values = 200 }

pub data Msg : Type 0 where
  repeated_key unknown_column denied_column repeated_select bad_term malformed_filter : Text → Msg
  empty_select order_without_column bad_order bad_offset bad_count bad_toggle : Msg
  empty_in no_operator not_parenthesised empty_or delete_unfiltered : Msg
  bad_limit : ℕ → Msg
  text_column_needed too_many_values : Text → Msg
  toggle_key : Text → Msg
  at_key : Text → Msg → Msg
  in_or : Msg → Msg
  row_unknown_column : ℕ → Text → Msg
  row_no_columns : ℕ → Msg
  row_column : ℕ → Text → Msg → Msg
  bad_element not_encodable : Msg

pub record Error : Type 0 where
  pub status : ℕ
  pub msg : Msg

abbrev pub bad_request : Msg → Error
bad_request m = record { status = 400; msg = m }

pub data Result {ℓ} (A : Type ℓ) : Type ℓ where
  ok : A → Result A
  err : Error → Result A

infixl 5 ◌>>=◌
abbrev pub ◌>>=◌ {ℓ κ} : {A : Type ℓ} {B : Type κ} → Result A → (A → Result B) → Result B
ok a >>= f = f a
err e >>= f = err e

-- `fmt` wraps a message: the status is 400 again.
abbrev pub rewrap {ℓ} : {A : Type ℓ} → (Msg → Msg) → Result A → Result A
rewrap w (ok a) = ok a
rewrap w (err e) = err (bad_request (w e.msg))

-- What holds of every result that is returned.
pub data Ensures {ℓ κ} {A : Type ℓ} (P : A → Type κ) : Result A → Type (ℓ ⊔ κ) where
  returned : {a : A} → P a → Ensures P (ok a)
  failed : {e : Error} → Ensures P (err e)

module _ {ℓ κ} {A : Type ℓ} {P : A → Type κ} where
  pub Ensures-bind {μ ν} :
      {B : Type μ} {Q : B → Type ν} {m : Result A} {f : A → Result B}
      → Ensures P m
      → ((a : A) → P a → Ensures Q (f a))
      → Ensures Q (m >>= f)
  Ensures-bind (returned p) pf = pf _ p
  Ensures-bind failed pf = failed

  pub Ensures-rewrap : (w : Msg → Msg) {m : Result A} → Ensures P m → Ensures P (rewrap w m)
  Ensures-rewrap w (returned p) = returned p
  Ensures-rewrap w failed = failed

  pub Ensures-map {μ} :
      {Q : A → Type μ} {m : Result A} → ((a : A) → P a → Q a) → Ensures P m → Ensures Q m
  Ensures-map f (returned p) = returned (f _ p)
  Ensures-map f failed = failed

  pub Ensures-ok : {m : Result A} {a : A} → Ensures P m → m ≡ ok a → P a
  Ensures-ok (returned p) e = subst P (cc e) p
  Ensures-ok failed e = absurd (cc e)

  -- `Ensures` of a test.
  pub Ensures-if :
      (b : Bool) {m n : Result A}
      → (b ≡ true → Ensures P m)
      → (b ≡ false → Ensures P n)
      → Ensures P (if b then m else n)
  Ensures-if true hm hn = hm refl
  Ensures-if false hm hn = hn refl

pub Ensures-any {ℓ} : {A : Type ℓ} (m : Result A) → Ensures (λ _. Unit {0}) m
Ensures-any (ok a) = returned tt
Ensures-any (err e) = failed
