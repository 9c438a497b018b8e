-- ===== src/Plaidsync/Money.antt =====
-- Exact decimals: plaid-backend-golang/internal/money/amount.go, compare.go, json.go and sql.go. An
-- amount is its canonical text, empty for zero.
pub mod Normal
pub mod Printed
pub mod Reread
pub mod Canonical
pub mod Layout
pub mod Value
pub mod Compare
use Prim.Native.Nat.{max, compare, Ordering}
use money_insighter.Prelude.{
  ℕ, zero, suc, ◌+◌, ◌-◌, ◌*◌, ◌^◌, Bool, true, false, ◌&&◌, ◌||◌, not, Option, none, some, List,
  [], ◌∷◌, ◌++◌, Text, codes, length, is_empty, take, drop, replicate, leb, ltb, ◌==◌,
  if◌then◌else◌, ℤ, pos, negsuc, is_digit, parse_int, drop_last,
}

pub record Amount : Type 0 where
  pub s : Text

abbrev pub zero_amount : Amount
zero_amount = record { s = [] }

abbrev pub push_byte : ℕ → Option (Text × Text) → Option (Text × Text)
push_byte c none = none
push_byte c (some (a, b)) = some (c ∷ a, b)

-- The text before and behind the first byte that passes the test.
unfoldable pub break_at : (ℕ → Bool) → Text → Option (Text × Text)
break_at p [] = none
break_at p (c ∷ s) = let rest = push_byte c (break_at p s) in if p c then some ([], s) else rest

abbrev pub is_e : ℕ → Bool
is_e c = c == b'e' || (c == b'E')

abbrev pub is_point : ℕ → Bool
is_point c = c == b'.'

unfoldable pub is_digits : Text → Bool
is_digits [] = true
is_digits (c ∷ s) = is_digit c && is_digits s

abbrev pub take_sign : Text → Bool × Text
take_sign [] = (false, [])
take_sign (c ∷ s) = if c == b'-' then (true, s) else (false, c ∷ s)

abbrev pub max_exponent : ℕ
max_exponent = 1000

abbrev pub small_exponent : Option ℤ → Option ℤ
small_exponent none = none
small_exponent (some (pos n)) = if leb n max_exponent then some (pos n) else none
small_exponent (some (negsuc n)) = if ltb n max_exponent then some (negsuc n) else none

abbrev pub with_exponent : Text → Option ℤ → Option (Text × ℤ)
with_exponent mant none = none
with_exponent mant (some e) = some (mant, e)

abbrev pub exponent_of : Text → Option (Text × Text) → Option (Text × ℤ)
exponent_of s none = some (s, pos 0)
exponent_of s (some (mant, e)) = with_exponent mant (small_exponent (parse_int 32 e))

abbrev pub checked_parts : Text → Text → Option (Text × Text)
checked_parts int frac =
    if is_empty int || (not (is_digits int) || not (is_digits frac)) then none else some (int, frac)

abbrev pub parts_of : Text → Option (Text × Text) → Option (Text × Text)
parts_of mant none = checked_parts mant []
parts_of mant (some (int, frac)) = if is_empty frac then none else checked_parts int frac

-- The digits and the scale: the value is digits × 10 ^ -scale.
abbrev pub scaled_by : Text → Text → ℤ → Text × ℕ
scaled_by int frac (pos e) =
    if leb e (length frac)
    then (int ++ frac, length frac - e)
    else ((int ++ frac) ++ replicate (e - length frac) b'0', 0)
scaled_by int frac (negsuc e) = (int ++ frac, length frac + suc e)

-- strings.TrimLeft(digits, "0")
unfoldable pub trim_zeros : Text → Text
trim_zeros [] = []
trim_zeros (c ∷ s) = let rest = trim_zeros s in if c == b'0' then rest else c ∷ s

unfoldable pub ends_in_zero : Text → Bool
ends_in_zero [] = false
ends_in_zero (c ∷ s) = if is_empty s then c == b'0' else ends_in_zero s

-- The loop that drops trailing zeros of the fraction.
unfoldable pub strip : ℕ → Text → Text × ℕ
unfolding ends_in_zero
strip zero digits = (digits, 0)
strip (suc scale) digits =
    let rest = strip scale (drop_last digits) in
    if ends_in_zero digits then rest else (digits, suc scale)

abbrev pub signed : Bool → Text → Text
signed neg s = if neg then b'-' ∷ s else s

-- The three cases of the builder at the end of `canonicalize`.
unfoldable pub unsigned : Text → ℕ → Text
unsigned digits zero = digits
unsigned digits (suc k) =
    if leb (length digits) (suc k)
    then b'0' ∷ b'.' ∷ (replicate (suc k - length digits) b'0' ++ digits)
    else take (length digits - suc k) digits ++ (b'.' ∷ drop (length digits - suc k) digits)

unfoldable pub render : Bool → Text → ℕ → Text
unfolding unsigned
render neg digits scale = signed neg (unsigned digits scale)

abbrev pub finish : Bool → Text × ℕ → Text
finish neg (digits, scale) = if is_empty digits then [] else render neg digits scale

unfoldable pub normalize : Text × ℕ → Text × ℕ
unfolding trim_zeros strip
normalize (digits, scale) = strip scale (trim_zeros digits)

abbrev pub with_parts : Bool → ℤ → Option (Text × Text) → Option Text
with_parts neg e none = none
with_parts neg e (some (int, frac)) = some (finish neg (normalize (scaled_by int frac e)))

abbrev pub with_mantissa : Bool → Option (Text × ℤ) → Option Text
with_mantissa neg none = none
with_mantissa neg (some (mant, e)) = with_parts neg e (parts_of mant (break_at is_point mant))

abbrev pub after_sign : Bool × Text → Option Text
after_sign (neg, s) = with_mantissa neg (exponent_of s (break_at is_e s))

unfoldable pub canonicalize : Text → Option Text
unfolding break_at is_digits normalize render
canonicalize s = after_sign (take_sign s)

abbrev pub amount_of : Option Text → Option Amount
amount_of none = none
amount_of (some s) = some (record { s = s })

-- `none` is the error that wraps ErrInvalid.
unfoldable pub parse : Text → Option Amount
unfolding canonicalize
parse s = amount_of (canonicalize s)

unfoldable pub string : Amount → Text
string a = if is_empty a.s then codes "0" else a.s

abbrev pub is_zero : Amount → Bool
is_zero a = is_empty a.s

abbrev starts_minus : Text → Bool
starts_minus [] = false
starts_minus (c ∷ s) = c == b'-'

abbrev pub is_negative : Amount → Bool
is_negative a = starts_minus a.s

abbrev negated : Text → Text
negated [] = []
negated (c ∷ s) = if c == b'-' then s else b'-' ∷ c ∷ s

unfoldable pub neg : Amount → Amount
neg a = record { s = negated a.s }

-- `MarshalJSON` and `Value`
unfoldable pub marshal_json : Amount → Text
unfolding string
marshal_json a = b'"' ∷ (string a ++ b'"' ∷ [])

unfoldable pub value : Amount → Text
unfolding string
value a = string a

abbrev pub behind_point : Option (Text × Text) → ℕ
behind_point none = 0
behind_point (some (int, frac)) = length frac

-- `Scale`
unfoldable pub scale : Amount → ℕ
unfolding break_at
scale a = behind_point (break_at is_point a.s)

abbrev pub split_point : Text → Option (Text × Text) → Text × Text
split_point s none = (s, [])
split_point s (some r) = r

-- The number that digits write, behind the value so far.
unfoldable pub number_from : ℕ → Text → ℕ
number_from acc [] = acc
number_from acc (c ∷ s) = number_from (acc * 10 + (c - b'0')) s

abbrev pub negative : ℕ → ℤ
negative zero = pos 0
negative (suc n) = negsuc n

abbrev pub big_int : Bool → ℕ → ℤ
big_int neg n = if neg then negative n else pos n

-- big.Int's SetString on the digits behind the sign
abbrev pub scaled_digits : Bool → ℕ → Text × Text → ℤ
scaled_digits neg scale (int, frac) =
    big_int neg (number_from 0 ((int ++ frac) ++ replicate (scale - length frac) b'0'))

abbrev pub scaled_text : ℕ → Bool × Text → ℤ
scaled_text scale (neg, s) = scaled_digits neg scale (split_point s (break_at is_point s))

-- `scaled`; the scale is at least the amount's.
unfoldable pub scaled : Amount → ℕ → ℤ
unfolding string break_at number_from
scaled a scale = scaled_text scale (take_sign (string a))

abbrev pub cmp_ints : ℤ → ℤ → Ordering
cmp_ints (pos m) (pos n) = compare m n
cmp_ints (pos m) (negsuc n) = Ordering.gt
cmp_ints (negsuc m) (pos n) = Ordering.lt
cmp_ints (negsuc m) (negsuc n) = compare n m

-- `Cmp`, with -1, 0 and +1 as an ordering.
unfoldable pub cmp : Amount → Amount → Ordering
unfolding scale scaled
cmp a b = let s = max (scale a) (scale b) in cmp_ints (scaled a s) (scaled b s)
