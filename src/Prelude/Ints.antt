-- ===== src/Prelude/Ints.antt =====
-- Signed integers, and the decimal conversions of Go's `strconv`.
use Prim.Native.Nat.{ℕ, zero, suc, ◌+◌, ◌-◌, ◌*◌, ◌/◌, ◌%◌, ◌^◌}
use mathlib.Core.Bool.{Bool, ◌&&◌}
use mathlib.Core.List.{[], ◌∷◌}
use mathlib.Core.Option.{Option, none, some}
use money_insighter.Prelude.Tests.{leb, ltb, ◌==◌, if◌then◌else◌}
use money_insighter.Prelude.Texts.{Text}

-- `negsuc n` is -(n + 1).
pub data ℤ : Type 0 where
  pos : ℕ → ℤ
  negsuc : ℕ → ℤ

abbrev pub is_digit : ℕ → Bool
is_digit c = leb b'0' c && leb c b'9'

-- A run of ASCII digits behind the value so far.
unfoldable pub read_digits : ℕ → Text → Option ℕ
read_digits n [] = some n
read_digits n (c ∷ s) = if is_digit c then read_digits (n * 10 + (c - b'0')) s else none

unfoldable pub read_magnitude : Text → Option ℕ
unfolding read_digits
read_magnitude [] = none
read_magnitude (c ∷ s) = read_digits 0 (c ∷ s)

abbrev in_range_pos : ℕ → Option ℕ → Option ℤ
in_range_pos bits none = none
in_range_pos bits (some n) = if ltb n (2 ^ (bits - 1)) then some (pos n) else none

abbrev in_range_neg : ℕ → Option ℕ → Option ℤ
in_range_neg bits none = none
in_range_neg bits (some zero) = some (pos 0)
in_range_neg bits (some (suc n)) = if ltb n (2 ^ (bits - 1)) then some (negsuc n) else none

-- strconv.ParseInt(s, 10, bits): an optional sign, digits, and the range of the type.
unfoldable pub parse_int : ℕ → Text → Option ℤ
unfolding read_magnitude
parse_int bits [] = none
parse_int bits (c ∷ s) =
    if c == b'-'
    then in_range_neg bits (read_magnitude s)
    else if c == b'+'
    then in_range_pos bits (read_magnitude s)
    else in_range_pos bits (read_magnitude (c ∷ s))

-- strconv.Atoi on a 64-bit machine
unfoldable pub atoi : Text → Option ℤ
unfolding parse_int
atoi s = parse_int 64 s

-- strconv.Itoa of a non-negative number; the fuel is one more than the number, which falls.
unfoldable pub itoa_from : ℕ → ℕ → Text → Text
itoa_from zero n out = out
itoa_from (suc f) n out =
    let digit = b'0' + n % 10 in
    let more = itoa_from f (n / 10) (digit ∷ out) in if ltb n 10 then digit ∷ out else more

unfoldable pub itoa : ℕ → Text
unfolding itoa_from
itoa n = itoa_from (suc n) n []
