-- ===== src/Plaidsync/Civil.antt =====
-- Calendar dates: plaid-backend-golang/internal/civil/date.go, json.go and sql.go.
pub mod Digits
pub mod RoundTrip
pub mod Strict
pub mod Order
use money_insighter.Prelude.{
  ℕ, suc, ◌-◌, ◌%◌, Bool, true, false, ◌&&◌, ◌||◌, not, Option, none, some, List, [], ◌∷◌, ◌++◌,
  Text, codes, length, get_elem?, take, drop, replicate, leb, ltb, ◌==◌, if◌then◌else◌, read_digits,
  itoa,
}

-- Go's fields are ints; the dates here have none below 0.
pub record Date : Type 0 where
  pub year : ℕ
  pub month : ℕ
  pub day : ℕ

abbrev pub zero_date : Date
zero_date = record { year = 0; month = 0; day = 0 }

abbrev is_leap : ℕ → Bool
is_leap year = year % 4 == 0 && (not (year % 100 == 0) || (year % 400 == 0))

unfoldable pub days_in : ℕ → ℕ → ℕ
days_in year month =
    if month == 2
    then (if is_leap year then 29 else 28)
    else if month == 4 || (month == 6 || (month == 9 || (month == 11)))
    then 30
    else 31

unfoldable pub valid : Date → Bool
unfolding days_in
valid d =
    (leb 1 d.year && leb d.year 9999)
    && ((leb 1 d.month && leb d.month 12) && (leb 1 d.day && leb d.day (days_in d.year d.month)))

unfoldable pub digits : Text → Option ℕ
unfolding read_digits
digits s = read_digits 0 s

abbrev is_at : Text → ℕ → ℕ → Bool
is_at s i c = elim (get_elem? s i) [ none ↦ false | some x ↦ x == c ]

abbrev slice : Text → ℕ → ℕ → Text
slice s a b = take (b - a) (drop a s)

abbrev checked : Date → Option Date
checked d = if valid d then some d else none

abbrev assemble : Option ℕ → Option ℕ → Option ℕ → Option Date
assemble (some y) (some m) (some d) = checked (record { year = y; month = m; day = d })
assemble _ _ _ = none

unfoldable pub parse : Text → Option Date
unfolding digits valid
parse s =
    if not (length s == 10) || (not (is_at s 4 b'-') || not (is_at s 7 b'-'))
    then none
    else assemble (digits (slice s 0 4)) (digits (slice s 5 7)) (digits (slice s 8 10))

-- %0wd of a non-negative number
unfoldable pub zero_pad : ℕ → ℕ → Text
unfolding itoa
zero_pad width n = let s = itoa n in replicate (width - length s) b'0' ++ s

unfoldable pub string : Date → Text
unfolding zero_pad
string d = zero_pad 4 d.year ++ (b'-' ∷ (zero_pad 2 d.month ++ (b'-' ∷ zero_pad 2 d.day)))

abbrev is_zero : Date → Bool
is_zero d = (d.year == 0) && ((d.month == 0) && (d.day == 0))

unfoldable pub before : Date → Date → Bool
before d o =
    if not (d.year == o.year)
    then ltb d.year o.year
    else if not (d.month == o.month)
    then ltb d.month o.month
    else ltb d.day o.day

unfoldable pub after : Date → Date → Bool
unfolding before
after d o = before o d

-- `none` is the error.
unfoldable pub marshal_text : Date → Option Text
unfolding valid string
marshal_text d = if valid d then some (string d) else none

-- `UnmarshalText`: the new value, or none and the old one stays.
unfoldable pub unmarshal_text : Text → Option Date
unfolding parse
unmarshal_text b = parse b

abbrev quoted : Option Text → Option Text
quoted none = none
quoted (some t) = some (b'"' ∷ (t ++ b'"' ∷ []))

unfoldable pub marshal_json : Date → Option Text
unfolding marshal_text
marshal_json d = if is_zero d then some (codes "null") else quoted (marshal_text d)

unfoldable pub value : Date → Option Text
unfolding valid string
value d = if valid d then some (string d) else none

-- What a driver hands to `Scan`; a time.Time is the date of its UTC instant.
pub data Source : Type 0 where
  nil : Source
  time : Date → Source
  text bytes : Text → Source
  other : Source

unfoldable pub scan : Source → Option Date
unfolding parse
scan Source.nil = none
scan (Source.time d) = some d
scan (Source.text s) = parse s
scan (Source.bytes s) = parse s
scan Source.other = none
