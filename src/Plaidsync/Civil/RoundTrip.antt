-- ===== src/Plaidsync/Civil/RoundTrip.antt =====
-- Printing a date and reading it: `String` and `parse` of plaid-backend-golang/internal/civil/date.go.
use money_insighter.Prelude.{
  ℕ, ◌≡◌, ◌<◌, refl, ap, ◌∙◌, true, ◌&&◌, some, ◌∷◌, ◌++◌, leb, if-elim, arith, &&-eq_true,
}
use money_insighter.Plaidsync.Civil.{Date, days_in, valid, digits, string, parse}
use money_insighter.Plaidsync.Civil.Digits.{
  pair, four, zero_pad-pair, zero_pad-four, read_digits-pair, read_digits-four,
}

pub days_in-bounds : (y m : ℕ) → days_in y m < 32
unfolding days_in
days_in-bounds y m = ground arith

pub valid-bounds : (d : Date) → valid d ≡ true → (d.year < 10000) × (d.month < 100) × (d.day < 100)
unfolding valid
valid-bounds d h =
    let (hy, hmd) = &&-eq_true (leb 1 d.year && leb d.year 9999) _ h in
    let (hm, hd) = &&-eq_true (leb 1 d.month && leb d.month 12) _ hmd in
    let bound = days_in-bounds d.year d.month in (ground arith, ground arith, ground arith)

pub string-valid :
    (d : Date)
    → valid d ≡ true
    → string d ≡ four d.year ++ (b'-' ∷ (pair d.month ++ (b'-' ∷ pair d.day)))
unfolding string
string-valid d h =
    let (y, m, dd) = valid-bounds d h in
    rw (zero_pad-four d.year y, zero_pad-pair d.month m, zero_pad-pair d.day dd) refl

-- Every date that exists is read back from the text it prints as.
pub parse-string : (d : Date) → valid d ≡ true → parse (string d) ≡ some d
unfolding parse digits
parse-string d h =
    let (y, m, dd) = valid-bounds d h in
    ap parse (string-valid d h)
    ∙ rw (read_digits-four d.year y, read_digits-pair d.month m, read_digits-pair d.day dd)
        (if-elim (λ r. r ≡ some d) (valid d) _ _ (λ _. refl)
          (λ bad. absurd (ground (arith, h, bad))))
