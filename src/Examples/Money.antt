-- ===== src/Examples/Money.antt =====
-- Runs of plaid-backend-golang's amounts.
use money_insighter.Prelude.{◌≡◌, refl, some, codes, drop_last, parse_int}
use money_insighter.Plaidsync.Money
use money_insighter.Plaidsync.Money.{Amount, parse, string, neg, normalize}
use money_insighter.Plaidsync.Money.Compare.{cmp_lem}
use money_insighter.Plaidsync.Money.Canonical.{parse-string_parsed}
use money_insighter.Plaidsync.Money.Layout.{IsCanonical, parse-IsCanonical}

abbrev debt : Amount
debt = record { s = codes "-12.5" }

parse-string_parsed_example : parse (string debt) ≡ some debt
unfolding Money.parse drop_last
parse-string_parsed_example = parse-string_parsed (codes "-0012.500") debt refl

parse-IsCanonical_example : IsCanonical debt.s
unfolding Money.parse parse_int
parse-IsCanonical_example = parse-IsCanonical (codes "-1.25e1") debt refl

abbrev other_debt : Amount
other_debt = record { s = codes "-12.5" }

cmp_lem_example : debt ≡ other_debt
unfolding Money.parse Money.cmp drop_last parse_int
cmp_lem_example = cmp_lem (codes "-0012.500") (codes "-125e-1") debt other_debt refl refl refl
