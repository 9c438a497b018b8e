-- ===== src/Plaidsync/Civil/Order.antt =====
-- The order of dates: `Before` and `After` of plaid-backend-golang/internal/civil/date.go.
use money_insighter.Prelude.{◌≡◌, ◌⊎◌, inl, inr, true, false, arith, Bool-cases}
use money_insighter.Plaidsync.Civil.{Date, before, after}

-- No date is before itself.
pub before-irreflexive : (d : Date) → before d d ≡ false
unfolding before
before-irreflexive d = ground arith

-- Dates are ordered transitively.
pub before_trans : (a b c : Date) → before a b ≡ true → before b c ≡ true → before a c ≡ true
unfolding before
before_trans a b c h k = ground arith

date_ext : (a b : Date) → a.year ≡ b.year → a.month ≡ b.month → a.day ≡ b.day → a ≡ b
date_ext a b p q r = cc

-- Of two dates, one is before the other, or after it, or they are equal.
pub before-total : (a b : Date) → (before a b ≡ true) ⊎ ((after a b ≡ true) ⊎ (a ≡ b))
unfolding before after
before-total a b = elim (Bool-cases (before a b)) [
  | inl h ↦ inl h
  | inr h ↦ elim (Bool-cases (before b a)) [
    | inl k ↦ inr (inl k)
    | inr k ↦ inr (inr (date_ext a b (ground arith) (ground arith) (ground arith)))
  ]
]
