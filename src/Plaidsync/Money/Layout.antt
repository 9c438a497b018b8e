-- ===== src/Plaidsync/Money/Layout.antt =====
-- The canonical form that plaid-backend-golang/internal/money/amount.go describes for `Amount`, apart
-- from how it builds it.
use money_insighter.Prelude.{
  ℕ, zero, suc, ◌-◌, ◌≡◌, ◌≤◌, ◌<◌, ◌⊎◌, inl, inr, refl, sym, ap, subst, ◌∙◌, Bool, true, false, [],
  ◌∷◌, ◌++◌, Text, length, is_empty, take, drop, replicate, leb, ◌==◌, if◌then◌else◌, if-elim,
  arith, is_digit, All, &&-eq_true, some,
}
use money_insighter.Plaidsync.Money.{
  Amount, is_digits, ends_in_zero, signed, unsigned, render, parse,
}
use money_insighter.Plaidsync.Money.Normal.{IsNormal, starts_in_zero}
use money_insighter.Plaidsync.Money.Printed.{
  is_digits-append, is_digits-replicate, is_digits-take, is_digits-drop, nonempty, length-drop,
}
use money_insighter.Plaidsync.Money.Canonical.{IsShown, parse-IsShown}

abbrev pub Digits : Text → Type 0
Digits s = All (λ c. is_digit c ≡ true) s

-- Digits, the first of them not 0.
pub data IsWhole : Text → Type 0 where
  whole : (c : ℕ) (s : Text) → is_digit c ≡ true → (c == b'0') ≡ false → Digits s → IsWhole (c ∷ s)

-- Digits, the last of them not 0.
pub data IsFraction : Text → Type 0 where
  fraction :
      (s : Text) (c : ℕ)
      → Digits s
      → is_digit c ≡ true
      → (c == b'0') ≡ false
      → IsFraction (s ++ c ∷ [])

-- A number above 0: whole, or a single 0 or a whole part, a point and a fraction.
pub data IsPositive : Text → Type 0 where
  no_point : (s : Text) → IsWhole s → IsPositive s
  below_one : (f : Text) → IsFraction f → IsPositive (b'0' ∷ b'.' ∷ f)
  with_point : (s f : Text) → IsWhole s → IsFraction f → IsPositive (s ++ b'.' ∷ f)

-- The empty text for zero, or a positive number behind an optional minus.
pub data IsCanonical : Text → Type 0 where
  nought : IsCanonical []
  plain : (u : Text) → IsPositive u → IsCanonical u
  minus : (u : Text) → IsPositive u → IsCanonical (b'-' ∷ u)

is_digits-Digits : (s : Text) → is_digits s ≡ true → Digits s
unfolding is_digits
is_digits-Digits [] h = tt
is_digits-Digits (c ∷ s) h =
    let (d, ds) = &&-eq_true (is_digit c) (is_digits s) h in (d, is_digits-Digits s ds)

IsFraction-cons : (c : ℕ) (t : Text) → is_digit c ≡ true → IsFraction t → IsFraction (c ∷ t)
IsFraction-cons c t d (fraction s e ds de ne) = fraction (c ∷ s) e (d, ds) de ne

digits-IsFraction :
    (s : Text) → is_empty s ≡ false → is_digits s ≡ true → ends_in_zero s ≡ false → IsFraction s
unfolding is_digits ends_in_zero
digits-IsFraction [] some_digit ds last = absurd (cc)
digits-IsFraction (c ∷ []) some_digit ds last =
    fraction [] c tt ((&&-eq_true (is_digit c) true ds).0) last
digits-IsFraction (c ∷ d ∷ s) some_digit ds last =
    let (here, rest) = &&-eq_true (is_digit c) (is_digits (d ∷ s)) ds in
    IsFraction-cons c (d ∷ s) here (digits-IsFraction (d ∷ s) refl rest last)

digits-IsWhole :
    (s : Text) → is_empty s ≡ false → is_digits s ≡ true → starts_in_zero s ≡ false → IsWhole s
unfolding is_digits
digits-IsWhole [] some_digit ds first = absurd (cc)
digits-IsWhole (c ∷ s) some_digit ds first =
    let (here, rest) = &&-eq_true (is_digit c) (is_digits s) ds in
    whole c s here first (is_digits-Digits s rest)

ends_in_zero-append : (a b : Text) → is_empty b ≡ false → ends_in_zero (a ++ b) ≡ ends_in_zero b
unfolding ends_in_zero
ends_in_zero-append [] b some_digit = refl
ends_in_zero-append (c ∷ a) b some_digit =
    ap (λ e. if e then c == b'0' else ends_in_zero (a ++ b)) (not_empty a b some_digit)
    ∙ ends_in_zero-append a b some_digit
  where
    not_empty : (a b : Text) → is_empty b ≡ false → is_empty (a ++ b) ≡ false
    not_empty [] b h = h
    not_empty (x ∷ a) b h = refl

ends_in_zero-drop : (n : ℕ) (s : Text) → n < length s → ends_in_zero (drop n s) ≡ ends_in_zero s
unfolding ends_in_zero
ends_in_zero-drop zero s h = refl
ends_in_zero-drop (suc n) [] h = absurd (omega arith)
ends_in_zero-drop (suc n) (c ∷ []) h = absurd (omega arith)
ends_in_zero-drop (suc n) (c ∷ d ∷ s) h = ends_in_zero-drop n (d ∷ s) (omega arith)

starts_in_zero-take :
    (n : ℕ) (s : Text) → starts_in_zero s ≡ false → starts_in_zero (take n s) ≡ false
starts_in_zero-take zero s h = refl
starts_in_zero-take (suc n) [] h = refl
starts_in_zero-take (suc n) (c ∷ s) h = h

is_empty-take : (n : ℕ) (s : Text) → 1 ≤ n → is_empty s ≡ false → is_empty (take n s) ≡ false
is_empty-take zero s h k = absurd (omega arith)
is_empty-take (suc n) [] h k = k
is_empty-take (suc n) (c ∷ s) h k = refl

is_empty-right : (a b : Text) → is_empty b ≡ false → is_empty (a ++ b) ≡ false
is_empty-right [] b h = h
is_empty-right (x ∷ a) b h = refl

lasts : (digits : Text) (k : ℕ) → IsNormal (digits, suc k) → ends_in_zero digits ≡ false
lasts digits k h = go h.back
  where
    go : (suc k ≡ 0) ⊎ (ends_in_zero digits ≡ false) → ends_in_zero digits ≡ false
    go (inl e) = absurd (omega arith)
    go (inr e) = e

over : (a b : ℕ) → leb a b ≡ false → b < a
over a b h = ground arith

unsigned-IsPositive :
    (digits : Text) (scale : ℕ)
    → is_empty digits ≡ false
    → is_digits digits ≡ true
    → IsNormal (digits, scale)
    → IsPositive (unsigned digits scale)
unfolding unsigned
unsigned-IsPositive digits zero some_digit ds normal =
    no_point digits (digits-IsWhole digits some_digit ds normal.front)
unsigned-IsPositive digits (suc k) some_digit ds normal =
    let zeros = suc k - length digits in
    let n = length digits - suc k in
    if-elim IsPositive (leb (length digits) (suc k))
      (b'0' ∷ b'.' ∷ (replicate zeros b'0' ++ digits)) (take n digits ++ (b'.' ∷ drop n digits))
      (λ _. below_one (replicate zeros b'0' ++ digits) (
        digits-IsFraction (replicate zeros b'0' ++ digits)
          (is_empty-right (replicate zeros b'0') digits some_digit)
          (is_digits-append (replicate zeros b'0') digits (is_digits-replicate zeros) ds)
          (ends_in_zero-append (replicate zeros b'0') digits some_digit ∙ lasts digits k normal)))
      (λ long.
        let above : suc k < length digits = over (length digits) (suc k) long in
        with_point (take n digits) (drop n digits)
          (digits-IsWhole (take n digits) (is_empty-take n digits (omega arith) some_digit)
            (is_digits-take n digits ds) (starts_in_zero-take n digits normal.front))
          (digits-IsFraction (drop n digits)
            (nonempty (drop n digits) (omega (arith, length-drop n digits)))
            (is_digits-drop n digits ds)
            (ends_in_zero-drop n digits (omega arith) ∙ lasts digits k normal)))

signed-IsCanonical : (neg : Bool) (u : Text) → IsPositive u → IsCanonical (signed neg u)
signed-IsCanonical true u h = minus u h
signed-IsCanonical false u h = plain u h

shown-IsCanonical : (c : Text) → IsShown c → IsCanonical c
unfolding render
shown-IsCanonical c (inl e) = subst IsCanonical (sym e) nought
shown-IsCanonical c (inr p) = subst IsCanonical p.shown (
    signed-IsCanonical p.neg (unsigned p.digits p.scale)
      (unsigned-IsPositive p.digits p.scale p.some_digit p.ds p.normal))

-- An amount that is accepted is canonical: the empty text for zero, or after an optional minus either
-- digits that do not start with 0, or such digits or a single 0, a point, and digits that do not end
-- in 0.
pub parse-IsCanonical : (s : Text) (a : Amount) → parse s ≡ some a → IsCanonical a.s
parse-IsCanonical s a h = shown-IsCanonical a.s (parse-IsShown s a h)
