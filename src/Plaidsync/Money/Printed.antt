-- ===== src/Plaidsync/Money/Printed.antt =====
-- Texts of digits, for `canonicalize` of plaid-backend-golang/internal/money/amount.go: where they
-- break, and their trimming.
use money_insighter.Prelude.{
  ℕ, zero, suc, ◌-◌, ◌≡◌, ◌≤◌, refl, ap, ◌∙◌, Bool, true, false, none, some, [], ◌∷◌, ◌++◌, Text,
  length, is_empty, take, drop, replicate, if-elim, arith, is_digit, All, &&-eq_true, drop_last,
}
use money_insighter.Plaidsync.Money.{
  break_at, is_digits, checked_parts, trim_zeros, ends_in_zero, strip,
}
use money_insighter.Plaidsync.Money.Normal.{IsNormal, starts_in_zero}

abbrev pub Free : (ℕ → Bool) → Text → Type 0
Free p s = All (λ c. p c ≡ false) s

pub break_at-none : (p : ℕ → Bool) (s : Text) → Free p s → break_at p s ≡ none
unfolding break_at
break_at-none p [] h = refl
break_at-none p (c ∷ s) (h, hs) = rw (h, break_at-none p s hs) refl

pub break_at-some :
    (p : ℕ → Bool) (a : Text) (c : ℕ) (b : Text)
    → Free p a
    → p c ≡ true
    → break_at p (a ++ c ∷ b) ≡ some (a, b)
unfolding break_at
break_at-some p [] c b h on = rw on refl
break_at-some p (x ∷ a) c b (h, hs) on = rw (h, break_at-some p a c b hs on) refl

pub digits-Free :
    (p : ℕ → Bool)
    → ((c : ℕ) → is_digit c ≡ true → p c ≡ false)
    → (s : Text) → is_digits s ≡ true
    → Free p s
unfolding is_digits
digits-Free p f [] h = tt
digits-Free p f (c ∷ s) h =
    let (d, ds) = &&-eq_true (is_digit c) (is_digits s) h in (f c d, digits-Free p f s ds)

pub is_digits-append :
    (a b : Text) → is_digits a ≡ true → is_digits b ≡ true → is_digits (a ++ b) ≡ true
unfolding is_digits
is_digits-append [] b h k = k
is_digits-append (c ∷ a) b h k = ground (arith, is_digits-append a b)

pub is_digits-replicate : (n : ℕ) → is_digits (replicate n b'0') ≡ true
unfolding is_digits
is_digits-replicate zero = refl
is_digits-replicate (suc n) = is_digits-replicate n

pub is_digits-take : (n : ℕ) (s : Text) → is_digits s ≡ true → is_digits (take n s) ≡ true
unfolding is_digits
is_digits-take zero s h = refl
is_digits-take (suc n) [] h = refl
is_digits-take (suc n) (c ∷ s) h = ground (arith, is_digits-take n s)

pub is_digits-drop : (n : ℕ) (s : Text) → is_digits s ≡ true → is_digits (drop n s) ≡ true
unfolding is_digits
is_digits-drop zero s h = h
is_digits-drop (suc n) [] h = refl
is_digits-drop (suc n) (c ∷ s) h = is_digits-drop n s (ground arith)

pub take-drop : (n : ℕ) (s : Text) → take n s ++ drop n s ≡ s
take-drop zero s = refl
take-drop (suc n) [] = refl
take-drop (suc n) (c ∷ s) = ap (λ t. c ∷ t) (take-drop n s)

pub length-drop : (n : ℕ) (s : Text) → length (drop n s) ≡ length s - n
length-drop zero s = omega arith
length-drop (suc n) [] = omega arith
length-drop (suc n) (c ∷ s) = length-drop n s ∙ omega arith

pub trim_zeros-replicate : (n : ℕ) (s : Text) → trim_zeros (replicate n b'0' ++ s) ≡ trim_zeros s
unfolding trim_zeros
trim_zeros-replicate zero s = refl
trim_zeros-replicate (suc n) s = trim_zeros-replicate n s

pub trim_zeros-same : (s : Text) → starts_in_zero s ≡ false → trim_zeros s ≡ s
unfolding trim_zeros
trim_zeros-same [] h = refl
trim_zeros-same (c ∷ s) h = rw h refl

pub strip-same : (k : ℕ) (s : Text) → IsNormal (s, k) → strip k s ≡ (s, k)
unfolding strip
strip-same zero s h = refl
strip-same (suc k) s h =
    if-elim (λ (r : Text × ℕ). r ≡ (s, suc k)) (ends_in_zero s) (strip k (drop_last s)) (s, suc k)
      (λ e. absurd (ground (arith, e, h.back))) (λ _. refl)

pub positive : (s : Text) → is_empty s ≡ false → 1 ≤ length s
positive [] h = absurd (cc)
positive (c ∷ s) h = omega arith

pub nonempty : (s : Text) → 1 ≤ length s → is_empty s ≡ false
nonempty [] h = absurd (omega arith)
nonempty (c ∷ s) h = refl

pub checked_parts-ok :
    (int frac : Text)
    → 1 ≤ length int
    → is_digits int ≡ true
    → is_digits frac ≡ true
    → checked_parts int frac ≡ some (int, frac)
checked_parts-ok int frac some_int di df = rw (nonempty int some_int, di, df) refl
