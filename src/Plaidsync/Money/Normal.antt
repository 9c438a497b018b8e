-- ===== src/Plaidsync/Money/Normal.antt =====
-- The zeros that `canonicalize` of plaid-backend-golang/internal/money/amount.go drops.
use money_insighter.Prelude.{
  ℕ, zero, suc, ◌+◌, ◌-◌, ◌*◌, ◌^◌, ◌≡◌, ◌⊎◌, inl, inr, refl, sym, ap, ◌∙◌, Bool, true, false, [],
  ◌∷◌, Text, ◌==◌, if-elim, arith, drop_last,
}
use native.Mathlib.Nat.{mul_assoc, mul_right_comm, pow-suc}
use money_insighter.Plaidsync.Money.{number_from, trim_zeros, ends_in_zero, strip, normalize}

abbrev pub number : Text → ℕ
number s = number_from 0 s

abbrev pub starts_in_zero : Text → Bool
starts_in_zero [] = false
starts_in_zero (c ∷ s) = c == b'0'

trim_zeros-number : (s : Text) → number (trim_zeros s) ≡ number s
unfolding trim_zeros number_from
trim_zeros-number [] = refl
trim_zeros-number (c ∷ s) =
    if-elim (λ t. number t ≡ number (c ∷ s)) (c == b'0') (trim_zeros s) (c ∷ s)
      (λ z. trim_zeros-number s ∙ ap (λ k. number_from k s) (ground arith)) (λ _. refl)

trim_zeros-starts : (s : Text) → starts_in_zero (trim_zeros s) ≡ false
unfolding trim_zeros
trim_zeros-starts [] = refl
trim_zeros-starts (c ∷ s) =
    if-elim (λ t. starts_in_zero t ≡ false) (c == b'0') (trim_zeros s) (c ∷ s)
      (λ _. trim_zeros-starts s) (λ z. z)

drop_last-number :
    (acc : ℕ) (s : Text)
    → ends_in_zero s ≡ true
    → number_from acc s ≡ number_from acc (drop_last s) * 10
unfolding number_from ends_in_zero drop_last
drop_last-number acc [] h = absurd (cc)
drop_last-number acc (c ∷ []) h = ground arith
drop_last-number acc (c ∷ d ∷ s) h = drop_last-number (acc * 10 + (c - b'0')) (d ∷ s) h

drop_last-starts : (s : Text) → starts_in_zero s ≡ false → starts_in_zero (drop_last s) ≡ false
unfolding drop_last
drop_last-starts [] h = refl
drop_last-starts (c ∷ []) h = refl
drop_last-starts (c ∷ d ∷ s) h = h

scale_step : (x p y q : ℕ) → x * p ≡ y * q → x * (p * 10) ≡ y * 10 * q
scale_step x p y q h = sym (mul_assoc x p 10) ∙ (ap (λ n. n * 10) h ∙ mul_right_comm y q 10)

-- No zero in front, and none behind a fraction.
pub record IsNormal (r : Text × ℕ) : Type 0 where
  pub front : starts_in_zero r.0 ≡ false
  pub back : (r.1 ≡ 0) ⊎ (ends_in_zero r.0 ≡ false)

strip-IsNormal : (k : ℕ) (s : Text) → starts_in_zero s ≡ false → IsNormal (strip k s)
unfolding strip
strip-IsNormal zero s h = record { front = h; back = inl refl }
strip-IsNormal (suc k) s h =
    if-elim IsNormal (ends_in_zero s) (strip k (drop_last s)) (s, suc k)
      (λ _. strip-IsNormal k (drop_last s) (drop_last-starts s h))
      (λ e. record { front = h; back = inr e })

strip-number : (k : ℕ) (s : Text) → number (strip k s).0 * 10 ^ k ≡ number s * 10 ^ (strip k s).1
unfolding strip
strip-number zero s = refl
strip-number (suc k) s =
    if-elim (λ (r : Text × ℕ). number r.0 * 10 ^ suc k ≡ number s * 10 ^ r.1) (ends_in_zero s)
      (strip k (drop_last s)) (s, suc k)
      (λ e.
        let r = strip k (drop_last s) in
        ap (λ n. number r.0 * n) (pow-suc 10 k)
        ∙ (scale_step (number r.0) (10 ^ k) (number (drop_last s)) (10 ^ r.1)
              (strip-number k (drop_last s))
            ∙ ap (λ n. n * 10 ^ r.1) (sym (drop_last-number 0 s e))))
      (λ _. refl)

-- Normalising digits and a scale keeps the value digits × 10 ^ -scale exactly, and leaves no zero in
-- front of the digits and none at their end unless the scale is 0.
pub normalize_lem :
    (digits : Text) (scale : ℕ)
    → (number (normalize (digits, scale)).0 * 10 ^ scale
        ≡ number digits * 10 ^ (normalize (digits, scale)).1)
      × IsNormal (normalize (digits, scale))
unfolding normalize
normalize_lem digits scale = (
  strip-number scale (trim_zeros digits)
      ∙ ap (λ n. n * 10 ^ (normalize (digits, scale)).1) (trim_zeros-number digits),
  strip-IsNormal scale (trim_zeros digits) (trim_zeros-starts digits),
)
