-- ===== src/Plaidsync/Money/Value.antt =====
-- Digits and the numbers that they write, for `Cmp` of plaid-backend-golang/internal/money/compare.go.
use money_insighter.Prelude.{
  take, append-nil, is_empty, ℕ, zero, suc, ◌+◌, ◌-◌, ◌*◌, ◌≡◌, ◌≤◌, ◌<◌, ◌⊎◌, inl, inr, refl, sym,
  ap, ap₂, ◌∙◌, true, false, [], ◌∷◌, ◌++◌, Text, length, replicate, arith, is_digit, length-append,
  length-replicate, &&-eq_true,
}
use money_insighter.Plaidsync.Money.{number_from, is_digits, ends_in_zero}
use money_insighter.Plaidsync.Money.Normal.{number, starts_in_zero, IsNormal}
use money_insighter.Plaidsync.Money.Printed.{is_digits-append, is_digits-replicate}

abbrev pub zeros : ℕ → Text
zeros n = replicate n b'0'

-- As many digits of the same number are the same digits.
number_from-injective :
    (a b : ℕ) (s t : Text)
    → length s ≡ length t
    → is_digits s ≡ true
    → is_digits t ≡ true
    → number_from a s ≡ number_from b t
    → (a ≡ b) × (s ≡ t)
unfolding number_from is_digits
number_from-injective a b [] [] len ds dt h = (h, refl)
number_from-injective a b [] (d ∷ t) len ds dt h = absurd (omega arith)
number_from-injective a b (c ∷ s) [] len ds dt h = absurd (omega arith)
number_from-injective a b (c ∷ s) (d ∷ t) len ds dt h =
    let (dc, ds') = &&-eq_true (is_digit c) (is_digits s) ds in
    let (dd, dt') = &&-eq_true (is_digit d) (is_digits t) dt in
    let (same, rest) =
      number_from-injective (a * 10 + (c - b'0')) (b * 10 + (d - b'0')) s t (omega arith) ds' dt'
        h in
    let e : a ≡ b = ground (arith, same, dc, dd) in
    let first : c ≡ d = ground (arith, same, dc, dd) in (e, ap₂ (λ x y. x ∷ y) first rest)

pub number-zeros : (n : ℕ) (s : Text) → number (zeros n ++ s) ≡ number s
unfolding number_from
number-zeros zero s = refl
number-zeros (suc n) s = number-zeros n s

starts-zeros : (n : ℕ) (s : Text) → 1 ≤ n → starts_in_zero (zeros n ++ s) ≡ true
starts-zeros zero s h = absurd (omega arith)
starts-zeros (suc n) s h = refl

true_ne_false : true ≡ false → ⊥
true_ne_false h = cc

-- With no zero in front, no shorter digits have the same number.
no_shorter :
    (s t : Text)
    → is_digits s ≡ true
    → is_digits t ≡ true
    → starts_in_zero t ≡ false
    → number s ≡ number t
    → length s < length t
    → ⊥
no_shorter s t ds dt nt h short =
    let n = length t - length s in
    let (e, same) =
      number_from-injective 0 0 (zeros n ++ s) t
        (length-append (zeros n) s ∙ omega (arith, length-replicate {A = ℕ} n b'0', short))
        (is_digits-append (zeros n) s (is_digits-replicate n) ds) dt (number-zeros n s ∙ h) in
    true_ne_false (sym (starts-zeros n s (omega (arith, short))) ∙ (ap starts_in_zero same ∙ nt))

pub number-injective :
    (s t : Text)
    → is_digits s ≡ true
    → is_digits t ≡ true
    → starts_in_zero s ≡ false
    → starts_in_zero t ≡ false
    → number s ≡ number t
    → s ≡ t
number-injective s t ds dt ns nt h = elim (trichotomy (length s) (length t)) [
  | inl short ↦ absurd (no_shorter s t ds dt nt h short)
  | inr (inl same) ↦ (number_from-injective 0 0 s t same ds dt h).1
  | inr (inr long) ↦ absurd (no_shorter t s dt ds ns (sym h) long)
]
  where
    trichotomy : (m n : ℕ) → (m < n) ⊎ ((m ≡ n) ⊎ (n < m))
    trichotomy m n = ground arith

take-zeros : (j n : ℕ) → j ≤ n → take j (zeros n) ≡ zeros j
take-zeros zero n h = refl
take-zeros (suc j) zero h = absurd (omega arith)
take-zeros (suc j) (suc n) h = ap (λ t. b'0' ∷ t) (take-zeros j n (omega arith))

take-append : (a c : Text) → take (length a) (a ++ c) ≡ a
take-append [] c = refl
take-append (x ∷ a) c = ap (λ t. x ∷ t) (take-append a c)

take-append_zeros : (e : Text) (j n : ℕ) → j ≤ n → take (length e + j) (e ++ zeros n) ≡ e ++ zeros j
take-append_zeros [] j n h =
    let none_more : 0 + j ≡ j = omega arith in
    ap (λ i. take i (zeros n)) none_more ∙ take-zeros j n h
take-append_zeros (x ∷ e) j n h =
    let one_more : suc (length e) + j ≡ suc (length e + j) = omega arith in
    ap (λ i. take i (x ∷ (e ++ zeros n))) one_more ∙ ap (λ t. x ∷ t) (take-append_zeros e j n h)

ends-zeros : (e : Text) (j : ℕ) → ends_in_zero (e ++ zeros (suc j)) ≡ true
unfolding ends_in_zero
ends-zeros [] zero = refl
ends-zeros [] (suc j) = ends-zeros [] j
ends-zeros (x ∷ []) j = ends-zeros [] j
ends-zeros (x ∷ y ∷ e) j = ends-zeros (y ∷ e) j

-- Of two equal texts with zeros behind, the one with fewer zeros is the other with zeros behind.
peeled : (d e : Text) (m n : ℕ) → d ++ zeros m ≡ e ++ zeros n → m ≤ n → d ≡ e ++ zeros (n - m)
peeled d e m n h le =
    let len : length d ≡ length e + (n - m) = omega (
      arith,
      le,
      ap length h,
      length-append d (zeros m),
      length-append e (zeros n),
      length-replicate {A = ℕ} m b'0',
      length-replicate {A = ℕ} n b'0',
    ) in
    sym (take-append d (zeros m))
    ∙ (ap (take (length d)) h
        ∙ (ap (λ i. take i (e ++ zeros n)) len ∙ take-append_zeros e (n - m) n (omega arith)))

fewer :
    (d e : Text) (m n k l : ℕ)
    → IsNormal (d, k)
    → d ++ zeros m ≡ e ++ zeros n
    → m ≤ n
    → k + m ≡ l + n
    → (d ≡ e) × (k ≡ l)
fewer d e m n k l normal h le sum = go (n - m) refl
  where
    go : (j : ℕ) → n - m ≡ j → (d ≡ e) × (k ≡ l)
    go zero none_left = (
      peeled d e m n h le ∙ (ap (λ i. e ++ zeros i) none_left ∙ append-nil e),
      omega (arith, none_left, le, sum),
    )
    go (suc j) left =
        let ends : ends_in_zero d ≡ true =
          ap ends_in_zero (peeled d e m n h le ∙ ap (λ i. e ++ zeros i) left) ∙ ends-zeros e j in
        absurd (elim normal.back [
          | inl none_behind ↦ omega (arith, none_behind, left, sum)
          | inr other ↦ true_ne_false (sym ends ∙ other)
        ])

starts-append : (d r : Text) → is_empty d ≡ false → starts_in_zero (d ++ r) ≡ starts_in_zero d
starts-append [] r h = absurd (cc)
starts-append (x ∷ d) r h = refl

-- Two normal decimals that are the same number at a common scale are the same.
pub normal_unique :
    (d e : Text) (k l s : ℕ)
    → is_empty d ≡ false
    → is_empty e ≡ false
    → is_digits d ≡ true
    → is_digits e ≡ true
    → IsNormal (d, k)
    → IsNormal (e, l)
    → k ≤ s
    → l ≤ s
    → number (d ++ zeros (s - k)) ≡ number (e ++ zeros (s - l))
    → (d ≡ e) × (k ≡ l)
normal_unique d e k l s some_d some_e dd de nd ne ks ls h =
    let same : d ++ zeros (s - k) ≡ e ++ zeros (s - l) =
      number-injective (d ++ zeros (s - k)) (e ++ zeros (s - l))
        (is_digits-append d (zeros (s - k)) dd (is_digits-replicate (s - k)))
        (is_digits-append e (zeros (s - l)) de (is_digits-replicate (s - l)))
        (starts-append d _ some_d ∙ nd.front) (starts-append e _ some_e ∙ ne.front) h in
    elim (le-or-le (s - k) (s - l)) [
      | inl le ↦ fewer d e (s - k) (s - l) k l nd same le (omega arith)
      | inr ge ↦
          let (p, q) = fewer e d (s - l) (s - k) l k ne (sym same) ge (omega arith) in
          (sym p, sym q)
    ]
  where
    le-or-le : (m n : ℕ) → (m ≤ n) ⊎ (n ≤ m)
    le-or-le m n = ground arith
