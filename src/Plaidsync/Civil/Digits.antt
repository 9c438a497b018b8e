-- ===== src/Plaidsync/Civil/Digits.antt =====
-- The padded decimals of `String` and `digits` of plaid-backend-golang/internal/civil/date.go.
use money_insighter.Prelude.{
  ℕ, zero, suc, ◌+◌, ◌-◌, ◌*◌, ◌/◌, ◌%◌, ◌≤◌, ◌<◌, ◌≡◌, refl, ap, ap₂, ◌∙◌, true, some, [], ◌∷◌,
  Text, if-elim, ltb, arith, inl, inr, Bool-cases, is_digit, itoa, itoa_from, read_digits,
}
use money_insighter.Plaidsync.Civil.{zero_pad}

abbrev pub digit : ℕ → ℕ
digit n = b'0' + n % 10

-- The last w decimal digits.
abbrev pub pair : ℕ → Text
pair n = digit (n / 10) ∷ digit n ∷ []

abbrev pub four : ℕ → Text
four n = digit (n / 10 / 10 / 10) ∷ digit (n / 10 / 10) ∷ digit (n / 10) ∷ digit n ∷ []

itoa_from-last : (f n : ℕ) (out : Text) → n < 10 → itoa_from (suc f) n out ≡ digit n ∷ out
unfolding itoa_from
itoa_from-last f n out small =
    if-elim (λ r. r ≡ digit n ∷ out) (ltb n 10) _ _ (λ _. refl) (λ h. absurd (ground arith))

itoa_from-more :
    (f n : ℕ) (out : Text) → 10 ≤ n → itoa_from (suc f) n out ≡ itoa_from f (n / 10) (digit n ∷ out)
unfolding itoa_from
itoa_from-more f n out big =
    if-elim (λ r. r ≡ itoa_from f (n / 10) (digit n ∷ out)) (ltb n 10) _ _
      (λ h. absurd (ground arith)) (λ _. refl)

itoa-one : (n : ℕ) → n < 10 → itoa n ≡ digit n ∷ []
unfolding itoa
itoa-one n small = itoa_from-last n n [] small

itoa-two : (n : ℕ) → 10 ≤ n → n < 100 → itoa n ≡ digit (n / 10) ∷ digit n ∷ []
unfolding itoa
itoa-two zero big small = absurd (omega arith)
itoa-two (suc n) big small =
    itoa_from-more (suc n) (suc n) [] big ∙ itoa_from-last n (suc n / 10) _ (omega arith)

itoa-three :
    (n : ℕ) → 100 ≤ n → n < 1000 → itoa n ≡ digit (n / 10 / 10) ∷ digit (n / 10) ∷ digit n ∷ []
unfolding itoa
itoa-three zero big small = absurd (omega arith)
itoa-three (suc zero) big small = absurd (omega arith)
itoa-three (suc (suc n)) big small =
    let m = suc (suc n) in
    itoa_from-more m m [] (omega arith)
    ∙ (itoa_from-more (suc n) (m / 10) _ (omega arith)
        ∙ itoa_from-last n (m / 10 / 10) _ (omega arith))

itoa-four : (n : ℕ) → 1000 ≤ n → n < 10000 → itoa n ≡ four n
unfolding itoa
itoa-four zero big small = absurd (omega arith)
itoa-four (suc zero) big small = absurd (omega arith)
itoa-four (suc (suc zero)) big small = absurd (omega arith)
itoa-four (suc (suc (suc n))) big small =
    let m = suc (suc (suc n)) in
    itoa_from-more m m [] (omega arith)
    ∙ (itoa_from-more (suc (suc n)) (m / 10) _ (omega arith)
        ∙ (itoa_from-more (suc n) (m / 10 / 10) _ (omega arith)
            ∙ itoa_from-last n (m / 10 / 10 / 10) _ (omega arith)))

pub zero_pad-pair : (n : ℕ) → n < 100 → zero_pad 2 n ≡ pair n
unfolding zero_pad
zero_pad-pair n small = elim (Bool-cases (ltb n 10)) [
  | inl h ↦ rw (itoa-one n (ground arith)) (ap (λ c. c ∷ digit n ∷ []) (ground arith))
  | inr h ↦ rw (itoa-two n (ground arith) small) refl
]

four_ext :
    {a b c a' b' c' : ℕ} (d : ℕ)
    → a ≡ a'
    → b ≡ b'
    → c ≡ c'
    → ◌≡◌ {A = Text} (a ∷ b ∷ c ∷ d ∷ []) (a' ∷ b' ∷ c' ∷ d ∷ [])
four_ext d p q r = cc

pub zero_pad-four : (n : ℕ) → n < 10000 → zero_pad 4 n ≡ four n
unfolding zero_pad
zero_pad-four n small = elim (Bool-cases (ltb n 10)) [
  | inl h ↦
      rw (itoa-one n (ground arith))
        (four_ext (digit n) (ground arith) (ground arith) (ground arith))
  | inr h ↦ elim (Bool-cases (ltb n 100)) [
    | inl h' ↦
        rw (itoa-two n (ground arith) (ground arith))
          (four_ext (digit n) (ground arith) (ground arith) (ground arith))
    | inr h' ↦ elim (Bool-cases (ltb n 1000)) [
      | inl h'' ↦
          rw (itoa-three n (ground arith) (ground arith))
            (four_ext (digit n) (ground arith) (ground arith) (ground arith))
      | inr h'' ↦ rw (itoa-four n (ground arith) small) refl
    ]
  ]
]

pub read_digits-digit :
    (acc n : ℕ) (s : Text) → read_digits acc (digit n ∷ s) ≡ read_digits (acc * 10 + n % 10) s
unfolding read_digits
read_digits-digit acc n s =
    if-elim (λ r. r ≡ read_digits (acc * 10 + n % 10) s) (is_digit (digit n)) _ _
      (λ _. ap (λ k. read_digits k s) (omega arith)) (λ h. absurd (ground arith))

pub read_digits-pair : (n : ℕ) → n < 100 → read_digits 0 (pair n) ≡ some n
unfolding read_digits
read_digits-pair n small =
    rw (read_digits-digit 0 (n / 10) (digit n ∷ []), read_digits-digit (0 * 10 + n / 10 % 10) n [])
      (ap some (omega arith))

pub read_digits-four : (n : ℕ) → n < 10000 → read_digits 0 (four n) ≡ some n
unfolding read_digits
read_digits-four n small =
    rw
      (
        read_digits-digit 0 (n / 10 / 10 / 10)
            (digit (n / 10 / 10) ∷ digit (n / 10) ∷ digit n ∷ []),
        read_digits-digit (0 * 10 + n / 10 / 10 / 10 % 10) (n / 10 / 10)
            (digit (n / 10) ∷ digit n ∷ []),
        read_digits-digit ((0 * 10 + n / 10 / 10 / 10 % 10) * 10 + n / 10 / 10 % 10) (n / 10)
            (digit n ∷ []),
        read_digits-digit
            (((0 * 10 + n / 10 / 10 / 10 % 10) * 10 + n / 10 / 10 % 10) * 10 + n / 10 % 10) n [],
      )
      (ap some (omega arith))

-- What is read from one more byte.
pub read_digits-cons :
    (acc c n : ℕ) (s : Text)
    → read_digits acc (c ∷ s) ≡ some n
    → (is_digit c ≡ true) × (read_digits (acc * 10 + (c - b'0')) s ≡ some n)
unfolding read_digits
read_digits-cons acc c n s =
    if-elim
      (λ r. r ≡ some n → (is_digit c ≡ true) × (read_digits (acc * 10 + (c - b'0')) s ≡ some n))
      (is_digit c) _ _ (λ d h. (d, h)) (λ d h. cc h)

some_eq : {a b : ℕ} → some a ≡ some b → a ≡ b
some_eq h = cc

read_digits-end : (acc n : ℕ) → read_digits acc [] ≡ some n → acc ≡ n
unfolding read_digits
read_digits-end acc n h = some_eq h

digit-value : (c k : ℕ) → is_digit c ≡ true → k % 10 ≡ c - b'0' → digit k ≡ c
digit-value c k d h = ground (arith, h)

digit-bounds : (c : ℕ) → is_digit c ≡ true → (b'0' ≤ c) × (c ≤ b'9')
digit-bounds c d = (ground arith, ground arith)

-- Digits that are read are the digits of the number.
pub pair-read_digits : (a b n : ℕ) → read_digits 0 (a ∷ b ∷ []) ≡ some n → pair n ≡ a ∷ b ∷ []
pair-read_digits a b n h =
    let (da, ha) = read_digits-cons 0 a n (b ∷ []) h in
    let (db, hb) = read_digits-cons (0 * 10 + (a - b'0')) b n [] ha in
    let e = read_digits-end _ n hb in
    let (la, ga) = digit-bounds a da in
    let (lb, gb) = digit-bounds b db in
    ap₂ (λ x y. x ∷ y ∷ []) (digit-value a (n / 10) da (omega (arith, e, la, ga, lb, gb)))
      (digit-value b n db (omega (arith, e, la, ga, lb, gb)))

pub four-read_digits :
    (a b c d n : ℕ) → read_digits 0 (a ∷ b ∷ c ∷ d ∷ []) ≡ some n → four n ≡ a ∷ b ∷ c ∷ d ∷ []
four-read_digits a b c d n h =
    let (da, ha) = read_digits-cons 0 a n (b ∷ c ∷ d ∷ []) h in
    let (db, hb) = read_digits-cons _ b n (c ∷ d ∷ []) ha in
    let (dc, hc) = read_digits-cons _ c n (d ∷ []) hb in
    let (dd, hd) = read_digits-cons _ d n [] hc in
    let e = read_digits-end _ n hd in
    let (la, ga) = digit-bounds a da in
    let (lb, gb) = digit-bounds b db in
    let (lc, gc) = digit-bounds c dc in
    let (ld, gd) = digit-bounds d dd in
    let pa : n / 10 / 10 / 10 % 10 ≡ a - b'0' = omega (arith, e, la, ga, lb, gb, lc, gc, ld, gd) in
    let pb : n / 10 / 10 % 10 ≡ b - b'0' = omega (arith, e, la, ga, lb, gb, lc, gc, ld, gd) in
    let pc : n / 10 % 10 ≡ c - b'0' = omega (arith, e, la, ga, lb, gb, lc, gc, ld, gd) in
    let pd : n % 10 ≡ d - b'0' = omega (arith, e, la, ga, lb, gb, lc, gc, ld, gd) in
    rw
      (
        digit-value a (n / 10 / 10 / 10) da pa,
        digit-value b (n / 10 / 10) db pb,
        digit-value c (n / 10) dc pc,
        digit-value d n dd pd,
      )
      refl
