-- ===== src/Plaidsync/Money/Compare.antt =====
-- `Cmp` against equality (plaid-backend-golang/internal/money/compare.go).
use Prim.Native.Nat.{max, compare, Ordering}
use money_insighter.Prelude.{
  ℕ, zero, suc, ◌+◌, ◌-◌, ◌*◌, ◌≡◌, ◌≤◌, refl, sym, ap, ap₂, ◌∙◌, inl, inr, Bool, true, false,
  Option, none, some, [], ◌∷◌, ◌++◌, Text, is_empty, codes, arith, is_digit, ℤ, pos, negsuc,
  append_assoc, append-nil, &&-eq_true, if◌then◌else◌,
}
use money_insighter.Plaidsync.Money.{
  Amount, number_from, is_digits, break_at, is_point, push_byte, behind_point, signed, unsigned,
  render, take_sign, scale, big_int, scaled_digits, scaled_text, scaled, cmp_ints, cmp, parse,
  string,
}
use money_insighter.Plaidsync.Money.Normal.{number, starts_in_zero}
use money_insighter.Plaidsync.Money.Reread.{unsigned-Splits, signed-sign, starts_minus-unsigned}
use money_insighter.Plaidsync.Money.Canonical.{Printed, IsShown, parse-IsShown, is_empty-unsigned}
use money_insighter.Plaidsync.Money.Value.{zeros, number-zeros, normal_unique}

minus-point : (o : Option (Text × Text)) → behind_point (push_byte b'-' o) ≡ behind_point o
minus-point none = refl
minus-point (some (a, b)) = refl

sign-point :
    (n : Bool) (u : Text)
    → behind_point (break_at is_point (signed n u)) ≡ behind_point (break_at is_point u)
unfolding break_at
sign-point true u = minus-point (break_at is_point u)
sign-point false u = refl

scale-Printed : (a : Amount) (p : Printed a.s) → scale a ≡ p.scale
unfolding scale render
scale-Printed a p =
    let u = unsigned p.digits p.scale in
    ap (λ t. behind_point (break_at is_point t)) (sym p.shown)
    ∙ (sign-point p.neg u ∙ (unsigned-Splits p.digits p.scale p.some_digit p.ds).point)

is_empty-signed : (n : Bool) (u : Text) → is_empty u ≡ false → is_empty (signed n u) ≡ false
is_empty-signed true u h = refl
is_empty-signed false u h = h

string-Printed :
    (a : Amount) (p : Printed a.s) → string a ≡ signed p.neg (unsigned p.digits p.scale)
unfolding string render
string-Printed a p =
    let some_byte : is_empty a.s ≡ false =
      ap is_empty (sym p.shown)
      ∙ is_empty-signed p.neg (unsigned p.digits p.scale)
          (is_empty-unsigned p.digits p.scale p.some_digit) in
    ap (λ (b : Bool). if b then codes "0" else a.s) some_byte ∙ sym p.shown

scaled-Printed :
    (a : Amount) (p : Printed a.s) (s : ℕ)
    → scaled a s ≡ big_int p.neg (number (p.digits ++ zeros (s - p.scale)))
unfolding scaled
scaled-Printed a p s =
    let u = unsigned p.digits p.scale in
    let sp = unsigned-Splits p.digits p.scale p.some_digit p.ds in
    ap (λ t. scaled_text s (take_sign t)) (string-Printed a p)
    ∙ (ap (scaled_text s)
          (signed-sign p.neg u (starts_minus-unsigned p.digits p.scale p.some_digit p.ds))
        ∙ (ap (scaled_digits p.neg s) sp.raw
            ∙ ap (big_int p.neg) (
                ap₂ (λ t k. number (t ++ zeros (s - k))) sp.joined sp.behind
                ∙ (ap number (append_assoc (zeros sp.zeros) p.digits (zeros (s - p.scale)))
                    ∙ number-zeros sp.zeros (p.digits ++ zeros (s - p.scale))))))

scaled-zero : (s : ℕ) → scaled (record { s = [] }) s ≡ pos 0
unfolding scaled
scaled-zero s =
    ap (λ t. pos (number t)) (sym (append-nil (zeros (s - 0)))) ∙ ap pos (number-zeros (s - 0) [])

number_from-le : (acc : ℕ) (s : Text) → acc ≤ number_from acc s
unfolding number_from
number_from-le acc [] = omega arith
number_from-le acc (c ∷ s) = omega (arith, number_from-le (acc * 10 + (c - b'0')) s)

positive :
    (d r : Text)
    → is_empty d ≡ false
    → is_digits d ≡ true
    → starts_in_zero d ≡ false
    → 1 ≤ number (d ++ r)
unfolding number_from is_digits
positive [] r h ds ns = absurd (cc)
positive (c ∷ s) r h ds ns =
    let (dc, rest) = &&-eq_true (is_digit c) (is_digits s) ds in
    let big : 1 ≤ c - b'0' = ground (arith, dc, ns) in
    omega (arith, big, number_from-le (0 * 10 + (c - b'0')) (s ++ r))

compare-eq : (m n : ℕ) → compare m n ≡ Ordering.eq → m ≡ n
compare-eq m n h = ground arith

cmp_ints-eq : (x y : ℤ) → cmp_ints x y ≡ Ordering.eq → x ≡ y
cmp_ints-eq (pos m) (pos n) h = ap pos (compare-eq m n h)
cmp_ints-eq (pos m) (negsuc n) h = absurd (cc)
cmp_ints-eq (negsuc m) (pos n) h = absurd (cc)
cmp_ints-eq (negsuc m) (negsuc n) h = ap negsuc (sym (compare-eq n m h))

pos-injective : {m n : ℕ} → pos m ≡ pos n → m ≡ n
pos-injective h = cc

negsuc-injective : {m n : ℕ} → negsuc m ≡ negsuc n → m ≡ n
negsuc-injective h = cc

-- The sign and the size of an integer that is not 0.
big_int-injective : (s t : Bool) (m n : ℕ) → 1 ≤ m → big_int s m ≡ big_int t n → (s ≡ t) × (m ≡ n)
big_int-injective false false m n h e = (refl, pos-injective e)
big_int-injective false true m zero h e = absurd (omega (arith, h, pos-injective e))
big_int-injective false true m (suc n) h e = absurd (cc)
big_int-injective true s zero n h e = absurd (omega (arith, h))
big_int-injective true false (suc m) n h e = absurd (cc)
big_int-injective true true (suc m) zero h e = absurd (cc)
big_int-injective true true (suc m) (suc n) h e = (refl, ap suc (negsuc-injective e))

not_zero : (s : Bool) (m : ℕ) → 1 ≤ m → big_int s m ≡ pos 0 → ⊥
not_zero false m h e = omega (arith, h, pos-injective e)
not_zero true zero h e = omega (arith, h)
not_zero true (suc m) h e = cc

amount_ext : (a b : Amount) → a.s ≡ b.s → a ≡ b
amount_ext a b h = ap (λ t. record { s = t }) h

module _ (a b : Amount) (s : ℕ) (h : scaled a s ≡ scaled b s) where
  decimals_eq : (p : Printed a.s) (q : Printed b.s) → p.scale ≤ s → q.scale ≤ s → a ≡ b
  decimals_eq p q ps qs =
      let (sign, size) =
        big_int-injective p.neg q.neg (number (p.digits ++ zeros (s - p.scale)))
          (number (q.digits ++ zeros (s - q.scale)))
          (positive p.digits (zeros (s - p.scale)) p.some_digit p.ds p.normal.front)
          (sym (scaled-Printed a p s) ∙ (h ∙ scaled-Printed b q s)) in
      let (same, at) =
        normal_unique p.digits q.digits p.scale q.scale s p.some_digit q.some_digit p.ds q.ds
          p.normal q.normal ps qs size in
      amount_ext a b (sym p.shown ∙ (shown_ext sign same at ∙ q.shown))
    where
      shown_ext :
          {n n' : Bool} {d d' : Text} {k k' : ℕ}
          → n ≡ n'
          → d ≡ d'
          → k ≡ k'
          → render n d k ≡ render n' d' k'
      shown_ext e e' e'' = cc

  zero-Printed : (q : Printed b.s) → a.s ≡ [] → ⊥
  zero-Printed q none_there =
      not_zero q.neg (number (q.digits ++ zeros (s - q.scale)))
        (positive q.digits (zeros (s - q.scale)) q.some_digit q.ds q.normal.front)
        (sym (scaled-Printed b q s)
          ∙ (sym h
              ∙ (ap (λ x. scaled x s) (amount_ext a (record { s = [] }) none_there)
                  ∙ scaled-zero s)))

-- `Cmp` reports two parsed amounts equal only when they are the same amount, so == on amounts is
-- equality of their values.
pub cmp_lem :
    (s t : Text) (a b : Amount)
    → parse s ≡ some a
    → parse t ≡ some b
    → cmp a b ≡ Ordering.eq
    → a ≡ b
unfolding cmp
cmp_lem s t a b ha hb e = go (parse-IsShown s a ha) (parse-IsShown t b hb)
  where
    top : ℕ
    top = max (scale a) (scale b)

    ints : scaled a top ≡ scaled b top
    ints = cmp_ints-eq (scaled a top) (scaled b top) e

    go : IsShown a.s → IsShown b.s → a ≡ b
    go (inl za) (inl zb) = amount_ext a b (za ∙ sym zb)
    go (inl za) (inr q) = absurd (zero-Printed a b top ints q za)
    go (inr p) (inl zb) = absurd (zero-Printed b a top (sym ints) p zb)
    go (inr p) (inr q) =
        decimals_eq a b top ints p q (omega (arith, scale-Printed a p))
          (omega (arith, scale-Printed b q))
