-- ===== src/Plaidsync/Money/Canonical.antt =====
-- The canonical form of parsed amounts (plaid-backend-golang/internal/money/amount.go).
use money_insighter.Prelude.{
  ℕ, zero, suc, ◌-◌, ◌≡◌, ◌⊎◌, inl, inr, refl, sym, ap, subst, ◌∙◌, Bool, true, false, not, ◌||◌,
  Option, none, some, [], ◌∷◌, ◌++◌, Text, codes, length, is_empty, take, drop, replicate, leb,
  ◌==◌, if◌then◌else◌, if-elim, arith, is_digit, ℤ, pos, negsuc, drop_last, &&-eq_true,
}
use money_insighter.Plaidsync.Money.{
  Amount, break_at, is_e, is_point, is_digits, take_sign, exponent_of, parts_of, checked_parts,
  scaled_by, trim_zeros, ends_in_zero, strip, signed, unsigned, render, finish, normalize,
  with_parts, with_mantissa, canonicalize, amount_of, parse, string, neg, negated,
}
use money_insighter.Plaidsync.Money.Normal.{IsNormal, normalize_lem}
use money_insighter.Plaidsync.Money.Printed.{is_digits-append, is_digits-replicate}
use money_insighter.Plaidsync.Money.Reread.{starts_minus-unsigned, canonicalize-render}

-- Zero, or a sign and digits with no zero to drop.
pub record Printed (c : Text) : Type 0 where
  pub neg : Bool
  pub digits : Text
  pub scale : ℕ
  pub shown : render neg digits scale ≡ c
  pub some_digit : is_empty digits ≡ false
  pub ds : is_digits digits ≡ true
  pub normal : IsNormal (digits, scale)

abbrev pub IsShown : Text → Type 0
IsShown c = (c ≡ []) ⊎ Printed c

abbrev Good : Option (Text × Text) → Type 0
Good none = Unit
Good (some (int, frac)) = (is_digits int ≡ true) × (is_digits frac ≡ true)

checked_parts-Good : (int frac : Text) → Good (checked_parts int frac)
checked_parts-Good int frac =
    if-elim Good (is_empty int || (not (is_digits int) || not (is_digits frac))) none
      (some (int, frac)) (λ _. tt) (λ h. (ground (arith, h), ground (arith, h)))

parts_of-Good : (mant : Text) (b : Option (Text × Text)) → Good (parts_of mant b)
parts_of-Good mant none = checked_parts-Good mant []
parts_of-Good mant (some (int, frac)) =
    if-elim Good (is_empty frac) none (checked_parts int frac) (λ _. tt)
      (λ _. checked_parts-Good int frac)

abbrev Digits : Text × ℕ → Type 0
Digits r = is_digits r.0 ≡ true

scaled_by-Digits :
    (int frac : Text) (e : ℤ)
    → is_digits int ≡ true
    → is_digits frac ≡ true
    → Digits (scaled_by int frac e)
scaled_by-Digits int frac (pos e) h k =
    if-elim Digits (leb e (length frac)) (int ++ frac, length frac - e)
      ((int ++ frac) ++ replicate (e - length frac) b'0', 0) (λ _. is_digits-append int frac h k)
      (λ _.
        is_digits-append (int ++ frac) (replicate (e - length frac) b'0')
          (is_digits-append int frac h k) (is_digits-replicate (e - length frac)))
scaled_by-Digits int frac (negsuc e) h k = is_digits-append int frac h k

trim_zeros-digits : (s : Text) → is_digits s ≡ true → is_digits (trim_zeros s) ≡ true
unfolding trim_zeros is_digits
trim_zeros-digits [] h = refl
trim_zeros-digits (c ∷ s) h =
    let (d, ds) = &&-eq_true (is_digit c) (is_digits s) h in
    if-elim (λ t. is_digits t ≡ true) (c == b'0') (trim_zeros s) (c ∷ s)
      (λ _. trim_zeros-digits s ds) (λ _. h)

drop_last-digits : (s : Text) → is_digits s ≡ true → is_digits (drop_last s) ≡ true
unfolding drop_last is_digits
drop_last-digits [] h = refl
drop_last-digits (c ∷ []) h = refl
drop_last-digits (c ∷ d ∷ s) h = ground (arith, drop_last-digits (d ∷ s))

strip-Digits : (k : ℕ) (s : Text) → is_digits s ≡ true → Digits (strip k s)
unfolding strip
strip-Digits zero s h = h
strip-Digits (suc k) s h =
    if-elim Digits (ends_in_zero s) (strip k (drop_last s)) (s, suc k)
      (λ _. strip-Digits k (drop_last s) (drop_last-digits s h)) (λ _. h)

normalize-Digits : (r : Text × ℕ) → Digits r → Digits (normalize r)
unfolding normalize
normalize-Digits (digits, k) h = strip-Digits k (trim_zeros digits) (trim_zeros-digits digits h)

finish-IsShown : (n : Bool) (r : Text × ℕ) → Digits r → IsNormal r → IsShown (finish n r)
finish-IsShown n (digits, k) ds normal =
    if-elim IsShown (is_empty digits) [] (render n digits k) (λ _. inl refl)
      (λ e. inr (record {
        neg = n;
        digits = digits;
        scale = k;
        shown = refl;
        some_digit = e;
        ds = ds;
        normal = normal;
      }))

abbrev Results : Option Text → Type 0
Results none = Unit
Results (some c) = IsShown c

with_parts-IsShown :
    (n : Bool) (e : ℤ) (b : Option (Text × Text)) → Good b → Results (with_parts n e b)
with_parts-IsShown n e none h = tt
with_parts-IsShown n e (some (int, frac)) (di, df) =
    let r = scaled_by int frac e in
    finish-IsShown n (normalize r) (normalize-Digits r (scaled_by-Digits int frac e di df))
      ((normalize_lem r.0 r.1).1)

with_mantissa-IsShown : (n : Bool) (m : Option (Text × ℤ)) → Results (with_mantissa n m)
with_mantissa-IsShown n none = tt
with_mantissa-IsShown n (some (mant, e)) =
    with_parts-IsShown n e (parts_of mant (break_at is_point mant)) (parts_of-Good mant _)

canonicalize-IsShown : (s : Text) → Results (canonicalize s)
unfolding canonicalize
canonicalize-IsShown s =
    let (n, u) = take_sign s in with_mantissa-IsShown n (exponent_of u (break_at is_e u))

empty_ne : (c : Text) → is_empty c ≡ false → c ≡ [] → ⊥
empty_ne [] h e = absurd (cc)
empty_ne (x ∷ c) h e = cc

pub empty_eq : (c : Text) → is_empty c ≡ true → c ≡ []
empty_eq [] h = refl
empty_eq (x ∷ c) h = absurd (cc)

canonicalize-same : (c : Text) → is_empty c ≡ false → IsShown c → canonicalize c ≡ some c
canonicalize-same c some_byte (inl e) = absurd (empty_ne c some_byte e)
canonicalize-same c some_byte (inr p) =
    subst (λ t. canonicalize t ≡ some t) p.shown
      (canonicalize-render p.neg p.digits p.scale p.some_digit p.ds p.normal)

amount_eq : (c : Text) (a : Amount) → some (record { s = c }) ≡ some a → c ≡ a.s
amount_eq c a e = let same : record { s = c } ≡ a = cc in ap (λ (x : Amount). x.s) same

amount-IsShown :
    (s : Text) (o : Option Text) (a : Amount) → Results o → amount_of o ≡ some a → IsShown a.s
amount-IsShown s none a h e = absurd (cc)
amount-IsShown s (some c) a h e = subst IsShown (amount_eq c a e) h

-- An accepted amount is zero, or the code's layout of a sign and normalised digits.
pub parse-IsShown : (s : Text) (a : Amount) → parse s ≡ some a → IsShown a.s
unfolding parse
parse-IsShown s a h = amount-IsShown s (canonicalize s) a (canonicalize-IsShown s) h

-- A parsed amount is read back from its text: parsing what it prints as gives the same amount.
pub parse-string_parsed : (s : Text) (a : Amount) → parse s ≡ some a → parse (string a) ≡ some a
unfolding parse string canonicalize
parse-string_parsed s a h =
    if-elim (λ t. parse t ≡ some a) (is_empty a.s) (codes "0") a.s
      (λ e. ap (λ t. some (record { s = t })) (sym (empty_eq a.s e)))
      (λ e. ap amount_of (canonicalize-same a.s e (parse-IsShown s a h)))

is_empty-append : (a b : Text) (c : ℕ) → is_empty (a ++ c ∷ b) ≡ false
is_empty-append [] b c = refl
is_empty-append (x ∷ a) b c = refl

pub is_empty-unsigned :
    (digits : Text) (scale : ℕ) → is_empty digits ≡ false → is_empty (unsigned digits scale) ≡ false
unfolding unsigned
is_empty-unsigned digits zero h = h
is_empty-unsigned digits (suc k) h =
    if-elim (λ u. is_empty u ≡ false) (leb (length digits) (suc k))
      (b'0' ∷ b'.' ∷ (replicate (suc k - length digits) b'0' ++ digits))
      (take (length digits - suc k) digits ++ (b'.' ∷ drop (length digits - suc k) digits))
      (λ _. refl) (λ _. is_empty-append (take (length digits - suc k) digits) _ b'.')

negated-plain : (u : Text) → is_empty u ≡ false → take_sign u ≡ (false, u) → negated u ≡ b'-' ∷ u
negated-plain [] some_byte h = absurd (cc)
negated-plain (c ∷ u) some_byte h =
    if-elim (λ t. t ≡ b'-' ∷ c ∷ u) (c == b'-') u (b'-' ∷ c ∷ u)
      (λ minus.
        absurd (true_ne_false (ap (λ (r : Bool × Text). r.0) (sym (signed_away minus) ∙ h))))
      (λ _. refl)
  where
    signed_away : (c == b'-') ≡ true → take_sign (c ∷ u) ≡ (true, u)
    signed_away minus = ap (λ (b : Bool). if b then (true, u) else (false, c ∷ u)) minus

    true_ne_false : true ≡ false → ⊥
    true_ne_false e = cc

negated-signed :
    (n : Bool) (u : Text) → negated u ≡ b'-' ∷ u → negated (negated (signed n u)) ≡ signed n u
negated-signed true u h = h
negated-signed false u h = ap negated h

negated-Printed : (c : Text) → IsShown c → negated (negated c) ≡ c
unfolding render
negated-Printed c (inl e) = subst (λ t. negated (negated t) ≡ t) (sym e) refl
negated-Printed c (inr p) =
    let u = unsigned p.digits p.scale in
    subst (λ t. negated (negated t) ≡ t) p.shown
      (negated-signed p.neg u (
        negated-plain u (is_empty-unsigned p.digits p.scale p.some_digit)
          (starts_minus-unsigned p.digits p.scale p.some_digit p.ds)))

-- Flipping the sign of a parsed amount twice gives the amount.
pub neg-neg : (s : Text) (a : Amount) → parse s ≡ some a → neg (neg a) ≡ a
unfolding neg
neg-neg s a h = ap (λ t. record { s = t }) (negated-Printed a.s (parse-IsShown s a h))
