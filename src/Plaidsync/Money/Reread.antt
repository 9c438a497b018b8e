-- ===== src/Plaidsync/Money/Reread.antt =====
-- `canonicalize` on canonical texts (plaid-backend-golang/internal/money/amount.go).
use money_insighter.Prelude.{
  ℕ, zero, suc, ◌+◌, ◌-◌, ◌≡◌, ◌≤◌, ◌<◌, refl, sym, ap, ap₂, ◌∙◌, Bool, true, false, none, some, [],
  ◌∷◌, ◌++◌, Text, length, is_empty, take, drop, replicate, leb, if◌then◌else◌, if-elim, arith,
  is_digit, All-append, length-append, length-replicate, append-nil, &&-eq_true, pos,
}
use money_insighter.Plaidsync.Money.{
  split_point, behind_point, break_at, is_e, is_point, is_digits, take_sign, exponent_of, parts_of,
  checked_parts, scaled_by, strip, signed, unsigned, render, finish, normalize, with_parts,
  with_mantissa, after_sign, canonicalize,
}
use money_insighter.Plaidsync.Money.Normal.{IsNormal}
use money_insighter.Plaidsync.Money.Printed.{
  Free, break_at-none, break_at-some, digits-Free, is_digits-append, is_digits-replicate,
  is_digits-take, is_digits-drop, take-drop, length-drop, trim_zeros-replicate, trim_zeros-same,
  strip-same, positive, nonempty, checked_parts-ok,
}

digit-no_e : (c : ℕ) → is_digit c ≡ true → is_e c ≡ false
digit-no_e c d = ground arith

digit-no_point : (c : ℕ) → is_digit c ≡ true → is_point c ≡ false
digit-no_point c d = ground arith

leb→le : (a b : ℕ) → leb a b ≡ true → a ≤ b
leb→le a b h = ground arith

leb→lt : (a b : ℕ) → leb a b ≡ false → b < a
leb→lt a b h = ground arith

length-take-drop : (n : ℕ) (s : Text) → length (take n s) + length (drop n s) ≡ length s
length-take-drop n s = sym (length-append (take n s) (drop n s)) ∙ ap length (take-drop n s)

-- How the unsigned text `u` of `digits` at `scale` splits.
pub record Splits (digits : Text) (scale : ℕ) (u : Text) : Type 0 where
  pub int : Text
  pub frac : Text
  pub zeros : ℕ
  pub split : parts_of u (break_at is_point u) ≡ some (int, frac)
  pub joined : int ++ frac ≡ replicate zeros b'0' ++ digits
  pub behind : length frac ≡ scale
  pub free : Free is_e u
  pub raw : split_point u (break_at is_point u) ≡ (int, frac)
  pub point : behind_point (break_at is_point u) ≡ scale

-- A text with a point in it.
pointed :
    (digits : Text) (scale zeros : ℕ) (int frac : Text)
    → 1 ≤ length int
    → 1 ≤ length frac
    → is_digits int ≡ true
    → is_digits frac ≡ true
    → int ++ frac ≡ replicate zeros b'0' ++ digits
    → length frac ≡ scale
    → Splits digits scale (int ++ (b'.' ∷ frac))
pointed digits scale zeros int frac some_int some_frac di df joined behind = record {
  int = int;
  frac = frac;
  zeros = zeros;
  split =
      ap (parts_of (int ++ (b'.' ∷ frac)))
        (break_at-some is_point int b'.' frac (digits-Free is_point digit-no_point int di) refl)
      ∙ (ap (λ b. if b then none else checked_parts int frac) (nonempty frac some_frac)
          ∙ checked_parts-ok int frac some_int di df);
  joined = joined;
  behind = behind;
  raw =
      ap (split_point (int ++ (b'.' ∷ frac)))
        (break_at-some is_point int b'.' frac (digits-Free is_point digit-no_point int di) refl);
  point =
      ap behind_point
        (break_at-some is_point int b'.' frac (digits-Free is_point digit-no_point int di) refl)
      ∙ behind;
  free =
      All-append (λ c. is_e c ≡ false) int (b'.' ∷ frac) (digits-Free is_e digit-no_e int di)
        (refl, digits-Free is_e digit-no_e frac df);
}

pub unsigned-Splits :
    (digits : Text) (scale : ℕ)
    → is_empty digits ≡ false
    → is_digits digits ≡ true
    → Splits digits scale (unsigned digits scale)
unfolding unsigned is_digits
unsigned-Splits digits zero some_digit ds = record {
  int = digits;
  frac = [];
  zeros = 0;
  split =
      ap (parts_of digits)
        (break_at-none is_point digits (digits-Free is_point digit-no_point digits ds))
      ∙ checked_parts-ok digits [] (positive digits some_digit) ds refl;
  joined = append-nil digits;
  behind = refl;
  raw =
      ap (split_point digits)
        (break_at-none is_point digits (digits-Free is_point digit-no_point digits ds));
  point =
      ap behind_point
        (break_at-none is_point digits (digits-Free is_point digit-no_point digits ds));
  free = digits-Free is_e digit-no_e digits ds;
}
unsigned-Splits digits (suc k) some_digit ds =
    let zeros = suc k - length digits in
    let n = length digits - suc k in
    if-elim (Splits digits (suc k)) (leb (length digits) (suc k))
      (b'0' ∷ b'.' ∷ (replicate zeros b'0' ++ digits)) (take n digits ++ (b'.' ∷ drop n digits))
      (λ short.
        pointed digits (suc k) (suc zeros) (b'0' ∷ []) (replicate zeros b'0' ++ digits)
          (omega arith)
          (omega (arith, positive digits some_digit, length-append (replicate zeros b'0') digits))
          refl (is_digits-append (replicate zeros b'0') digits (is_digits-replicate zeros) ds) refl
          (length-append (replicate zeros b'0') digits
            ∙ omega
                (arith, length-replicate {A = ℕ} zeros b'0', leb→le (length digits) (suc k) short)))
      (λ long.
        pointed digits (suc k) 0 (take n digits) (drop n digits)
          (omega (
            arith,
            length-take-drop n digits,
            length-drop n digits,
            leb→lt (length digits) (suc k) long,
          ))
          (omega (arith, length-drop n digits, leb→lt (length digits) (suc k) long))
          (is_digits-take n digits ds) (is_digits-drop n digits ds) (take-drop n digits)
          (omega (arith, length-drop n digits, leb→lt (length digits) (suc k) long)))

scaled_by-zero : (int frac : Text) → scaled_by int frac (pos 0) ≡ (int ++ frac, length frac)
scaled_by-zero int frac =
    if-elim (λ (r : Text × ℕ). r ≡ (int ++ frac, length frac)) (leb 0 (length frac))
      (int ++ frac, length frac - 0) ((int ++ frac) ++ replicate (0 - length frac) b'0', 0)
      (λ _. ap (λ k. (int ++ frac, k)) (omega arith)) (λ h. absurd (ground (arith, h)))

normalize-same :
    (digits : Text) (scale zeros : ℕ)
    → IsNormal (digits, scale)
    → normalize (replicate zeros b'0' ++ digits, scale) ≡ (digits, scale)
unfolding normalize
normalize-same digits scale zeros h =
    ap (strip scale) (trim_zeros-replicate zeros digits ∙ trim_zeros-same digits h.front)
    ∙ strip-same scale digits h

module _ (neg : Bool) (digits : Text) (scale : ℕ) (some_digit : is_empty digits ≡ false)
    (ds : is_digits digits ≡ true) (normal : IsNormal (digits, scale)) where
  after_sign-unsigned :
      (u : Text) → Splits digits scale u → after_sign (neg, u) ≡ some (render neg digits scale)
  after_sign-unsigned u sp =
      ap (λ b. with_mantissa neg (exponent_of u b)) (break_at-none is_e u sp.free)
      ∙ (ap (with_parts neg (pos 0)) sp.split
          ∙ ap some (
              ap (λ r. finish neg (normalize r))
                (scaled_by-zero sp.int sp.frac ∙ ap₂ (λ a b. (a, b)) sp.joined sp.behind)
              ∙ (ap (finish neg) (normalize-same digits scale sp.zeros normal)
                  ∙ ap (λ (b : Bool). if b then [] else render neg digits scale) some_digit)))

sign-take :
    (n c : ℕ) (s r : Text)
    → 1 ≤ n
    → is_digit c ≡ true
    → take_sign (take n (c ∷ s) ++ r) ≡ (false, take n (c ∷ s) ++ r)
sign-take zero c s r some_n d = absurd (omega arith)
sign-take (suc n) c s r some_n d = ground arith

pub starts_minus-unsigned :
    (digits : Text) (scale : ℕ)
    → is_empty digits ≡ false
    → is_digits digits ≡ true
    → take_sign (unsigned digits scale) ≡ (false, unsigned digits scale)
unfolding unsigned is_digits
starts_minus-unsigned [] scale some_digit ds = absurd (cc)
starts_minus-unsigned (c ∷ s) zero some_digit ds = ground arith
starts_minus-unsigned (c ∷ s) (suc k) some_digit ds =
    let (d, rest) = &&-eq_true (is_digit c) (is_digits s) ds in
    let n = suc (length s) - suc k in
    if-elim (λ u. take_sign u ≡ (false, u)) (leb (suc (length s)) (suc k))
      (b'0' ∷ b'.' ∷ (replicate (suc k - suc (length s)) b'0' ++ c ∷ s))
      (take n (c ∷ s) ++ (b'.' ∷ drop n (c ∷ s))) (λ _. refl)
      (λ long.
        sign-take n c s (b'.' ∷ drop n (c ∷ s))
          (omega (arith, leb→lt (suc (length s)) (suc k) long)) d)

pub signed-sign :
    (neg : Bool) (u : Text) → take_sign u ≡ (false, u) → take_sign (signed neg u) ≡ (neg, u)
signed-sign true u h = refl
signed-sign false u h = h

-- Digits with no zero to drop, at any scale and with either sign, print as a text that is read
-- back as itself.
pub canonicalize-render :
    (neg : Bool) (digits : Text) (scale : ℕ)
    → is_empty digits ≡ false
    → is_digits digits ≡ true
    → IsNormal (digits, scale)
    → canonicalize (render neg digits scale) ≡ some (render neg digits scale)
unfolding canonicalize
canonicalize-render neg digits scale some_digit ds normal =
    ap after_sign
      (signed-sign neg (unsigned digits scale) (starts_minus-unsigned digits scale some_digit ds))
    ∙ after_sign-unsigned neg digits scale some_digit ds normal (unsigned digits scale)
        (unsigned-Splits digits scale some_digit ds)
