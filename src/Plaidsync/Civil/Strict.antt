-- ===== src/Plaidsync/Civil/Strict.antt =====
-- Reading a text and printing its date: `parse` and `String` of plaid-backend-golang/internal/civil/date.go.
use money_insighter.Prelude.{
  ℕ, ◌≡◌, refl, sym, ap, ◌∙◌, true, false, ◌||◌, not, Option, none, some, [], ◌∷◌, ◌++◌, Text,
  length, ◌==◌, if-elim, arith,
}
use money_insighter.Plaidsync.Civil.{Date, valid, digits, string, parse, is_at, assemble, checked}
use money_insighter.Plaidsync.Civil.Digits.{pair, four, pair-read_digits, four-read_digits}
use money_insighter.Plaidsync.Civil.RoundTrip.{string-valid}

abbrev Accepts : Text → Date → Type 0
Accepts s d = (valid d ≡ true) × (string d ≡ s)

checked-valid : (r d : Date) → checked r ≡ some d → (r ≡ d) × (valid d ≡ true)
checked-valid r d =
    if-elim (λ o. o ≡ some d → (r ≡ d) × (valid d ≡ true)) (valid r) _ _
      (λ ok h. let e : r ≡ d = cc in (e, ap valid (sym e) ∙ ok)) (λ _ h. absurd (cc))

joined :
    {y y' m m' d d' : Text}
    → y ≡ y'
    → m ≡ m'
    → d ≡ d'
    → y ++ (b'-' ∷ (m ++ (b'-' ∷ d))) ≡ y' ++ (b'-' ∷ (m' ++ (b'-' ∷ d')))
joined p q r = cc

assembled :
    (a b c d e f g h : ℕ) (date : Date) (oy om od : Option ℕ)
    → digits (a ∷ b ∷ c ∷ d ∷ []) ≡ oy
    → digits (e ∷ f ∷ []) ≡ om
    → digits (g ∷ h ∷ []) ≡ od
    → assemble oy om od ≡ some date
    → Accepts (a ∷ b ∷ c ∷ d ∷ b'-' ∷ e ∷ f ∷ b'-' ∷ g ∷ h ∷ []) date
unfolding digits
assembled a b c d e f g h date none om od py pm pd ok = absurd (cc)
assembled a b c d e f g h date (some y) none od py pm pd ok = absurd (cc)
assembled a b c d e f g h date (some y) (some m) none py pm pd ok = absurd (cc)
assembled a b c d e f g h date (some y) (some m) (some dd) py pm pd ok =
    let (same, good) = checked-valid _ date ok in
    (
      good,
      string-valid date good
          ∙ (ap (λ (x : Date). four x.year ++ (b'-' ∷ (pair x.month ++ (b'-' ∷ pair x.day))))
                (sym same)
              ∙ joined (four-read_digits a b c d y py) (pair-read_digits e f m pm)
                  (pair-read_digits g h dd pd)),
    )

ten :
    (a b c d x e f y g h : ℕ) (date : Date)
    → parse (a ∷ b ∷ c ∷ d ∷ x ∷ e ∷ f ∷ y ∷ g ∷ h ∷ []) ≡ some date
    → Accepts (a ∷ b ∷ c ∷ d ∷ x ∷ e ∷ f ∷ y ∷ g ∷ h ∷ []) date
unfolding parse
ten a b c d x e f y g h date =
    if-elim (λ r. r ≡ some date → Accepts (a ∷ b ∷ c ∷ d ∷ x ∷ e ∷ f ∷ y ∷ g ∷ h ∷ []) date)
      (not (x == b'-') || not (y == b'-')) _ _ (λ _ ok. absurd (cc))
      (λ dashes ok.
        let ex : x ≡ b'-' = ground arith in
        let ey : y ≡ b'-' = ground arith in
        rw (ex, ey) (assembled a b c d e f g h date _ _ _ refl refl refl ok))

short : (s : Text) (date : Date) → (length s == 10) ≡ false → parse s ≡ some date → Accepts s date
unfolding parse
short s date wrong =
    if-elim (λ r. r ≡ some date → Accepts s date)
      (not (length s == 10) || (not (is_at s 4 b'-') || not (is_at s 7 b'-'))) _ _
      (λ _ ok. absurd (cc)) (λ bad. absurd (ground (arith, bad, wrong)))

-- A text is read as a date only when it is what a date that exists prints as.
pub parse-Accepts :
    (s : Text) (date : Date) → parse s ≡ some date → (valid date ≡ true) × (string date ≡ s)
parse-Accepts (a ∷ b ∷ c ∷ d ∷ x ∷ e ∷ f ∷ y ∷ g ∷ h ∷ []) date ok = ten a b c d x e f y g h date ok
parse-Accepts s date ok = short s date (ground arith) ok
