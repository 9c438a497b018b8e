-- ===== src/Topper/Catalog/Ident.antt =====
-- Quoted identifiers (`QuoteIdent`) against a reader of SQL's quoted identifiers.
use money_insighter.Prelude.{
  ℕ, ◌≡◌, ◌≢◌, refl, arith, Option, none, some, [], ◌∷◌, ◌++◌, append_assoc, Text, ◌==◌,
  if◌then◌else◌, Bool-cases, inl, inr, false, ◌∙◌, append-nil, ap,
}
use money_insighter.Topper.Catalog.{double_quotes, quote_ident}

-- SQL's rule: inside quotes `""` stands for `"`, and any other `"` ends the identifier.
abbrev read_body : Text → Text → Option (Text × Text)
read_body out [] = none
read_body out (c ∷ []) = if c == b'"' then some (out, []) else none
read_body out (c ∷ d ∷ s) =
    let twice = read_body (out ++ c ∷ []) s in
    let once = read_body (out ++ c ∷ []) (d ∷ s) in
    if c == b'"' then (if d == b'"' then twice else some (out, d ∷ s)) else once

abbrev pub read_ident : Text → Option (Text × Text)
read_ident [] = none
read_ident (c ∷ s) = if c == b'"' then read_body [] s else none

-- What follows does not begin with a quote.
abbrev pub Ends : Text → Type 0
Ends [] = Unit
Ends (c ∷ s) = c ≢ b'"'

read_body_end : (out rest : Text) → Ends rest → read_body out (b'"' ∷ rest) ≡ some (out, rest)
read_body_end out [] h = refl
read_body_end out (c ∷ s) h = ground arith

read_body_other :
    (out : Text) (c : ℕ) (s rest : Text)
    → (c == b'"') ≡ false
    → read_body out (c ∷ (double_quotes s ++ b'"' ∷ rest))
      ≡ read_body (out ++ c ∷ []) (double_quotes s ++ b'"' ∷ rest)
unfolding double_quotes
read_body_other out c [] rest h = rw h
read_body_other out c (d ∷ s) rest h = elim (Bool-cases (d == b'"')) [
  | inl e ↦ rw (e, h)
  | inr e ↦ rw (e, h)
]

read_body-double :
    (s out rest : Text)
    → Ends rest
    → read_body out (double_quotes s ++ b'"' ∷ rest) ≡ some (out ++ s, rest)
unfolding double_quotes
read_body-double [] out rest h = rw append-nil (read_body_end out rest h)
read_body-double (c ∷ s) out rest h =
    let tail = append_assoc out (c ∷ []) s in
    let ih = read_body-double s (out ++ c ∷ []) rest h in
    elim (Bool-cases (c == b'"')) [
      | inl e ↦ rw (e, e) (ih ∙ ap (λ t. some (t, rest)) tail)
      | inr e ↦ rw e (read_body_other out c s rest e ∙ ih ∙ ap (λ t. some (t, rest)) tail)
    ]

-- Every identifier, whatever it holds, is read back from its quoted form and nothing of what
-- follows is taken for a part of it, unless that begins with a quote.
pub read-quote_ident :
    (s rest : Text) → Ends rest → read_ident (quote_ident s ++ rest) ≡ some (s, rest)
unfolding quote_ident
read-quote_ident s rest h = rw append_assoc (read_body-double s [] rest h)
