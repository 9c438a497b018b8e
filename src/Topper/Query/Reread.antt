-- ===== src/Topper/Query/Reread.antt =====
-- The array literals of upsert.go, read back.
use money_insighter.Prelude.{
  ◌≡◌, refl, sym, ap, ◌∙◌, Bool, true, false, ◌⊎◌, inl, inr, Option, none, some, List, [], ◌∷◌,
  ◌++◌, append_assoc, append-nil, arith, Text, codes, All,
}
use money_insighter.Topper.Query.Types.{ok, Ensures, returned, failed, Ensures-bind, Ensures-ok}
use money_insighter.Topper.Query.Values.{
  Json, Elements, null, str, bool, number, array, object, done, item, format_bool, escape_codes,
  quoted_element, comma_before, braces, array_literal, literal_elements, literal_element,
}
use money_insighter.Topper.Query.Literals.{
  Token, opening, closing, separator, null_token, text_token, between, bare, in_quotes, prepend,
  bare_token, read_array, tokens, element_tokens, array_tokens, separators, is_plain, IsBare,
  HasBareNumbers, HaveBareNumbers, prepend-prepend, read-escape_codes,
}

-- What follows an element.
Ends : Text → Type 0
Ends [] = ⊥
Ends (c ∷ s) = (c ≡ b'}') ⊎ (c ≡ b',')

read_bare_end :
    (w rest : Text)
    → Ends rest
    → read_array (bare w) rest ≡ prepend (bare_token w ∷ []) (read_array between rest)
unfolding read_array Ends
read_bare_end w [] h = absurd h
read_bare_end w (c ∷ s) (inl e) =
    rw e (sym (prepend-prepend (bare_token w ∷ []) (closing ∷ []) (read_array between s)))
read_bare_end w (c ∷ s) (inr e) =
    rw e (sym (prepend-prepend (bare_token w ∷ []) (separator ∷ []) (read_array between s)))

read_bare :
    (n w rest : Text)
    → All (λ c. is_plain c ≡ true) n
    → Ends rest
    → read_array (bare w) (n ++ rest) ≡ prepend (bare_token (w ++ n) ∷ []) (read_array between rest)
unfolding read_array
read_bare [] w rest plain h =
    read_bare_end w rest h
    ∙ ap (λ v. prepend (bare_token v ∷ []) (read_array between rest)) (sym (append-nil w))
read_bare (c ∷ n) w rest (p, plain) h =
    ground (arith, read_bare n (w ++ c ∷ []) rest plain h, append_assoc w (c ∷ []) n)

read-IsBare :
    (n rest : Text)
    → IsBare n
    → Ends rest
    → read_array between (n ++ rest) ≡ prepend (text_token n ∷ []) (read_array between rest)
unfolding read_array
read-IsBare [] rest (full, plain, token) h = cc full
read-IsBare (c ∷ n) rest (full, (p, plain), token) h =
    ground (arith, read_bare n (c ∷ []) rest plain h, token)

format_bool-IsBare : (b : Bool) → IsBare (format_bool b)
unfolding bare_token
format_bool-IsBare true = (refl, (refl, (refl, (refl, (refl, tt)))), refl)
format_bool-IsBare false = (refl, (refl, (refl, (refl, (refl, (refl, tt))))), refl)

read_null :
    (rest : Text)
    → Ends rest
    → read_array between (codes "NULL" ++ rest)
      ≡ prepend (null_token ∷ []) (read_array between rest)
unfolding read_array bare_token
read_null rest h = read_bare (codes "ULL") (codes "N") rest (refl, (refl, (refl, tt))) h

read-quoted_element :
    (s rest : Text)
    → read_array between (quoted_element s ++ rest)
      ≡ prepend (text_token s ∷ []) (read_array between rest)
unfolding read_array quoted_element
read-quoted_element s rest =
    ap (read_array (in_quotes [])) (append_assoc (escape_codes s) (b'"' ∷ []) rest)
    ∙ read-escape_codes s [] rest

-- A text reads as these tokens, whatever follows the element.
abbrev Reads : List Token → Text → Type 0
Reads ts t =
    (rest : Text)
    → Ends rest
    → read_array between (t ++ rest) ≡ prepend ts (read_array between rest)

-- What follows the first element starts with a comma or the brace.
abbrev EndsWell : Bool → Text → Type 0
EndsWell true t = Unit
EndsWell false t = (rest : Text) → Ends rest → Ends (t ++ rest)

abbrev ReadsBody : Bool → List Token → Text → Type 0
ReadsBody first ts t = Reads ts t × EndsWell first t

prepend-nil : (o : Option (List Token)) → prepend [] o ≡ o
prepend-nil none = refl
prepend-nil (some ts) = refl

Reads-pair :
    (ts us : List Token) (t u rest : Text)
    → Reads ts t
    → ReadsBody false us u
    → Ends rest
    → read_array between ((t ++ u) ++ rest) ≡ prepend (ts ++ us) (read_array between rest)
Reads-pair ts us t u rest ht (hu, ends) h =
    ap (read_array between) (append_assoc t u rest)
    ∙ ht (u ++ rest) (ends rest h)
    ∙ ap (prepend ts) (hu rest h)
    ∙ prepend-prepend ts us (read_array between rest)

ReadsBody-item :
    (first : Bool) (ts us : List Token) (t u : Text)
    → Reads ts t
    → ReadsBody false us u
    → ReadsBody first (separators first ++ (ts ++ us)) (comma_before first ++ (t ++ u))
unfolding read_array Ends
ReadsBody-item true ts us t u ht hu = (λ rest h. Reads-pair ts us t u rest ht hu h, tt)
ReadsBody-item false ts us t u ht hu = (
  λ rest h.
      ap (prepend (separator ∷ [])) (Reads-pair ts us t u rest ht hu h)
      ∙ prepend-prepend (separator ∷ []) (ts ++ us) (read_array between rest),
  λ rest h. inr refl,
)

read-braces :
    (ts : List Token) (t : Text)
    → Reads ts t
    → (rest : Text)
    → read_array between (braces t ++ rest)
      ≡ prepend (opening ∷ (ts ++ closing ∷ [])) (read_array between rest)
unfolding read_array Ends
read-braces ts t h rest =
    ap (prepend (opening ∷ [])) (
      ap (read_array between) (append_assoc t (b'}' ∷ []) rest)
      ∙ h (b'}' ∷ rest) (inl refl)
      ∙ prepend-prepend ts (closing ∷ []) (read_array between rest))
    ∙ prepend-prepend (opening ∷ []) (ts ++ closing ∷ []) (read_array between rest)

mutual
  unfolding literal_element tokens HasBareNumbers read_array

  literal_element-Reads :
      (x : Json) → HasBareNumbers x → Ensures (Reads (tokens x)) (literal_element x)
  literal_element-Reads null h = returned (λ rest e. read_null rest e)
  literal_element-Reads (str s) h = returned (λ rest e. read-quoted_element s rest)
  literal_element-Reads (bool b) h =
      returned (λ rest e. read-IsBare (format_bool b) rest (format_bool-IsBare b) e)
  literal_element-Reads (number n) h = returned (λ rest e. read-IsBare n rest h e)
  literal_element-Reads (array xs) h =
      Ensures-bind (literal_elements-ReadsBody true xs h)
        (λ body reads. returned (λ rest e. read-braces (element_tokens true xs) body reads.0 rest))
  literal_element-Reads (object fs) h = failed

  literal_elements-ReadsBody :
      (first : Bool) (xs : Elements)
      → HaveBareNumbers xs
      → Ensures (ReadsBody first (element_tokens first xs)) (literal_elements first xs)
  literal_elements-ReadsBody true done h =
      returned (λ rest e. sym (prepend-nil (read_array between rest)), tt)
  literal_elements-ReadsBody false done h =
      returned (λ rest e. sym (prepend-nil (read_array between rest)), λ rest e. e)
  literal_elements-ReadsBody first (item x xs) (hx, h) =
      Ensures-bind (literal_element-Reads x hx) (λ text reads.
        Ensures-bind (literal_elements-ReadsBody false xs h) (λ more body.
          returned
            (ReadsBody-item first (tokens x) (element_tokens false xs) text more reads body)))

array_literal-Reads :
    (xs : Elements)
    → HaveBareNumbers xs
    → Ensures
        (λ u. read_array between (u ++ []) ≡ prepend (array_tokens xs) (read_array between []))
        (array_literal xs)
unfolding array_literal array_tokens
array_literal-Reads xs bare_numbers =
    Ensures-bind (literal_elements-ReadsBody true xs bare_numbers)
      (λ body reads. returned (read-braces (element_tokens true xs) body reads.0 []))

-- Where the numbers of a JSON array need no quotes, the literal that is written for it reads back as
-- exactly its braces, its separators and its elements, each string as one element with its own text.
pub read_array-array_literal :
    (xs : Elements) (t : Text)
    → HaveBareNumbers xs
    → array_literal xs ≡ ok t
    → read_array between t ≡ some (array_tokens xs)
unfolding array_literal array_tokens read_array
read_array-array_literal xs t bare_numbers h =
    ap (read_array between) (sym (append-nil t))
    ∙ Ensures-ok (array_literal-Reads xs bare_numbers) h
    ∙ ap some (append-nil (array_tokens xs))
