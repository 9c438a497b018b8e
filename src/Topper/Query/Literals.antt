-- ===== src/Topper/Query/Literals.antt =====
-- Array literals of upsert.go against a reader of Postgres's array syntax.
use money_insighter.Prelude.{
  ℕ, ◌≡◌, refl, sym, ap, Bool, true, false, not, ◌||◌, Option, none, some, List, [], ◌∷◌, ◌++◌,
  append_assoc, append-nil, arith, Text, codes, text_eq, to_lower, is_empty, All, ◌==◌,
  if◌then◌else◌,
}
use money_insighter.Topper.Query.Values.{
  Json, Elements, null, str, bool, number, array, object, done, item, format_bool, escape_codes,
}

-- A brace, a comma, NULL, or the text of an element.
pub data Token : Type 0 where
  opening closing separator null_token : Token
  text_token : Text → Token

-- Between elements, in an unquoted element, in a quoted one, and behind a backslash in it, each with
-- the element so far.
pub data ReaderMode : Type 0 where
  between : ReaderMode
  bare in_quotes escaped : Text → ReaderMode

abbrev pub prepend : List Token → Option (List Token) → Option (List Token)
prepend ts none = none
prepend ts (some more) = some (ts ++ more)

-- An unquoted NULL, in any case, is not a text.
unfoldable pub bare_token : Text → Token
unfolding to_lower text_eq
bare_token s = if text_eq (to_lower s) (codes "null") then null_token else text_token s

unfoldable pub read_array : ReaderMode → Text → Option (List Token)
unfolding bare_token
read_array between [] = some []
read_array between (c ∷ s) =
    let next = read_array between s in
    let text = read_array (in_quotes []) s in
    let word = read_array (bare (c ∷ [])) s in
    if c == b'{'
    then prepend (opening ∷ []) next
    else if c == b'}'
    then prepend (closing ∷ []) next
    else if c == b','
    then prepend (separator ∷ []) next
    else if c == b'"'
    then text
    else word
read_array (bare w) [] = some (bare_token w ∷ [])
read_array (bare w) (c ∷ s) =
    let next = read_array between s in
    let more = read_array (bare (w ++ c ∷ [])) s in
    if c == b'}'
    then prepend (bare_token w ∷ closing ∷ []) next
    else if c == b','
    then prepend (bare_token w ∷ separator ∷ []) next
    else more
read_array (in_quotes w) [] = none
read_array (in_quotes w) (c ∷ s) =
    let next = read_array between s in
    let skip = read_array (escaped w) s in
    let more = read_array (in_quotes (w ++ c ∷ [])) s in
    if c == b'"' then prepend (text_token w ∷ []) next else if c == b'\\' then skip else more
read_array (escaped w) [] = none
read_array (escaped w) (c ∷ s) = read_array (in_quotes (w ++ c ∷ [])) s

-- The tokens of a value: one for each of its texts, whatever the text holds.
abbrev pub separators : Bool → List Token
separators true = []
separators false = separator ∷ []

unfoldable mutual
  pub tokens : Json → List Token
  tokens null = null_token ∷ []
  tokens (str s) = text_token s ∷ []
  tokens (bool b) = text_token (format_bool b) ∷ []
  tokens (number n) = text_token n ∷ []
  tokens (array xs) = opening ∷ (element_tokens true xs ++ closing ∷ [])
  tokens (object fs) = []

  pub element_tokens : Bool → Elements → List Token
  element_tokens first done = []
  element_tokens first (item x xs) = separators first ++ (tokens x ++ element_tokens false xs)

unfoldable pub array_tokens : Elements → List Token
unfolding element_tokens
array_tokens xs = opening ∷ (element_tokens true xs ++ closing ∷ [])

-- A code that an unquoted element may hold.
abbrev pub is_plain : ℕ → Bool
is_plain c = not ((c == b'{') || (c == b'}') || (c == b',') || (c == b'"') || (c == b'\\'))

-- The number's text needs no quotes: plain, not empty, and not NULL.
abbrev pub IsBare : Text → Type 0
IsBare n = (is_empty n ≡ false) × All (λ c. is_plain c ≡ true) n × (bare_token n ≡ text_token n)

unfoldable mutual
  pub HasBareNumbers : Json → Type 0
  HasBareNumbers null = Unit
  HasBareNumbers (str s) = Unit
  HasBareNumbers (bool b) = Unit
  HasBareNumbers (number n) = IsBare n
  HasBareNumbers (array xs) = HaveBareNumbers xs
  HasBareNumbers (object fs) = Unit

  pub HaveBareNumbers : Elements → Type 0
  HaveBareNumbers done = Unit
  HaveBareNumbers (item x xs) = HasBareNumbers x × HaveBareNumbers xs

pub prepend-prepend :
    (ts us : List Token) (o : Option (List Token))
    → prepend ts (prepend us o) ≡ prepend (ts ++ us) o
prepend-prepend ts us none = refl
prepend-prepend ts us (some more) = ap some (sym (append_assoc ts us more))

pub read-escape_codes :
    (s w rest : Text)
    → read_array (in_quotes w) (escape_codes s ++ (b'"' ∷ rest))
      ≡ prepend (text_token (w ++ s) ∷ []) (read_array between rest)
unfolding read_array escape_codes
read-escape_codes [] w rest = rw (append-nil w) refl
read-escape_codes (c ∷ s) w rest =
    ground (arith, read-escape_codes s (w ++ c ∷ []) rest, append_assoc w (c ∷ []) s)
