-- ===== src/Topper/Query/Values.antt =====
-- Decoded JSON values as bound arguments: `normalizeArg`, `marshalJSON` and `arrayLiteral` of
-- postgres-topper/internal/query/upsert.go. Numbers are the texts that `json.Number` keeps.
use money_insighter.Prelude.{
  Bool, true, false, ◌||◌, Option, none, some, [], ◌∷◌, ◌++◌, Text, codes, ◌==◌, if◌then◌else◌,
}
use money_insighter.Topper.Catalog.{Column, is_array}
use money_insighter.Topper.Query.Json.{json_string}
use money_insighter.Topper.Query.Types.{Result, ok, err, ◌>>=◌, bad_request, bad_element}

mutual
  pub data Json : Type 0 where
    null : Json
    str : Text → Json
    bool : Bool → Json
    number : Text → Json
    array : Elements → Json
    object : Fields → Json

  pub data Elements : Type 0 where
    done : Elements
    item : Json → Elements → Elements

  pub data Fields : Type 0 where
    no_more : Fields
    field : Text → Json → Fields → Fields

-- strconv.FormatBool
abbrev pub format_bool : Bool → Text
format_bool true = codes "true"
format_bool false = codes "false"

abbrev with_comma : Text → Text
with_comma [] = []
with_comma (c ∷ s) = b',' ∷ c ∷ s

-- `json.Marshal`, which writes the keys of a map in their order; they are kept sorted here.
unfoldable mutual
  unfolding json_string

  pub marshal : Json → Text
  marshal null = codes "null"
  marshal (str s) = json_string s
  marshal (bool b) = format_bool b
  marshal (number n) = n
  marshal (array xs) = b'[' ∷ (marshal_elements xs ++ b']' ∷ [])
  marshal (object fs) = b'{' ∷ (marshal_fields fs ++ b'}' ∷ [])

  marshal_elements : Elements → Text
  marshal_elements done = []
  marshal_elements (item x xs) = marshal x ++ with_comma (marshal_elements xs)

  marshal_fields : Fields → Text
  marshal_fields no_more = []
  marshal_fields (field k x fs) =
      json_string k ++ (b':' ∷ (marshal x ++ with_comma (marshal_fields fs)))

-- A backslash before a quote and before a backslash.
unfoldable pub escape_codes : Text → Text
escape_codes [] = []
escape_codes (c ∷ s) =
    let rest = escape_codes s in if (c == b'"') || (c == b'\\') then b'\\' ∷ c ∷ rest else c ∷ rest

unfoldable pub quoted_element : Text → Text
unfolding escape_codes
quoted_element s = b'"' ∷ (escape_codes s ++ b'"' ∷ [])

-- The loop writes a comma in front of every element but the first.
abbrev pub comma_before : Bool → Text
comma_before true = []
comma_before false = b',' ∷ []

abbrev pub braces : Text → Text
braces body = b'{' ∷ (body ++ b'}' ∷ [])

unfoldable mutual
  unfolding quoted_element

  pub literal_elements : Bool → Elements → Result Text
  literal_elements first done = ok []
  literal_elements first (item x xs) = do
    text ← literal_element x
    rest ← literal_elements false xs
    ok (comma_before first ++ (text ++ rest))

  pub literal_element : Json → Result Text
  literal_element null = ok (codes "NULL")
  literal_element (str s) = ok (quoted_element s)
  literal_element (bool b) = ok (format_bool b)
  literal_element (number n) = ok n
  literal_element (array xs) = do body ← literal_elements true xs; ok (braces body)
  literal_element (object fs) = err (bad_request bad_element)

unfoldable pub array_literal : Elements → Result Text
unfolding literal_elements
array_literal xs = do body ← literal_elements true xs; ok (braces body)

-- `normalizeArg`: `none` is the nil argument, NULL.
unfoldable pub normalize_arg : Json → Column → Result (Option Text)
unfolding marshal array_literal is_array
normalize_arg null c = ok none
normalize_arg (str s) c = ok (some s)
normalize_arg (bool b) c = ok (some (format_bool b))
normalize_arg (number n) c = ok (some n)
normalize_arg (array xs) c =
    if is_array c
    then (do lit ← array_literal xs; ok (some lit))
    else ok (some (marshal (array xs)))
normalize_arg (object fs) c = ok (some (marshal (object fs)))
