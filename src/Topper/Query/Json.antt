-- ===== src/Topper/Query/Json.antt =====
-- `json.Marshal` of a string, as encoding/json renders object keys and text values for the
-- builders and the row encoder of internal/query.
use money_insighter.Prelude.{
  ℕ, zero, suc, ◌&&◌, ◌+◌, ◌/◌, ◌%◌, ◌≡◌, refl, ◌||◌, [], ◌∷◌, ◌++◌, Text, codes, ltb, ◌==◌,
  if◌then◌else◌,
}

hex_digit : ℕ → ℕ
hex_digit n = if ltb n 10 then b'0' + n else 87 + n

-- \u and four hexadecimal digits
escape_u : ℕ → Text
unfolding hex_digit
escape_u c =
    b'\\'
    ∷ b'u'
    ∷ hex_digit (c / 4096)
    ∷ hex_digit (c / 256 % 16)
    ∷ hex_digit (c / 16 % 16)
    ∷ hex_digit (c % 16)
    ∷ []

short_escape : ℕ → Text
short_escape c = b'\\' ∷ c ∷ []

json_code : ℕ → Text
unfolding escape_u short_escape
json_code c =
    if c == b'"' || c == b'\\'
    then short_escape c
    else if c == 8
    then short_escape b'b'
    else if c == 12
    then short_escape b'f'
    else if c == 10
    then short_escape b'n'
    else if c == 13
    then short_escape b'r'
    else if c == 9
    then short_escape b't'
    else if ltb c 32 || c == b'<' || c == b'>' || c == b'&'
    then escape_u c
    else c ∷ []

-- U+2028 and U+2029 by their bytes: the code they are escaped as, or 0.
line_separator : Text → ℕ
line_separator [] = 0
line_separator (c ∷ []) = 0
line_separator (c ∷ d ∷ []) = 0
line_separator (c ∷ d ∷ e ∷ s) =
    if c == 0xe2 && d == 0x80 && (e == 0xa8 || e == 0xa9) then 0x1f80 + e else 0

-- The bytes behind `n` that are already written.
json_codes : ℕ → Text → Text
unfolding json_code line_separator
json_codes n [] = []
json_codes (suc n) (c ∷ s) = json_codes n s
json_codes zero (c ∷ s) = elim (line_separator (c ∷ s)) [
  | zero ↦ json_code c ++ json_codes 0 s
  | suc k ↦ escape_u (suc k) ++ json_codes 2 s
]

-- The text is UTF-8; encoding/json replaces bytes that are not, which is left out.
unfoldable pub json_string : Text → Text
unfolding json_codes
json_string s = b'"' ∷ (json_codes 0 s ++ b'"' ∷ [])

markup : json_string (codes "a<\"b\n") ≡ codes "\"a\\u003c\\\"b\\n\""
unfolding json_string
markup = refl

separators : json_string (0xe2 ∷ 0x80 ∷ 0xa9 ∷ b'a' ∷ []) ≡ codes "\"\\u2029a\""
unfolding json_string
separators = refl
