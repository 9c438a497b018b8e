-- ===== src/Prelude/Texts.antt =====
-- Texts are lists of code units, with the functions of Go's `strings` that the program calls.
use Prim.Native.Nat.{ℕ, zero, suc, ◌+◌}
use Prim.Native.Char.{code}
use Prim.Native.String.{String}
use mathlib.Core.Bool.{Bool, true, false, ◌&&◌, ◌||◌}
use mathlib.Core.List.{List, [], ◌∷◌, ◌++◌, reverse}
use mathlib.Core.Option.{Option, none, some}
use mathlib.Core.Path.{◌≡◌, refl, ap}
use native.Mathlib.Omega.{arith}
use money_insighter.Prelude.Tests.{leb, ltb, ◌==◌, if◌then◌else◌}

abbrev pub Text : Type 0
Text = List ℕ

-- The code points of a literal.
abbrev pub codes : String → Text
codes String.[] = []
codes (String.◌∷◌ c s) = code c ∷ codes s

-- `==` on strings.
unfoldable pub text_eq : Text → Text → Bool
text_eq [] [] = true
text_eq [] (d ∷ t) = false
text_eq (c ∷ s) [] = false
text_eq (c ∷ s) (d ∷ t) = (c == d) && text_eq s t

pub text_eq_refl : (s : Text) → text_eq s s ≡ true
unfolding text_eq
text_eq_refl [] = refl
text_eq_refl (c ∷ s) = ground (arith, text_eq_refl s)

pub text_eq-eq : (s t : Text) → text_eq s t ≡ true → s ≡ t
unfolding text_eq
text_eq-eq [] [] h = refl
text_eq-eq [] (d ∷ t) h = cc
text_eq-eq (c ∷ s) [] h = cc
text_eq-eq (c ∷ s) (d ∷ t) h = ground (arith, text_eq-eq s t)

pub text_eq-ne : (s t : Text) → text_eq s t ≡ false → ¬ (s ≡ t)
text_eq-ne s t h e = cc (text_eq_refl s, ap (λ u. text_eq s u) e)

-- A text is one of a list of literals.
unfoldable pub one_of : Text → List Text → Bool
one_of s [] = false
one_of s (t ∷ ts) = text_eq s t || one_of s ts

-- strings.HasPrefix, strings.HasSuffix
unfoldable pub has_prefix : Text → Text → Bool
has_prefix s [] = true
has_prefix [] (d ∷ p) = false
has_prefix (c ∷ s) (d ∷ p) = (c == d) && has_prefix s p

unfoldable pub has_suffix : Text → Text → Bool
unfolding has_prefix
has_suffix s p = has_prefix (reverse s) (reverse p)

-- unicode.IsSpace on the runes of UTF-8, by their bytes: one byte, two or three.
abbrev pub is_space : ℕ → Bool
is_space c = (leb 9 c && leb c 13) || c == 32

abbrev pub is_space_pair : ℕ → ℕ → Bool
is_space_pair c d = c == 0xc2 && (d == 0x85 || d == 0xa0)

abbrev pub is_space_triple : ℕ → ℕ → ℕ → Bool
is_space_triple c d e =
    (c == 0xe1 && d == 0x9a && e == 0x80)
    || (c == 0xe2
        && d == 0x80
        && ((leb 0x80 e && leb e 0x8a) || e == 0xa8 || e == 0xa9 || e == 0xaf))
    || (c == 0xe2 && d == 0x81 && e == 0x9f)
    || (c == 0xe3 && d == 0x80 && e == 0x80)

-- How many bytes the space has that a text starts with, 0 for none.
abbrev pub front_space : Text → ℕ
front_space [] = 0
front_space (c ∷ []) = if is_space c then 1 else 0
front_space (c ∷ d ∷ []) = if is_space c then 1 else if is_space_pair c d then 2 else 0
front_space (c ∷ d ∷ e ∷ s) =
    if is_space c
    then 1
    else if is_space_pair c d
    then 2
    else if is_space_triple c d e
    then 3
    else 0

-- The same for the space that a text ends in, its bytes from the last one on.
abbrev pub back_space : Text → ℕ
back_space [] = 0
back_space (c ∷ []) = if is_space c then 1 else 0
back_space (d ∷ c ∷ []) = if is_space d then 1 else if is_space_pair c d then 2 else 0
back_space (e ∷ d ∷ c ∷ s) =
    if is_space e
    then 1
    else if is_space_pair d e
    then 2
    else if is_space_triple c d e
    then 3
    else 0

-- A text without the spaces in front, where `n` bytes of one are still to drop.
unfoldable pub trim_front : (Text → ℕ) → ℕ → Text → Text
trim_front size n [] = []
trim_front size (suc n) (c ∷ s) = trim_front size n s
trim_front size zero (c ∷ s) = elim (size (c ∷ s)) [ zero ↦ c ∷ s | suc n ↦ trim_front size n s ]

-- strings.TrimSpace
unfoldable pub trim_space : Text → Text
unfolding trim_front
trim_space s = reverse (trim_front back_space 0 (reverse (trim_front front_space 0 s)))

wide_spaces :
    trim_space (0xe2 ∷ 0x80 ∷ 0xa8 ∷ 0x20 ∷ 0xc3 ∷ 0xa0 ∷ 0xc2 ∷ 0xa0 ∷ []) ≡ 0xc3 ∷ 0xa0 ∷ []
unfolding trim_space
wide_spaces = refl

-- strings.ToLower, on ASCII letters
unfoldable pub to_lower : Text → Text
to_lower [] = []
to_lower (c ∷ s) = (if leb b'A' c && leb c b'Z' then c + 32 else c) ∷ to_lower s

abbrev push_front : ℕ → Option (Text × Text) → Option (Text × Text)
push_front c none = none
push_front c (some (a, b)) = some (c ∷ a, b)

-- strings.Cut at one code unit: the text before the first separator and the text after it.
unfoldable pub cut : ℕ → Text → Option (Text × Text)
cut sep [] = none
cut sep (c ∷ s) = let rest = push_front c (cut sep s) in if c == sep then some ([], s) else rest

-- strings.Split at one code unit, with the current part so far.
unfoldable pub split_from : ℕ → Text → Text → List Text
split_from sep cur [] = cur ∷ []
split_from sep cur (c ∷ s) =
    let next = split_from sep [] s in
    let more = split_from sep (cur ++ c ∷ []) s in if c == sep then cur ∷ next else more

unfoldable pub split : ℕ → Text → List Text
unfolding split_from
split sep s = split_from sep [] s

-- strings.Join
unfoldable pub join : Text → List Text → Text
join sep [] = []
join sep (p ∷ []) = p
join sep (p ∷ q ∷ ps) = p ++ (sep ++ join sep (q ∷ ps))

-- A slice without its last code unit.
unfoldable pub drop_last : Text → Text
drop_last [] = []
drop_last (c ∷ []) = []
drop_last (c ∷ d ∷ s) = c ∷ drop_last (d ∷ s)

-- The order of strings.
unfoldable pub text_le : Text → Text → Bool
text_le [] t = true
text_le (c ∷ s) [] = false
text_le (c ∷ s) (d ∷ t) =
    let later = text_le s t in if ltb c d then true else if ltb d c then false else later

unfoldable pub sort_in : Text → List Text → List Text
unfolding text_le
sort_in s [] = s ∷ []
sort_in s (t ∷ ts) = let later = sort_in s ts in if text_le s t then s ∷ t ∷ ts else t ∷ later

-- sort.Strings
unfoldable pub sort : List Text → List Text
unfolding sort_in
sort [] = []
sort (s ∷ ss) = sort_in s (sort ss)
