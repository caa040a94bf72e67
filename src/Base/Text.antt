-- ===== src/Base/Text.antt =====
-- Go strings. A string is held as what `range` reads from it: the code points, and for each byte b
-- that begins no valid UTF-8 sequence the number 0x110000 + b. The width of each in bytes is that
-- of its encoding, so `len`, `utf8.ValidString`, `utf8.RuneCountInString` and the functions of
-- `strings` that the program calls are functions of this list.
use Prim.Native.Nat.{ℕ, ◌+◌}
use Prim.Native.Char.{code}
use Prim.Native.String.{String}
use mathlib.Core.Bool.{Bool, true, false, ◌&&◌, ◌||◌, not}
use mathlib.Core.List.{List, [], ◌∷◌}
use cuckoo.Base.Tests.{ltb, leb, ◌==◌, if◌then◌else◌}
use cuckoo.Base.Lists.{any}

abbrev pub Text : Type 0
Text = List ℕ

-- A literal of the source.
abbrev pub codes : String → Text
codes String.[] = []
codes (String.◌∷◌ c s) = code c ∷ codes s

-- s == t
abbrev pub text_eq : Text → Text → Bool
text_eq [] [] = true
text_eq [] (y ∷ ys) = false
text_eq (x ∷ xs) [] = false
text_eq (x ∷ xs) (y ∷ ys) = x == y && text_eq xs ys

-- slices.Contains, and a look-up in a `map[string]bool`
abbrev pub contains : List Text → Text → Bool
contains [] t = false
contains (x ∷ xs) t = text_eq x t || contains xs t

-- The width of one element in bytes.
unfoldable pub width : ℕ → ℕ
width c =
    if ltb c 0x80
    then 1
    else if ltb c 0x800
    then 2
    else if ltb c 0x10000
    then 3
    else if ltb c 0x110000
    then 4
    else 1

-- len(s)
unfoldable pub byte_len : Text → ℕ
byte_len [] = 0
byte_len (c ∷ s) = width c + byte_len s

-- utf8.ValidString
unfoldable pub is_valid : Text → Bool
is_valid s = not (any (λ c. leb 0x110000 c) s)

-- unicode.IsSpace
unfoldable pub is_space : ℕ → Bool
is_space c =
    (leb 0x09 c && leb c 0x0d)
    || c == 0x20
    || c == 0x85
    || c == 0xa0
    || c == 0x1680
    || (leb 0x2000 c && leb c 0x200a)
    || c == 0x2028
    || c == 0x2029
    || c == 0x202f
    || c == 0x205f
    || c == 0x3000

-- strings.TrimLeftFunc(s, unicode.IsSpace)
unfoldable pub trim_left : Text → Text
trim_left [] = []
trim_left (c ∷ s) = let rest = trim_left s in if is_space c then rest else c ∷ s

-- strings.TrimRightFunc(s, unicode.IsSpace): an element goes if it and all behind it are spaces.
unfoldable pub trim_right : Text → Text
trim_right [] = []
trim_right (c ∷ s) = elim (trim_right s) [
  | [] ↦ if is_space c then [] else c ∷ []
  | d ∷ r ↦ c ∷ d ∷ r
]

-- strings.TrimSpace
unfoldable pub trim_space : Text → Text
trim_space s = trim_right (trim_left s)

-- strings.ContainsAny(s, chars), strings.ContainsRune(s, r)
unfoldable pub contains_any : Text → Text → Bool
contains_any chars s = any (λ c. any (λ d. c == d) chars) s

unfoldable pub contains_rune : ℕ → Text → Bool
contains_rune r s = any (λ c. c == r) s
