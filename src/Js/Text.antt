-- ===== src/Js/Text.antt =====
-- The texts of JavaScript: code points, the length in UTF-16 units, `trim` and `includes`.
pub mod Order
use stechbaza_iot.Prelude.{
  Bool, List, String, any, code, false, if◌then◌else◌, leb, ltb, str_eq, true, ℕ, ◌%◌, ◌&&◌, ◌++◌,
  ◌+◌, ◌-◌, ◌/◌, ◌==◌, ◌||◌, ◌∷◌,
}

-- The code points of a text.
abbrev pub codes : String → List ℕ
codes String.[] = List.[]
codes (String.◌∷◌ c s) = List.◌∷◌ (code c) (codes s)

-- `length`: a code point above 0xffff takes two units.
unfoldable pub utf16_length : String → ℕ
utf16_length String.[] = 0
utf16_length (String.◌∷◌ c s) = (if ltb (code c) 0x10000 then 1 else 2) + utf16_length s

-- WhiteSpace and LineTerminator of ECMAScript, which `trim` and \s share.
abbrev pub is_space : ℕ → Bool
is_space c =
    (leb 9 c && leb c 13)
    || c == 0x20
    || c == 0xa0
    || c == 0x1680
    || (leb 0x2000 c && leb c 0x200a)
    || c == 0x2028
    || c == 0x2029
    || c == 0x202f
    || c == 0x205f
    || c == 0x3000
    || c == 0xfeff

abbrev pub is_empty : String → Bool
is_empty String.[] = true
is_empty (String.◌∷◌ c s) = false

trim_start : String → String
trim_start String.[] = String.[]
trim_start (String.◌∷◌ c s) =
    let rest = trim_start s in if is_space (code c) then rest else String.◌∷◌ c s

trim_end : String → String
trim_end String.[] = String.[]
trim_end (String.◌∷◌ c s) =
    let rest = trim_end s in
    if is_space (code c) && is_empty rest then String.[] else String.◌∷◌ c rest

unfoldable pub trim : String → String
unfolding trim_start trim_end
trim s = trim_end (trim_start s)

-- `[a, b, …].includes(s)` and `new Set([a, b, …]).has(s)`.
abbrev pub member : String → List String → Bool
member s l = any (λ x. str_eq x s) l

-- The UTF-16 units of a code point.
units_of : ℕ → List ℕ
units_of c =
    if ltb c 0x10000
    then c ∷ List.[]
    else (0xd800 + (c - 0x10000) / 0x400) ∷ (0xdc00 + (c - 0x10000) % 0x400) ∷ List.[]

-- The UTF-16 units of a text.
unfoldable pub units : String → List ℕ
unfolding units_of
units String.[] = List.[]
units (String.◌∷◌ c s) = units_of (code c) ++ units s

-- a < b on lists of units, from the left
unfoldable pub list_lt : List ℕ → List ℕ → Bool
list_lt a List.[] = false
list_lt List.[] (y ∷ b) = true
list_lt (x ∷ a) (y ∷ b) = ltb x y || (x == y && list_lt a b)

-- a < b on texts
unfoldable pub text_lt : String → String → Bool
unfolding units list_lt
text_lt a b = list_lt (units a) (units b)
