-- ===== src/Js/Regex.antt =====
-- Regular expressions that are anchored at both ends, matched by derivatives.
use stechbaza_iot.Prelude.{
  ℕ, zero, suc, Bool, true, false, ◌&&◌, ◌||◌, List, [], ◌∷◌, any, leb, if◌then◌else◌, String,
}
use stechbaza_iot.Js.Text.{codes}

pub data Regex : Type 0 where
  never : Regex
  empty : Regex
  -- one code point in one of the ranges, both ends included
  class : List (ℕ × ℕ) → Regex
  cat : Regex → Regex → Regex
  alt : Regex → Regex → Regex
  star : Regex → Regex

abbrev pub in_range : ℕ → ℕ × ℕ → Bool
in_range c (lo, hi) = leb lo c && leb c hi

unfoldable pub nullable : Regex → Bool
nullable never = false
nullable empty = true
nullable (class r) = false
nullable (cat r s) = nullable r && nullable s
nullable (alt r s) = nullable r || nullable s
nullable (star r) = true

-- The derivatives keep small by the two laws of `never`.
unfoldable pub cat_of : Regex → Regex → Regex
cat_of never s = never
cat_of empty s = s
cat_of r s = cat r s

unfoldable pub alt_of : Regex → Regex → Regex
alt_of never s = s
alt_of r never = r
alt_of r s = alt r s

unfoldable pub deriv : ℕ → Regex → Regex
unfolding cat_of alt_of nullable
deriv c never = never
deriv c empty = never
deriv c (class ranges) = if any (in_range c) ranges then empty else never
deriv c (cat r s) =
    let skip = deriv c s in
    let left = cat_of (deriv c r) s in if nullable r then alt_of left skip else left
deriv c (alt r s) = alt_of (deriv c r) (deriv c s)
deriv c (star r) = cat_of (deriv c r) (star r)

unfoldable pub matches : Regex → List ℕ → Bool
unfolding deriv
matches r [] = nullable r
matches r (c ∷ s) = matches (deriv c r) s

unfoldable pub test : Regex → String → Bool
unfolding matches
test r s = matches r (codes s)

-- r{n}
abbrev pub repeat : ℕ → Regex → Regex
repeat zero r = empty
repeat (suc zero) r = r
repeat (suc (suc n)) r = cat r (repeat (suc n) r)

-- r?
abbrev pub opt : Regex → Regex
opt r = alt r empty

-- r+
abbrev pub plus : Regex → Regex
plus r = cat r (star r)

-- one code point
abbrev pub char : ℕ → Regex
char c = class ((c, c) ∷ [])

-- a text
abbrev pub word : String → Regex
word s = chars (codes s)
  where
    chars : List ℕ → Regex
    chars [] = empty
    chars (c ∷ r) = cat (char c) (chars r)

abbrev pub digit : Regex
digit = class ((b'0', b'9') ∷ [])

-- the regular expressions of a sequence
abbrev pub seq : List Regex → Regex
seq [] = empty
seq (r ∷ []) = r
seq (r ∷ s ∷ l) = cat r (seq (s ∷ l))
