-- ===== src/Js/Set.antt =====
-- `new Set(list)` of texts: the elements in the order in which they came first.
pub mod Members
use stechbaza_iot.Prelude.{
  Bool, Bool-cases, Each, IsDistinct, List, String, [], ap, arith, eq_iff, false, if◌then◌else◌,
  inl, inr, length, length-append, refl, suc, true, ◌++◌, ◌+◌, ◌==◌, ◌||◌, ◌∷◌, ◌≡◌, ◌≢◌, ◌≤◌,
}
use stechbaza_iot.Js.Text.{member}

-- set.add(x)
pub set_add : List String → String → List String
set_add s x = if member x s then s else s ++ x ∷ []

pub set_from : List String → List String → List String
set_from s [] = s
set_from s (x ∷ l) = set_from (set_add s x) l

-- new Set(l)
unfoldable pub set_of : List String → List String
unfolding set_from set_add
set_of l = set_from [] l

-- new Set(l).size === l.length
unfoldable pub is_distinct : List String → Bool
unfolding set_of
is_distinct l = length (set_of l) == length l

pub member-append :
    (x : String) (l r : List String) → member x (l ++ r) ≡ (member x l || member x r)
member-append x [] r = refl
member-append x (y ∷ l) r = ground (arith, member-append x l r)

length-set_from : (s l : List String) → length (set_from s l) ≤ length s + length l
unfolding set_from set_add
length-set_from s [] = omega arith
length-set_from s (x ∷ l) = elim (Bool-cases (member x s)) [
  | inl old ↦ rw old (omega (arith, length-set_from s l))
  | inr new ↦ rw new (omega (arith, length-set_from (s ++ x ∷ []) l, length-append s (x ∷ [])))
]

-- No element of the list is in the set yet, nor comes twice.
abbrev IsNew : List String → List String → Type 0
IsNew s [] = Unit
IsNew s (x ∷ l) = (member x s ≡ false) × IsNew (s ++ x ∷ []) l

set_from-IsNew : (s l : List String) → length (set_from s l) ≡ length s + length l → IsNew s l
unfolding set_from set_add
set_from-IsNew s [] h = tt
set_from-IsNew s (x ∷ l) h = elim (Bool-cases (member x s)) [
  | inl old ↦ absurd (omega (arith, length-set_from s l, kept old))
  | inr new ↦
      (new, set_from-IsNew (s ++ x ∷ []) l (omega (arith, length-append s (x ∷ []), added new)))
]
  where
    kept : member x s ≡ true → length (set_from s l) ≡ length s + suc (length l)
    kept old = rw (old, set_add) at h

    added : member x s ≡ false → length (set_from (s ++ x ∷ []) l) ≡ length s + suc (length l)
    added new = rw (new, set_add) at h

not-member-ne : (x y : String) (s : List String) → member x (s ++ y ∷ []) ≡ false → y ≢ x
not-member-ne x y s h e = ground (arith, member-append x s (y ∷ []), eq_iff y x)

IsNew-Each : (x : String) (s l : List String) → member x s ≡ true → IsNew s l → Each (λ y. x ≢ y) l
IsNew-Each x s [] h n = tt
IsNew-Each x s (y ∷ l) h (new, n) = (
  (λ e. cc (h, new, ap (λ z. member z s) e)),
  IsNew-Each x (s ++ y ∷ []) l (ground (arith, member-append x s (y ∷ []))) n,
)

IsNew-IsDistinct : (s l : List String) → IsNew s l → IsDistinct l
IsNew-IsDistinct s [] n = tt
IsNew-IsDistinct s (x ∷ l) (new, n) = (
  IsNew-Each x (s ++ x ∷ []) l (ground (arith, member-append x s (x ∷ []), eq_iff x x)) n,
  IsNew-IsDistinct (s ++ x ∷ []) l n,
)

-- The test on the sizes finds every repetition.
pub is_distinct-IsDistinct : (l : List String) → is_distinct l ≡ true → IsDistinct l
unfolding is_distinct
is_distinct-IsDistinct l h = IsNew-IsDistinct [] l (set_from-IsNew [] l (ground arith))
