-- ===== src/Js/Set/Members.antt =====
-- The elements of `new Set(list)`: those of the list, each once.
use stechbaza_iot.Prelude.{
  Bool, Bool-cases, Each, IsDistinct, List, String, [], all, ap, arith, eq_iff, eq_refl, false, inl,
  inr, length, refl, str_eq, subst, true, ◌++◌, ◌||◌, ◌∙◌, ◌∷◌, ◌≡◌, ◌≢◌, ◌≤◌,
}
use stechbaza_iot.Api.Answers.{each}
use stechbaza_iot.Js.Set.{member-append, set_add, set_from, set_of}
use stechbaza_iot.Js.Text.{member}

or_assoc : (a b c : Bool) → ((a || b) || c) ≡ (a || (b || c))
or_assoc a b c = ground arith

member-same :
    (x y : String) (s : List String) → member y s ≡ true → str_eq y x ≡ true → member x s ≡ true
member-same x y s h e = subst (λ z. member z s ≡ true) ((eq_iff y x).0 e) h

had_already :
    (x y : String) (s : List String) → member y s ≡ true → member x s ≡ (member x s || str_eq y x)
had_already x y s h = elim (Bool-cases (str_eq y x)) [
  | inl same ↦ rw (member-same x y s h same) refl
  | inr other ↦ rw other (ground arith)
]

member-set_add :
    (x : String) (s : List String) (y : String)
    → member x (set_add s y) ≡ (member x s || str_eq y x)
unfolding set_add
member-set_add x s y = elim (Bool-cases (member y s)) [
  | inl had ↦ rw had (had_already x y s had)
  | inr new ↦ rw new (ground (arith, member-append x s (y ∷ [])))
]

member-set_from :
    (x : String) (s l : List String) → member x (set_from s l) ≡ (member x s || member x l)
unfolding set_from
member-set_from x s [] = ground arith
member-set_from x s (y ∷ l) =
    member-set_from x (set_add s y) l
    ∙ ap (λ b. b || member x l) (member-set_add x s y)
    ∙ or_assoc (member x s) (str_eq y x) (member x l)

Each-snoc :
    (P : String → Type 0) (s : List String) (x : String) → Each P s → P x → Each P (s ++ x ∷ [])
Each-snoc P [] x h p = (p, tt)
Each-snoc P (y ∷ s) x (q, h) p = (q, Each-snoc P s x h p)

member-false-ne :
    (y x : String) (s : List String) → member x (y ∷ s) ≡ false → (y ≢ x) × (member x s ≡ false)
member-false-ne y x s h = (λ e. ground (arith, eq_iff y x), ground arith)

IsDistinct-snoc :
    (s : List String) (x : String) → IsDistinct s → member x s ≡ false → IsDistinct (s ++ x ∷ [])
IsDistinct-snoc [] x h n = (tt, tt)
IsDistinct-snoc (y ∷ s) x (h, more) n =
    let (differs, rest) = member-false-ne y x s n in
    (Each-snoc (λ z. y ≢ z) s x h differs, IsDistinct-snoc s x more rest)

set_from-IsDistinct : (s l : List String) → IsDistinct s → IsDistinct (set_from s l)
unfolding set_from set_add
set_from-IsDistinct s [] h = h
set_from-IsDistinct s (x ∷ l) h = elim (Bool-cases (member x s)) [
  | inl had ↦ rw had (set_from-IsDistinct s l h)
  | inr new ↦ rw new (set_from-IsDistinct (s ++ x ∷ []) l (IsDistinct-snoc s x h new))
]

pub set_of-IsDistinct : (l : List String) → IsDistinct (set_of l)
unfolding set_of
set_of-IsDistinct l = set_from-IsDistinct [] l tt

pub member-set_of : (x : String) (l : List String) → member x (set_of l) ≡ member x l
unfolding set_of
member-set_of x l = member-set_from x [] l

pub member-length : (x : String) (xs : List String) → member x xs ≡ true → 1 ≤ length xs
member-length x [] e = cc
member-length x (y ∷ ys) e = omega arith

pub member-Each :
    (p : String → Type 0) (xs : List String) → ((x : String) → member x xs ≡ true → p x) → Each p xs
member-Each p [] h = tt
member-Each p (x ∷ xs) h = (h x (simp (eq_refl x)), member-Each p xs λ y inside. h y (ground arith))

pub all-member :
    (p : String → Bool) (xs : List String)
    → all p xs ≡ true
    → (x : String) → member x xs ≡ true
    → p x ≡ true
all-member p [] e x inside = cc
all-member p (y ∷ ys) e x inside = elim (Bool-cases (str_eq y x)) [
  | inl same ↦ subst (λ z. p z ≡ true) ((eq_iff y x).0 same) (ground arith)
  | inr other ↦ all-member p ys (ground arith) x (ground arith)
]

pub Each-member :
    (p : String → Type 0) (xs : List String) → Each p xs → (x : String) → member x xs ≡ true → p x
Each-member p [] each x inside = cc
Each-member p (y ∷ ys) (first, others) x inside = elim (Bool-cases (str_eq y x)) [
  | inl same ↦ subst p ((eq_iff y x).0 same) first
  | inr other ↦ Each-member p ys others x (ground arith)
]
