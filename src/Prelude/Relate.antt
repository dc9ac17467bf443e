-- ===== src/Prelude/Relate.antt =====
-- Predicates and relations on lists, by recursion: they compute to tuples, which the tactics read.
use mathlib.Core.Logic.{◌≢◌, ◌⊎◌}
use mathlib.Core.List.{List, [], ◌∷◌}

abbrev pub Each {ℓ} : {A : Type ℓ} → (A → Type 0) → List A → Type 0
Each P [] = Unit
Each P (x ∷ xs) = P x × Each P xs

-- The two lists correspond, element by element.
abbrev pub Both {ℓ κ} : {A : Type ℓ} {B : Type κ} → (A → B → Type 0) → List A → List B → Type 0
Both R [] [] = Unit
Both R [] (y ∷ ys) = ⊥
Both R (x ∷ xs) [] = ⊥
Both R (x ∷ xs) (y ∷ ys) = R x y × Both R xs ys

-- No element comes twice.
abbrev pub IsDistinct : {A : Type 0} → List A → Type 0
IsDistinct [] = Unit
IsDistinct (x ∷ xs) = Each (λ y. x ≢ y) xs × IsDistinct xs

-- An element has the property.
abbrev pub Has {ℓ} : {A : Type ℓ} → (A → Type 0) → List A → Type 0
Has P [] = ⊥
Has P (x ∷ xs) = P x ⊎ Has P xs
