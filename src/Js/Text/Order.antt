-- ===== src/Js/Text/Order.antt =====
-- The order of texts by their UTF-16 units.
use stechbaza_iot.Prelude.{List, String, [], arith, refl, true, ℕ, ◌∷◌, ◌≡◌}
use stechbaza_iot.Js.Text.{list_lt, text_lt, units}

list_lt_trans : (a b c : List ℕ) → list_lt a b ≡ true → list_lt b c ≡ true → list_lt a c ≡ true
unfolding list_lt
list_lt_trans a [] c h k = ground arith
list_lt_trans a (y ∷ b) [] h k = ground arith
list_lt_trans [] (y ∷ b) (z ∷ c) h k = refl
list_lt_trans (x ∷ a) (y ∷ b) (z ∷ c) h k = ground (arith, list_lt_trans a b c)

pub text_lt_trans : (a b c : String) → text_lt a b ≡ true → text_lt b c ≡ true → text_lt a c ≡ true
unfolding text_lt
text_lt_trans a b c h k = list_lt_trans (units a) (units b) (units c) h k
