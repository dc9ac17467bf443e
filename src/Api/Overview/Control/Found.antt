-- ===== src/Api/Overview/Control/Found.antt =====
-- The searches of frontend/src/lib/api/overview.ts in the modules of a device and in their channels.
use stechbaza_iot.Prelude.{
  &&-eq-true, Bool, Has, List, Option, String, [], ap, arith, eq_iff, false, if◌then◌else◌, inl,
  inr, none, refl, some, some-injective, subst, sym, true, ◌∙◌, ◌∷◌, ◌≡◌, ◌⊎◌,
}
use stechbaza_iot.Api.Overview.{Channel, Module, Reading}
use stechbaza_iot.Api.Overview.Control.{find_channel, find_module}

-- The first element that passes a test, or a later one
first_or :
    {A : Type 0} (test : Bool) (x y : A) (more : Option A)
    → (if test then some x else more) ≡ some y
    → ((test ≡ true) × (x ≡ y)) ⊎ (more ≡ some y)
first_or true x y more e = inl (refl, some-injective e)
first_or false x y more e = inr e

pub find_channel-Has :
    (Q : Channel × Reading → Type 0) (key : String) (l : List (Channel × Reading))
    (row : Channel × Reading)
    → find_channel key l ≡ some row
    → ((row.0).key ≡ key → (row.0).source ≡ "state" → Q row)
    → Has Q l
unfolding find_channel
find_channel-Has Q key [] row e q = cc
find_channel-Has Q key (r ∷ l) row e q = elim (first_or _ r row (find_channel key l) e) [
  | inl (found, same) ↦
      let (a, b) = &&-eq-true found in
      let checked = q (ap (λ z. (z.0).key) (sym same) ∙ (eq_iff (r.0).key key).0 a) in
      inl (
        subst Q (sym same)
          (checked (ap (λ z. (z.0).source) (sym same) ∙ (eq_iff (r.0).source "state").0 b)))
  | inr later ↦ inr (find_channel-Has Q key l row later q)
]

pub find_module-Has :
    (Q : Module → Type 0) (code : String) (l : List Module) (m : Module)
    → find_module code l ≡ some m
    → (m.code ≡ code → Q m)
    → Has Q l
unfolding find_module
find_module-Has Q code [] m e q = cc
find_module-Has Q code (n ∷ l) m e q = elim (first_or _ n m (find_module code l) e) [
  | inl (found, same) ↦
      inl (subst Q (sym same) (q (ap Module.code (sym same) ∙ (eq_iff n.code code).0 found)))
  | inr later ↦ inr (find_module-Has Q code l m later q)
]

none_of :
    (test : Bool) (n : Module) (more : Option Module)
    → (if test then some n else more) ≡ none
    → (test ≡ false) × (more ≡ none)
none_of true n more e = cc
none_of false n more e = (refl, e)

pub find_module-none :
    (code : String) (l : List Module) → find_module code l ≡ none → Has (λ m. m.code ≡ code) l → ⊥
unfolding find_module
find_module-none code [] e h = h
find_module-none code (n ∷ l) e (inl same) =
    let (other, more) = none_of _ n (find_module code l) e in ground (arith, eq_iff n.code code)
find_module-none code (n ∷ l) e (inr h) =
    find_module-none code l (none_of _ n (find_module code l) e).1 h
