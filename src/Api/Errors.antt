-- ===== src/Api/Errors.antt =====
-- frontend/src/lib/api/errors.ts: the errors of the client, and results that may be an error.
pub mod Message
pub mod Retry
use stechbaza_iot.Prelude.{
  Bool, Both, Each, List, Option, String, [], false, if◌then◌else◌, leb, refl, subst, true, ℕ, ◌==◌,
  ◌∷◌, ◌≡◌,
}
use stechbaza_iot.Js.Value.{Value}

pub data ErrorKind : Type 0 where
  unauthorized forbidden not_found conflict validation rate_limited server : ErrorKind
  network timeout aborted invalid_response unexpected : ErrorKind

pub ErrorKind-discrete : Discrete ErrorKind
ErrorKind-discrete = hlevel

-- `class ApiError`. The optional `cause` is for the debugger: no code reads it.
pub record ApiError : Type 0 where
  pub message : String
  pub kind : ErrorKind
  pub status : Option ℕ
  pub method : String
  pub url : String
  pub retry_after_seconds : Option ℕ
  pub request_id : Option String
  pub details : Value

-- What a call may throw: an ApiError, or any other Error with its message.
pub data Failure : Type 0 where
  api_error : ApiError → Failure
  error : String → Failure

pub data Result {ℓ} (A : Type ℓ) : Type ℓ where
  err : Failure → Result A
  ok : A → Result A

infixl 5 ◌>>=◌ ◌>>◌
-- What follows a call that may throw.
abbrev pub ◌>>=◌ {ℓ κ} : {A : Type ℓ} {B : Type κ} → Result A → (A → Result B) → Result B
err failure >>= next = err failure
ok value >>= next = next value

abbrev pub ◌>>◌ {ℓ κ} : {A : Type ℓ} {B : Type κ} → Result A → Result B → Result B
check >> rest = check >>= λ value. rest

-- `list.map(f)`, where the first error ends the map
unfoldable pub traverse {ℓ κ} :
    {A : Type ℓ} {B : Type κ} → (A → Result B) → List A → Result (List B)
traverse f [] = ok []
traverse f (x ∷ xs) = do y ← f x; ys ← traverse f xs; ok (y ∷ ys)

-- A sequence ends well only if its first call does, and the rest from there.
pub >>=-eq-ok {ℓ κ} :
    {A : Type ℓ} {B : Type κ} (r : Result A) (next : A → Result B) {end : B}
    → (r >>= next) ≡ ok end
    → (value : A) × (r ≡ ok value) × (next value ≡ ok end)
>>=-eq-ok (err failure) next e = cc
>>=-eq-ok (ok value) next e = (value, refl, e)

-- What a call that ends well ends with
pub record Ends {A : Type 0} (P : A → Type 0) (r : Result A) : Type 0 where
  pub holds : (a : A) → r ≡ ok a → P a

-- A sequence ends with what its last call ends with; the first gives its equation.
pub Ends->>= :
    {A B : Type 0} {P : B → Type 0} (r : Result A) (next : A → Result B)
    → ((a : A) → r ≡ ok a → Ends P (next a))
    → Ends P (r >>= next)
Ends->>= r next h = record {
  holds = λ b e. let (a, first, more) = >>=-eq-ok r next e in (h a first).holds b more;
}

pub ok-injective : {A : Type 0} {a b : A} → ok a ≡ ok b → a ≡ b
ok-injective e = cc

pub Ends-ok : {A : Type 0} {P : A → Type 0} (a : A) → P a → Ends P (ok a)
Ends-ok {P = P} a h = record { holds = λ b e. subst P (ok-injective e) h }

-- A map that ends well has mapped each element, in order.
pub traverse-ok :
    {A : Type 0} {B : Type 0} (f : A → Result B) (xs : List A) (ys : List B)
    → traverse f xs ≡ ok ys
    → Both (λ x y. f x ≡ ok y) xs ys
unfolding traverse
traverse-ok f [] [] e = tt
traverse-ok f [] (y ∷ ys) e = cc
traverse-ok f (x ∷ xs) ys e =
    let (z, head, more) = >>=-eq-ok (f x) _ e in
    let (zs, rest, same) = >>=-eq-ok (traverse f xs) _ more in
    subst (λ l. Both (λ x y. f x ≡ ok y) (x ∷ xs) l) (ok-injective same)
      (head, traverse-ok f xs zs rest)

pub Ends-traverse :
    {A B : Type 0} {P : B → Type 0} (f : A → Result B) (xs : List A)
    → ((x : A) → Ends P (f x))
    → Ends (Each P) (traverse f xs)
unfolding traverse
Ends-traverse f [] h = Ends-ok [] tt
Ends-traverse f (x ∷ xs) h = Ends->>= (f x) _ λ y is_y.
    Ends->>= (traverse f xs) _
      λ ys are_ys. Ends-ok (y ∷ ys) ((h x).holds y is_y, (Ends-traverse f xs h).holds ys are_ys)

unfoldable pub api_error_kind_for_status : ℕ → ErrorKind
api_error_kind_for_status status =
    if status == 401
    then unauthorized
    else if status == 403
    then forbidden
    else if status == 404
    then not_found
    else if status == 409
    then conflict
    else if status == 422
    then validation
    else if status == 429
    then rate_limited
    else if leb 500 status
    then server
    else unexpected
