-- ===== src/Api/Access/Fields/Checks.antt =====
-- What the checks of single fields in frontend/src/lib/api/access.ts let through.
use stechbaza_iot.Prelude.{
  Bool, Option-cases, String, arith, false, inl, inr, refl, some, subst, true, ◌≡◌, is_some, none,
  not, if◌then◌else◌,
}
use stechbaza_iot.Api.Access.Fields.{
  date_value, is_uuid, require, require_record, required_date_time, required_string, required_uuid,
  string_value, uuid_value,
}
use stechbaza_iot.Api.Errors.{>>=-eq-ok, ok, Ends, Ends->>=, Ends-ok, Result, ◌>>=◌}
use stechbaza_iot.Host.{Host}
use stechbaza_iot.Js.Text.{is_empty}
use stechbaza_iot.Js.Value.{Fields, Value, get, obj, str}
use stechbaza_iot.Prelude.Int.{ℤ}

-- A text that Date.parse reads.
abbrev pub IsDate : ⦃h : Host⦄ → String → Type 0
IsDate ⦃h⦄ s = (t : ℤ) × (h.date_parse s ≡ some t)

module _ ⦃h : Host⦄ (fields : Fields) (key path : String) where
  string_value-ok :
      (v : Value) (s : String) → string_value v key path ≡ ok s → (v ≡ str s) × (is_empty s ≡ false)
  unfolding string_value
  string_value-ok (str t) s e = ground arith
  string_value-ok v s e = cc

  pub required_string-ok :
      (s : String)
      → required_string fields key path ≡ ok s
      → (get fields key ≡ str s) × (is_empty s ≡ false)
  unfolding required_string
  required_string-ok s e = string_value-ok (get fields key) s e

  uuid_value-ok : (v s : String) → uuid_value v key path ≡ ok s → (v ≡ s) × (is_uuid s ≡ true)
  unfolding uuid_value
  uuid_value-ok v s e = ground arith

  pub required_uuid-ok :
      (s : String)
      → required_uuid fields key path ≡ ok s
      → (get fields key ≡ str s) × (is_uuid s ≡ true)
  unfolding required_uuid
  required_uuid-ok s e =
      let (v, found, checked) = >>=-eq-ok (required_string fields key path) _ e in
      let (same, uuid) = uuid_value-ok v s checked in
      (subst (λ t. get fields key ≡ str t) same (required_string-ok v found).0, uuid)

  date_value-ok :
      (v s : String) → date_value (h.date_parse v) v key path ≡ ok s → (v ≡ s) × IsDate v
  unfolding date_value
  date_value-ok v s e = elim (Option-cases (h.date_parse v)) [
    | inl missing ↦ cc (missing, e)
    | inr (t, read) ↦ (cc (read, e), (t, read))
  ]

  pub required_date_time-ok :
      (s : String) → required_date_time fields key path ≡ ok s → (get fields key ≡ str s) × IsDate s
  unfolding required_date_time
  required_date_time-ok s e =
      let (v, found, checked) = >>=-eq-ok (required_string fields key path) _ e in
      let (same, date) = date_value-ok v s checked in
      (
        subst (λ t. get fields key ≡ str t) same (required_string-ok v found).0,
        subst (λ t. IsDate t) same date,
      )

module _ ⦃h : Host⦄ where
  pub require-ok :
      (test : Bool) (path expected : String) {u : Unit {0}}
      → require test path expected ≡ ok u
      → test ≡ true
  unfolding require
  require-ok true path expected e = refl
  require-ok false path expected e = cc

  pub require_record-ok :
      (v : Value) (path expected : String) {fields : Fields}
      → require_record v path expected ≡ ok fields
      → v ≡ obj fields
  unfolding require_record
  require_record-ok (obj f) path expected e = cc
  require_record-ok v path expected e = cc

  -- The rules for a sequence of a parser
  pub Ends-require :
      {B : Type 0} {P : B → Type 0} (test : Bool) (path expected : String)
      (next : Unit {0} → Result B)
      → (test ≡ true → Ends P (next tt))
      → Ends P (require test path expected >>= next)
  Ends-require test path expected next h =
      Ends->>= (require test path expected) next λ _ e. h (require-ok test path expected e)

  pub Ends-require_last :
      {P : Unit {0} → Type 0} (test : Bool) (path expected : String)
      → (test ≡ true → P tt)
      → Ends P (require test path expected)
  Ends-require_last test path expected h = record {
    holds = λ _ e. h (require-ok test path expected e);
  }

  -- A value that may be absent is given exactly if it is not.
  pub given-is_some :
      (absent : Bool) (given : Result String)
      → Ends
          (λ o. is_some o ≡ not absent)
          (if absent then ok none else (given >>= λ value. ok (some value)))
  given-is_some true given = Ends-ok _ refl
  given-is_some false given = Ends->>= given _ λ v _. Ends-ok _ refl

pub ruleset parser_rules = (Ends-require, Ends-require_last, Ends->>=, Ends-ok)
