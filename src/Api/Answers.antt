-- ===== src/Api/Answers.antt =====
-- frontend/src/lib/api: the loops and tests over fields that its parsers share.
use stechbaza_iot.Prelude.{List, Option, String, [], if◌then◌else◌, none, some, ◌∷◌}
use stechbaza_iot.Api.Access.Fields.{invalid}
use stechbaza_iot.Api.Errors.{Result, ok, ◌>>=◌, ◌>>◌}
use stechbaza_iot.Host.{Host}
use stechbaza_iot.Js.Value.{Fields, Value, arr, elements, get, is_null, is_nullish}

module _ ⦃h : Host⦄ where
  -- for (const key of keys) check(key)
  unfoldable pub each {ℓ κ} :
      {A : Type ℓ} {B : Type κ} → (A → Result B) → List A → Result (Unit {0})
  each check [] = ok tt
  each check (x ∷ xs) = do check x; each check xs

  -- if (record[key] !== null) check(record, key, path)
  unfoldable pub unless_null :
      {A : Type 0}
      → (Fields → String → String → Result A)
      → Fields
      → String
      → String
      → Result (Unit {0})
  unless_null check fields key path =
      if is_null (get fields key) then ok tt else (do check fields key path; ok tt)

  -- if (record[key] != null) check(record, key, path)
  unfoldable pub unless_nullish :
      {A : Type 0}
      → (Fields → String → String → Result A)
      → Fields
      → String
      → String
      → Result (Unit {0})
  unless_nullish check fields key path =
      if is_nullish (get fields key) then ok tt else (do check fields key path; ok tt)

  -- record[key] == null ? null : read(record, key, path)
  unfoldable pub or_null :
      (Fields → String → String → Result String) → Fields → String → String → Result (Option String)
  or_null read fields key path =
      if is_nullish (get fields key)
      then ok none
      else (do value ← read fields key path; ok (some value))

  -- if (!Array.isArray(value)) invalidResponse(path, expected)
  unfoldable pub require_list : Value → String → String → Result (List Value)
  require_list (arr xs) path expected = ok (elements xs)
  require_list v path expected = invalid path expected
