-- ===== src/Api/Access/Fields.antt =====
-- frontend/src/lib/api/access.ts: the checks of single fields, which all parsers share.
pub mod Checks
use stechbaza_iot.Prelude.{ℕ, Bool, String, List, [], ◌∷◌, Option, none, some, if◌then◌else◌}
use Prim.Native.String
use stechbaza_iot.Prelude.Int.{ℤ}
use stechbaza_iot.Js.Value.{Value, str, obj, Fields, end, field, get}
use stechbaza_iot.Js.Text.{is_empty}
use stechbaza_iot.Js.Regex.{Regex, class, seq, repeat, char, test}
use stechbaza_iot.Host.{Host}
use stechbaza_iot.Api.Errors.{Failure, api_error, Result, ok, err, ◌>>=◌, invalid_response}
use stechbaza_iot.Api.Config.{build_api_url}

-- isRecord(value) ? … : …, as the object's fields
abbrev pub record? : Value → Option Fields
record? (obj fields) = some fields
record? v = none

abbrev hex : List (ℕ × ℕ)
hex = (b'0', b'9') ∷ (b'a', b'f') ∷ (b'A', b'F') ∷ []

abbrev hex_class : Regex
hex_class = class hex

-- /^[0-9a-f]{8}-[0-9a-f]{4}-[1-5][0-9a-f]{3}-[89ab][0-9a-f]{3}-[0-9a-f]{12}$/iu
unfoldable pub uuid_pattern : Regex
uuid_pattern = seq (
    repeat 8 hex_class
    ∷ char b'-'
    ∷ repeat 4 hex_class
    ∷ char b'-'
    ∷ class ((b'1', b'5') ∷ [])
    ∷ repeat 3 hex_class
    ∷ char b'-'
    ∷ class ((b'8', b'9') ∷ (b'a', b'b') ∷ (b'A', b'B') ∷ [])
    ∷ repeat 3 hex_class
    ∷ char b'-'
    ∷ repeat 12 hex_class
    ∷ [])

-- Inventory's isUuid is the same test.
unfoldable pub is_uuid : String → Bool
unfolding uuid_pattern test
is_uuid value = test uuid_pattern value

module _ ⦃h : Host⦄ where
  -- What invalidResponse(path, expected, details) throws.
  invalid_failure : String → Value → Failure
  invalid_failure path details = elim (build_api_url path) [
    | err e ↦ e
    | ok url ↦ api_error (record {
      message = "Не вдалося перевірити отримані дані. Оновіть сторінку або спробуйте пізніше.";
      kind = invalid_response;
      status = some 200;
      method = "GET";
      url = url.href;
      retry_after_seconds = none;
      request_id = none;
      details = details;
    })
  ]

  unfoldable pub invalid {ℓ} : {A : Type ℓ} → String → String → Result A
  unfolding invalid_failure
  invalid path expected = err (invalid_failure path (obj (field "expected" (str expected) end)))

  unfoldable pub invalid_details {ℓ} : {A : Type ℓ} → String → Value → Result A
  unfolding invalid_failure
  invalid_details path details = err (invalid_failure path details)

  -- `if (!test) invalidResponse(path, expected)`
  unfoldable pub require : Bool → String → String → Result (Unit {0})
  unfolding invalid
  require test path expected = if test then ok tt else invalid path expected

  -- `if (!isRecord(value)) invalidResponse(path, expected)`
  unfoldable pub require_record : Value → String → String → Result Fields
  unfolding invalid
  require_record (obj fields) path expected = ok fields
  require_record v path expected = invalid path expected

  string_value : Value → String → String → Result String
  unfolding invalid
  string_value (str value) key path = if is_empty value then invalid path key else ok value
  string_value v key path = invalid path key

  unfoldable pub required_string : Fields → String → String → Result String
  unfolding string_value
  required_string fields key path = string_value (get fields key) key path

  uuid_value : String → String → String → Result String
  unfolding invalid
  uuid_value value key path =
      if is_uuid value then ok value else invalid path (String.◌++◌ key ": uuid")

  unfoldable pub required_uuid : Fields → String → String → Result String
  unfolding required_string uuid_value
  required_uuid fields key path = do
    value ← required_string fields key path
    uuid_value value key path

  date_value : Option ℤ → String → String → String → Result String
  unfolding invalid
  date_value (some time) value key path = ok value
  date_value none value key path = invalid path (String.◌++◌ key ": date-time")

  unfoldable pub required_date_time : Fields → String → String → Result String
  unfolding required_string date_value
  required_date_time fields key path = do
    value ← required_string fields key path
    date_value (h.date_parse value) value key path
