-- ===== src/Api/Drive.antt =====
-- frontend/src/lib/api/vfd-settings.ts: the settings of the frequency drive.
mod Tests
use stechbaza_iot.Prelude.{
  Bool, List, Option, String, [], all, false, if◌then◌else◌, none, some, ℕ, ◌&&◌, ◌||◌, ◌∷◌,
}
use stechbaza_iot.Api.Access.Fields.{invalid}
use stechbaza_iot.Api.Errors.{Result, ok}
use stechbaza_iot.Host.{Host}
use stechbaza_iot.Js.Checks.{is_integer_in, is_safe_from}
use stechbaza_iot.Js.Text.{member}
use stechbaza_iot.Js.Value.{
  Fields, Value, get, is_bool, is_nat, is_null, is_nullish, is_text, keys, obj,
}
use stechbaza_iot.Prelude.Int.{pos}

abbrev drive_path : String
drive_path = "/api/v1/devices/overview"

-- word(value, max)
unfoldable pub word : Value → ℕ → Bool
word value limit = is_null value || is_integer_in (pos 0) (pos limit) value

abbrev parameter_codes : List String
parameter_codes = "F0.10" ∷ "F0.11" ∷ []

are_parameters : Value → Bool
are_parameters (obj fields) =
    all (λ code. member code parameter_codes) (keys fields)
    && all (λ code. word (get fields code) 9999) parameter_codes
are_parameters v = false

are_vfd_settings : Fields → Bool
unfolding are_parameters
are_vfd_settings fields =
    is_nat (get fields "version") 1
    && is_text (get fields "driver_id") "su600"
    && is_bool (get fields "ready")
    && is_safe_from (pos 0) (get fields "command_sequence")
    && word (get fields "run_source") 2
    && word (get fields "frequency_source") 7
    && are_parameters (get fields "parameters")

module _ ⦃h : Host⦄ where
  checked_settings : Value → Result (Option Fields)
  checked_settings (obj fields) =
      if are_vfd_settings fields
      then ok (some fields)
      else invalid drive_path "model-specific VFD settings"
  checked_settings v = invalid drive_path "model-specific VFD settings"

  -- parseVfdSettings(raw): the settings are the fields as they came.
  pub parse_vfd_settings : Value → Result (Option Fields)
  parse_vfd_settings raw = if is_nullish raw then ok none else checked_settings raw

-- sourceLabel(settings)
pub source_label : Option Fields → String
source_label none = "Не підтверджено"
source_label (some fields) =
    let run = get fields "run_source" in
    let frequency = get fields "frequency_source" in
    if is_null run || is_null frequency
    then "Не підтверджено"
    else if is_nat run 2 && is_nat frequency 6
    then "Дистанційне"
    else if is_nat run 0 && is_nat frequency 0
    then "Місцеве · крутилка панелі"
    else if is_nat run 0 && is_nat frequency 1
    then "Місцеве · кнопки панелі"
    else if is_nat run 1
    then "Місцеве · клеми установки"
    else "Джерела запуску та частоти відрізняються"
