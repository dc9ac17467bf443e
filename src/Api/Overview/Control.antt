-- ===== src/Api/Overview/Control.antt =====
-- frontend/src/lib/api/overview.ts: whether a reading is still fresh, and why a device may not be
-- started. The texts of the states are those of frontend/src/lib/api/equipment.ts.
pub mod Found
pub mod Fresh
pub mod Interlocks
pub mod Tests
use stechbaza_iot.Prelude.{
  Bool, List, Option, String, [], false, if◌then◌else◌, none, not, or_default, some, str_eq, ◌&&◌,
  ◌||◌, ◌∷◌,
}
use stechbaza_iot.Api.Diagnostics.{ControllerDiagnostics}
use stechbaza_iot.Api.Overview.{Channel, Freshness, Module, Overview, Reading}
use stechbaza_iot.Host.{Host}
use stechbaza_iot.Js.Checks.{is_truthy, text_in}
use stechbaza_iot.Js.Number.{Number, infinity, nan, nat, num_lt}
use stechbaza_iot.Js.Number.Sum.{non_negative, num_add, seconds_of}
use stechbaza_iot.Js.Text.{is_empty}
use stechbaza_iot.Js.Value.{Fields, Value, get, is_nat, is_true, null, str, undefined}
use stechbaza_iot.Prelude.Int.{ℤ, ◌-ℤ◌}

abbrev equipment_state_labels : List (String × String)
equipment_state_labels =
    ("legacy", "Паспорт ще не введено в експлуатацію")
    ∷ ("awaiting", "Контролер ще не підтвердив конфігурацію обладнання")
    ∷ ("mismatch", "Конфігурація контролера відрізняється від збереженої")
    ∷ ("stale", "Підтвердження обладнання застаріло; оновіть дані")
    ∷ ("incompatible", "Профіль або стан обладнання несумісний з керуванням")
    ∷ ("verified", "Конфігурацію підтверджено на момент перевірки")
    ∷ []

-- The state channels that have to be true, with what is said if one is not
abbrev pub interlocks : List (String × String)
interlocks =
    ("vfd_link", "Немає зв’язку контролера з частотником.")
    ∷ ("vfd_configuration_valid", "Налаштування частотника не відповідають профілю керування.")
    ∷ (
      "control_armed",
      "Контролер ще не дозволив керування. Перевірте зв’язок і налаштування режиму керування.",
    )
    ∷ []

abbrev pub awaiting_text : String
awaiting_text = "Очікуємо свіжу діагностику контролера для запуску та зміни частоти."

abbrev local_text : String
local_text =
    "Частотник керується місцево або має інше джерело частоти. Для запуску із сайту увімкніть дистанційне керування."

-- equipmentStateLabels[state]; `undefined` for what is no state
unfoldable pub label_of : List (String × String) → String → Value
label_of [] state = undefined
label_of ((k, text) ∷ rest) state =
    let more = label_of rest state in if str_eq k state then str text else more

unfoldable pub label_of_state : Value → Value
unfolding label_of
label_of_state (str state) = label_of equipment_state_labels state
label_of_state v = undefined

-- overview.diagnostics?.vfd_settings
unfoldable pub drive_settings : Option ControllerDiagnostics → Option Fields
drive_settings none = none
drive_settings (some d) = or_default d.vfd_settings none

-- run_source === 2 && frequency_source === 6
unfoldable pub is_remote : Fields → Bool
is_remote settings =
    is_nat (get settings "run_source") 2 && is_nat (get settings "frequency_source") 6

unfoldable pub find_module : String → List Module → Option Module
find_module code [] = none
find_module code (m ∷ rest) =
    let more = find_module code rest in if str_eq m.code code then some m else more

-- channels.find((item) => item.key === key && item.source === "state")
unfoldable pub find_channel : String → List (Channel × Reading) → Option (Channel × Reading)
find_channel key [] = none
find_channel key (row ∷ rest) =
    let more = find_channel key rest in
    if str_eq (row.0).key key && str_eq (row.0).source "state" then some row else more

module _ ⦃h : Host⦄ where
  -- Math.max(0, (Date.parse(received) - Date.parse(reported)) / 1000)
  unfoldable pub seconds_between : Option ℤ → Option ℤ → Number
  seconds_between (some received) (some reported) = seconds_of (received -ℤ reported)
  seconds_between received reported = nan

  unfoldable pub lag_of : Option String → Option String → Number
  unfolding seconds_between
  lag_of (some received) (some reported) =
      if is_empty reported || is_empty received
      then nat 0
      else seconds_between (h.date_parse received) (h.date_parse reported)
  lag_of received reported = nat 0

  -- age + lag + Math.max(0, elapsedSeconds)
  unfoldable pub age_now : Freshness → Number → Number
  unfolding lag_of
  age_now f elapsed_seconds =
      num_add
        (num_add (or_default f.received_age_seconds infinity) (lag_of f.received_at f.reported_at))
        (non_negative elapsed_seconds)

  -- effectiveQuality(status, freshness, elapsedSeconds)
  unfoldable pub effective_quality : String → Freshness → Number → String
  unfolding age_now
  effective_quality status f elapsed_seconds =
      if not (str_eq status "fresh")
      then status
      else if not (str_eq f.status "fresh")
          || num_lt (nat f.stale_after_seconds) (age_now f elapsed_seconds)
      then "stale"
      else "fresh"

  -- `none` where there is no such channel
  unfoldable pub is_fresh_channel : Option (Channel × Reading) → Freshness → Number → Bool
  unfolding effective_quality
  is_fresh_channel none f elapsed_seconds = false
  is_fresh_channel (some row) f elapsed_seconds =
      str_eq (effective_quality (row.1).status f elapsed_seconds) "fresh"

  unfoldable pub has_true : Option (Channel × Reading) → Bool
  has_true none = false
  has_true (some row) = is_true (row.1).value

  -- The loop over the interlocks
  unfoldable pub interlock_reason :
      List (String × String) → List (Channel × Reading) → Freshness → Number → Value
  unfolding is_fresh_channel has_true find_channel
  interlock_reason [] channels f elapsed_seconds = null
  interlock_reason ((key, message) ∷ rest) channels f elapsed_seconds =
      let more = interlock_reason rest channels f elapsed_seconds in
      let channel = find_channel key channels in
      if not (is_fresh_channel channel f elapsed_seconds)
      then str awaiting_text
      else if not (has_true channel)
      then str message
      else more

  unfoldable pub module_reason : Option Module → Freshness → Number → Value
  unfolding interlock_reason
  module_reason none f elapsed_seconds = null
  module_reason (some m) f elapsed_seconds =
      interlock_reason interlocks m.channels f elapsed_seconds

  -- if (source && effectiveQuality(…) === "fresh" && (…))
  unfoldable pub is_local : Option Fields → Freshness → Number → Bool
  unfolding effective_quality is_remote
  is_local none f elapsed_seconds = false
  is_local (some settings) f elapsed_seconds =
      str_eq (effective_quality f.status f elapsed_seconds) "fresh" && not (is_remote settings)

  -- controlBlockReason(overview, elapsedSeconds): null, or the text that says why
  unfoldable pub control_block_reason : Overview → Number → Value
  unfolding drive_settings is_local module_reason find_module label_of_state
  control_block_reason overview elapsed_seconds =
      if is_local (drive_settings overview.diagnostics) overview.freshness elapsed_seconds
      then str local_text
      else if is_truthy overview.equipment_state
          && not (text_in ("legacy" ∷ "verified" ∷ []) overview.equipment_state)
      then label_of_state overview.equipment_state
      else module_reason (find_module "vfd.diagnostics.read" overview.modules) overview.freshness
          elapsed_seconds
