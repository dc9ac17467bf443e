-- ===== src/Api/Diagnostics.antt =====
-- frontend/src/lib/api/diagnostics.ts: what a controller says of itself.
use Prim.Native.String
use stechbaza_iot.Prelude.{
  Bool, List, Option, String, [], if◌then◌else◌, leb, none, not, some, str_eq, ℕ, ◌%◌, ◌&&◌, ◌/◌,
  ◌==◌, ◌||◌, ◌∷◌,
}
use stechbaza_iot.Api.Access.Fields.{
  invalid, require, require_record, required_date_time, required_string,
}
use stechbaza_iot.Api.Answers.{or_null}
use stechbaza_iot.Api.Drive.{parse_vfd_settings}
use stechbaza_iot.Api.Errors.{Result, ok, ◌>>=◌, ◌>>◌}
use stechbaza_iot.Api.Programs.Progress.{ProgramProgress, parse_program_progress}
use stechbaza_iot.Host.{Host}
use stechbaza_iot.Js.Checks.{count?, is_integer_in}
use stechbaza_iot.Js.Number.{nat}
use stechbaza_iot.Js.Regex.{Regex, class, plus, test}
use stechbaza_iot.Js.Text.{member, utf16_length}
use stechbaza_iot.Js.Value.{
  Fields, Value, bool, get, is_nat, is_nullish, is_text, is_undefined, str,
}
use stechbaza_iot.Prelude.Int.{negsuc, pos}

abbrev diagnostics_path : String
diagnostics_path = "/api/v1/devices/overview"

abbrev pub stop_reasons : List String
stop_reasons =
    "program_completed" ∷ "command" ∷ "local_disarm" ∷ "bench_timer" ∷ "network_lost"
    ∷ "vfd_link_lost" ∷ "vfd_fault" ∷ "configuration_mismatch" ∷ "storage_failed"
    ∷ "physical_result_unconfirmed" ∷ "restart_recovery" ∷ []

abbrev pub reset_reasons : List String
reset_reasons =
    "unknown" ∷ "power_on" ∷ "external" ∷ "software" ∷ "panic" ∷ "interrupt_watchdog"
    ∷ "task_watchdog" ∷ "watchdog" ∷ "deep_sleep" ∷ "brownout" ∷ "sdio" ∷ []

abbrev pub transport_names : List String
transport_names = "wifi" ∷ "cellular" ∷ "ethernet" ∷ "unknown" ∷ []

pub record Signal : Type 0 where
  pub metric : Value
  pub dbm : Value

pub record StopDiagnostics : Type 0 where
  pub reason : String
  pub uptime_ms : ℕ
  pub confirmed : Bool
  pub requested_at : Option String

pub record ControllerDiagnostics : Type 0 where
  pub firmware_version : String
  pub uptime_ms : ℕ
  pub reset_reason : String
  pub transport : String
  pub signal : Option Signal
  pub last_stop : Option StopDiagnostics
  pub program : Option ProgramProgress
  -- the outer `none` is a field that is left out
  pub vfd_settings : Option (Option Fields)

-- /^[0-9A-Za-z.+_-]{1,32}$/: the characters
firmware_class : Regex
firmware_class = class (
    (b'0', b'9')
    ∷ (b'A', b'Z')
    ∷ (b'a', b'z')
    ∷ (b'.', b'.')
    ∷ (b'+', b'+')
    ∷ (b'_', b'_')
    ∷ (b'-', b'-')
    ∷ [])

is_firmware : String → Bool
unfolding firmware_class
is_firmware s = test (plus firmware_class) s && leb (utf16_length s) 32

-- A strength from -160 to 0 dBm; of Wi-Fi, an RSSI from -127.
is_signal : String → Fields → Bool
is_signal transport fields =
    (is_text (get fields "metric") "rssi" || is_text (get fields "metric") "rsrp")
    && is_integer_in (negsuc 159) (pos 0) (get fields "dbm")
    && member transport ("wifi" ∷ "cellular" ∷ [])
    && (not (str_eq transport "wifi")
        || (is_text (get fields "metric") "rssi"
            && is_integer_in (negsuc 126) (pos 0) (get fields "dbm")))

module _ ⦃h : Host⦄ where
  abbrev refuse_unless : Bool → String → Result (Unit {0})
  refuse_unless test expected = require test diagnostics_path expected

  -- uptime(value)
  uptime : Value → Result ℕ
  uptime value = elim (count? value) [
    | some n ↦ ok n
    | none ↦ invalid diagnostics_path "diagnostic uptime"
  ]

  -- knownKey(value, labels)
  known_key : Value → List String → Result String
  known_key (str s) labels =
      if member s labels then ok s else invalid diagnostics_path "diagnostic code"
  known_key v labels = invalid diagnostics_path "diagnostic code"

  boolean_or_refuse : Value → String → Result Bool
  boolean_or_refuse (bool b) expected = ok b
  boolean_or_refuse v expected = invalid diagnostics_path expected

  parse_signal : String → Value → Result (Option Signal)
  unfolding is_signal
  parse_signal transport raw = if is_nullish raw then ok none else do
    fields ← require_record raw diagnostics_path "diagnostic object"
    refuse_unless (is_signal transport fields) "radio signal"
    ok (some (record { metric = get fields "metric"; dbm = get fields "dbm" }))

  parse_last_stop : ℕ → Value → Result (Option StopDiagnostics)
  parse_last_stop uptime_ms raw = if is_nullish raw then ok none else do
    fields ← require_record raw diagnostics_path "diagnostic object"
    confirmed ← boolean_or_refuse (get fields "confirmed") "stop confirmation"
    stopped_at ← uptime (get fields "uptime_ms")
    refuse_unless (leb stopped_at uptime_ms) "stop after sample"
    reason ← known_key (get fields "reason") stop_reasons
    requested_at ← or_null required_date_time fields "requested_at" diagnostics_path
    ok (
        some (record {
          reason = reason;
          uptime_ms = stopped_at;
          confirmed = confirmed;
          requested_at = requested_at;
        }))

  settings_if_given : Value → Result (Option (Option Fields))
  settings_if_given v =
      if is_undefined v then ok none else do settings ← parse_vfd_settings v; ok (some settings)

  diagnostics_of : Fields → Result (Option ControllerDiagnostics)
  unfolding is_firmware
  diagnostics_of fields = do
    refuse_unless (is_nat (get fields "version") 1) "diagnostic version"
    firmware ← required_string fields "firmware_version" diagnostics_path
    refuse_unless (is_firmware firmware) "firmware version"
    uptime_ms ← uptime (get fields "uptime_ms")
    connection ← require_record (get fields "connection") diagnostics_path "diagnostic object"
    transport ← known_key (get connection "transport") transport_names
    signal ← parse_signal transport (get connection "signal")
    last_stop ← parse_last_stop uptime_ms (get fields "last_stop")
    reset_reason ← known_key (get fields "reset_reason") reset_reasons
    progress ← parse_program_progress (get fields "program")
    settings ← settings_if_given (get fields "vfd_settings")
    ok (
        some (record {
          firmware_version = firmware;
          uptime_ms = uptime_ms;
          reset_reason = reset_reason;
          transport = transport;
          signal = signal;
          last_stop = last_stop;
          program = progress;
          vfd_settings = settings;
        }))

  -- parseDiagnostics(raw)
  unfoldable pub parse_diagnostics : Value → Result (Option ControllerDiagnostics)
  unfolding diagnostics_of uptime known_key parse_signal parse_last_stop settings_if_given
      is_firmware is_signal boolean_or_refuse
  parse_diagnostics raw = if is_nullish raw then ok none else do
    fields ← require_record raw diagnostics_path "diagnostic object"
    diagnostics_of fields

  -- uptimeText(ms)
  pub uptime_text : ℕ → String
  uptime_text ms =
      let seconds = ms / 1000 in
      let days = seconds / 86400 in
      let write = λ (n : ℕ). h.number_text (nat n) in
      String.◌++◌ (if days == 0 then "" else String.◌++◌ (write days) " д ") (
        String.◌++◌ (write (seconds / 3600 % 24)) (
          String.◌++◌ " год " (
            String.◌++◌ (write (seconds / 60 % 60))
              (String.◌++◌ " хв " (String.◌++◌ (write (seconds % 60)) " с")))))
