-- ===== src/Api/Drive/Tests.antt =====
-- Settings of a drive for frontend/src/lib/api/vfd-settings.ts.
use stechbaza_iot.Prelude.{none, refl, some, true, ◌≡◌}
use stechbaza_iot.Api.Drive.{
  are_parameters, are_vfd_settings, checked_settings, parse_vfd_settings, source_label, word,
}
use stechbaza_iot.Api.Errors.{ok}
use stechbaza_iot.Host.Sample.{sample}
use stechbaza_iot.Js.Checks.{is_integer_in, is_safe_from}
use stechbaza_iot.Js.Number.{integer?, nat, num_eq, safe_integer?}
use stechbaza_iot.Js.Value.{Fields, bool, end, field, get, null, num, obj, str, undefined}

abbrev remote_settings : Fields
remote_settings = field "version" (num (nat 1)) (
    field "driver_id" (str "su600") (
      field "ready" (bool true) (
        field "command_sequence" (num (nat 7)) (
          field "run_source" (num (nat 2)) (
            field "frequency_source" (num (nat 6)) (
              field "parameters" (obj (field "F0.10" (num (nat 5000)) (field "F0.11" null end)))
                end))))))

remote-parsed :
    (parse_vfd_settings (obj remote_settings) ≡ ok (some remote_settings))
    × (parse_vfd_settings undefined ≡ ok none)
unfolding parse_vfd_settings get num_eq checked_settings are_vfd_settings are_parameters
    is_safe_from safe_integer? word is_integer_in integer?
remote-parsed = (refl, refl)

remote-shown :
    (source_label (some remote_settings) ≡ "Дистанційне") × (source_label none ≡ "Не підтверджено")
unfolding source_label get num_eq
remote-shown = (refl, refl)
