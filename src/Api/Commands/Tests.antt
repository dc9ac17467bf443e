-- ===== src/Api/Commands/Tests.antt =====
-- Commands of frontend/src/lib/api/commands.ts at concrete answers.
use stechbaza_iot.Prelude.{String, [], none, refl, some, ◌∷◌, ◌≡◌}
use stechbaza_iot.Api.Access.Fields.{
  is_uuid, require, require_record, required_date_time, required_string, required_uuid,
}
use stechbaza_iot.Api.Commands.{
  Command, CommandInput, check_command, check_times, command_of, for_each, is_count, is_sequence,
  is_status, optional, parse_command, set_frequency, stop, ttl_of,
}
use stechbaza_iot.Api.Commands.Input.{
  frequency_in_range, frequency_input, input_of, make_command_input, new_input, ttl_in_range,
  valid_frequency,
}
use stechbaza_iot.Api.Commands.Input.Valid.{IsInput, make_command_input-IsInput}
use stechbaza_iot.Api.Commands.Order.{IsJournal, parse_command_page-IsJournal}
use stechbaza_iot.Api.Commands.Page.{
  check_order, command_cursor, digit_at, fraction_of, is_before, leading_digits, micros,
  microseconds, page_of, parse_command_page,
}
use stechbaza_iot.Api.Commands.Receipts.{
  Confirms, parse_command_receipt, parse_command_receipt-Confirms, same_fields, same_payload,
  same_receipt,
}
use stechbaza_iot.Api.Equipment.{parse_equipment_target, same_equipment_target}
use stechbaza_iot.Api.Errors.{ok, traverse}
use stechbaza_iot.Host.Sample.{sample}
use stechbaza_iot.Js.Number.{dyadic, integer?, is_finite, nat, num_le, num_lt, safe_integer?}
use stechbaza_iot.Js.Set.{is_distinct}
use stechbaza_iot.Js.Text.{text_lt, trim}
use stechbaza_iot.Js.Value.{Value, arr, end, field, get, items, null, num, obj, str}
use stechbaza_iot.Prelude.Int.{pos, ◌*ℤ◌, ◌+ℤ◌}

abbrev device : String
device = "11111111-1111-4111-8111-111111111111"

abbrev organization : String
organization = "22222222-2222-4222-8222-222222222222"

abbrev user : String
user = "33333333-3333-4333-8333-333333333333"

abbrev command_value : String → String → Value
command_value id created = obj (
    field "id" (str id) (
      field "request_id" (str "44444444-4444-4444-8444-444444444444") (
        field "device_id" (str device) (
          field "actor_user_id" (str user) (
            field "actor_auth_session_id" null (
              field "actor_organization_id" (str organization) (
                field "actor_platform_role" null (
                  field "actor_organization_role" null (
                    field "actor_email" null (
                      field "actor_display_name" null (
                        field "last_publish_error" null (
                          field "error_code" null (
                            field "error_message" null (
                              field "command_type" (str "vfd.stop") (
                                field "status" (str "queued") (
                                  field "payload" (obj end) (
                                    field "result" (obj end) (
                                      field "created_at" (str created) (
                                        field "updated_at" (str created) (
                                          field "expires_at" (str "2026-10-05T09:00:00Z") (
                                            field "published_at" null (
                                              field "last_publish_attempt_at" null (
                                                field "acknowledged_at" null (
                                                  field "result_deadline_at" null (
                                                    field "result_timed_out_at" null (
                                                      field "completed_at" null (
                                                        field "ttl_seconds" (num (nat 30)) (
                                                          field "publish_attempts" (num (nat 0))
                                                            end))))))))))))))))))))))))))))

abbrev stop_input : CommandInput
stop_input = new_input "44444444-4444-4444-8444-444444444444" stop end 30

abbrev command_at : String → String → Command
command_at id created = record {
  id = id;
  request_id = "44444444-4444-4444-8444-444444444444";
  device_id = device;
  command_type = "vfd.stop";
  status = "queued";
  created_at = created;
  ttl_seconds = 30;
  payload = end;
  actor_user_id = some user;
  actor_organization_id = some organization;
  supersedes_request_id = none;
  equipment_target = none;
}

abbrev later_row : Command
later_row = command_at "55555555-5555-4555-8555-555555555555" "2026-10-05T08:00:00.000250Z"

abbrev earlier_row : Command
earlier_row = command_at "66666666-6666-4666-8666-666666666666" "2026-10-05T08:00:00.000125Z"

abbrev page : Value
page = arr (
    items (
      command_value later_row.id later_row.created_at
      ∷ command_value earlier_row.id earlier_row.created_at
      ∷ []))

-- The two commands were created in one millisecond; the microseconds put them in order.
page-parsed : parse_command_page page device organization none ≡ ok (later_row ∷ earlier_row ∷ [])
unfolding parse_command_page page_of traverse parse_command check_command check_times for_each
    required_uuid required_string required_date_time is_uuid require require_record optional
    parse_equipment_target is_sequence is_status is_count ttl_of integer? safe_integer? command_of
    check_order is_before micros fraction_of leading_digits microseconds digit_at get is_distinct
    command_cursor text_lt ◌*ℤ◌ ◌+ℤ◌
page-parsed = refl

parse_command_page-IsJournal_example :
    IsJournal page device organization none (later_row ∷ earlier_row ∷ [])
parse_command_page-IsJournal_example =
    parse_command_page-IsJournal page device organization none (later_row ∷ earlier_row ∷ [])
      page-parsed

receipt-parsed :
    parse_command_receipt
      (command_value later_row.id later_row.created_at)
      device
      organization
      user
      stop_input
    ≡ ok later_row
unfolding parse_command_receipt parse_command check_command check_times for_each required_uuid
    required_string required_date_time is_uuid require require_record optional
    parse_equipment_target is_sequence is_status is_count ttl_of integer? safe_integer? command_of
    get same_equipment_target same_receipt same_payload same_fields
receipt-parsed = refl

parse_command_receipt-Confirms_example : Confirms organization user stop_input later_row
parse_command_receipt-Confirms_example =
    parse_command_receipt-Confirms (command_value later_row.id later_row.created_at) device
      organization user stop_input later_row receipt-parsed

abbrev frequency_command : CommandInput
frequency_command =
    new_input "r" set_frequency (field "frequency_hz" (num (dyadic (pos 101) 1)) end) 60

frequency_command-made :
    make_command_input set_frequency "50.5" (nat 60) "r" none ≡ ok frequency_command
unfolding make_command_input input_of ttl_in_range integer? frequency_input valid_frequency
    frequency_in_range trim is_finite num_le num_lt
frequency_command-made = refl

make_command_input-IsInput_example : IsInput set_frequency "r" frequency_command
make_command_input-IsInput_example =
    make_command_input-IsInput set_frequency "50.5" (nat 60) "r" none frequency_command
      frequency_command-made
