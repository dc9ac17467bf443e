-- ===== src/Api/Inventory/Tests.antt =====
-- Answers of the backend for frontend/src/lib/api/inventory.ts.
use stechbaza_iot.Prelude.{String, [], refl, some, true, ◌∷◌, ◌≡◌}
use stechbaza_iot.Api.Access.Fields.{
  invalid, is_uuid, require, require_record, required_date_time, required_string, required_uuid,
}
use stechbaza_iot.Api.Errors.{Result, ok, traverse, ◌>>=◌}
use stechbaza_iot.Api.Inventory.{
  Availability, boolean_value, elapsed_seconds, matching_id, nullable, nullable_date, page_rows,
  parse_availability, parse_page, positive_integer,
}
use stechbaza_iot.Api.Inventory.Rows.{
  IsPage, IsPresence, parse_availability-IsPresence, parse_page-IsPage,
}
use stechbaza_iot.Host.Sample.{sample}
use stechbaza_iot.Js.Number.{dyadic, is_finite, nat, num_le, safe_integer?}
use stechbaza_iot.Js.Set.{is_distinct}
use stechbaza_iot.Js.Value.{Value, arr, bool, end, field, get, items, num, obj, str}
use stechbaza_iot.Prelude.Int.{pos}

abbrev device : String
device = "11111111-1111-4111-8111-111111111111"

abbrev presence_value : Value
presence_value = obj (
    field "device_id" (str device) (
      field "uid" (str "KR-1") (
        field "online" (bool true) (
          field "timeout_seconds" (num (nat 90)) (
            field "seconds_since_seen" (num (dyadic (pos 5) 1))
              (field "last_seen_at" (str "2026-10-05T09:00:00Z") end))))))

abbrev presence : Availability
presence = record {
  device_id = device;
  uid = "KR-1";
  online = true;
  last_seen_at = some "2026-10-05T09:00:00Z";
  timeout_seconds = 90;
  seconds_since_seen = some (dyadic (pos 5) 1);
}

presence-parsed : parse_availability presence_value device "KR-1" ≡ ok presence
unfolding parse_availability boolean_value matching_id required_uuid required_string
    required_date_time nullable_date nullable is_uuid require require_record positive_integer
    safe_integer? elapsed_seconds is_finite num_le get
presence-parsed = refl

parse_availability-IsPresence_example : IsPresence device "KR-1" presence
parse_availability-IsPresence_example =
    parse_availability-IsPresence presence_value device "KR-1" presence presence-parsed

abbrev id_value : String → Value
id_value id = obj (field "id" (str id) end)

abbrev parse_id : Value → Result String
parse_id v = do fields ← require_record v "/api/v1" "row"; required_uuid fields "id" "/api/v1"

abbrev one_row : Value
one_row = arr (items (id_value device ∷ []))

one_row-parsed : parse_page (λ id. id) one_row parse_id 21 ≡ ok (device ∷ [])
unfolding parse_page page_rows traverse required_uuid required_string is_uuid require require_record
    is_distinct get
one_row-parsed = refl

-- Two rows of one id are refused.
two_rows-refused :
    parse_page (λ id. id) (arr (items (id_value device ∷ id_value device ∷ []))) parse_id 21
    ≡ invalid "/api/v1" "unique ids"
unfolding parse_page page_rows traverse required_uuid required_string is_uuid require require_record
    is_distinct get
two_rows-refused = refl

parse_page-IsPage_example : IsPage (λ id. id) one_row parse_id 21 (device ∷ [])
parse_page-IsPage_example =
    parse_page-IsPage (λ id. id) parse_id 21 one_row (device ∷ []) one_row-parsed
