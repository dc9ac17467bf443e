-- ===== src/Api/Notifications/Tests.antt =====
-- Counts and receipts of notifications for frontend/src/lib/api/notifications.ts.
use stechbaza_iot.Prelude.{String, refl, ◌≡◌}
use stechbaza_iot.Api.Access.Fields.{
  is_uuid, require, require_record, required_date_time, required_string, required_uuid,
}
use stechbaza_iot.Api.Errors.{ok}
use stechbaza_iot.Api.Inventory.{matching_id}
use stechbaza_iot.Api.Notifications.{count_value, parse_read_receipt, parse_unread_count}
use stechbaza_iot.Host.Sample.{sample}
use stechbaza_iot.Js.Checks.{count?}
use stechbaza_iot.Js.Number.{nat, safe_integer?}
use stechbaza_iot.Js.Value.{Value, end, field, get, num, obj, str}

abbrev read_id : String
read_id = "22222222-2222-4222-8222-222222222222"

abbrev receipt_value : Value
receipt_value =
    obj (field "notification_id" (str read_id) (field "read_at" (str "2026-10-05T09:00:00Z") end))

unread-parsed : parse_unread_count (obj (field "unread_count" (num (nat 12)) end)) ≡ ok 12
unfolding parse_unread_count get require_record count_value count? safe_integer?
unread-parsed = refl

receipt-parsed : parse_read_receipt receipt_value read_id ≡ ok "2026-10-05T09:00:00Z"
unfolding parse_read_receipt get require_record required_uuid required_string is_uuid matching_id
    require required_date_time
receipt-parsed = refl
