-- ===== src/Api/Notifications.antt =====
-- frontend/src/lib/api/notifications.ts: the notifications of alarms.
mod Tests
use stechbaza_iot.Prelude.{Bool, List, Option, String, [], all, none, not, some, ℕ, ◌+◌, ◌||◌, ◌∷◌}
use stechbaza_iot.Api.Access.Fields.{
  invalid, require, require_record, required_date_time, required_string, required_uuid,
}
use stechbaza_iot.Api.Answers.{each, unless_null}
use stechbaza_iot.Api.Errors.{Result, ok, ◌>>=◌, ◌>>◌}
use stechbaza_iot.Api.Inventory.{matching_id, matching_if, page_size, parse_page}
use stechbaza_iot.Host.{Host}
use stechbaza_iot.Js.Checks.{count?, text_in}
use stechbaza_iot.Js.Value.{Fields, Value, get, is_null, is_string, is_text, str}

abbrev notifications_path : String
notifications_path = "/api/v1/notifications"

abbrev notification_kinds : List String
notification_kinds = "raised" ∷ "severity_changed" ∷ "resolved" ∷ []

-- A row that a parser returns as it came: its field `id` for the page.
abbrev pub id_of : Fields → String
id_of fields = elim (get fields "id") [ str s ↦ s | _ ↦ "" ]

module _ ⦃h : Host⦄ where
  -- parseNotification(raw, organizationId, id)
  pub parse_notification : Value → String → Option String → Result Fields
  parse_notification raw organization_id id = do
    let path = notifications_path
    fields ← require_record raw path "AlarmNotificationRead"
    actual ← required_uuid fields "id" path
    matching_if actual id path
    organization ← required_uuid fields "organization_id" path
    matching_id organization organization_id path
    each (λ key. required_uuid fields key path) ("device_id" ∷ "alarm_id" ∷ "transition_id" ∷ [])
    required_string fields "title" path
    require (is_null (get fields "description") || is_string (get fields "description")) path
        "description"
    require (text_in notification_kinds (get fields "kind")) path "kind"
    require
        (is_text (get fields "severity") "warning" || is_text (get fields "severity") "critical")
        path "severity"
    each (λ key. required_date_time fields key path) ("occurred_at" ∷ "created_at" ∷ [])
    unless_null required_date_time fields "read_at" path
    ok fields

  unread_rows : Bool → List Fields → Result (List Fields)
  unread_rows unread_only rows = do
    require (not unread_only || all (λ row. is_null (get row "read_at")) rows) notifications_path
        "unread filter"
    ok rows

  -- parseNotificationPage(raw, organizationId, unreadOnly)
  pub parse_notification_page : Value → String → Bool → Result (List Fields)
  parse_notification_page raw organization_id unread_only = do
    rows ←
        parse_page id_of raw (λ item. parse_notification item organization_id none) (page_size + 1)
    unread_rows unread_only rows

  count_value : Value → String → Result ℕ
  count_value value path = elim (count? value) [
    | some n ↦ ok n
    | none ↦ invalid path "unread_count"
  ]

  -- parseUnreadCount(raw)
  pub parse_unread_count : Value → Result ℕ
  parse_unread_count raw = do
    fields ← require_record raw notifications_path "unread_count"
    count_value (get fields "unread_count") notifications_path

  -- parseReadReceipt(raw, id)
  pub parse_read_receipt : Value → String → Result String
  parse_read_receipt raw id = do
    fields ← require_record raw notifications_path "NotificationReadReceipt"
    actual ← required_uuid fields "notification_id" notifications_path
    matching_id actual id notifications_path
    required_date_time fields "read_at" notifications_path
