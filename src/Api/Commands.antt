-- ===== src/Api/Commands.antt =====
-- frontend/src/lib/api/commands.ts: commands to a device, their receipts and their journal.
pub mod Input
pub mod Page
pub mod Order
pub mod Receipts
mod Tests
use stechbaza_iot.Prelude.{
  Bool, List, Option, String, [], false, if◌then◌else◌, leb, length, none, some, str_eq, true, ℕ,
  ◌&&◌, ◌==◌, ◌||◌, ◌∷◌,
}
use stechbaza_iot.Api.Access.Fields.{
  invalid, require, require_record, required_date_time, required_string, required_uuid,
}
use stechbaza_iot.Api.Equipment.{EquipmentTarget, parse_equipment_target}
use stechbaza_iot.Api.Errors.{Result, ok, ◌>>=◌, ◌>>◌}
use stechbaza_iot.Api.Programs.{ProgramPlan, max_program_seconds, parse_program_plan}
use stechbaza_iot.Host.{Host}
use stechbaza_iot.Js.Number.{integer?, safe_integer?}
use stechbaza_iot.Js.Text.{is_empty, member}
use stechbaza_iot.Js.Value.{
  Fields, Value, get, is_null, is_nullish, is_string, is_text, keys, num, str,
}
use stechbaza_iot.Prelude.Int.{pos}

pub data CommandType : Type 0 where
  start stop set_frequency start_program start_schedule set_source set_parameter : CommandType

abbrev pub command_type_text : CommandType → String
command_type_text start = "vfd.start"
command_type_text stop = "vfd.stop"
command_type_text set_frequency = "vfd.frequency.set"
command_type_text start_program = "vfd.program.start"
command_type_text start_schedule = "vfd.schedule.start"
command_type_text set_source = "vfd.source.set"
command_type_text set_parameter = "vfd.parameter.set"

-- The fields of a command that the client reads, as parseCommand checked them.
pub record Command : Type 0 where
  pub id : String
  pub request_id : String
  pub device_id : String
  pub command_type : String
  pub status : String
  pub created_at : String
  pub ttl_seconds : ℕ
  pub payload : Fields
  pub actor_user_id : Option String
  pub actor_organization_id : Option String
  pub supersedes_request_id : Option String
  pub equipment_target : Option EquipmentTarget

pub record CommandInput : Type 0 where
  pub request_id : String
  pub command_type : CommandType
  pub payload : Fields
  pub ttl_seconds : ℕ
  pub supersedes_request_id : Option String
  pub equipment_target : Option EquipmentTarget

pub record CommandCursor : Type 0 where
  pub before_created_at : String
  pub before_id : String

-- Object.hasOwn(statusLabels, status)
abbrev statuses : List String
statuses =
    "queued" ∷ "published" ∷ "acknowledged" ∷ "succeeded" ∷ "failed" ∷ "cancelled" ∷ "expired"
    ∷ "result_unknown" ∷ []

pub data WorkMode : Type 0 where
  timer program schedule : WorkMode

abbrev mode_of_plan : Option ProgramPlan → Option WorkMode
mode_of_plan none = none
mode_of_plan (some plan) = if length plan.steps == 1 then some timer else some program

-- commandWorkMode
pub command_work_mode : String → Value → Option WorkMode
command_work_mode command_type payload =
    if str_eq command_type "vfd.schedule.start"
    then some schedule
    else if str_eq command_type "vfd.program.start"
    then mode_of_plan (parse_program_plan payload max_program_seconds)
    else none

-- commandPending
pub command_pending : Command → Bool
command_pending c = member c.status ("queued" ∷ "published" ∷ "acknowledged" ∷ [])

abbrev pub commands_path : String
commands_path = "/api/v1/commands"

-- for (const field of fields) check(field)
pub for_each : List String → (String → Result (Unit {0})) → Result (Unit {0})
for_each [] check = ok tt
for_each (key ∷ keys) check = do check key; for_each keys check

-- A missing or null sequence, or a safe integer from 1.
is_sequence : Value → Bool
is_sequence (num x) = elim (safe_integer? x) [ some (pos n) ↦ leb 1 n | _ ↦ false ]
is_sequence v = is_nullish v

-- A safe integer from 0.
is_count : Value → Bool
is_count (num x) = elim (safe_integer? x) [ some (pos n) ↦ true | _ ↦ false ]
is_count v = false

abbrev own_scope : Fields → String → Option String → Bool
own_scope fields device_id expected_id =
    is_text (get fields "device_id") device_id
    && elim expected_id [ none ↦ true | some id ↦ is_empty id || is_text (get fields "id") id ]

abbrev same_or_null : Value → String → Bool
same_or_null v expected = is_null v || is_text v expected

abbrev text_of : Value → String
text_of (str s) = s
text_of v = ""

abbrev text_or_null : Value → Option String
text_or_null (str s) = some s
text_or_null v = none

is_status : Value → Bool
is_status (str s) = member s statuses
is_status v = false

pub command_of : Fields → Option String → Option EquipmentTarget → String → Fields → ℕ → Command
command_of fields supersedes target command_type payload ttl = record {
  id = text_of (get fields "id");
  request_id = text_of (get fields "request_id");
  device_id = text_of (get fields "device_id");
  command_type = command_type;
  status = text_of (get fields "status");
  created_at = text_of (get fields "created_at");
  ttl_seconds = ttl;
  payload = payload;
  actor_user_id = text_or_null (get fields "actor_user_id");
  actor_organization_id = text_or_null (get fields "actor_organization_id");
  supersedes_request_id = supersedes;
  equipment_target = target;
}

module _ ⦃h : Host⦄ where
  -- A field that is null, or that the reader accepts.
  abbrev pub unless_null :
      Fields → (Fields → String → String → Result String) → String → Result (Unit {0})
  unless_null fields read key =
      if is_null (get fields key) then ok tt else (do read fields key commands_path; ok tt)

  abbrev pub checked :
      Fields → (Fields → String → String → Result String) → String → Result (Unit {0})
  checked fields read key = do read fields key commands_path; ok tt

  -- A field that is missing or null, or that the reader accepts.
  pub optional :
      (Fields → String → String → Result String) → Fields → String → Result (Option String)
  optional read fields key =
      if is_nullish (get fields key)
      then ok none
      else do value ← read fields key commands_path; ok (some value)

  abbrev null_or_text : Fields → String → Result (Unit {0})
  null_or_text fields key =
      require (is_null (get fields key) || is_string (get fields key)) commands_path key

  -- An integer from 5 to 300.
  pub ttl_of : Value → Result ℕ
  ttl_of (num x) = elim (integer? x) [
    | some (pos n) ↦ if leb 5 n && leb n 300 then ok n else invalid commands_path "command counters"
    | _ ↦ invalid commands_path "command counters"
  ]
  ttl_of v = invalid commands_path "command counters"

  -- The checks of parseCommand up to the status.
  pub check_command : Fields → String → String → Option String → Result (Unit {0})
  check_command fields device_id organization_id expected_id = do
    for_each ("id" ∷ "request_id" ∷ "device_id" ∷ []) (checked fields required_uuid)
    require (own_scope fields device_id expected_id) commands_path "command scope"
    for_each ("actor_user_id" ∷ "actor_auth_session_id" ∷ "actor_organization_id" ∷ [])
        (unless_null fields required_uuid)
    require (same_or_null (get fields "actor_organization_id") organization_id) commands_path
        "actor organization"
    for_each
        ("actor_platform_role" ∷ "actor_organization_role" ∷ "actor_email" ∷ "actor_display_name"
          ∷ "last_publish_error" ∷ "error_code" ∷ "error_message" ∷ [])
        (null_or_text fields)
    require (is_sequence (get fields "control_sequence")) commands_path "control sequence"

  -- The checks of parseCommand from the payload on, but for the counters.
  pub check_times : Fields → Result (Unit {0})
  check_times fields = do
    for_each ("created_at" ∷ "updated_at" ∷ "expires_at" ∷ []) (checked fields required_date_time)
    for_each
        ("published_at" ∷ "last_publish_attempt_at" ∷ "acknowledged_at" ∷ "result_deadline_at"
          ∷ "result_timed_out_at" ∷ "completed_at" ∷ [])
        (unless_null fields required_date_time)

  pub parse_command : Value → String → String → Option String → Result Command
  parse_command raw device_id organization_id expected_id = do
    fields ← require_record raw commands_path "command object"
    check_command fields device_id organization_id expected_id
    supersedes ← optional required_uuid fields "supersedes_request_id"
    target ← parse_equipment_target (get fields "equipment_target")
    command_type ← required_string fields "command_type" commands_path
    require (is_status (get fields "status")) commands_path "command status"
    payload ← require_record (get fields "payload") commands_path "command payload/result"
    require_record (get fields "result") commands_path "command payload/result"
    check_times fields
    ttl ← ttl_of (get fields "ttl_seconds")
    require (is_count (get fields "publish_attempts")) commands_path "command counters"
    ok (command_of fields supersedes target command_type payload ttl)
