-- ===== src/Api/Commands/Receipts.antt =====
-- frontend/src/lib/api/commands.ts: parseCommandReceipt.
use stechbaza_iot.Prelude.{
  &&-eq-true, Bool, Option, String, ap, arith, eq_iff, false, length, none, refl, some, str_eq,
  subst, true, ◌&&◌, ◌==◌, ◌≡◌,
}
use stechbaza_iot.Api.Access.Fields.{require}
use stechbaza_iot.Api.Access.Fields.Checks.{require-ok}
use stechbaza_iot.Api.Commands.{
  Command, CommandInput, CommandType, command_type_text, commands_path, parse_command,
  start_program,
}
use stechbaza_iot.Api.Equipment.{same_equipment_target, same_equipment_target_iff}
use stechbaza_iot.Api.Errors.{>>=-eq-ok, Result, ok, ok-injective, ◌>>=◌, ◌>>◌}
use stechbaza_iot.Api.Programs.{same_program}
use stechbaza_iot.Host.{Host}
use stechbaza_iot.Js.Value.{Fields, Value, end, field, get, keys, obj, strict_eq}

-- Object.entries(input).some(([key, value]) => payload[key] !== value), negated
unfoldable pub same_fields : Fields → Fields → Bool
same_fields end payload = true
same_fields (field key value rest) payload =
    strict_eq (get payload key) value && same_fields rest payload

-- The test on the payload of the receipt, by the type of the input.
unfoldable pub same_payload : CommandType → Fields → Fields → Bool
same_payload start_program payload input = same_program (obj payload) (obj input)
same_payload type payload input =
    length (keys payload) == length (keys input) && same_fields input payload

-- Each field of the input is in the payload, with the same value.
abbrev pub HasFields : Fields → Fields → Type 0
HasFields end payload = Unit
HasFields (field key value rest) payload =
    (strict_eq (get payload key) value ≡ true) × HasFields rest payload

-- The payload is the program of the input, or has its fields and no other.
abbrev pub SamePayload : CommandType → Fields → Fields → Type 0
SamePayload start_program payload input = same_program (obj payload) (obj input) ≡ true
SamePayload type payload input =
    (length (keys payload) ≡ length (keys input)) × HasFields input payload

abbrev same_text? : Option String → Option String → Bool
same_text? none none = true
same_text? none (some b) = false
same_text? (some a) none = false
same_text? (some a) (some b) = str_eq a b

unfoldable pub same_receipt : Command → String → String → CommandInput → Bool
same_receipt c organization_id user_id input =
    str_eq c.request_id input.request_id
    && str_eq c.command_type (command_type_text input.command_type)
    && c.ttl_seconds == input.ttl_seconds
    && same_text? c.supersedes_request_id input.supersedes_request_id
    && same_text? c.actor_user_id (some user_id)
    && same_text? c.actor_organization_id (some organization_id)
    && same_payload input.command_type c.payload input.payload

module _ ⦃h : Host⦄ where
  unfoldable pub parse_command_receipt :
      Value → String → String → String → CommandInput → Result Command
  parse_command_receipt raw device_id organization_id user_id input = do
    command ← parse_command raw device_id organization_id none
    require (same_equipment_target command.equipment_target input.equipment_target) commands_path
        "matching equipment target"
    require (same_receipt command organization_id user_id input) commands_path
        "matching command receipt"
    ok command

  -- What a receipt confirms.
  pub record Confirms (organization_id user_id : String) (input : CommandInput) (c : Command)
      : Type 0 where
    pub same_request : c.request_id ≡ input.request_id
    pub same_type : c.command_type ≡ command_type_text input.command_type
    pub same_ttl : c.ttl_seconds ≡ input.ttl_seconds
    pub same_target : c.equipment_target ≡ input.equipment_target
    pub same_superseded : c.supersedes_request_id ≡ input.supersedes_request_id
    pub by_user : c.actor_user_id ≡ some user_id
    pub in_organization : c.actor_organization_id ≡ some organization_id
    pub payload : SamePayload input.command_type c.payload input.payload

same_fields-HasFields :
    (input payload : Fields) → same_fields input payload ≡ true → HasFields input payload
unfolding same_fields
same_fields-HasFields end payload e = tt
same_fields-HasFields (field key value rest) payload e =
    let (this, more) = &&-eq-true e in (this, same_fields-HasFields rest payload more)

same_payload-SamePayload :
    (type : CommandType) (payload input : Fields)
    → same_payload type payload input ≡ true
    → SamePayload type payload input
unfolding same_payload
same_payload-SamePayload start_program payload input e = e
same_payload-SamePayload type payload input e =
    (ground arith, same_fields-HasFields input payload (ground arith))

same_text?-eq : (a b : Option String) → same_text? a b ≡ true → a ≡ b
same_text?-eq none none e = refl
same_text?-eq none (some b) e = cc
same_text?-eq (some a) none e = cc
same_text?-eq (some a) (some b) e = ap some ((eq_iff a b).0 e)

module _ ⦃h : Host⦄ where
  same_receipt-Confirms :
      (organization_id user_id : String) (input : CommandInput) (c : Command)
      → same_equipment_target c.equipment_target input.equipment_target ≡ true
      → same_receipt c organization_id user_id input ≡ true
      → Confirms organization_id user_id input c
  unfolding same_receipt
  same_receipt-Confirms organization_id user_id input c target e = record {
    same_request = (eq_iff c.request_id input.request_id).0 (ground arith);
    same_type = (eq_iff c.command_type (command_type_text input.command_type)).0 (ground arith);
    same_ttl = ground arith;
    same_target = (same_equipment_target_iff c.equipment_target input.equipment_target).0 target;
    same_superseded =
        same_text?-eq c.supersedes_request_id input.supersedes_request_id (ground arith);
    by_user = same_text?-eq c.actor_user_id (some user_id) (ground arith);
    in_organization = same_text?-eq c.actor_organization_id (some organization_id) (ground arith);
    payload = same_payload-SamePayload input.command_type c.payload input.payload (ground arith);
  }

  -- A receipt is accepted only for the input that was sent: the same request, type, time to live,
  -- equipment target and superseded request, by this user in this organization, and the payload of
  -- the input: the same program, or the same fields.
  pub parse_command_receipt-Confirms :
      (raw : Value) (device_id organization_id user_id : String) (input : CommandInput)
      (c : Command)
      → parse_command_receipt raw device_id organization_id user_id input ≡ ok c
      → Confirms organization_id user_id input c
  unfolding parse_command_receipt
  parse_command_receipt-Confirms raw device_id organization_id user_id input c e =
      let (command, _, e) = >>=-eq-ok (parse_command raw device_id organization_id none) _ e in
      let (_, target, e) =
        >>=-eq-ok
          (require (same_equipment_target command.equipment_target input.equipment_target)
            commands_path _)
          _ e in
      let (_, same, e) =
        >>=-eq-ok (require (same_receipt command organization_id user_id input) commands_path _) _
          e in
      subst (Confirms organization_id user_id input) (ok-injective e) (
        same_receipt-Confirms organization_id user_id input command (require-ok _ _ _ target)
          (require-ok _ _ _ same))
