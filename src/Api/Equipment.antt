-- ===== src/Api/Equipment.antt =====
-- frontend/src/lib/api/equipment.ts: the configuration that a command is bound to.
pub mod Passport
use stechbaza_iot.Prelude.{
  Bool, Option, String, [], arith, eq_iff, false, if◌then◌else◌, leb, none, some, str_eq, suc, true,
  ℕ, ◌&&◌, ◌==◌, ◌↔◌, ◌∷◌, ◌≡◌,
}
use stechbaza_iot.Api.Access.Fields.{invalid, require_record, required_uuid}
use stechbaza_iot.Api.Errors.{Result, ok, ◌>>=◌, ◌>>◌}
use stechbaza_iot.Host.{Host}
use stechbaza_iot.Js.Number.{safe_integer?}
use stechbaza_iot.Js.Regex.{Regex, class, repeat, test}
use stechbaza_iot.Js.Value.{Fields, Value, get, is_nullish, num, str}
use stechbaza_iot.Prelude.Int.{pos}

pub record EquipmentTarget : Type 0 where
  pub binding_id : String
  pub revision : ℕ
  pub configuration_hash : String

abbrev pub equipment_path : String
equipment_path = "/api/v1/devices/equipment"

-- /^[a-f0-9]{64}$/u
unfoldable pub hash_pattern : Regex
hash_pattern = repeat 64 (class ((b'a', b'f') ∷ (b'0', b'9') ∷ []))

module _ ⦃h : Host⦄ where
  -- A safe integer from 1 to 2147483647.
  unfoldable pub revision_of : Value → Result ℕ
  revision_of (num x) = elim (safe_integer? x) [
    | some (pos (suc n)) ↦
        if leb (suc n) 2147483647 then ok (suc n) else invalid equipment_path "revision"
    | _ ↦ invalid equipment_path "revision"
  ]
  revision_of v = invalid equipment_path "revision"

  unfoldable pub hash_of : Value → Result String
  hash_of (str s) =
      if test hash_pattern s then ok s else invalid equipment_path "configuration hash"
  hash_of v = invalid equipment_path "configuration hash"

  unfoldable pub target_fields : Fields → Result EquipmentTarget
  target_fields fields = do
    binding ← required_uuid fields "binding_id" equipment_path
    number ← revision_of (get fields "revision")
    hash ← hash_of (get fields "configuration_hash")
    ok (record { binding_id = binding; revision = number; configuration_hash = hash })

  unfoldable pub parse_equipment_target : Value → Result (Option EquipmentTarget)
  parse_equipment_target value = if is_nullish value then ok none else do
    fields ← require_record value equipment_path "equipment object"
    target ← target_fields fields
    ok (some target)

unfoldable pub same_equipment_target : Option EquipmentTarget → Option EquipmentTarget → Bool
same_equipment_target none none = true
same_equipment_target none (some b) = false
same_equipment_target (some a) none = false
same_equipment_target (some a) (some b) =
    str_eq a.binding_id b.binding_id
    && a.revision == b.revision
    && str_eq a.configuration_hash b.configuration_hash

-- Two targets are the same exactly if they are equal, or both absent.
pub same_equipment_target_iff :
    (a b : Option EquipmentTarget) → (same_equipment_target a b ≡ true) ↔ (a ≡ b)
unfolding same_equipment_target
same_equipment_target_iff none none = ground arith
same_equipment_target_iff none (some b) = ground arith
same_equipment_target_iff (some a) none = ground arith
same_equipment_target_iff (some a) (some b) =
    ground
      (arith, eq_iff a.binding_id b.binding_id, eq_iff a.configuration_hash b.configuration_hash)
