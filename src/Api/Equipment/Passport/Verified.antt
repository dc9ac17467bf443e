-- ===== src/Api/Equipment/Passport/Verified.antt =====
-- The passports of frontend/src/lib/api/equipment.ts that are accepted as verified or as ready.
use stechbaza_iot.Prelude.{
  &&-eq-true, Bool, Each, List, String, [], arith, false, if◌then◌else◌, not, subst, sym, true,
  ◌&&◌, ◌||◌, ◌∷◌, ◌≡◌,
}
use stechbaza_iot.Api.Access.Fields.Checks.{parser_rules, require_record-ok}
use stechbaza_iot.Api.Commands.{checked}
use stechbaza_iot.Api.Equipment.Passport.{
  EquipmentPassport, binding_fields, check_confirmation, check_state, equipment_record,
  same_binding,
}
use stechbaza_iot.Api.Equipment.Passport.Answer.{parse_equipment_passport, passport_of}
use stechbaza_iot.Api.Errors.{Ends, ok}
use stechbaza_iot.Api.Inventory.{Device}
use stechbaza_iot.Host.{Host}
use stechbaza_iot.Js.Checks.{is_truthy}
use stechbaza_iot.Js.Value.{Fields, Value, get, is_text, obj, strict_eq}

-- The answer's report confirms the configuration that the backend wants, key by key.
pub record IsConfirmed (fields : Fields) : Type 0 where
  pub wanted_fields : Fields
  pub manifest_fields : Fields
  pub told_fields : Fields
  pub wanted : get fields "desired" ≡ obj wanted_fields
  pub bound : get wanted_fields "manifest" ≡ obj manifest_fields
  pub told : get fields "reported" ≡ obj told_fields
  pub compatible : is_truthy (get told_fields "compatible") ≡ true
  pub same_hash :
      strict_eq (get told_fields "configuration_hash") (get wanted_fields "configuration_hash")
      ≡ true
  pub same_keys :
      Each (λ key. strict_eq (get told_fields key) (get manifest_fields key) ≡ true) binding_fields

-- A passport that the panel shows as verified, or as ready for work
abbrev pub is_claimed : EquipmentPassport → Bool
is_claimed p =
    is_text (get p.data_fields "configuration_state") "verified"
    || is_text p.readiness.state "ready"

same_binding-Each :
    (keys : List String) (report manifest : Fields)
    → same_binding keys report manifest ≡ true
    → Each (λ key. strict_eq (get report key) (get manifest key) ≡ true) keys
unfolding same_binding
same_binding-Each [] report manifest e = tt
same_binding-Each (k ∷ rest) report manifest e =
    let (first, others) = &&-eq-true e in (first, same_binding-Each rest report manifest others)

ready-verified :
    (is_ready is_verified : Bool)
    → (not is_ready || is_verified) ≡ true
    → (is_verified || is_ready) ≡ true
    → is_verified ≡ true
ready-verified is_ready is_verified e claim = ground arith

module _ ⦃h : Host⦄ where
  -- The answers of check_confirmation make the fields confirmed.
  fields-IsConfirmed :
      (fields desired manifest report : Fields)
      → equipment_record (get fields "desired") ≡ ok desired
      → equipment_record (get desired "manifest") ≡ ok manifest
      → equipment_record (get fields "reported") ≡ ok report
      → (is_truthy (get report "compatible")
          && strict_eq (get report "configuration_hash") (get desired "configuration_hash")
          && same_binding binding_fields report manifest)
        ≡ true
      → IsConfirmed fields
  fields-IsConfirmed fields desired manifest report wanted bound reported e =
      let (compatible_hash, keys) = &&-eq-true e in
      let (compatible, hash) = &&-eq-true compatible_hash in
      record {
        wanted_fields = desired;
        manifest_fields = manifest;
        told_fields = report;
        wanted = require_record-ok _ _ _ wanted;
        bound = require_record-ok _ _ _ bound;
        told = require_record-ok _ _ _ reported;
        compatible = compatible;
        same_hash = hash;
        same_keys = same_binding-Each binding_fields report manifest keys;
      }

  check_confirmation-IsConfirmed :
      (fields : Fields) → Ends (λ _. IsConfirmed fields) (check_confirmation fields)
  unfolding check_confirmation
  check_confirmation-IsConfirmed fields = search (parser_rules, fields-IsConfirmed fields) depth 10

  checked_if :
      (test : Bool) (fields : Fields) (u : Unit {0})
      → (if test then check_confirmation fields else ok tt) ≡ ok u
      → test ≡ true
      → IsConfirmed fields
  checked_if true fields u e claim = (check_confirmation-IsConfirmed fields).holds u e
  checked_if false fields u e claim = cc

  -- The fields of a passport are those of the answer, and a passport that is ready is verified.
  passport_of-verified :
      (fields : Fields)
      → Ends
          (λ p.
            (p.data_fields ≡ fields)
            × ((not (is_text p.readiness.state "ready")
                  || is_text (get fields "configuration_state") "verified")
                ≡ true))
          (passport_of fields)
  unfolding passport_of
  passport_of-verified fields = search parser_rules depth 10

  -- What a passport of the fields that are checked is, where it is claimed
  passport-IsConfirmed :
      (fields : Fields) {u : Unit {0}} (p : EquipmentPassport)
      → check_state fields ≡ ok u
      → passport_of fields ≡ ok p
      → is_claimed p ≡ true
      → IsConfirmed p.data_fields
  unfolding check_state
  passport-IsConfirmed fields p checked is_p claim =
      let (same, backed) = (passport_of-verified fields).holds p is_p in
      let of_fields =
        subst
          (λ f.
            (is_text (get f "configuration_state") "verified" || is_text p.readiness.state "ready")
            ≡ true)
          same claim in
      subst IsConfirmed (sym same)
        (checked_if _ fields _ checked (ready-verified _ _ backed of_fields))

  passport_of-Ends :
      (fields : Fields) {u : Unit {0}}
      → check_state fields ≡ ok u
      → Ends (λ p. is_claimed p ≡ true → IsConfirmed p.data_fields) (passport_of fields)
  passport_of-Ends fields checked = record {
    holds = λ p is_p. passport-IsConfirmed fields p checked is_p;
  }

  parse_equipment_passport-Ends :
      (value : Value) (device : Device)
      → Ends
          (λ p. is_claimed p ≡ true → IsConfirmed p.data_fields)
          (parse_equipment_passport value device)
  unfolding parse_equipment_passport
  parse_equipment_passport-Ends value device = search (parser_rules, passport_of-Ends) depth 20

  -- A passport that is accepted and says that it is verified, or that the installation is ready,
  -- has a desired and a reported configuration, and the report says that it is compatible, has
  -- the configuration hash of the desired one, and agrees with its manifest in all nine fields of
  -- the binding.
  pub parse_equipment_passport-IsConfirmed :
      (value : Value) (device : Device) (p : EquipmentPassport)
      → parse_equipment_passport value device ≡ ok p
      → is_claimed p ≡ true
      → IsConfirmed p.data_fields
  parse_equipment_passport-IsConfirmed value device p e =
      (parse_equipment_passport-Ends value device).holds p e
