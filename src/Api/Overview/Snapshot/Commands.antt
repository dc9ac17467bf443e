-- ===== src/Api/Overview/Snapshot/Commands.antt =====
-- The commands that an overview of frontend/src/lib/api/overview.ts offers.
use stechbaza_iot.Prelude.{
  &&-eq-true, Bool, Bool-cases, Each, List, String, [], all, arith, inl, inr, is_some, leb, length,
  not, some, str_eq, true, ℕ, ◌&&◌, ◌||◌, ◌∷◌, ◌≡◌, ◌≤◌, ◌⊎◌,
}
use stechbaza_iot.Api.Access.Answers.{OrganizationAccess, parse_organization_access}
use stechbaza_iot.Api.Access.Fields.{require_record}
use stechbaza_iot.Api.Access.Fields.Checks.{Ends-require, parser_rules}
use stechbaza_iot.Api.Errors.{Ends, Ends->>=, Ends-traverse, ok, traverse}
use stechbaza_iot.Api.Inventory.{Device, matching_id, parse_device}
use stechbaza_iot.Api.Overview.{
  Capability, Freshness, Module, Overview, overview_path, parse_freshness,
}
use stechbaza_iot.Api.Overview.Modules.{
  module_commands, module_allowed, parse_module, read_channel, same_texts,
}
use stechbaza_iot.Api.Overview.Snapshot.{
  all_capabilities, all_modules, all_readings, device_commands, parse_overview, read_permissions,
}
use stechbaza_iot.Host.{Host}
use stechbaza_iot.Js.Set.{member-append}
use stechbaza_iot.Js.Set.Members.{Each-member, all-member, member-Each, member-length}
use stechbaza_iot.Js.Text.{member}
use stechbaza_iot.Js.Value.{Fields, Value, get, obj}

-- A module that offers a command to a user with these rights
pub record IsOffering (permissions : List String) (c : String) (m : Module) : Type 0 where
  pub in_allowed : member c m.allowed_commands ≡ true
  pub in_commands : member c m.commands ≡ true
  pub is_supported : m.supported ≡ true
  pub may_execute : member "command.execute" permissions ≡ true

-- A module of an overview: its allowed commands, and the quality of its readings
pub record IsModule (permissions : List String) (telemetry : Freshness) (m : Module) : Type 0 where
  pub all_offered : Each (λ c. IsOffering permissions c m) m.allowed_commands
  pub all_fresh :
      Each
        (λ row. (not (str_eq (row.1).status "fresh") || str_eq telemetry.status "fresh") ≡ true)
        m.channels

some_or : (test : Bool) (n : ℕ) → (test || leb n 0) ≡ true → 1 ≤ n → test ≡ true
some_or test n e some_left = ground arith

both_or : (test other : Bool) (n : ℕ) → (test || (other && leb n 0)) ≡ true → 1 ≤ n → test ≡ true
both_or test other n e some_left = ground arith

offering :
    (permissions : List String) (m : Module)
    → all (λ c. member c m.commands) m.allowed_commands ≡ true
    → (member "command.execute" permissions || leb (length m.allowed_commands) 0) ≡ true
    → (m.supported || (leb (length m.channels) 0 && leb (length m.commands) 0)) ≡ true
    → Each (λ c. IsOffering permissions c m) m.allowed_commands
offering permissions m known may supported = member-Each _ _ λ c inside.
    let also = all-member (λ x. member x m.commands) m.allowed_commands known c inside in
    record {
      in_allowed = inside;
      in_commands = also;
      is_supported = both_or _ _ _ supported (member-length c _ also);
      may_execute = some_or _ _ may (member-length c _ inside);
    }

-- The command is offered by a module of the list.
abbrev pub IsOffered : List String → String → List Module → Type 0
IsOffered permissions c [] = ⊥
IsOffered permissions c (m ∷ rest) = IsOffering permissions c m ⊎ IsOffered permissions c rest

member-IsOffered :
    (permissions : List String) (telemetry : Freshness) (modules : List Module)
    → Each (IsModule permissions telemetry) modules
    → (c : String) → member c (module_allowed modules) ≡ true
    → IsOffered permissions c modules
unfolding module_allowed
member-IsOffered permissions telemetry [] are_modules c inside = cc
member-IsOffered permissions telemetry (m ∷ rest) (is_module, are_modules) c inside =
    elim (Bool-cases (member c m.allowed_commands)) [
      | inl own ↦ inl (Each-member _ m.allowed_commands is_module.all_offered c own)
      | inr other ↦ inr (
          member-IsOffered permissions telemetry rest are_modules c
            (ground (arith, member-append c m.allowed_commands (module_allowed rest))))
    ]

module _ ⦃h : Host⦄ where
  -- What an overview that is accepted says of the user's rights, its commands and its readings
  pub record IsOverview (organization_id : String) (fields : Fields) (o : Overview) : Type 0 where
    pub access : OrganizationAccess
    pub granted : parse_organization_access (get fields "access") organization_id ≡ ok access
    pub can_read : all (λ p. member p access.permissions) read_permissions ≡ true
    pub offered : Each (λ c. IsOffered access.permissions c o.modules) o.allowed_commands
    pub are_modules : Each (IsModule access.permissions o.freshness) o.modules
    pub with_telemetry : not (is_some o.diagnostics && str_eq o.freshness.status "missing") ≡ true

  read_channel-fresh :
      (readings : List (String × Value)) (telemetry : Freshness) (raw : Value)
      → Ends
          (λ row. (not (str_eq (row.1).status "fresh") || str_eq telemetry.status "fresh") ≡ true)
          (read_channel readings telemetry raw)
  unfolding read_channel
  read_channel-fresh readings telemetry raw = search parser_rules

  -- What parseOverview checks of a module makes it one.
  module-IsModule :
      (readings : List (String × Value)) (telemetry : Freshness) (permissions : List String)
      (rows : List Value) (m : Module)
      → traverse (read_channel readings telemetry) rows ≡ ok m.channels
      → (all (λ c. member c m.commands) m.allowed_commands
          && (member "command.execute" permissions || leb (length m.allowed_commands) 0))
        ≡ true
      → (m.supported || (leb (length m.channels) 0 && leb (length m.commands) 0)) ≡ true
      → IsModule permissions telemetry m
  module-IsModule readings telemetry permissions rows m read known used =
      let (in_commands, may) = &&-eq-true known in
      record {
        all_offered = offering permissions m in_commands may used;
        all_fresh =
            (Ends-traverse _ rows (read_channel-fresh readings telemetry)).holds m.channels read;
      }

  parse_module-IsModule :
      (capabilities : List Capability) (readings : List (String × Value)) (telemetry : Freshness)
      (permissions : List String) (raw : Value)
      → Ends
          (IsModule permissions telemetry)
          (parse_module capabilities readings telemetry permissions raw)
  unfolding parse_module
  parse_module-IsModule capabilities readings telemetry permissions raw =
      search (parser_rules, module-IsModule readings telemetry permissions) depth 15

  all_modules-Each :
      (capabilities : List Capability) (readings : List (String × Value)) (telemetry : Freshness)
      (permissions : List String) (value : Value)
      → Ends
          (Each (IsModule permissions telemetry))
          (all_modules capabilities readings telemetry permissions value)
  unfolding all_modules
  all_modules-Each capabilities readings telemetry permissions value =
      let sound = λ (rows : List Value).
        (Ends-traverse _ rows
          (parse_module-IsModule capabilities readings telemetry permissions)).holds in
      search (parser_rules, sound) depth 10

  own_commands :
      (modules : List Module) (types allowed : List String)
      → (same_texts types (module_commands modules) && same_texts allowed (module_allowed modules))
        ≡ true
      → all (λ c. member c (module_allowed modules)) allowed ≡ true
  unfolding same_texts
  own_commands modules types allowed e = (&&-eq-true (&&-eq-true e).1).1

  device_commands-allowed :
      (fields : Fields) (modules : List Module)
      → Ends
          (λ allowed. all (λ c. member c (module_allowed modules)) allowed ≡ true)
          (device_commands fields modules)
  unfolding device_commands
  device_commands-allowed fields modules = search (parser_rules, own_commands modules) depth 10

  overview-IsOverview :
      (fields : Fields) (organization_id : String) (access : OrganizationAccess)
      (capabilities : List Capability) (readings : List (String × Value)) (o : Overview)
      → parse_organization_access (get fields "access") organization_id ≡ ok access
      → all (λ p. member p access.permissions) read_permissions ≡ true
      → all_modules capabilities readings o.freshness access.permissions (get fields "modules")
        ≡ ok o.modules
      → device_commands fields o.modules ≡ ok o.allowed_commands
      → not (is_some o.diagnostics && str_eq o.freshness.status "missing") ≡ true
      → IsOverview organization_id fields o
  overview-IsOverview fields organization_id access capabilities readings o granted can_read read
        own measured =
      let sound =
        (all_modules-Each capabilities readings o.freshness access.permissions
            (get fields "modules")).holds
          o.modules read in
      let allowed = (device_commands-allowed fields o.modules).holds o.allowed_commands own in
      record {
        access = access;
        granted = granted;
        can_read = can_read;
        offered = member-Each _ o.allowed_commands λ c inside.
            member-IsOffered access.permissions o.freshness o.modules sound c (
              all-member (λ x. member x (module_allowed o.modules)) o.allowed_commands allowed c
                inside);
        are_modules = sound;
        with_telemetry = measured;
      }

  parse_overview-Ends :
      (fields : Fields) (expected : Device) (organization_id : String)
      → Ends
          (IsOverview organization_id fields)
          (parse_overview (obj fields) expected organization_id)
  unfolding parse_overview require_record
  parse_overview-Ends fields expected organization_id =
      Ends->>= (parse_device (get fields "device") (some expected.site_id) (some expected.id)) _
        λ device _. Ends->>= (matching_id device.uid expected.uid overview_path) _ λ _ _.
          Ends->>= (parse_organization_access (get fields "access") organization_id) _
            λ access granted. Ends-require _ _ _ _ λ can_read.
              Ends->>= (parse_freshness (get fields "telemetry_freshness")) _ λ telemetry _.
                Ends->>= (all_capabilities fields) _ λ capabilities _.
                  Ends->>= (all_readings fields) _ λ readings _.
                    search
                      (
                        parser_rules,
                        overview-IsOverview fields organization_id access capabilities readings,
                      )
                      depth 15

  -- An overview that is accepted comes with the rights of the user in the organization, those to
  -- read among them, and each command that it allows is offered by one of its modules: a
  -- supported one, which has the command and allows it, and only where the user may execute
  -- commands. No module shows a reading as fresh where the telemetry is not, and there are no
  -- diagnostics without telemetry.
  pub parse_overview-IsOverview :
      (fields : Fields) (expected : Device) (organization_id : String) (o : Overview)
      → parse_overview (obj fields) expected organization_id ≡ ok o
      → IsOverview organization_id fields o
  parse_overview-IsOverview fields expected organization_id o e =
      (parse_overview-Ends fields expected organization_id).holds o e
