-- ===== src/Api/Overview/Control/Interlocks.antt =====
-- When frontend/src/lib/api/overview.ts lets a device be started: controlBlockReason gives null.
use stechbaza_iot.Prelude.{
  &&-eq-true, Bool, Each, Has, List, Option, Option-cases, String, [], arith, eq_iff, false,
  if-cases, if◌then◌else◌, inl, inr, none, not, refl, some, some-injective, str_eq, subst, true,
  ◌&&◌, ◌∷◌, ◌≡◌, ◌≢◌, ◌⊎◌,
}
use stechbaza_iot.Api.Overview.{
  Channel, ControllerDiagnostics, Freshness, Module, Overview, Reading,
}
use stechbaza_iot.Api.Overview.Control.{
  control_block_reason, drive_settings, equipment_state_labels, find_channel, find_module, has_true,
  interlock_reason, interlocks, is_fresh_channel, is_local, is_remote, label_of, label_of_state,
  module_reason,
}
use stechbaza_iot.Api.Overview.Control.Found.{find_channel-Has, find_module-Has, find_module-none}
use stechbaza_iot.Api.Overview.Control.Fresh.{
  IsFresh, IsFresh-effective_quality, effective_quality-IsFresh,
}
use stechbaza_iot.Host.{Host}
use stechbaza_iot.Js.Checks.{is_truthy, text_in}
use stechbaza_iot.Js.Number.{Number}
use stechbaza_iot.Js.Value.{Fields, Value, bool, get, is_nat, is_true, null, str}

-- A state channel that is fresh and true
pub record IsOn ⦃h : Host⦄ (f : Freshness) (elapsed : Number) (key : String)
    (row : Channel × Reading) : Type 0 where
  pub has_key : (row.0).key ≡ key
  pub of_state : (row.0).source ≡ "state"
  pub is_fresh : IsFresh (row.1).status f elapsed
  pub is_on : (row.1).value ≡ bool true

pub record IsInterlocked ⦃h : Host⦄ (f : Freshness) (elapsed : Number) (m : Module) : Type 0 where
  pub of_diagnostics : m.code ≡ "vfd.diagnostics.read"
  pub linked : Has (IsOn f elapsed "vfd_link") m.channels
  pub valid : Has (IsOn f elapsed "vfd_configuration_valid") m.channels
  pub armed : Has (IsOn f elapsed "control_armed") m.channels

pub record IsUnblocked ⦃h : Host⦄ (o : Overview) (elapsed : Number) : Type 0 where
  pub remote :
      (d : ControllerDiagnostics) (settings : Fields)
      → o.diagnostics ≡ some d
      → d.vfd_settings ≡ some (some settings)
      → IsFresh o.freshness.status o.freshness elapsed
      → (is_nat (get settings "run_source") 2 ≡ true)
        × (is_nat (get settings "frequency_source") 6 ≡ true)
  pub configured :
      (is_truthy o.equipment_state ≡ false)
      ⊎ (o.equipment_state ≡ str "legacy")
      ⊎ (o.equipment_state ≡ str "verified")
  pub interlocked :
      Has (λ m. m.code ≡ "vfd.diagnostics.read") o.modules
      → Has (IsInterlocked o.freshness elapsed) o.modules

true_value : (v : Value) → is_true v ≡ true → v ≡ bool true
true_value (bool true) e = refl
true_value v e = cc

label_of-null : (l : List (String × String)) (s : String) → label_of l s ≢ null
unfolding label_of
label_of-null [] s e = cc
label_of-null ((k, t) ∷ l) s e = elim (if-cases (str_eq k s) e) [
  | inl shown ↦ cc shown
  | inr more ↦ label_of-null l s more
]

label_of_state-null : (v : Value) → label_of_state v ≢ null
unfolding label_of_state
label_of_state-null (str s) e = label_of-null equipment_state_labels s e
label_of_state-null v e = cc

no_reason :
    (fresh on : Bool) (a b : String) (more : Value)
    → (if not fresh then str a else if not on then str b else more) ≡ null
    → (fresh ≡ true) × (on ≡ true) × (more ≡ null)
no_reason true true a b more e = (refl, refl, e)
no_reason true false a b more e = cc
no_reason false on a b more e = cc

three_tests :
    (a b : Bool) (text : String) (label more : Value)
    → label ≢ null
    → (if a then str text else if b then label else more) ≡ null
    → (a ≡ false) × (b ≡ false) × (more ≡ null)
three_tests true b text label more n e = cc
three_tests false true text label more n e = elim (n e) [ ]
three_tests false false text label more n e = (refl, refl, e)

remote_of : (fresh remote : Bool) → (fresh && not remote) ≡ false → fresh ≡ true → remote ≡ true
remote_of fresh remote e now = ground arith

configured_of :
    (v : Value)
    → (is_truthy v && not (text_in ("legacy" ∷ "verified" ∷ []) v)) ≡ false
    → (is_truthy v ≡ false) ⊎ (v ≡ str "legacy") ⊎ (v ≡ str "verified")
configured_of (str s) e = ground (arith, eq_iff "legacy" s, eq_iff "verified" s)
configured_of v e = ground arith

module _ ⦃h : Host⦄ (f : Freshness) (elapsed : Number) where
  channel-IsOn :
      (key : String) (l : List (Channel × Reading))
      → is_fresh_channel (find_channel key l) f elapsed ≡ true
      → has_true (find_channel key l) ≡ true
      → Has (IsOn f elapsed key) l
  unfolding is_fresh_channel has_true
  channel-IsOn key l fresh on = elim (Option-cases (find_channel key l)) [
    | inl missing ↦ cc (rw missing at fresh)
    | inr (row, found) ↦ find_channel-Has (IsOn f elapsed key) key l row found λ same of. record {
      has_key = same;
      of_state = of;
      is_fresh = effective_quality-IsFresh f elapsed _ ((eq_iff _ "fresh").0 (rw found at fresh));
      is_on = true_value _ (rw found at on);
    }
  ]

  locks-AreOn :
      (locks : List (String × String)) (l : List (Channel × Reading))
      → interlock_reason locks l f elapsed ≡ null
      → Each (λ lock. Has (IsOn f elapsed (lock.0)) l) locks
  unfolding interlock_reason
  locks-AreOn [] l e = tt
  locks-AreOn ((key, message) ∷ rest) l e =
      let (fresh, on, more) = no_reason _ _ _ _ _ e in
      (channel-IsOn key l fresh on, locks-AreOn rest l more)

  module-IsInterlocked :
      (l : List Module)
      → module_reason (find_module "vfd.diagnostics.read" l) f elapsed ≡ null
      → Has (λ m. m.code ≡ "vfd.diagnostics.read") l
      → Has (IsInterlocked f elapsed) l
  unfolding module_reason
  module-IsInterlocked l e h = elim (Option-cases (find_module "vfd.diagnostics.read" l)) [
    | inl missing ↦ elim (find_module-none _ l missing h) [ ]
    | inr (m, found) ↦ find_module-Has (IsInterlocked f elapsed) _ l m found λ same. record {
      of_diagnostics = same;
      linked = (locks-AreOn interlocks m.channels (rw found at e)).0;
      valid = (locks-AreOn interlocks m.channels (rw found at e)).1.0;
      armed = (locks-AreOn interlocks m.channels (rw found at e)).1.1.0;
    }
  ]

  local-remote :
      (o : Option Fields) (settings : Fields)
      → is_local o f elapsed ≡ false
      → o ≡ some settings
      → IsFresh f.status f elapsed
      → is_remote settings ≡ true
  unfolding is_local
  local-remote none settings e same fresh = cc
  local-remote (some s) settings e same fresh =
      let now = (eq_iff _ "fresh").1 (IsFresh-effective_quality f elapsed f.status fresh) in
      subst (λ z. is_remote z ≡ true) (some-injective same) (remote_of _ _ e now)

both_remote :
    (settings : Fields)
    → is_remote settings ≡ true
    → (is_nat (get settings "run_source") 2 ≡ true)
      × (is_nat (get settings "frequency_source") 6 ≡ true)
unfolding is_remote
both_remote settings e = &&-eq-true e

settings_known :
    (o : Option ControllerDiagnostics) (d : ControllerDiagnostics) (settings : Fields)
    → o ≡ some d
    → d.vfd_settings ≡ some (some settings)
    → drive_settings o ≡ some settings
unfolding drive_settings
settings_known o d settings diagnosed known = rw (diagnosed, known)

module _ ⦃h : Host⦄ where
  -- A device may be started only if the drive, where its settings are known and the telemetry is
  -- fresh now, is under remote control, the configuration of the equipment is verified, of an old
  -- device, or not known, and a device with the diagnostics of a drive has a module of them where
  -- each interlock (the link to the drive, its settings, the permission to control) has a state
  -- channel that reads true and is fresh now, together with the telemetry.
  pub control_block_reason-IsUnblocked :
      (o : Overview) (elapsed : Number)
      → control_block_reason o elapsed ≡ null
      → IsUnblocked o elapsed
  unfolding control_block_reason
  control_block_reason-IsUnblocked o elapsed e =
      let (remote, configured, rest) =
        three_tests _ _ _ _ _ (label_of_state-null o.equipment_state) e in
      record {
        remote = λ d settings diagnosed known fresh. both_remote settings (
            local-remote o.freshness elapsed _ settings remote
              (settings_known o.diagnostics d settings diagnosed known) fresh);
        configured = configured_of o.equipment_state configured;
        interlocked = module-IsInterlocked o.freshness elapsed o.modules rest;
      }
