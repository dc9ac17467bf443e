-- ===== src/Api/Onboarding/Ready.antt =====
-- The connections of frontend/src/lib/api/onboarding.ts that are accepted.
use stechbaza_iot.Prelude.{
  &&-eq-true, Bool, String, arith, eq_iff, false, is_some, leb, length, not, refl, true, ◌&&◌, ◌||◌,
  ◌≡◌,
}
use stechbaza_iot.Api.Access.Fields.{require_record, required_date_time, required_uuid}
use stechbaza_iot.Api.Access.Fields.Checks.{
  given-is_some, parser_rules, require-ok, require_record-ok, required_uuid-ok,
}
use stechbaza_iot.Api.Answers.{or_null}
use stechbaza_iot.Api.Errors.{Ends, Ends->>=, Ends-ok, Result, ok}
use stechbaza_iot.Api.Onboarding.{
  Connection, check_fields, check_inviting, check_ready, connect_path, connection_of, if_claimed,
  parse_connection, refuse_unless,
}
use stechbaza_iot.Host.{Host}
use stechbaza_iot.Js.Value.{Fields, Value, get, is_null, is_nullish, is_text, null, obj}

-- What an accepted connection says of the installation and of the rights
pub record IsConnection (value : Value) (controller_id : String) (c : Connection) : Type 0 where
  pub fields : Fields
  pub answered : value ≡ obj fields
  pub named_neither :
      c.is_claimed ≡ false → (get fields "device_id" ≡ null) × (get fields "site_id" ≡ null)
  pub same_controller : c.controller_id ≡ controller_id
  pub ready_claimed : (not (is_text c.readiness.state "ready") || c.is_claimed) ≡ true
  pub ready_online :
      (not (is_text c.readiness.state "ready") || is_text c.connection_state "online") ≡ true
  pub ready_clear :
      (not (is_text c.readiness.state "ready") || leb (length c.readiness.blockers) 0) ≡ true
  pub online_measured :
      (not (is_text c.connection_state "online") || is_some c.telemetry_received_at) ≡ true
  pub invites : (not c.can_invite_installer || (c.is_claimed && is_some c.organization_id)) ≡ true
  pub unclaimed : (c.is_claimed || not (is_some c.device_id || is_some c.site_id)) ≡ true

only_if :
    (r a b c : Bool)
    → (not r || (a && b && c)) ≡ true
    → ((not r || a) ≡ true) × ((not r || b) ≡ true) × ((not r || c) ≡ true)
only_if r a b c e = (ground arith, ground arith, ground arith)

only_measured :
    (o absent s : Bool) → not (o && absent) ≡ true → s ≡ not absent → (not o || s) ≡ true
only_measured o absent s e same = ground arith

neither : (c d s : Bool) → (c || not d) ≡ true → (c || not s) ≡ true → (c || not (d || s)) ≡ true
neither c d s e f = ground arith

null_value : (v : Value) → is_null v ≡ true → v ≡ null
null_value null e = refl
null_value v e = cc

both_null :
    (c : Bool) (v w : Value)
    → (c || (is_null v && is_null w)) ≡ true
    → c ≡ false
    → (v ≡ null) × (w ≡ null)
both_null c v w e free =
    let (a, b) = &&-eq-true {a = is_null v} {b = is_null w} (ground arith) in
    (null_value v a, null_value w b)

module _ ⦃h : Host⦄ where
  check_fields-online :
      (fields : Fields) (is_claimed : Bool) (transport contact state : Value)
      → Ends
          (λ _.
            not (is_text state "online" && is_nullish (get fields "telemetry_received_at")) ≡ true)
          (check_fields fields is_claimed transport contact state)
  unfolding check_fields
  check_fields-online fields is_claimed transport contact state = search parser_rules

  check_fields-unclaimed :
      (fields : Fields) (is_claimed : Bool) (transport contact state : Value)
      → Ends
          (λ _.
            (is_claimed || (is_null (get fields "device_id") && is_null (get fields "site_id")))
            ≡ true)
          (check_fields fields is_claimed transport contact state)
  unfolding check_fields
  check_fields-unclaimed fields is_claimed transport contact state = search parser_rules

  or_null-is_some :
      (read : Fields → String → String → Result String) (fields : Fields) (key path : String)
      → Ends (λ o. is_some o ≡ not (is_nullish (get fields key))) (or_null read fields key path)
  unfolding or_null
  or_null-is_some read fields key path =
      given-is_some (is_nullish (get fields key)) (read fields key path)

  if_claimed-given :
      (is_claimed : Bool) (fields : Fields) (key : String)
      → Ends (λ o. (is_claimed || not (is_some o)) ≡ true) (if_claimed is_claimed fields key)
  unfolding if_claimed
  if_claimed-given true fields key =
      Ends->>= (required_uuid fields key connect_path) _ λ v _. Ends-ok _ refl
  if_claimed-given false fields key = Ends-ok _ refl

  own_controller :
      (fields : Fields) (controller_id c : String)
      → is_text (get fields "controller_id") controller_id ≡ true
      → required_uuid fields "controller_id" connect_path ≡ ok c
      → c ≡ controller_id
  own_controller fields controller_id c same read =
      let (found, uuid) = required_uuid-ok fields "controller_id" connect_path c read in
      (eq_iff c controller_id).0 (rw found at same)

  -- The checks of connectionOf make the connection that it returns one.
  connection-IsConnection :
      (value : Value) (fields : Fields) (controller_id : String) {u : Unit {0}} (c : Connection)
      → value ≡ obj fields
      → is_text (get fields "controller_id") controller_id ≡ true
      → check_fields fields c.is_claimed c.network_transport c.last_contact_transport
          c.connection_state
        ≡ ok u
      → (not c.can_invite_installer || (c.is_claimed && is_some c.organization_id)) ≡ true
      → (not (is_text c.readiness.state "ready")
          || (c.is_claimed
              && is_text c.connection_state "online"
              && leb (length c.readiness.blockers) 0))
        ≡ true
      → required_uuid fields "controller_id" connect_path ≡ ok c.controller_id
      → if_claimed c.is_claimed fields "device_id" ≡ ok c.device_id
      → if_claimed c.is_claimed fields "site_id" ≡ ok c.site_id
      → or_null required_date_time fields "telemetry_received_at" connect_path
        ≡ ok c.telemetry_received_at
      → IsConnection value controller_id c
  connection-IsConnection value fields controller_id c answered same checked inviting working read
        device site timed =
      let (claimed_now, online, clear) =
        only_if (is_text c.readiness.state "ready") c.is_claimed
          (is_text c.connection_state "online") (leb (length c.readiness.blockers) 0) working in
      let named =
        (check_fields-unclaimed fields c.is_claimed _ _ c.connection_state).holds _ checked in
      record {
        fields = fields;
        answered = answered;
        named_neither =
            both_null c.is_claimed (get fields "device_id") (get fields "site_id") named;
        same_controller = own_controller fields controller_id c.controller_id same read;
        ready_claimed = claimed_now;
        ready_online = online;
        ready_clear = clear;
        online_measured =
            only_measured (is_text c.connection_state "online")
              (is_nullish (get fields "telemetry_received_at")) (is_some c.telemetry_received_at)
              ((check_fields-online fields c.is_claimed _ _ c.connection_state).holds _ checked)
              ((or_null-is_some required_date_time fields "telemetry_received_at"
                  connect_path).holds
                _ timed);
        invites = inviting;
        unclaimed =
            neither c.is_claimed (is_some c.device_id) (is_some c.site_id)
              ((if_claimed-given c.is_claimed fields "device_id").holds _ device)
              ((if_claimed-given c.is_claimed fields "site_id").holds _ site);
      }

  connection_of-IsConnection :
      (value : Value) (fields : Fields) (controller_id : String) (claimed_now : Bool)
      → value ≡ obj fields
      → is_text (get fields "controller_id") controller_id ≡ true
      → Ends (IsConnection value controller_id) (connection_of fields claimed_now)
  unfolding connection_of check_inviting check_ready
  connection_of-IsConnection value fields controller_id claimed_now answered same =
      search (parser_rules, connection-IsConnection value fields controller_id) depth 20

  -- A connection that is accepted is of the controller that was asked for. It is ready for work
  -- only if the controller was claimed, is online and nothing blocks it; it is online only if
  -- telemetry was received; an installer may be invited only to a claimed controller of an
  -- organization; and a controller that was not claimed has no device and no site, and the
  -- answer names neither.
  pub parse_connection-IsConnection :
      (value : Value) (controller_id : String) (c : Connection)
      → parse_connection value controller_id ≡ ok c
      → IsConnection value controller_id c
  unfolding parse_connection
  parse_connection-IsConnection value controller_id c e =
      Ends.holds {P = IsConnection value controller_id}
        (Ends->>= (require_record value connect_path "controller identity and state") _
          λ fields is_object. Ends->>= (refuse_unless _ _) _ λ _ identity.
            connection_of-IsConnection value fields controller_id _
              (require_record-ok value connect_path _ is_object)
              (&&-eq-true (require-ok _ _ _ identity)).0)
        c e
