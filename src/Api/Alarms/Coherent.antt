-- ===== src/Api/Alarms/Coherent.antt =====
-- The alarms that frontend/src/lib/api/alarms.ts lets through.
use stechbaza_iot.Prelude.{
  &&-eq-true, Bool, Both, Each, List, Option, String, [], arith, eq_iff, false, is_some, none, not,
  subst, true, ◌&&◌, ◌||◌, ◌∷◌, ◌≡◌,
}
use stechbaza_iot.Api.Access.Fields.{require, required_date_time, required_uuid}
use stechbaza_iot.Api.Access.Fields.Checks.{
  Ends-require, given-is_some, parser_rules, require-ok, required_uuid-ok,
}
use stechbaza_iot.Api.Alarms.{
  AlarmFilters, alarms_path, differ, has_stray_author, matches_filters, mismatch_of, parse_alarm,
  parse_alarm_page,
}
use stechbaza_iot.Api.Answers.{each}
use stechbaza_iot.Api.Errors.{Ends, Ends->>=, Ends-ok, Result, ok}
use stechbaza_iot.Api.Inventory.{matching_id, nullable, parse_page}
use stechbaza_iot.Api.Inventory.Rows.{parse_page-IsPage}
use stechbaza_iot.Api.Notifications.{id_of}
use stechbaza_iot.Host.{Host}
use stechbaza_iot.Js.Checks.{is_record, is_safe_from}
use stechbaza_iot.Js.Text.{is_empty}
use stechbaza_iot.Js.Value.{Fields, Value, get, is_null, is_text, str}
use stechbaza_iot.Prelude.Int.{pos}

-- A state and its time agree, and an alarm that nobody acknowledged names no author.
pub record IsAlarm (device_id : String) (alarm : Fields) : Type 0 where
  pub own_device : get alarm "device_id" ≡ str device_id
  pub resolved_timed :
      is_text (get alarm "state") "resolved" ≡ not (is_null (get alarm "resolved_at"))
  pub no_author :
      is_null (get alarm "acknowledged_at") ≡ true
      → (is_null (get alarm "acknowledged_by_user_id") ≡ true)
        × (is_null (get alarm "acknowledged_by_email") ≡ true)
        × (is_null (get alarm "acknowledged_by_display_name") ≡ true)
  pub counted : is_safe_from (pos 1) (get alarm "occurrence_count") ≡ true

-- An alarm that a filter wants; an empty text wants any.
pub record IsWanted (filters : AlarmFilters) (alarm : Fields) : Type 0 where
  pub of_state : is_empty filters.state ≡ false → is_text (get alarm "state") filters.state ≡ true
  pub of_severity :
      is_empty filters.severity ≡ false → is_text (get alarm "severity") filters.severity ≡ true
  pub of_type :
      is_empty filters.alarm_type ≡ false
      → is_text (get alarm "alarm_type") filters.alarm_type ≡ true

agree : (a s n : Bool) → not (differ a s) ≡ true → s ≡ not n → a ≡ not n
agree a s n e same = ground arith

nobody :
    (k a e d nk na : Bool)
    → not (not k && (a || not e || not d)) ≡ true
    → k ≡ not nk
    → a ≡ not na
    → nk ≡ true
    → (na ≡ true) × (e ≡ true) × (d ≡ true)
nobody k a e d nk na h of_k of_a none_acknowledged = ground arith

wanted :
    (a b c d e f : Bool)
    → not ((not a && not b) || (not c && not d) || (not e && not f)) ≡ true
    → (a ≡ false → b ≡ true) × (c ≡ false → d ≡ true) × (e ≡ false → f ≡ true)
wanted a b c d e f h = (λ x. ground arith, λ x. ground arith, λ x. ground arith)

Both-Each :
    {A B : Type 0} (R : A → B → Type 0) (Q : B → Type 0) (xs : List A) (ys : List B)
    → ((x : A) (y : B) → R x y → Q y)
    → Both R xs ys
    → Each Q ys
Both-Each R Q [] [] f h = tt
Both-Each R Q [] (y ∷ ys) f h = elim h [ ]
Both-Each R Q (x ∷ xs) [] f h = elim h [ ]
Both-Each R Q (x ∷ xs) (y ∷ ys) f (r, h) = (f x y r, Both-Each R Q xs ys f h)

module _ ⦃h : Host⦄ where
  nullable-is_some :
      (read : Fields → String → String → Result String) (fields : Fields) (key path : String)
      → Ends (λ o. is_some o ≡ not (is_null (get fields key))) (nullable read fields key path)
  unfolding nullable
  nullable-is_some read fields key path =
      given-is_some (is_null (get fields key)) (read fields key path)

  IsAlarm-intro :
      (device_id : String) (fields : Fields) (device : String) {u : Unit {0}}
      {resolved acknowledged actor : Option String}
      → required_uuid fields "device_id" alarms_path ≡ ok device
      → matching_id device device_id alarms_path ≡ ok u
      → nullable required_date_time fields "resolved_at" alarms_path ≡ ok resolved
      → nullable required_date_time fields "acknowledged_at" alarms_path ≡ ok acknowledged
      → nullable required_uuid fields "acknowledged_by_user_id" alarms_path ≡ ok actor
      → not (differ (is_text (get fields "state") "resolved") (is_some resolved)) ≡ true
      → not (has_stray_author acknowledged actor fields) ≡ true
      → (is_safe_from (pos 1) (get fields "occurrence_count") && is_record (get fields "context"))
        ≡ true
      → IsAlarm device_id fields
  unfolding has_stray_author matching_id
  IsAlarm-intro device_id fields device read own resolved acknowledged actor timed authored both =
      record {
        own_device =
            subst (λ s. get fields "device_id" ≡ str s)
              ((eq_iff device device_id).0 (require-ok _ _ _ own))
              (required_uuid-ok fields "device_id" alarms_path device read).0;
        resolved_timed = agree _ _ _ timed (
            (nullable-is_some required_date_time fields "resolved_at" alarms_path).holds _
              resolved);
        no_author =
            nobody _ _ _ _ _ _ authored
              ((nullable-is_some required_date_time fields "acknowledged_at" alarms_path).holds _
                acknowledged)
              ((nullable-is_some required_uuid fields "acknowledged_by_user_id" alarms_path).holds _
                actor);
        counted = (&&-eq-true both).0;
      }

  parse_alarm-IsAlarm :
      (raw : Value) (device_id : String) (alarm_id : Option String)
      → Ends (IsAlarm device_id) (parse_alarm raw device_id alarm_id)
  unfolding parse_alarm
  parse_alarm-IsAlarm raw device_id alarm_id =
      search (parser_rules, IsAlarm-intro device_id) depth 25

  matches_filters-IsWanted :
      (filters : AlarmFilters) (alarm : Fields)
      → matches_filters filters alarm ≡ true
      → IsWanted filters alarm
  unfolding matches_filters mismatch_of
  matches_filters-IsWanted filters alarm e =
      let (a, b, c) = wanted _ _ _ _ _ _ e in record { of_state = a; of_severity = b; of_type = c }

  each-IsWanted :
      (filters : AlarmFilters) (rows : List Fields)
      → Ends
          (λ _. Each (IsWanted filters) rows)
          (each (λ row. require (matches_filters filters row) alarms_path "matching filters") rows)
  unfolding each
  each-IsWanted filters [] = Ends-ok tt tt
  each-IsWanted filters (row ∷ rows) = Ends-require _ _ _ _ λ here. record {
    holds =
        λ u e. (matches_filters-IsWanted filters row here, (each-IsWanted filters rows).holds u e);
  }

  parse_alarm_page-Ends :
      (raw : Value) (device_id : String) (filters : AlarmFilters)
      → Ends
          (λ rows. Each (IsAlarm device_id) rows × Each (IsWanted filters) rows)
          (parse_alarm_page raw device_id filters)
  unfolding parse_alarm_page
  parse_alarm_page-Ends raw device_id filters = Ends->>= (parse_page id_of raw _ _) _ λ rows paged.
      Ends->>= (each _ rows) _ λ u checked. Ends-ok rows (
        Both-Each _ (IsAlarm device_id) _ rows
            (λ item row parsed. (parse_alarm-IsAlarm item device_id none).holds row parsed)
            (parse_page-IsPage id_of _ _ raw rows paged).in_order,
        (each-IsWanted filters rows).holds u checked,
      )

  -- The alarms of a page that is accepted are of the device, and of the state, the severity and the
  -- type that the filters ask for. A resolved alarm has the time when it was resolved, and an active
  -- one has none; one that nobody acknowledged names nobody who did; and each has occurred.
  pub parse_alarm_page-AreAlarms :
      (raw : Value) (device_id : String) (filters : AlarmFilters) (rows : List Fields)
      → parse_alarm_page raw device_id filters ≡ ok rows
      → Each (IsAlarm device_id) rows × Each (IsWanted filters) rows
  parse_alarm_page-AreAlarms raw device_id filters rows e =
      (parse_alarm_page-Ends raw device_id filters).holds rows e
