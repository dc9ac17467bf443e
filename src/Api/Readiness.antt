-- ===== src/Api/Readiness.antt =====
-- frontend/src/lib/api/readiness.ts: whether an installation is ready.
use stechbaza_iot.Prelude.{
  Bool, List, Option, String, [], all, if◌then◌else◌, leb, length, not, some, ◌&&◌, ◌||◌, ◌∷◌,
}
use stechbaza_iot.Api.Access.Fields.{invalid, require, required_string}
use stechbaza_iot.Api.Answers.{or_null, require_list}
use stechbaza_iot.Api.Errors.{Result, ok, ◌>>=◌, ◌>>◌}
use stechbaza_iot.Host.{Host}
use stechbaza_iot.Host.Conversion.{string_of}
use stechbaza_iot.Js.Checks.{text_where}
use stechbaza_iot.Js.Text.{is_empty, member, trim, utf16_length}
use stechbaza_iot.Js.Value.{Fields, Value, get, is_nullish, is_text, obj, str}

abbrev pub readiness_states : List String
readiness_states =
    "needs_equipment" ∷ "awaiting_controller" ∷ "needs_local_confirmation" ∷ "needs_commissioning"
    ∷ "ready" ∷ "offline" ∷ "blocked" ∷ []

-- `state` is a text of readiness_states, as String(value) gives it.
pub record InstallationReadiness : Type 0 where
  pub state : Value
  pub title : String
  pub next_action : Option String
  pub blockers : List Value

abbrev pub unknown_readiness : InstallationReadiness
unknown_readiness = record {
  state = str "blocked";
  title = "Готовність ще не підтверджено";
  next_action = some "Монтажник має перевірити підключення та готовність обладнання.";
  blockers = str "Потрібне актуальне підтвердження готовності" ∷ [];
}

-- typeof item === "string" && item.trim() && item.length <= 1000
is_blocker : Value → Bool
is_blocker v = text_where (λ s. not (is_empty (trim s)) && leb (utf16_length s) 1000) v

module _ ⦃h : Host⦄ where
  readiness_of : Fields → List Value → String → Result InstallationReadiness
  unfolding is_blocker
  readiness_of fields blockers path = do
    require (leb (length blockers) 20 && all is_blocker blockers) path "installation blockers"
    require (not (is_text (get fields "state") "ready") || leb (length blockers) 0) path
        "ready installation without blockers"
    title ← required_string fields "title" path
    next ← or_null required_string fields "next_action" path
    ok (record {
      state = get fields "state";
      title = title;
      next_action = next;
      blockers = blockers;
    })

  checked_readiness : Value → String → Result InstallationReadiness
  unfolding readiness_of
  checked_readiness (obj fields) path =
      if member (string_of (get fields "state")) readiness_states
      then (do
        blockers ← require_list (get fields "blockers") path "installation blockers"
        readiness_of fields blockers path)
      else invalid path "installation readiness"
  checked_readiness v path = invalid path "installation readiness"

  -- parseReadiness(value, path)
  unfoldable pub parse_readiness : Value → String → Result InstallationReadiness
  unfolding checked_readiness
  parse_readiness value path =
      if is_nullish value then ok unknown_readiness else checked_readiness value path
