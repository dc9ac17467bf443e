-- ===== src/Api/Overview/Modules.antt =====
-- frontend/src/lib/api/overview.ts: the modules of a device, with their channels and commands.
use Prim.Native.String
use stechbaza_iot.Prelude.{
  Bool, List, Option, String, [], all, if◌then◌else◌, leb, length, none, not, some, str_eq, ◌&&◌,
  ◌++◌, ◌==◌, ◌||◌, ◌∷◌,
}
use stechbaza_iot.Api.Access.Fields.{invalid, required_string, required_uuid}
use stechbaza_iot.Api.Errors.{Result, ok, traverse, ◌>>=◌, ◌>>◌}
use stechbaza_iot.Api.Inventory.{boolean_value}
use stechbaza_iot.Api.Overview.{
  Capability, Channel, Freshness, Module, Reading, array, object, overview_path, parse_reading,
  refuse_unless, strings, unique,
}
use stechbaza_iot.Host.{Host}
use stechbaza_iot.Js.Text.{member}
use stechbaza_iot.Js.Value.{Fields, Value, get, is_null, is_string, obj, undefined}

-- `${source}:${key}`
unfoldable pub channel_key : String → String → String
channel_key source key = String.◌++◌ source (String.◌++◌ ":" key)

-- readings.get(key), of the last item with the key; keys are unique.
unfoldable pub reading_of : List (String × Value) → String → Value
reading_of [] key = undefined
reading_of ((k, v) ∷ rest) key = let more = reading_of rest key in if str_eq k key then v else more

unfoldable pub find_capability : List Capability → String → String → Option Capability
find_capability [] id code = none
find_capability (c ∷ rest) id code =
    let more = find_capability rest id code in
    if str_eq c.id id && str_eq c.code code then some c else more

module _ ⦃h : Host⦄ where
  unfoldable pub parse_capability : Value → Result Capability
  parse_capability raw = do
    fields ← object raw
    id ← required_uuid fields "id" overview_path
    code ← required_string fields "code" overview_path
    name ← required_string fields "name" overview_path
    ok (record { id = id; code = code; name = name })

  unfoldable pub keyed_reading : String → Value → Result (String × Value)
  keyed_reading source raw = do
    item ← object raw
    key ← required_string item "key" overview_path
    ok (channel_key source key, obj item)

  unfoldable pub parse_channel : Value → Result Channel
  parse_channel raw = do
    fields ← object raw
    refuse_unless (is_null (get fields "unit") || is_string (get fields "unit")) "channel unit"
    series ← boolean_value (get fields "supports_series") overview_path "supports_series flag"
    key ← required_string fields "key" overview_path
    source ← required_string fields "source" overview_path
    data_type ← required_string fields "data_type" overview_path
    ok (record {
      key = key;
      source = source;
      data_type = data_type;
      unit = get fields "unit";
      supports_series = series;
    })

  unfoldable pub read_channel :
      List (String × Value) → Freshness → Value → Result (Channel × Reading)
  unfolding parse_channel
  read_channel readings freshness raw = do
    channel ← parse_channel raw
    reading ← parse_reading (reading_of readings (channel_key channel.source channel.key)) channel
    refuse_unless (not (str_eq reading.status "fresh") || str_eq freshness.status "fresh")
        "coherent reading quality"
    ok (channel, reading)

  unfoldable pub capability_of : List Capability → Fields → Result Capability
  capability_of capabilities item = do
    id ← required_uuid item "capability_id" overview_path
    code ← required_string item "code" overview_path
    elim (find_capability capabilities id code) [
      | some c ↦ ok c
      | none ↦ invalid overview_path "assigned capability"
    ]

  -- The body of array(data.modules).map
  unfoldable pub parse_module :
      List Capability → List (String × Value) → Freshness → List String → Value → Result Module
  unfolding capability_of read_channel strings unique
  parse_module capabilities readings freshness permissions raw = do
    item ← object raw
    capability ← capability_of capabilities item
    supported ← boolean_value (get item "supported") overview_path "assigned capability"
    rows ← array (get item "channels")
    channels ← traverse (read_channel readings freshness) rows
    commands ← strings (get item "command_types")
    allowed ← strings (get item "allowed_commands")
    unique commands
    unique allowed
    refuse_unless
        (all (λ c. member c commands) allowed
          && (member "command.execute" permissions || leb (length allowed) 0))
        "allowed commands"
    refuse_unless (supported || (leb (length channels) 0 && leb (length commands) 0))
        "unsupported module"
    assignment ← required_uuid item "assignment_id" overview_path
    ok (record {
      assignment_id = assignment;
      code = capability.code;
      name = capability.name;
      supported = supported;
      channels = channels;
      commands = commands;
      allowed_commands = allowed;
    })

-- `${source}:${key}` of the channels of all modules
unfoldable pub keys_of_channels : List (Channel × Reading) → List String
keys_of_channels [] = []
keys_of_channels ((c, r) ∷ rest) = channel_key c.source c.key ∷ keys_of_channels rest

unfoldable pub keys_of_modules : List Module → List String
unfolding keys_of_channels
keys_of_modules [] = []
keys_of_modules (m ∷ rest) = keys_of_channels m.channels ++ keys_of_modules rest

-- modules.flatMap((module) => module.commands), and of the allowed ones
unfoldable pub module_commands : List Module → List String
module_commands [] = []
module_commands (m ∷ rest) = m.commands ++ module_commands rest

unfoldable pub module_allowed : List Module → List String
module_allowed [] = []
module_allowed (m ∷ rest) = m.allowed_commands ++ module_allowed rest

-- a has as many elements as b, and each of them is in b.
unfoldable pub same_texts : List String → List String → Bool
same_texts a b = length a == length b && all (λ x. member x b) a

abbrev pub first_of : List (String × Value) → List String
first_of [] = []
first_of ((k, v) ∷ rest) = k ∷ first_of rest
