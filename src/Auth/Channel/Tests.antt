-- ===== src/Auth/Channel/Tests.antt =====
-- Messages of frontend/src/features/auth-coordination.ts on concrete inputs.
use stechbaza_iot.Prelude.{refl}
use stechbaza_iot.Auth.Channel.{
  AuthChannelMessage, parse_auth_channel_message, parse_fields, parse_typed, read_integer,
  read_string, session_request,
}
use stechbaza_iot.Auth.Channel.Accepted.{IsAccepted, parse_auth_channel_message-IsAccepted}
use stechbaza_iot.Host.Sample.{sample}
use stechbaza_iot.Js.Number.{integer?, nat, num_eq, num_le, num_lt, safe_integer?}
use stechbaza_iot.Js.Text.{trim, utf16_length}
use stechbaza_iot.Js.Value.{Fields, end, field, get, num, obj, str}
use stechbaza_iot.Prelude.Int.{pos, ◌+ℤ◌}

abbrev request_fields : Fields
request_fields = field "version" (num (nat 1)) (
    field "type" (str "session-request")
      (field "sourceTab" (str " tab-7 ") (field "issuedAt" (num (nat 61000)) end)))

abbrev message : AuthChannelMessage
message = session_request "tab-7" (pos 61000)

parse_auth_channel_message-IsAccepted_example : IsAccepted (pos 1000) message
unfolding parse_auth_channel_message parse_fields parse_typed read_string read_integer safe_integer?
    num_eq num_le num_lt integer? get trim utf16_length ◌+ℤ◌
parse_auth_channel_message-IsAccepted_example =
    parse_auth_channel_message-IsAccepted (obj request_fields) (pos 1000) message refl
