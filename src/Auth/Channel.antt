-- ===== src/Auth/Channel.antt =====
-- frontend/src/features/auth-coordination.ts: the messages between tabs.
pub mod Accepted
mod Tests
use mathlib.Core.Option
use stechbaza_iot.Prelude.{
  Bool, Option, String, false, if◌then◌else◌, leb, none, some, true, ℕ, ◌&&◌,
}
use stechbaza_iot.Host.{Host}
use stechbaza_iot.Js.Number.{safe_integer?}
use stechbaza_iot.Js.Text.{is_empty, trim, utf16_length}
use stechbaza_iot.Js.Value.{Fields, Value, get, is_nat, is_text, null, num, obj, str}
use stechbaza_iot.Prelude.Int.{leb_ℤ, ltb_ℤ, pos, ℤ, ◌+ℤ◌}

abbrev pub max_future_clock_skew_ms : ℕ
max_future_clock_skew_ms = 60000

abbrev pub min_snapshot_token_length : ℕ
min_snapshot_token_length = 20

abbrev pub max_snapshot_token_length : ℕ
max_snapshot_token_length = 8192

pub data SessionOrigin : Type 0 where
  login refresh : SessionOrigin

pub data ClearedReason : Type 0 where
  expired revoked logout : ClearedReason

pub record SessionSnapshot : Type 0 where
  pub source_tab : String
  pub target_tab : Option String
  pub issued_at : ℤ
  pub session_origin : SessionOrigin
  pub email : Option String
  pub access_token : String
  pub access_expires_at : ℤ
  pub session_expires_at : ℤ

-- AuthChannelMessage; `version` is the constant 1.
pub data AuthChannelMessage : Type 0 where
  session_request : String → ℤ → AuthChannelMessage
  session_snapshot : SessionSnapshot → AuthChannelMessage
  session_cleared : String → ℤ → ClearedReason → AuthChannelMessage

abbrev bounded_text : String → ℕ → Option String
bounded_text s max_length =
    if is_empty s then none else if leb (utf16_length s) max_length then some s else none

-- readString(value, maxLength)
unfoldable pub read_string : Value → ℕ → Option String
read_string (str s) max_length = bounded_text (trim s) max_length
read_string v max_length = none

-- readInteger(value)
unfoldable pub read_integer : Value → Option ℤ
read_integer (num x) = safe_integer? x
read_integer v = none

abbrev origin_of : Value → Option SessionOrigin
origin_of v =
    if is_text v "login" then some login else if is_text v "refresh" then some refresh else none

abbrev reason_of : Value → Option ClearedReason
reason_of v =
    if is_text v "expired"
    then some expired
    else if is_text v "revoked"
    then some revoked
    else if is_text v "logout"
    then some logout
    else none

-- The target of a snapshot: null for all tabs, or a tab; `none` where neither is given.
target_of : Value → Option (Option String)
target_of null = some none
target_of v = elim (read_string v 128) [ none ↦ none | some tab ↦ some (some tab) ]

infixl 5 ◌>>=◌
abbrev ◌>>=◌ {ℓ κ} : {A : Type ℓ} {B : Type κ} → Option A → (A → Option B) → Option B
none >>= k = none
some a >>= k = k a

abbrev when : Bool → Option (Unit {0})
when true = some tt
when false = none

module _ ⦃h : Host⦄ where
  email_text : String → Option (Option String)
  email_text s =
      if is_empty s then none else if leb (utf16_length s) 254 then some (some s) else none

  -- readNullableEmail(value); the outer `none` is undefined.
  unfoldable pub read_nullable_email : Value → Option (Option String)
  unfolding email_text
  read_nullable_email null = some none
  read_nullable_email (str s) = email_text (h.lower (trim s))
  read_nullable_email v = none

  parse_snapshot : Fields → String → ℤ → Option AuthChannelMessage
  parse_snapshot fields source_tab issued_at = target_of (get fields "targetTab") >>= λ target_tab.
      origin_of (get fields "sessionOrigin") >>= λ origin.
      read_nullable_email (get fields "email") >>= λ email.
      read_string (get fields "accessToken") max_snapshot_token_length >>= λ token.
      when (leb min_snapshot_token_length (utf16_length token)) >>= λ _.
      read_integer (get fields "accessExpiresAt") >>= λ access_expires_at.
      read_integer (get fields "sessionExpiresAt") >>= λ session_expires_at.
      when (ltb_ℤ issued_at access_expires_at && ltb_ℤ issued_at session_expires_at) >>= λ _. some (
        session_snapshot (record {
          source_tab = source_tab;
          target_tab = target_tab;
          issued_at = issued_at;
          session_origin = origin;
          email = email;
          access_token = token;
          access_expires_at = access_expires_at;
          session_expires_at = session_expires_at;
        }))

  parse_typed : Fields → String → ℤ → Option AuthChannelMessage
  parse_typed fields source_tab issued_at =
      let type = get fields "type" in
      if is_text type "session-request"
      then some (session_request source_tab issued_at)
      else if is_text type "session-cleared"
      then Option.map (λ reason. session_cleared source_tab issued_at reason)
          (reason_of (get fields "reason"))
      else if is_text type "session-snapshot"
      then parse_snapshot fields source_tab issued_at
      else none

  parse_fields : Fields → ℤ → Option AuthChannelMessage
  parse_fields fields now = when (is_nat (get fields "version") 1) >>= λ _.
      read_string (get fields "sourceTab") 128 >>= λ source_tab.
      read_integer (get fields "issuedAt") >>= λ issued_at.
      when (leb_ℤ issued_at (now +ℤ pos max_future_clock_skew_ms)) >>= λ _.
      parse_typed fields source_tab issued_at

  -- parseAuthChannelMessage(value, nowMs)
  pub parse_auth_channel_message : Value → ℤ → Option AuthChannelMessage
  parse_auth_channel_message (obj fields) now = parse_fields fields now
  parse_auth_channel_message v now = none
