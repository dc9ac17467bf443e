-- ===== src/Auth/Channel/Accepted.antt =====
-- Which messages of another tab frontend/src/features/auth-coordination.ts accepts.
use mathlib.Core.Option
use stechbaza_iot.Prelude.{
  &&-eq-true, Bool, Option, String, arith, false, if-cases, inl, inr, leb, leb→le, ltb→lt, none,
  refl, some, some-injective, subst, sym, true, ℕ, ◌&&◌, ◌≡◌, ◌≤◌,
}
use stechbaza_iot.Auth.Channel.{
  AuthChannelMessage, SessionSnapshot, bounded_text, email_text, max_future_clock_skew_ms,
  max_snapshot_token_length, min_snapshot_token_length, origin_of, parse_auth_channel_message,
  parse_fields, parse_snapshot, parse_typed, read_integer, read_nullable_email, read_string,
  reason_of, session_cleared, session_request, session_snapshot, target_of, when, ◌>>=◌,
}
use stechbaza_iot.Host.{Host}
use stechbaza_iot.Js.Text.{is_empty, trim, utf16_length}
use stechbaza_iot.Js.Value.{Fields, Value, get, is_nat, is_text, null, obj, str}
use stechbaza_iot.Prelude.Int.{leb_ℤ, ltb_ℤ, pos, ℤ, ◌+ℤ◌, ◌<ℤ◌, ◌≤ℤ◌}

abbrev pub HasLength : ℕ → ℕ → String → Type 0
HasLength low high s = (low ≤ utf16_length s) × (utf16_length s ≤ high)

abbrev pub HasLength? : ℕ → ℕ → Option String → Type 0
HasLength? low high none = Unit
HasLength? low high (some s) = HasLength low high s

pub record IsSnapshot (s : SessionSnapshot) : Type 0 where
  pub token : HasLength 20 8192 s.access_token
  pub target : HasLength? 1 128 s.target_tab
  pub address : HasLength? 1 254 s.email
  pub access_lasts : s.issued_at <ℤ s.access_expires_at
  pub session_lasts : s.issued_at <ℤ s.session_expires_at

abbrev pub tab_of : AuthChannelMessage → String
tab_of (session_request tab at) = tab
tab_of (session_snapshot s) = s.source_tab
tab_of (session_cleared tab at reason) = tab

abbrev pub issued_of : AuthChannelMessage → ℤ
issued_of (session_request tab at) = at
issued_of (session_snapshot s) = s.issued_at
issued_of (session_cleared tab at reason) = at

abbrev pub Carries : AuthChannelMessage → Type 0
Carries (session_snapshot s) = IsSnapshot s
Carries m = Unit

pub record IsAccepted (now : ℤ) (m : AuthChannelMessage) : Type 0 where
  pub tab : HasLength 1 128 (tab_of m)
  pub not_ahead : issued_of m ≤ℤ now +ℤ pos 60000
  pub carries : Carries m

>>=-eq-some :
    {A B : Type 0} (m : Option A) (f : A → Option B) {b : B}
    → (m >>= f) ≡ some b
    → (a : A) × (m ≡ some a) × (f a ≡ some b)
>>=-eq-some none f e = cc
>>=-eq-some (some a) f e = (a, refl, e)

map-eq-some :
    {A B : Type 0} {f : A → B} (m : Option A) {b : B}
    → Option.map f m ≡ some b
    → (a : A) × (f a ≡ b)
map-eq-some none e = cc
map-eq-some (some a) e = (a, some-injective e)

when-some : (b : Bool) {u : Unit {0}} → when b ≡ some u → b ≡ true
when-some true e = refl
when-some false e = cc

utf16_length-pos : (s : String) → is_empty s ≡ false → 1 ≤ utf16_length s
unfolding utf16_length
utf16_length-pos String.[] e = cc
utf16_length-pos (String.◌∷◌ c s) e = ground arith

bounded_text-some :
    (s : String) (limit : ℕ) (t : String) → bounded_text s limit ≡ some t → HasLength 1 limit t
bounded_text-some s limit t e = ground (arith, utf16_length-pos s)

read_string-some :
    (v : Value) (limit : ℕ) (t : String) → read_string v limit ≡ some t → HasLength 1 limit t
unfolding read_string
read_string-some (str s) limit t e = bounded_text-some (trim s) limit t e
read_string-some v limit t e = cc

target_of-some : (v : Value) (o : Option String) → target_of v ≡ some o → HasLength? 1 128 o
unfolding target_of
target_of-some null o e = ground arith
target_of-some v none e = tt
target_of-some v (some t) e = read_string-some v 128 t (ground arith)

module _ ⦃h : Host⦄ where
  email_text-some : (s : String) (o : Option String) → email_text s ≡ some o → HasLength? 1 254 o
  unfolding email_text
  email_text-some s none e = tt
  email_text-some s (some t) e = ground (arith, utf16_length-pos s)

  read_nullable_email-some :
      (v : Value) (o : Option String) → read_nullable_email v ≡ some o → HasLength? 1 254 o
  unfolding read_nullable_email
  read_nullable_email-some null o e = ground arith
  read_nullable_email-some (str s) o e = email_text-some (h.lower (trim s)) o e
  read_nullable_email-some v o e = cc

  -- The message is of this tab and time, and carries what it should.
  abbrev IsOf : String → ℤ → AuthChannelMessage → Type 0
  IsOf tab at m = (tab_of m ≡ tab) × (issued_of m ≡ at) × Carries m

  parse_snapshot-some :
      (fields : Fields) (tab : String) (at : ℤ) (m : AuthChannelMessage)
      → parse_snapshot fields tab at ≡ some m
      → IsOf tab at m
  unfolding parse_snapshot
  parse_snapshot-some fields tab at m e =
      let (target, has_target, e) = >>=-eq-some (target_of (get fields "targetTab")) _ e in
      let (origin, _, e) = >>=-eq-some (origin_of (get fields "sessionOrigin")) _ e in
      let (email, has_email, e) = >>=-eq-some (read_nullable_email (get fields "email")) _ e in
      let (token, has_token, e) =
        >>=-eq-some (read_string (get fields "accessToken") max_snapshot_token_length) _ e in
      let (_, long, e) =
        >>=-eq-some (when (leb min_snapshot_token_length (utf16_length token))) _ e in
      let (access, _, e) = >>=-eq-some (read_integer (get fields "accessExpiresAt")) _ e in
      let (session, _, e) = >>=-eq-some (read_integer (get fields "sessionExpiresAt")) _ e in
      let (_, lasting, e) = >>=-eq-some (when (ltb_ℤ at access && ltb_ℤ at session)) _ e in
      let both = &&-eq-true {a = ltb_ℤ at access} {b = ltb_ℤ at session} (when-some _ lasting) in
      subst (IsOf tab at) (some-injective e) (
        refl,
        refl,
        record {
          token = (
            leb→le _ _ (when-some _ long),
            (read_string-some _ max_snapshot_token_length token has_token).1,
          );
          target = target_of-some _ target has_target;
          address = read_nullable_email-some _ email has_email;
          access_lasts = ltb→lt _ _ both.0;
          session_lasts = ltb→lt _ _ both.1;
        },
      )

  parse_typed-some :
      (fields : Fields) (tab : String) (at : ℤ) (m : AuthChannelMessage)
      → parse_typed fields tab at ≡ some m
      → IsOf tab at m
  unfolding parse_typed
  parse_typed-some fields tab at m e =
      elim (if-cases (is_text (get fields "type") "session-request") e) [
        | inl e ↦ subst (IsOf tab at) (some-injective e) (refl, refl, tt)
        | inr e ↦ elim (if-cases (is_text (get fields "type") "session-cleared") e) [
          | inl e ↦
              let (reason, e) = map-eq-some (reason_of (get fields "reason")) e in
              subst (IsOf tab at) e (refl, refl, tt)
          | inr e ↦ elim (if-cases (is_text (get fields "type") "session-snapshot") e) [
            | inl e ↦ parse_snapshot-some fields tab at m e
            | inr e ↦ cc
          ]
        ]
      ]

  IsOf-IsAccepted :
      (now at : ℤ) (tab : String) (m : AuthChannelMessage)
      → HasLength 1 128 tab
      → at ≤ℤ now +ℤ pos 60000
      → IsOf tab at m
      → IsAccepted now m
  IsOf-IsAccepted now at tab m long early (same_tab, same_time, carries) = record {
    tab = subst (HasLength 1 128) (sym same_tab) long;
    not_ahead = subst (λ t. t ≤ℤ now +ℤ pos 60000) (sym same_time) early;
    carries = carries;
  }

  parse_fields-some :
      (fields : Fields) (now : ℤ) (m : AuthChannelMessage)
      → parse_fields fields now ≡ some m
      → IsAccepted now m
  unfolding parse_fields
  parse_fields-some fields now m e =
      let (_, _, e) = >>=-eq-some (when (is_nat (get fields "version") 1)) _ e in
      let (tab, has_tab, e) = >>=-eq-some (read_string (get fields "sourceTab") 128) _ e in
      let (at, _, e) = >>=-eq-some (read_integer (get fields "issuedAt")) _ e in
      let (_, early, e) = >>=-eq-some (when (leb_ℤ at (now +ℤ pos max_future_clock_skew_ms))) _ e in
      IsOf-IsAccepted now at tab m (read_string-some _ 128 tab has_tab)
        (leb→le _ _ (when-some _ early)) (parse_typed-some fields tab at m e)

  -- A message that `parseAuthChannelMessage` takes from another tab has a tab id of 1 to 128
  -- code units and was issued at most a minute after the present; a session snapshot has also a
  -- token of 20 to 8192 units, a target tab of 1 to 128 units or none, an address of 1 to 254
  -- units or none, and expiry times after its issue.
  pub parse_auth_channel_message-IsAccepted :
      (value : Value) (now : ℤ) (m : AuthChannelMessage)
      → parse_auth_channel_message value now ≡ some m
      → IsAccepted now m
  unfolding parse_auth_channel_message
  parse_auth_channel_message-IsAccepted (obj fields) now m e = parse_fields-some fields now m e
  parse_auth_channel_message-IsAccepted v now m e = cc
