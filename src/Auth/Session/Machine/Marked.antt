-- ===== src/Auth/Session/Machine/Marked.antt =====
-- A tab of frontend/src/features/auth-session.tsx while the marker of a logout is in the storage.
use stechbaza_iot.Prelude.{
  Bool, Option, String, ap, false, if-intro, if◌then◌else◌, is_some, none, not, refl, some, sym,
  true, ◌||◌, ◌∙◌, ◌≡◌,
}
use stechbaza_iot.Auth.Channel.{SessionSnapshot, session_request}
use stechbaza_iot.Auth.Logout.{Storage, read_recent_logout_marker}
use stechbaza_iot.Auth.Logout.Window.{IsRecent}
use stechbaza_iot.Auth.Request.{text_of}
use stechbaza_iot.Auth.Session.Actions.{answer_peer, on_request}
use stechbaza_iot.Auth.Session.Changes.{
  TokenOptions, accept_peer, accept_token, apply_peer_snapshot, apply_token_response, refuses_peers,
  refuses_tokens, usable_session,
}
use stechbaza_iot.Auth.Session.Machine.Cores.{true-false}
use stechbaza_iot.Auth.Session.Refresh.{begin_refresh, refresh_session, request_peer_snapshot}
use stechbaza_iot.Auth.Session.State.{
  Tab, TokenResponse, Waiter, is_leaving, min_peer_token_validity_ms, post_message, recent_logout,
}
use stechbaza_iot.Auth.Timing.{is_snapshot_usable}
use stechbaza_iot.Prelude.Int.{ltb_ℤ, ℤ}

-- While the marker of a logout at the time is in force, a reading sees it and leaves it.
abbrev pub Marks : ℤ → Storage → Type 0
Marks at s = (now : ℤ) → IsRecent at now → read_recent_logout_marker now s ≡ (some at, s)

-- The tab has no token, nor one to go back to.
pub record IsShut (at : ℤ) (t : Tab) : Type 0 where
  pub marked : Marks at t.storage
  pub no_token : t.access_token ≡ none
  pub no_fallback : t.logout_fallback ≡ none

module _ {at : ℤ} (now : ℤ) (t : Tab) (m : Marks at t.storage) (r : IsRecent at now) where
  pub recent_logout-marked : recent_logout now t ≡ (true, t)
  unfolding recent_logout
  recent_logout-marked =
      ap {B = Bool × Tab} (λ (p : Option ℤ × Storage). (is_some p.0, record t { storage = p.1 }))
        (m now r)

  pub refuses_tokens-marked : refuses_tokens now t ≡ (true, t)
  unfolding refuses_tokens
  refuses_tokens-marked =
      if-intro (λ p. p ≡ (true, t)) (t.logout_intent || is_leaving t.session) (λ _. refl)
        (λ _. recent_logout-marked)

  pub refuses_peers-marked : refuses_peers now t ≡ (true, t)
  unfolding refuses_peers
  refuses_peers-marked =
      if-intro (λ p. p ≡ (true, t)) t.logout_intent (λ _. refl)
        (λ _.
          ap {B = Bool × Tab} (λ (p : Bool × Tab). (p.0 || is_leaving p.1.session, p.1))
            recent_logout-marked)

  pub apply_token_response-marked :
      (me : String) (response : TokenResponse) (o : TokenOptions)
      → o.force ≡ false
      → apply_token_response me now response o t ≡ (false, t)
  unfolding apply_token_response
  apply_token_response-marked me response o f =
      if-intro (λ p. p ≡ (false, t)) o.force (λ e. absurd (true-false (sym e ∙ f)))
        (λ _.
          ap {B = Bool × Tab}
            (λ (p : Bool × Tab).
              if p.0
              then (false, p.1)
              else if ltb_ℤ o.issued_at p.1.last_event_at
              then (false, p.1)
              else (true, accept_token me now response o p.1))
            refuses_tokens-marked)

  pub apply_peer_snapshot-marked : (s : SessionSnapshot) → apply_peer_snapshot now s t ≡ (false, t)
  unfolding apply_peer_snapshot
  apply_peer_snapshot-marked s =
      ap {B = Bool × Tab}
        (λ (p : Bool × Tab).
          if p.0 || not (is_snapshot_usable s now min_peer_token_validity_ms)
          then (false, p.1)
          else if ltb_ℤ s.issued_at p.1.last_event_at
          then (false, p.1)
          else (true, accept_peer s p.1))
        refuses_peers-marked

  pub refresh_session-marked : refresh_session now t ≡ (false, t)
  unfolding refresh_session
  refresh_session-marked =
      ap {B = Bool × Tab}
        (λ (p : Bool × Tab). if p.0 then (false, p.1) else begin_refresh now p.1.refresh p.1)
        refuses_tokens-marked

  pub request_peer_snapshot-marked : (me : String) → request_peer_snapshot me now t ≡ (some none, t)
  unfolding request_peer_snapshot
  request_peer_snapshot-marked me =
      if-intro (λ p. p ≡ (some none, t)) (not t.has_channel || t.logout_intent) (λ _. refl)
        (λ _.
          ap {B = Waiter × Tab}
            (λ (p : Bool × Tab).
              if p.0 then (some none, p.1) else (none, post_message (session_request me now) p.1))
            recent_logout-marked)

  pub on_request-marked : (me source : String) → on_request me source now t ≡ t
  unfolding on_request
  on_request-marked me source =
      if-intro (λ u. u ≡ t) t.logout_intent (λ _. refl)
        (λ _.
          ap
            (λ (p : Bool × Tab).
              if p.0
              then p.1
              else answer_peer me source now
                  (usable_session now min_peer_token_validity_ms p.1.session
                    (text_of p.1.access_token))
                  p.1)
            recent_logout-marked)
