-- ===== src/Auth/Session/Machine/RefreshCores.antt =====
-- The same for the functions of a refresh in frontend/src/features/auth-session.tsx.
use stechbaza_iot.Prelude.{
  Bool, Bool-cases, Option, String, arith, if-intro, inl, inr, none, not, refl, some, ℕ, ◌||◌, ◌∙◌,
  ◌≡◌,
}
use stechbaza_iot.Api.Errors.{Failure}
use stechbaza_iot.Auth.Channel.{SessionSnapshot}
use stechbaza_iot.Auth.Request.{text_of}
use stechbaza_iot.Auth.Session.Actions.{
  Access, answer_peer, get_access_token, on_request, refresh_for_token, token_or_refresh,
}
use stechbaza_iot.Auth.Session.Startup.{became_visible, refresh_if_short}
use stechbaza_iot.Auth.Session.Changes.{post_snapshot, refuses_tokens, usable_session}
use stechbaza_iot.Auth.Session.Refresh.{
  after_peers, ask_peers, begin_refresh, enter_lock, lock_granted, lock_refused, peers_answered,
  refresh_session, refuse_lock, request_peer_snapshot, set_refresh, wait_for_cooldown, with_peer,
}
use stechbaza_iot.Auth.Session.State.{
  Authenticated, RefreshPhase, Tab, asking, authenticated?, ended, fetching,
  is_new_usable_peer_snapshot, locking, min_access_validity_ms, min_peer_token_validity_ms,
  no_refresh, post_message, recent_logout,
}
use stechbaza_iot.Prelude.Int.{leb_ℤ, pos, ℤ, ◌-ℤ◌}
use stechbaza_iot.Auth.Session.Machine.Cores.{core, core-recent_logout, core-refuses_tokens}

pub core-begin_refresh :
    (now : ℤ) (p : RefreshPhase) (t : Tab) → core (begin_refresh now p t).1 ≡ core t
unfolding begin_refresh set_refresh wait_for_cooldown
core-begin_refresh now no_refresh t = ground arith
core-begin_refresh now p t = refl

pub core-refresh_session : (now : ℤ) (t : Tab) → core (refresh_session now t).1 ≡ core t
unfolding refresh_session
core-refresh_session now t = elim (Bool-cases (refuses_tokens now t).0) [
  | inl e ↦ rw e (core-refuses_tokens now t)
  | inr e ↦ rw e (
      core-begin_refresh now (refuses_tokens now t).1.refresh (refuses_tokens now t).1
      ∙ core-refuses_tokens now t)
]

pub core-request_peer_snapshot :
    (me : String) (now : ℤ) (t : Tab) → core (request_peer_snapshot me now t).1 ≡ core t
unfolding request_peer_snapshot recent_logout post_message
core-request_peer_snapshot me now t = ground arith

core-answer_peer :
    (me source : String) (now : ℤ) (u : Option (Authenticated × String)) (t : Tab)
    → core (answer_peer me source now u t) ≡ core t
unfolding answer_peer post_snapshot post_message
core-answer_peer me source now (some (a, token)) t = refl
core-answer_peer me source now none t = refl

pub core-on_request :
    (me source : String) (now : ℤ) (t : Tab) → core (on_request me source now t) ≡ core t
unfolding on_request
core-on_request me source now t =
    let t' = (recent_logout now t).1 in
    if-intro (λ u. core u ≡ core t) t.logout_intent (λ _. refl)
      (λ _.
        if-intro (λ u. core u ≡ core t) (recent_logout now t).0 (λ _. core-recent_logout now t)
          (λ _.
            core-answer_peer me source now
              (usable_session now min_peer_token_validity_ms t'.session (text_of t'.access_token))
              t'
            ∙ core-recent_logout now t))

core-with_peer :
    (now baseline : ℤ) (s : Option SessionSnapshot) (t u : Tab)
    → core u ≡ core t
    → core (with_peer now baseline s t u) ≡ core t
unfolding with_peer set_refresh
core-with_peer now baseline none t u e = e
core-with_peer now baseline (some s) t u e =
    if-intro (λ v. core v ≡ core t) (is_new_usable_peer_snapshot (some s) baseline now) (λ _. refl)
      (λ _. e)

core-enter_lock :
    (me : String) (now : ℤ) (p : RefreshPhase) (t : Tab) → core (enter_lock me now p t) ≡ core t
unfolding enter_lock ask_peers set_refresh
core-enter_lock me now (locking baseline) t =
    core-with_peer now baseline t.latest_peer t (ask_peers me now baseline t)
      (core-request_peer_snapshot me now t)
core-enter_lock me now p t = refl

pub core-lock_granted : (me : String) (now : ℤ) (t : Tab) → core (lock_granted me now t) ≡ core t
unfolding lock_granted
core-lock_granted me now t = core-enter_lock me now t.refresh t

core-refuse_lock :
    (failure : Failure) (p : RefreshPhase) (t : Tab) → core (refuse_lock failure p t) ≡ core t
unfolding refuse_lock set_refresh
core-refuse_lock failure no_refresh t = refl
core-refuse_lock failure (ended baseline o) t = refl
core-refuse_lock failure (locking baseline) t = refl
core-refuse_lock failure (asking baseline w) t = refl
core-refuse_lock failure (fetching baseline) t = refl

pub core-lock_refused : (failure : Failure) (t : Tab) → core (lock_refused failure t) ≡ core t
unfolding lock_refused
core-lock_refused failure t = core-refuse_lock failure t.refresh t

core-after_peers : (now : ℤ) (p : RefreshPhase) (t : Tab) → core (after_peers now p t) ≡ core t
unfolding after_peers set_refresh
core-after_peers now (asking baseline (some answer)) t = core-with_peer now baseline answer t _ refl
core-after_peers now p t = refl

pub core-peers_answered : (now : ℤ) (t : Tab) → core (peers_answered now t) ≡ core t
unfolding peers_answered
core-peers_answered now t = core-after_peers now t.refresh t

core-token_or_refresh :
    (now : ℤ) (u : Option (Authenticated × String)) (t : Tab)
    → core (token_or_refresh now u t).1 ≡ core t
unfolding token_or_refresh refresh_for_token
core-token_or_refresh now (some (a, token)) t = refl
core-token_or_refresh now none t = core-refresh_session now t

pub core-get_access_token :
    (now : ℤ) (minimum : ℕ) (t : Tab) → core (get_access_token now minimum t).1 ≡ core t
unfolding get_access_token
core-get_access_token now minimum t =
    if-intro (λ (p : Access × Tab). core p.1 ≡ core t) t.logout_intent (λ _. refl)
      (λ _.
        core-token_or_refresh now (usable_session now minimum t.session (text_of t.access_token)) t)

core-refresh_if_short :
    (now : ℤ) (a : Option Authenticated) (t : Tab) → core (refresh_if_short now a t) ≡ core t
unfolding refresh_if_short
core-refresh_if_short now none t = refl
core-refresh_if_short now (some a) t =
    if-intro (λ u. core u ≡ core t)
      (leb_ℤ (a.access_expires_at -ℤ now) (pos min_access_validity_ms))
      (λ _. core-refresh_session now t) (λ _. refl)

pub core-became_visible :
    (now : ℤ) (visible : Bool) (t : Tab) → core (became_visible now visible t) ≡ core t
unfolding became_visible
core-became_visible now visible t =
    if-intro (λ u. core u ≡ core t) (not visible || t.logout_intent) (λ _. refl)
      (λ _. core-refresh_if_short now (authenticated? t.session) t)
