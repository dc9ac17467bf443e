-- ===== src/Auth/Session/Machine/Moves.antt =====
-- The moves that a session of frontend/src/features/auth-session.tsx may make, and the functions of
-- it that begin and end a session.
use stechbaza_iot.Prelude.{
  Bool, Option, String, ap, false, if-intro, inl, inr, none, not, some, subst, sym, true, ℕ, ◌||◌,
  ◌∙◌, ◌≡◌, ◌⊎◌,
}
use stechbaza_iot.Api.Errors.{Failure}
use stechbaza_iot.Auth.Channel.{ClearedReason, SessionSnapshot}
use stechbaza_iot.Auth.Session.Actions.{is_logout_failed}
use stechbaza_iot.Auth.Session.Changes.{
  TokenOptions, accept_peer, accept_token, apply_peer_snapshot, apply_token_response,
  clear_session_internal, degraded, peer_session, refuses_peers, refuses_tokens, schedule_retry,
  sign_out, token_session, usable_session,
}
use stechbaza_iot.Auth.Session.Machine.Cores.{
  Core, core, core-accept_peer, core-accept_token-refuses, core-post_cleared, core-refuses_peers,
  core-refuses_tokens, core-sign_out, refuses_peers-false, refuses_tokens-false, true-false,
  usable-cases, ||-false,
}
use stechbaza_iot.Auth.Session.State.{
  Authenticated, Session, Tab, TokenResponse, anonymous, authenticated, commit_session, is_leaving,
  logging_out, logout_failed, min_peer_token_validity_ms, restoring, unavailable,
}
use stechbaza_iot.Auth.Timing.{is_snapshot_usable}
use stechbaza_iot.Prelude.Int.{ltb_ℤ, ℤ}

-- What may move a session beside the work in the background.
pub data Cause : Type 0 where
  background login_begins login_ends logout_begins logout_ends logout_cancelled : Cause

abbrev pub signed_in : Authenticated → String → Core
signed_in a token = record { session = authenticated a; token = some token; intent = false }

abbrev pub signed_out : Option ClearedReason → Core
signed_out reason = record { session = anonymous reason; token = none; intent = false }

-- No logout is under way or has failed.
abbrev pub IsHere : Session → Type 0
IsHere (logging_out now email) = ⊥
IsHere (logout_failed text retry_at email) = ⊥
IsHere s = Unit

not_leaving-IsHere : (s : Session) → is_leaving s ≡ false → IsHere s
not_leaving-IsHere (restoring now) e = tt
not_leaving-IsHere (anonymous reason) e = tt
not_leaving-IsHere (authenticated a) e = tt
not_leaving-IsHere (unavailable text retry_at) e = tt
not_leaving-IsHere (logging_out now email) e = cc
not_leaving-IsHere (logout_failed text retry_at email) e = cc

-- The moves that a session may make.
pub data Moves (c : Core) (k : Cause) : Core → Type 0 where
  stays : Moves c k c
  signs_in :
      (a : Authenticated) (token : String)
      → k ≡ background
      → c.intent ≡ false
      → IsHere c.session
      → Moves c k (signed_in a token)
  signs_out :
      (reason : Option ClearedReason)
      → (k ≡ background) ⊎ (k ≡ logout_ends)
      → Moves c k (signed_out reason)
  degrades :
      (a : Authenticated) (text : String)
      → k ≡ background
      → c.intent ≡ false
      → c.session ≡ authenticated a
      → Moves c k (record c { session = authenticated (record a { refresh_message = some text }) })
  waits :
      (text : String) (retry_at : ℤ)
      → k ≡ background
      → c.intent ≡ false
      → Moves c k (record c { session = unavailable text retry_at })
  begins_login : k ≡ login_begins → Moves c k (record c { intent = false })
  logs_in : (a : Authenticated) (token : String) → k ≡ login_ends → Moves c k (signed_in a token)
  begins_logout :
      (now : ℤ) (email : Option String)
      → k ≡ logout_begins
      → Moves c k (record c { session = logging_out now email; intent = true })
  fails_logout :
      (text : String) (retry_at : Option ℤ) (email : Option String)
      → k ≡ logout_ends
      → Moves c k (record c { session = logout_failed text retry_at email; intent = false })
  goes_back :
      (a : Authenticated) (token : String)
      → k ≡ logout_cancelled
      → is_logout_failed c.session ≡ true
      → Moves c k (signed_in a token)
  restores :
      (now : ℤ)
      → k ≡ logout_cancelled
      → is_logout_failed c.session ≡ true
      → Moves c k (record c { session = restoring now; intent = false })

module _ (k : Cause) where
  -- A change that the pages and requests do not see
  pub same : (t u : Tab) → core u ≡ core t → Moves (core t) k (core u)
  same t u e = subst (λ c. Moves (core t) k c) (sym e) stays

  pub signs_in-core :
      (t u : Tab) (a : Authenticated) (token : String)
      → k ≡ background
      → t.logout_intent ≡ false
      → is_leaving t.session ≡ false
      → core u ≡ record { session = authenticated a; token = some token; intent = t.logout_intent }
      → Moves (core t) k (core u)
  signs_in-core t u a token behind quiet here e =
      subst (λ c. Moves (core t) k c)
        (sym (
          e ∙ ap (λ i. record { session = authenticated a; token = some token; intent = i }) quiet))
        (signs_in a token behind quiet (not_leaving-IsHere t.session here))

  pub apply_token_response-Moves :
      (me : String) (now : ℤ) (r : TokenResponse) (o : TokenOptions) (t : Tab)
      → k ≡ background
      → o.force ≡ false
      → Moves (core t) k (core (apply_token_response me now r o t).1)
  unfolding apply_token_response
  apply_token_response-Moves me now r o t behind f =
      if-intro (λ (p : Bool × Tab). Moves (core t) k (core p.1)) o.force
        (λ e. absurd (true-false (sym e ∙ f)))
        (λ _.
          if-intro (λ (p : Bool × Tab). Moves (core t) k (core p.1)) (refuses_tokens now t).0
            (λ _. same t (refuses_tokens now t).1 (core-refuses_tokens now t))
            (λ free.
              if-intro (λ (p : Bool × Tab). Moves (core t) k (core p.1))
                (ltb_ℤ o.issued_at (refuses_tokens now t).1.last_event_at)
                (λ _. same t (refuses_tokens now t).1 (core-refuses_tokens now t))
                (λ _.
                  signs_in-core t (accept_token me now r o (refuses_tokens now t).1)
                    (token_session now r o (refuses_tokens now t).1.session) r.access_token behind
                    (refuses_tokens-false now t free).0 (refuses_tokens-false now t free).1
                    (core-accept_token-refuses me now r o t))))

  pub apply_peer_snapshot-Moves :
      (now : ℤ) (s : SessionSnapshot) (t : Tab)
      → k ≡ background
      → Moves (core t) k (core (apply_peer_snapshot now s t).1)
  unfolding apply_peer_snapshot
  apply_peer_snapshot-Moves now s t behind =
      let gate = not (is_snapshot_usable s now min_peer_token_validity_ms) in
      let u = (refuses_peers now t).1 in
      let unseen = λ (free : ((refuses_peers now t).0 || gate) ≡ false).
        refuses_peers-false now t (||-false (refuses_peers now t).0 gate free).0 in
      if-intro (λ (p : Bool × Tab). Moves (core t) k (core p.1)) ((refuses_peers now t).0 || gate)
        (λ _. same t u (core-refuses_peers now t))
        (λ free.
          if-intro (λ (p : Bool × Tab). Moves (core t) k (core p.1))
            (ltb_ℤ s.issued_at u.last_event_at) (λ _. same t u (core-refuses_peers now t))
            (λ _.
              signs_in-core t (accept_peer s u) (peer_session s u.session) s.access_token behind
                (unseen free).0 (unseen free).1 (core-accept_peer now s t)))

  pub clear_session_internal-Moves :
      (me nonce : String) (reason : Option ClearedReason) (broadcast : Bool) (issued_at : ℤ)
      (t : Tab)
      → (k ≡ background) ⊎ (k ≡ logout_ends)
      → Moves (core t) k (core (clear_session_internal me nonce reason broadcast issued_at t))
  unfolding clear_session_internal
  clear_session_internal-Moves me nonce reason broadcast issued_at t ends =
      if-intro (λ u. Moves (core t) k (core u)) (ltb_ℤ issued_at t.last_event_at) (λ _. stays)
        (λ _.
          subst (λ c. Moves (core t) k c)
            (sym
              (core-post_cleared me broadcast reason issued_at (sign_out nonce reason issued_at t)))
            (subst (λ c. Moves (core t) k c) (sym (core-sign_out nonce reason issued_at t))
              (signs_out reason ends)))

  degraded-Moves :
      (c : Core) (text : String) (retry_at : ℤ) (now : ℤ) (minimum : ℕ)
      → k ≡ background
      → c.intent ≡ false
      → Moves c k (record c {
        session = degraded text retry_at (usable_session now minimum c.session c.token);
      })
  unfolding degraded
  degraded-Moves c text retry_at now minimum behind quiet =
      elim (usable-cases now minimum c.session c.token) [
        | inl e ↦ rw e (waits text retry_at behind quiet)
        | inr (a, token, e, here) ↦ rw e (degrades a text behind quiet here)
      ]

  pub schedule_retry-Moves :
      (now : ℤ) (failure : Failure) (t : Tab)
      → k ≡ background
      → Moves (core t) k (core (schedule_retry now failure t))
  unfolding schedule_retry commit_session
  schedule_retry-Moves now failure t behind =
      if-intro (λ u. Moves (core t) k (core u)) t.logout_intent (λ _. stays)
        (λ quiet. degraded-Moves (core t) _ _ now min_peer_token_validity_ms behind quiet)
