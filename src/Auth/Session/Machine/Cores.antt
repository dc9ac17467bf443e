-- ===== src/Auth/Session/Machine/Cores.antt =====
-- What the functions of frontend/src/features/auth-session.tsx leave of the session, the token and
-- the intent of a tab.
use stechbaza_iot.Prelude.{
  Bool, Bool-cases, Option, String, ap, arith, false, if-intro, inl, inr, none, refl, some, sym,
  true, ℕ, ◌||◌, ◌∙◌, ◌≡◌, ◌⊎◌,
}
use stechbaza_iot.Auth.Channel.{ClearedReason, SessionSnapshot}
use stechbaza_iot.Auth.Session.Changes.{
  TokenOptions, accept_peer, accept_token, apply_token_response, peer_session, post_cleared,
  post_snapshot, publish_snapshot, publish_token, refuses_peers, refuses_tokens, sign_in, sign_out,
  token_session, usable_session,
}
use stechbaza_iot.Auth.Session.State.{
  Authenticated, Session, Tab, TokenResponse, abort_authorized_requests, anonymous, authenticated,
  clear_retry_timer, commit_session, is_leaving, logging_out, logout_failed, post_message,
  recent_logout, resolve_peer_waiters, restoring, unavailable,
}
use stechbaza_iot.Prelude.Int.{ltb_ℤ, pos, ℤ, ◌-ℤ◌}

-- What the pages and the requests read: sessionRef, accessTokenRef and logoutIntentRef.
pub record Core : Type 0 where
  pub session : Session
  pub token : Option String
  pub intent : Bool

abbrev pub core : Tab → Core
core t = record { session = t.session; token = t.access_token; intent = t.logout_intent }

pub core-recent_logout : (now : ℤ) (t : Tab) → core (recent_logout now t).1 ≡ core t
unfolding recent_logout
core-recent_logout now t = refl

pub core-refuses_tokens : (now : ℤ) (t : Tab) → core (refuses_tokens now t).1 ≡ core t
unfolding refuses_tokens recent_logout
core-refuses_tokens now t = elim (Bool-cases (t.logout_intent || is_leaving t.session)) [
  | inl e ↦ rw e refl
  | inr e ↦ rw e refl
]

pub core-refuses_peers : (now : ℤ) (t : Tab) → core (refuses_peers now t).1 ≡ core t
unfolding refuses_peers recent_logout
core-refuses_peers now t = elim (Bool-cases t.logout_intent) [
  | inl e ↦ rw e refl
  | inr e ↦ rw e refl
]

pub true-false : true ≡ false → ⊥
true-false e = cc

pub ||-false : (a b : Bool) → (a || b) ≡ false → (a ≡ false) × (b ≡ false)
||-false a b e = ground arith

pub refuses_tokens-false :
    (now : ℤ) (t : Tab)
    → (refuses_tokens now t).0 ≡ false
    → (t.logout_intent ≡ false) × (is_leaving t.session ≡ false)
unfolding refuses_tokens
refuses_tokens-false now t e = ||-false t.logout_intent (is_leaving t.session) (ground arith)

pub refuses_peers-false :
    (now : ℤ) (t : Tab)
    → (refuses_peers now t).0 ≡ false
    → (t.logout_intent ≡ false) × (is_leaving t.session ≡ false)
unfolding refuses_peers recent_logout
refuses_peers-false now t e = ground arith

core-publish_token :
    (me : String) (now : ℤ) (a : Authenticated) (token : Option String) (t : Tab)
    → core (publish_token me now a token t) ≡ core t
unfolding publish_token recent_logout post_snapshot post_message
core-publish_token me now a none t = refl
core-publish_token me now a (some token) t = ground arith

core-accept_token :
    (me : String) (now : ℤ) (r : TokenResponse) (o : TokenOptions) (t : Tab)
    → core (accept_token me now r o t) ≡ record {
      session = authenticated (token_session now r o t.session);
      token = some r.access_token;
      intent = t.logout_intent;
    }
unfolding accept_token publish_snapshot sign_in commit_session clear_retry_timer
core-accept_token me now r o t =
    let next = token_session now r o t.session in
    if-intro
      (λ u. core u ≡ record {
        session = authenticated next;
        token = some r.access_token;
        intent = t.logout_intent;
      })
      o.broadcast (λ _. core-publish_token me now next _ _) (λ _. refl)

pub core-accept_token-refuses :
    (me : String) (now : ℤ) (r : TokenResponse) (o : TokenOptions) (t : Tab)
    → core (accept_token me now r o (refuses_tokens now t).1) ≡ record {
      session = authenticated (token_session now r o (refuses_tokens now t).1.session);
      token = some r.access_token;
      intent = t.logout_intent;
    }
core-accept_token-refuses me now r o t =
    core-accept_token me now r o (refuses_tokens now t).1
    ∙ ap
        (λ i. record {
          session = authenticated (token_session now r o (refuses_tokens now t).1.session);
          token = some r.access_token;
          intent = i;
        })
        (ap (λ c. c.intent) (core-refuses_tokens now t))

pub core-apply_token_response-force :
    (me : String) (now : ℤ) (r : TokenResponse) (o : TokenOptions) (t : Tab)
    → o.force ≡ true
    → core (apply_token_response me now r o t).1 ≡ record {
      session = authenticated (token_session now r o t.session);
      token = some r.access_token;
      intent = false;
    }
unfolding apply_token_response
core-apply_token_response-force me now r o t f =
    if-intro
      (λ (p : Bool × Tab). core p.1 ≡ record {
        session = authenticated (token_session now r o t.session);
        token = some r.access_token;
        intent = false;
      })
      o.force (λ _. core-accept_token me now r o _) (λ e. absurd (true-false (sym f ∙ e)))

pub core-accept_peer :
    (now : ℤ) (s : SessionSnapshot) (t : Tab)
    → core (accept_peer s (refuses_peers now t).1) ≡ record {
      session = authenticated (peer_session s (refuses_peers now t).1.session);
      token = some s.access_token;
      intent = t.logout_intent;
    }
unfolding accept_peer sign_in commit_session clear_retry_timer
core-accept_peer now s t =
    ap
      (λ i. record {
        session = authenticated (peer_session s (refuses_peers now t).1.session);
        token = some s.access_token;
        intent = i;
      })
      (ap (λ c. c.intent) (core-refuses_peers now t))

pub core-sign_out :
    (nonce : String) (reason : Option ClearedReason) (issued_at : ℤ) (t : Tab)
    → core (sign_out nonce reason issued_at t)
      ≡ record { session = anonymous reason; token = none; intent = false }
unfolding sign_out commit_session resolve_peer_waiters abort_authorized_requests clear_retry_timer
core-sign_out nonce reason issued_at t = refl

pub core-post_cleared :
    (me : String) (broadcast : Bool) (reason : Option ClearedReason) (issued_at : ℤ) (t : Tab)
    → core (post_cleared me broadcast reason issued_at t) ≡ core t
unfolding post_cleared post_message
core-post_cleared me broadcast none issued_at t = refl
core-post_cleared me true (some reason) issued_at t = refl
core-post_cleared me false (some reason) issued_at t = refl

pub usable-cases :
    (now : ℤ) (minimum : ℕ) (s : Session) (token : Option String)
    → (usable_session now minimum s token ≡ none)
      ⊎ ((a : Authenticated) × (tok : String) × (usable_session now minimum s token ≡ some (a, tok))
          × (s ≡ authenticated a))
unfolding usable_session
usable-cases now minimum (authenticated a) (some token) =
    elim (Bool-cases (ltb_ℤ (pos minimum) (a.access_expires_at -ℤ now))) [
      | inl e ↦ inr (a, token, rw e refl, refl)
      | inr e ↦ inl (rw e refl)
    ]
usable-cases now minimum (authenticated a) none = inl refl
usable-cases now minimum (restoring at) token = inl refl
usable-cases now minimum (anonymous r) token = inl refl
usable-cases now minimum (unavailable m at) token = inl refl
usable-cases now minimum (logging_out at e) token = inl refl
usable-cases now minimum (logout_failed m at e) token = inl refl
