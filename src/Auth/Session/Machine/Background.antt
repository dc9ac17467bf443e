-- ===== src/Auth/Session/Machine/Background.antt =====
-- The refresh of frontend/src/features/auth-session.tsx, which goes on after a logout.
use stechbaza_iot.Prelude.{
  Bool, Option, String, ap, false, if-intro, none, refl, some, subst, sym, true, ◌∙◌, ◌≡◌,
}
use stechbaza_iot.Api.Errors.{
  ErrorKind, Failure, Result, api_error, err, error, forbidden, ok, unauthorized, unexpected,
}
use stechbaza_iot.Auth.Channel.{SessionSnapshot, expired, revoked}
use stechbaza_iot.Auth.Logout.Window.{IsRecent}
use stechbaza_iot.Auth.Session.Changes.{apply_token_response}
use stechbaza_iot.Auth.Session.Machine.Cores.{core}
use stechbaza_iot.Auth.Session.Machine.Marked.{IsShut, Marks}
use stechbaza_iot.Auth.Session.Machine.Shut.{
  apply_peer_snapshot-IsShut, apply_token_response-IsShut, clear_session_internal-IsShut,
  request_peer_snapshot-IsShut, schedule_retry-IsShut,
}
use stechbaza_iot.Auth.Session.Refresh.{
  after_fetch, after_peers, ask_peers, catch_refresh, commit_api_refresh, conclude, end_of,
  end_of_kind, enter_lock, finish_refresh, refresh_options, refuse_lock, refuse_refresh,
  request_peer_snapshot, set_refresh, was_aborted, with_peer,
}
use stechbaza_iot.Auth.Session.State.{
  Outcome, RefreshPhase, Tab, TokenResponse, api, asking, ended, failed, fetching,
  is_new_usable_peer_snapshot, locking, no_refresh, peer,
}
use stechbaza_iot.Prelude.Int.{ℤ}

module _ {at : ℤ} where
  pub same_token :
      {t u : Tab}
      → u.storage ≡ t.storage
      → core u ≡ core t
      → u.logout_fallback ≡ t.logout_fallback
      → IsShut at t
      → IsShut at u
  same_token store e f s = record {
    marked = subst (λ x. Marks at x) (sym store) s.marked;
    no_token = ap (λ c. c.token) e ∙ s.no_token;
    no_fallback = f ∙ s.no_fallback;
  }

  with_peer-IsShut :
      (now baseline : ℤ) (p : Option SessionSnapshot) (t u : Tab)
      → IsShut at t
      → IsShut at u
      → IsShut at (with_peer now baseline p t u)
  unfolding with_peer set_refresh
  with_peer-IsShut now baseline none t u s v = v
  with_peer-IsShut now baseline (some p) t u s v =
      if-intro (λ w. IsShut at w) (is_new_usable_peer_snapshot (some p) baseline now)
        (λ _. same_token {t = t} refl refl refl s) (λ _. v)

  pub enter_lock-IsShut :
      (me : String) (now : ℤ) (p : RefreshPhase) (t : Tab)
      → IsRecent at now
      → IsShut at t
      → IsShut at (enter_lock me now p t)
  unfolding enter_lock ask_peers set_refresh
  enter_lock-IsShut me now (locking baseline) t r s =
      with_peer-IsShut now baseline t.latest_peer t (ask_peers me now baseline t) s (
        same_token {t = (request_peer_snapshot me now t).1} refl refl refl
          (request_peer_snapshot-IsShut me now t r s))
  enter_lock-IsShut me now no_refresh t r s = s
  enter_lock-IsShut me now (asking baseline w) t r s = s
  enter_lock-IsShut me now (fetching baseline) t r s = s
  enter_lock-IsShut me now (ended baseline o) t r s = s

  pub refuse_lock-IsShut :
      (failure : Failure) (p : RefreshPhase) (t : Tab)
      → IsShut at t
      → IsShut at (refuse_lock failure p t)
  unfolding refuse_lock set_refresh
  refuse_lock-IsShut failure no_refresh t s = s
  refuse_lock-IsShut failure (ended baseline o) t s = s
  refuse_lock-IsShut failure (locking baseline) t s = same_token {t = t} refl refl refl s
  refuse_lock-IsShut failure (asking baseline w) t s = same_token {t = t} refl refl refl s
  refuse_lock-IsShut failure (fetching baseline) t s = same_token {t = t} refl refl refl s

  pub after_peers-IsShut :
      (now : ℤ) (p : RefreshPhase) (t : Tab) → IsShut at t → IsShut at (after_peers now p t)
  unfolding after_peers set_refresh
  after_peers-IsShut now (asking baseline (some answer)) t s =
      with_peer-IsShut now baseline answer t (set_refresh (fetching baseline) t) s
        (same_token {t = t} refl refl refl s)
  after_peers-IsShut now (asking baseline none) t s = s
  after_peers-IsShut now no_refresh t s = s
  after_peers-IsShut now (locking baseline) t s = s
  after_peers-IsShut now (fetching baseline) t s = s
  after_peers-IsShut now (ended baseline o) t s = s

  pub after_fetch-IsShut :
      (me : String) (now : ℤ) (r : Result TokenResponse) (p : RefreshPhase) (t : Tab)
      → IsRecent at now
      → IsShut at t
      → IsShut at (after_fetch me now r p t)
  unfolding after_fetch set_refresh commit_api_refresh
  after_fetch-IsShut me now (ok response) (fetching baseline) t r s =
      let o = refresh_options now true t.session in
      same_token {t = (apply_token_response me now response o t).1} refl refl refl
        (apply_token_response-IsShut me now response o t refl r s)
  after_fetch-IsShut me now (err failure) (fetching baseline) t r s =
      same_token {t = t} refl refl refl s
  after_fetch-IsShut me now (ok response) no_refresh t r s = s
  after_fetch-IsShut me now (err failure) no_refresh t r s = s
  after_fetch-IsShut me now (ok response) (locking baseline) t r s = s
  after_fetch-IsShut me now (err failure) (locking baseline) t r s = s
  after_fetch-IsShut me now (ok response) (asking baseline w) t r s = s
  after_fetch-IsShut me now (err failure) (asking baseline w) t r s = s
  after_fetch-IsShut me now (ok response) (ended baseline o) t r s = s
  after_fetch-IsShut me now (err failure) (ended baseline o) t r s = s

  refuse_refresh-IsShut :
      (me nonce : String) (now : ℤ) (failure : Failure) (kind : ErrorKind) (t : Tab)
      → IsShut at t
      → IsShut at (refuse_refresh me nonce now failure (end_of_kind kind) t)
  unfolding refuse_refresh end_of_kind
  refuse_refresh-IsShut me nonce now failure unauthorized t s =
      clear_session_internal-IsShut me nonce expired true now t tt s
  refuse_refresh-IsShut me nonce now failure forbidden t s =
      clear_session_internal-IsShut me nonce revoked true now t tt s
  refuse_refresh-IsShut me nonce now failure kind t s =
      if-intro (λ u. IsShut at u) (was_aborted failure) (λ _. s)
        (λ _. schedule_retry-IsShut now failure t s)

  refuse-IsShut :
      (me nonce : String) (now : ℤ) (failure : Failure) (t : Tab)
      → IsShut at t
      → IsShut at (refuse_refresh me nonce now failure (end_of failure) t)
  unfolding end_of end_of_kind
  refuse-IsShut me nonce now (api_error e) t s =
      refuse_refresh-IsShut me nonce now (api_error e) e.kind t s
  refuse-IsShut me nonce now (error message) t s =
      refuse_refresh-IsShut me nonce now (error message) unexpected t s

  conclude-IsShut :
      (me nonce : String) (now baseline : ℤ) (o : Outcome) (t : Tab)
      → IsRecent at now
      → IsShut at t
      → IsShut at (conclude me nonce now baseline o t).1
  unfolding conclude catch_refresh
  conclude-IsShut me nonce now baseline (peer p) t r s = apply_peer_snapshot-IsShut now p t r s
  conclude-IsShut me nonce now baseline (api response issued_at) t r s =
      apply_token_response-IsShut me now response (refresh_options issued_at false t.session) t refl
        r s
  conclude-IsShut me nonce now baseline (failed failure) t r s = caught t.latest_peer
    where
      caught :
          (p : Option SessionSnapshot)
          → IsShut at (catch_refresh me nonce now baseline failure p t).1
      caught none = refuse-IsShut me nonce now failure t s
      caught (some p) =
          if-intro (λ (q : Bool × Tab). IsShut at q.1)
            (is_new_usable_peer_snapshot (some p) baseline now)
            (λ _. apply_peer_snapshot-IsShut now p t r s)
            (λ _. refuse-IsShut me nonce now failure t s)

  pub finish_refresh-IsShut :
      (me nonce : String) (now : ℤ) (p : RefreshPhase) (t : Tab)
      → IsRecent at now
      → IsShut at t
      → IsShut at (finish_refresh me nonce now p t).1
  unfolding finish_refresh set_refresh
  finish_refresh-IsShut me nonce now (ended baseline o) t r s =
      same_token {t = (conclude me nonce now baseline o t).1} refl refl refl
        (conclude-IsShut me nonce now baseline o t r s)
  finish_refresh-IsShut me nonce now no_refresh t r s = s
  finish_refresh-IsShut me nonce now (locking baseline) t r s = s
  finish_refresh-IsShut me nonce now (asking baseline w) t r s = s
  finish_refresh-IsShut me nonce now (fetching baseline) t r s = s
