-- ===== src/Auth/Session/Machine/Restoring.antt =====
-- How the start, the refresh and the messages of frontend/src/features/auth-session.tsx change a tab.
use stechbaza_iot.Prelude.{
  Bool, Option, String, false, if-intro, inl, none, refl, some, str_eq, subst, sym, true, ◌&&◌,
  ◌||◌, ◌≡◌,
}
use stechbaza_iot.Api.Errors.{Failure, Result, err, ok}
use stechbaza_iot.Auth.Channel.{
  AuthChannelMessage, ClearedReason, SessionSnapshot, session_cleared, session_request,
  session_snapshot,
}
use stechbaza_iot.Auth.Logout.{Storage}
use stechbaza_iot.Auth.Session.Actions.{
  is_for, is_logout_failed, on_message, on_request, on_snapshot, parsed_message, restore,
}
use stechbaza_iot.Auth.Session.Startup.{
  continue_start, refresh_unless, set_startup, start_from, start_with,
}
use stechbaza_iot.Auth.Session.Changes.{apply_peer_snapshot}
use stechbaza_iot.Auth.Session.Machine.Cores.{Core, core}
use stechbaza_iot.Auth.Session.Machine.RefreshCores.{
  core-lock_granted, core-on_request, core-refresh_session, core-request_peer_snapshot,
}
use stechbaza_iot.Auth.Session.Machine.Moves.{
  Cause, Moves, apply_peer_snapshot-Moves, apply_token_response-Moves, clear_session_internal-Moves,
  goes_back, background, logout_cancelled, restores, same, schedule_retry-Moves, stays,
}
use stechbaza_iot.Auth.Session.Refresh.{
  after_fetch, catch_refresh, commit_api_refresh, conclude, end_of, finish_refresh, lock_granted,
  refresh_options, refresh_session, refuse_refresh, request_peer_snapshot, set_refresh, was_aborted,
}
use stechbaza_iot.Auth.Session.State.{
  LogoutFallback, Outcome, RefreshPhase, Startup, Tab, TokenResponse, api, asking_peers,
  commit_session, ended, failed, fetching, is_new_usable_peer_snapshot, min_peer_token_validity_ms,
  peer, resolve_peer_waiters, restoring, started,
}
use stechbaza_iot.Prelude.Int.{ltb_ℤ, pos, ℤ, ◌-ℤ◌}

module _ (k : Cause) where
  pub refresh_session-Moves :
      (now : ℤ) (t : Tab) → Moves (core t) k (core (refresh_session now t).1)
  refresh_session-Moves now t = same k t (refresh_session now t).1 (core-refresh_session now t)

  then_same : (c : Core) (u w : Tab) → Moves c k (core u) → core w ≡ core u → Moves c k (core w)
  then_same c u w m e = subst (λ d. Moves c k d) (sym e) m

  pub lock_granted-Moves :
      (me : String) (now : ℤ) (t : Tab) → Moves (core t) k (core (lock_granted me now t))
  lock_granted-Moves me now t = same k t (lock_granted me now t) (core-lock_granted me now t)

  pub restore-Moves :
      (now : ℤ) (f : Option LogoutFallback) (t : Tab)
      → k ≡ logout_cancelled
      → is_logout_failed t.session ≡ true
      → Moves
          (core t)
          k
          (core (restore now f (record t { logout_intent = false; logout_fallback = none })))
  unfolding restore commit_session
  restore-Moves now none t e here =
      let u =
        commit_session (restoring now)
          (record t { logout_intent = false; logout_fallback = none }) in
      then_same (core t) u (refresh_session now u).1 (restores now e here)
        (core-refresh_session now u)
  restore-Moves now (some f) t e here =
      let u =
        commit_session (restoring now)
          (record t { logout_intent = false; logout_fallback = none }) in
      if-intro (λ u. Moves (core t) k (core u))
        (ltb_ℤ now f.session.session_expires_at
          && ltb_ℤ (pos min_peer_token_validity_ms) (f.session.access_expires_at -ℤ now))
        (λ _. goes_back (record f.session { refresh_message = none }) f.access_token e here)
        (λ _.
          then_same (core t) u (refresh_session now u).1 (restores now e here)
            (core-refresh_session now u))

refuse_refresh-Moves :
    (me nonce : String) (now : ℤ) (failure : Failure) (reason : Option ClearedReason) (t : Tab)
    → Moves (core t) background (core (refuse_refresh me nonce now failure reason t))
unfolding refuse_refresh
refuse_refresh-Moves me nonce now failure (some reason) t =
    clear_session_internal-Moves background me nonce (some reason) true now t (inl refl)
refuse_refresh-Moves me nonce now failure none t =
    if-intro (λ u. Moves (core t) background (core u)) (was_aborted failure) (λ _. stays)
      (λ _. schedule_retry-Moves background now failure t refl)

catch_refresh-Moves :
    (me nonce : String) (now baseline : ℤ) (failure : Failure) (s : Option SessionSnapshot)
    (t : Tab)
    → Moves (core t) background (core (catch_refresh me nonce now baseline failure s t).1)
unfolding catch_refresh
catch_refresh-Moves me nonce now baseline failure none t =
    refuse_refresh-Moves me nonce now failure (end_of failure) t
catch_refresh-Moves me nonce now baseline failure (some s) t =
    if-intro (λ (p : Bool × Tab). Moves (core t) background (core p.1))
      (is_new_usable_peer_snapshot (some s) baseline now)
      (λ _. apply_peer_snapshot-Moves background now s t refl)
      (λ _. refuse_refresh-Moves me nonce now failure (end_of failure) t)

conclude-Moves :
    (me nonce : String) (now baseline : ℤ) (o : Outcome) (t : Tab)
    → Moves (core t) background (core (conclude me nonce now baseline o t).1)
unfolding conclude
conclude-Moves me nonce now baseline (peer s) t = apply_peer_snapshot-Moves background now s t refl
conclude-Moves me nonce now baseline (api r issued_at) t =
    apply_token_response-Moves background me now r (refresh_options issued_at false t.session) t
      refl refl
conclude-Moves me nonce now baseline (failed failure) t =
    catch_refresh-Moves me nonce now baseline failure t.latest_peer t

pub finish_refresh-Moves :
    (me nonce : String) (now : ℤ) (p : RefreshPhase) (t : Tab)
    → Moves (core t) background (core (finish_refresh me nonce now p t).1)
unfolding finish_refresh set_refresh
finish_refresh-Moves me nonce now (ended baseline o) t = conclude-Moves me nonce now baseline o t
finish_refresh-Moves me nonce now p t = stays

pub after_fetch-Moves :
    (me : String) (now : ℤ) (r : Result TokenResponse) (p : RefreshPhase) (t : Tab)
    → Moves (core t) background (core (after_fetch me now r p t))
unfolding after_fetch set_refresh commit_api_refresh
after_fetch-Moves me now (ok response) (fetching baseline) t =
    apply_token_response-Moves background me now response (refresh_options now true t.session) t
      refl refl
after_fetch-Moves me now (err failure) (fetching baseline) t = stays
after_fetch-Moves me now r p t = stays

on_message-Moves :
    (me nonce : String) (now : ℤ) (m : AuthChannelMessage) (t : Tab)
    → Moves (core t) background (core (on_message me nonce now m t))
unfolding on_message on_snapshot resolve_peer_waiters
on_message-Moves me nonce now (session_request source issued_at) t =
    if-intro (λ u. Moves (core t) background (core u)) (str_eq source me) (λ _. stays)
      (λ _. same background t (on_request me source now t) (core-on_request me source now t))
on_message-Moves me nonce now (session_snapshot s) t =
    if-intro (λ u. Moves (core t) background (core u)) (str_eq s.source_tab me) (λ _. stays)
      (λ _.
        if-intro (λ u. Moves (core t) background (core u)) (is_for me s.target_tab)
          (λ _.
            apply_peer_snapshot-Moves background now s
              (resolve_peer_waiters (some s) (record t { latest_peer = some s })) refl)
          (λ _. stays))
on_message-Moves me nonce now (session_cleared source issued_at reason) t =
    if-intro (λ u. Moves (core t) background (core u))
      (str_eq source me || ltb_ℤ issued_at t.last_event_at) (λ _. stays)
      (λ _.
        clear_session_internal-Moves background me nonce (some reason) false issued_at t (inl refl))

pub parsed_message-Moves :
    (me nonce : String) (now : ℤ) (m : Option AuthChannelMessage) (t : Tab)
    → Moves (core t) background (core (parsed_message me nonce now m t))
unfolding parsed_message
parsed_message-Moves me nonce now none t = stays
parsed_message-Moves me nonce now (some m) t = on_message-Moves me nonce now m t

pub start_with-Moves :
    (me nonce : String) (now : ℤ) (r : Option ℤ × Storage) (t : Tab)
    → Moves (core t) background (core (start_with me nonce now r t))
unfolding start_with set_startup
start_with-Moves me nonce now (some at_logout, s) t =
    clear_session_internal-Moves background me nonce (some ClearedReason.logout) false at_logout
      (record t { storage = s }) (inl refl)
start_with-Moves me nonce now (none, s) t =
    same background t (request_peer_snapshot me now (record t { storage = s })).1
      (core-request_peer_snapshot me now (record t { storage = s }))

refresh_unless-Moves :
    (now : ℤ) (c : Core) (p : Bool × Tab)
    → Moves c background (core p.1)
    → Moves c background (core (refresh_unless now p))
unfolding refresh_unless
refresh_unless-Moves now c (true, u) m = m
refresh_unless-Moves now c (false, u) m =
    then_same background c u (refresh_session now u).1 m (core-refresh_session now u)

start_from-Moves :
    (now : ℤ) (s : Option SessionSnapshot) (t : Tab)
    → Moves (core t) background (core (start_from now s t))
unfolding start_from
start_from-Moves now none t = refresh_session-Moves background now t
start_from-Moves now (some s) t =
    refresh_unless-Moves now (core t) (apply_peer_snapshot now s t)
      (apply_peer_snapshot-Moves background now s t refl)

pub continue_start-Moves :
    (now : ℤ) (p : Startup) (t : Tab) → Moves (core t) background (core (continue_start now p t))
unfolding continue_start set_startup
continue_start-Moves now (asking_peers (some answer)) t =
    if-intro (λ u. Moves (core t) background (core u)) t.is_mounted
      (λ _. start_from-Moves now answer (record t { startup = started })) (λ _. stays)
continue_start-Moves now p t = stays
