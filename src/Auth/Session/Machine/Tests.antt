-- ===== src/Auth/Session/Machine/Tests.antt =====
-- A login, a logout and what follows in frontend/src/features/auth-session.tsx.
use stechbaza_iot.Prelude.{List, [], arith, false, none, refl, some, true, ◌∷◌, ◌≡◌, ◌⊎◌}
use stechbaza_iot.Api.Errors.{ok}
use stechbaza_iot.Auth.Channel.{read_string}
use stechbaza_iot.Auth.Logout.{
  clear_logout_marker, parse_logout_marker, read_marker, read_recent_logout_marker,
  storage_available, with_item,
}
use stechbaza_iot.Auth.Session.Actions.{at_once, get_access_token, login_answered, login_started}
use stechbaza_iot.Auth.Session.Startup.{
  continue_start, mounted, set_startup, start_from, start_resumed, start_with,
}
use stechbaza_iot.Auth.Session.Changes.{
  accept_token, apply_token_response, post_snapshot, publish_snapshot, publish_token,
  refuses_tokens, sign_in,
}
use stechbaza_iot.Auth.Session.Machine.{
  Event, asks_token, login_answers, login_starts, logout_answers, mounts, new_tab, refresh_asked,
  refresh_resumes, run, start_resumes, step,
}
use stechbaza_iot.Auth.Session.Machine.Consistent.{IsConsistent, session-IsConsistent}
use stechbaza_iot.Auth.Session.Machine.Cores.{core}
use stechbaza_iot.Auth.Session.Machine.Leaving.{IsLeaving, IsSignedOut, step-IsLeaving}
use stechbaza_iot.Auth.Session.Machine.Lifecycle.{cause, step-Moves}
use stechbaza_iot.Auth.Session.Machine.Moves.{Moves, background}
use stechbaza_iot.Auth.Session.Machine.SignedOut.{logout_shuts}
use stechbaza_iot.Auth.Session.Refresh.{
  begin_refresh, refresh_session, request_peer_snapshot, set_refresh, wait_for_cooldown,
}
use stechbaza_iot.Auth.Session.State.{
  Tab, TokenResponse, authenticated, authenticated?, clear_retry_timer, commit_session, from_login,
  logging_out, post_message, recent_logout, started,
}
use stechbaza_iot.Host.Sample.{sample}
use stechbaza_iot.Js.Text.{trim, utf16_length}
use stechbaza_iot.Prelude.Int.{pos, ◌+ℤ◌, ◌-ℤ◌}

abbrev response : TokenResponse
response = record { access_token = "token"; expires_in = 900; session_expires_in = 86400 }

-- A tab with no other tab beside it, whose user signs in and out again
abbrev signing_in : List Event
signing_in =
    mounts (pos 1000) false
    ∷ start_resumes (pos 1001)
    ∷ login_starts
    ∷ login_answers (pos 2000) response "user@site"
    ∷ []

abbrev start_tab : Tab
start_tab = new_tab (pos 1000) (record {
  has_window = true;
  probe_works = true;
  set_works = true;
  remove_works = true;
  logout_item = none;
})

abbrev signed_in_tab : Tab
signed_in_tab = record start_tab {
  session = authenticated (record {
    email = some "user@site";
    access_expires_at = pos 902000;
    session_expires_at = pos 86402000;
    source = from_login;
    refresh_message = none;
  });
  access_token = some "token";
  last_event_at = pos 2000;
  is_mounted = true;
  startup = started;
}

abbrev leaving_tab : Tab
leaving_tab = record signed_in_tab {
  session = logging_out (pos 3000) (some "user@site");
  logout_intent = true;
  is_logout_running = true;
}

run-signing_in : (run "tab" "nonce" signing_in start_tab).access_token ≡ some "token"
unfolding run step new_tab mounted start_with set_startup start_resumed continue_start start_from
    request_peer_snapshot refresh_session refuses_tokens recent_logout read_recent_logout_marker
    storage_available read_marker parse_logout_marker clear_logout_marker begin_refresh set_refresh
    login_started login_answered apply_token_response accept_token sign_in commit_session
    clear_retry_timer publish_snapshot publish_token post_snapshot post_message wait_for_cooldown
    with_item ◌-ℤ◌
run-signing_in = refl

session-IsConsistent_example :
    IsConsistent (core (run "tab" "nonce" signing_in (new_tab (pos 1000) start_tab.storage)))
session-IsConsistent_example =
    session-IsConsistent "tab" "nonce" signing_in (pos 1000) start_tab.storage

step-Moves_example :
    Moves
      (core leaving_tab)
      background
      (core (step "tab" "nonce" (refresh_resumes (pos 4000)) leaving_tab))
unfolding cause
step-Moves_example = step-Moves "tab" "nonce" (refresh_resumes (pos 4000)) leaving_tab

step-IsLeaving_example :
    let u = step "tab" "nonce" (refresh_asked (pos 4000)) leaving_tab in
    (IsLeaving (core u) × (get_access_token (pos 4000) 30000 u ≡ (at_once none, u)))
    ⊎ IsSignedOut (core u)
unfolding cause new_tab
step-IsLeaving_example =
    step-IsLeaving "tab" "nonce" (refresh_asked (pos 4000)) leaving_tab (pos 4000) 30000
      (record { fits_token = tt; fits_intent = tt }) refl ((λ e. cc), (λ e. cc), (λ e. cc))

logout_shuts_example :
    let u =
      run "tab" "nonce"
        (refresh_asked (pos 200000) ∷ asks_token (pos 300000) 30000 ∷ [])
        (step "tab" "nonce" (logout_answers (pos 5000) (ok tt)) leaving_tab) in
    (u.access_token ≡ none) × (authenticated? u.session ≡ none)
unfolding storage_available read_string trim utf16_length ◌+ℤ◌ new_tab
logout_shuts_example =
    logout_shuts "tab" "nonce" (refresh_asked (pos 200000) ∷ asks_token (pos 300000) 30000 ∷ [])
      (pos 5000) leaving_tab refl refl (record { fits_token = tt; fits_intent = tt })
      (refl, refl, refl, refl) (ground arith) (ground arith) refl
      ((omega arith, omega arith), ((omega arith, omega arith), tt))
