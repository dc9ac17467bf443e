-- ===== src/Auth/Lease.antt =====
-- frontend/src/features/auth-coordination.ts: the lock of the tabs where the browser has no Web
-- Locks, a lease in localStorage that a call of withStorageLease takes, renews and gives back.
pub mod Roles
pub mod Keeps
pub mod Turns
pub mod Exclusion
pub mod Alone
mod Tests
use stechbaza_iot.Prelude.{
  Bool, Option, String, false, if◌then◌else◌, leb, ltb, none, some, str_eq, true, ℕ, ◌&&◌, ◌+◌,
  ◌==◌,
}
use stechbaza_iot.Auth.Channel.{read_integer, read_string}
use stechbaza_iot.Auth.Logout.{Item, json}
use stechbaza_iot.Js.Number.{int}
use stechbaza_iot.Js.Value.{Value, end, field, get, num, obj, str}
use stechbaza_iot.Prelude.Int.{leb_ℤ, pos, ℤ}

abbrev pub lock_lease_ms : ℕ
lock_lease_ms = 15000

abbrev pub lock_renew_ms : ℕ
lock_renew_ms = 5000

abbrev pub lock_timeout_ms : ℕ
lock_timeout_ms = 25000

pub record StorageLease : Type 0 where
  pub owner : String
  pub nonce : String
  pub expires_at : ℤ

read_lease : Option String → Option String → Option ℤ → Option StorageLease
read_lease (some owner) (some nonce) (some expires_at) =
    some (record { owner = owner; nonce = nonce; expires_at = expires_at })
read_lease a b c = none

-- parseLease(value); an empty text is among the garbled ones.
pub parse_lease : Option Item → Option StorageLease
parse_lease (some (json (obj fields))) =
    read_lease (read_string (get fields "owner") 128) (read_string (get fields "nonce") 128)
      (read_integer (get fields "expiresAt"))
parse_lease item = none

-- Where a call of withStorageLease stands, with its deadline and the times it waits for.
pub data Phase : Type 0 where
  -- not called yet
  outside : Phase
  -- at the head of the loop
  looping : ℕ → Phase
  -- has read at a time that there is no lease in force, and is to write its own
  saw : ℕ → ℕ → Phase
  -- has written a lease that ends at the last time, and sleeps until the second
  claimed : ℕ → ℕ → ℕ → Phase
  pausing : ℕ → ℕ → Phase
  -- in `operation`, with the time of the next renewal and the end of its lease
  running : ℕ → ℕ → Phase
  -- in `operation` too, between the reading and the writing of a renewal
  renewing : ℕ → Phase
  -- after `operation`, between the reading and the removal
  releasing : ℕ → Phase
  done : Phase
  failed : Phase

-- The clock of the machine, the item kerumo.auth.lock.v1 as parseLease reads it, and the calls.
pub record World : Type 0 where
  pub clock : ℕ
  pub lease : Option StorageLease
  pub phase : ℕ → Phase

-- A step of a call between two accesses of the storage; the last number is the random delay.
pub data Label : Type 0 where
  tick : ℕ → Label
  look : ℕ → ℕ → Label
  write : ℕ → ℕ → Label
  confirm : ℕ → ℕ → Label
  enter : ℕ → Label
  resume : ℕ → Label
  renew_read : ℕ → Label
  renew_write : ℕ → Label
  finish : ℕ → Label
  release : ℕ → Label

pub at : ℕ → Phase → (ℕ → Phase) → ℕ → Phase
at i p f j = if j == i then p else f j

goto : ℕ → Phase → World → World
goto i p w = record w { phase = at i p w.phase }

-- !existing || existing.expiresAt <= now
pub is_free : Option StorageLease → ℕ → Bool
is_free none now = true
is_free (some l) now = leb_ℤ l.expires_at (pos now)

-- The call number `i` has an owner, its tab, and the nonce of its own that it has drawn.
-- The start of the call, which sets the deadline
pub enter_from : ℕ → World → Phase → Option World
enter_from i w outside = some (goto i (looping (w.clock + lock_timeout_ms)) w)
enter_from i w p = none

module _ (owner_of nonce_of : ℕ → String) where
  pub lease_of : ℕ → ℕ → StorageLease
  lease_of i expires_at = record {
    owner = owner_of i;
    nonce = nonce_of i;
    expires_at = pos expires_at;
  }

  -- current?.owner === owner && current.nonce === nonce
  pub is_mine : ℕ → Option StorageLease → Bool
  is_mine i none = false
  is_mine i (some l) = str_eq l.owner (owner_of i) && str_eq l.nonce (nonce_of i)

  looked : ℕ → ℕ → World → Phase
  looked deadline random w =
      if ltb w.clock deadline
      then (if is_free w.lease w.clock
          then saw deadline w.clock
          else pausing deadline (w.clock + 50 + random))
      else failed

  -- The while test and the reading of the storage, up to the test of what was read
  pub look_from : ℕ → ℕ → World → Phase → Option World
  look_from i random w (looping deadline) = some (goto i (looked deadline random w) w)
  look_from i random w p = none

  -- The writing of the candidate, and the delay
  pub write_from : ℕ → ℕ → World → Phase → Option World
  write_from i random w (saw deadline now) =
      let expires_at = now + lock_lease_ms in
      some (record (goto i (claimed deadline (w.clock + 25 + random) expires_at) w) {
        lease = some (lease_of i expires_at);
      })
  write_from i random w p = none

  confirmed : ℕ → ℕ → ℕ → ℕ → World → Phase
  confirmed i deadline expires_at random w =
      if is_mine i w.lease
      then running (w.clock + lock_renew_ms) expires_at
      else pausing deadline (w.clock + 50 + random)

  -- After the delay: the test of what the storage holds now
  pub confirm_from : ℕ → ℕ → World → Phase → Option World
  confirm_from i random w (claimed deadline wake expires_at) =
      if leb wake w.clock then some (goto i (confirmed i deadline expires_at random w) w) else none
  confirm_from i random w p = none

  pub resume_from : ℕ → World → Phase → Option World
  resume_from i w (pausing deadline wake) =
      if leb wake w.clock then some (goto i (looping deadline) w) else none
  resume_from i w p = none

  -- The interval's callback, up to its test
  pub renew_read_from : ℕ → World → Phase → Option World
  renew_read_from i w (running next expires_at) =
      if leb next w.clock
      then some (
          goto i
            (if is_mine i w.lease
              then renewing expires_at
              else running (w.clock + lock_renew_ms) expires_at)
            w)
      else none
  renew_read_from i w p = none

  pub renew_write_from : ℕ → World → Phase → Option World
  renew_write_from i w (renewing expires_at) =
      let next = w.clock + lock_lease_ms in
      some (record (goto i (running (w.clock + lock_renew_ms) next) w) {
        lease = some (lease_of i next);
      })
  renew_write_from i w p = none

  -- The end of `operation`, whichever way it ends, and the test of the finally block
  pub finish_from : ℕ → World → Phase → Option World
  finish_from i w (running next expires_at) =
      some (goto i (if is_mine i w.lease then releasing expires_at else done) w)
  finish_from i w p = none

  pub release_from : ℕ → World → Phase → Option World
  release_from i w (releasing expires_at) = some (record (goto i done w) { lease = none })
  release_from i w p = none

  -- One step of withStorageLease(owner, operation); `none` where the call does not stand there.
  pub step : Label → World → Option World
  step (tick n) w = some (record w { clock = w.clock + n })
  step (enter i) w = enter_from i w (w.phase i)
  step (look i random) w = look_from i random w (w.phase i)
  step (write i random) w = write_from i random w (w.phase i)
  step (confirm i random) w = confirm_from i random w (w.phase i)
  step (resume i) w = resume_from i w (w.phase i)
  step (renew_read i) w = renew_read_from i w (w.phase i)
  step (renew_write i) w = renew_write_from i w (w.phase i)
  step (finish i) w = finish_from i w (w.phase i)
  step (release i) w = release_from i w (w.phase i)
