-- ===== src/Auth/Lease/Exclusion.antt =====
-- Who is inside the section that withStorageLease of
-- frontend/src/features/auth-coordination.ts guards.
use stechbaza_iot.Prelude.{
  Bool, String, ap, false, refl, some, some-injective, subst, sym, true, ℕ, ◌≡◌,
}
use stechbaza_iot.Auth.Lease.{
  Label, Phase, World, confirm, enter, finish, look, outside, release, releasing, renew_read,
  renew_write, renewing, resume, running, step, tick, write,
}
use stechbaza_iot.Auth.Lease.Keeps.{held_same}
use stechbaza_iot.Auth.Lease.Roles.{IsOnTime, IsOrderly-tick, holding, idle, role}
use stechbaza_iot.Auth.Lease.Turns.{
  InOrder, IsTimely, confirm_from-InOrder, enter_from-InOrder, finish_from-InOrder,
  look_from-InOrder, release_from-InOrder, renew_read_from-InOrder, renew_write_from-InOrder,
  resume_from-InOrder, roles, write_from-InOrder,
}

-- In `operation`, or giving the lease back
abbrev pub is_inside : Phase → Bool
is_inside (running due e) = true
is_inside (renewing e) = true
is_inside (releasing e) = true
is_inside p = false

is_inside-holding : (p : Phase) → is_inside p ≡ true → (e : ℕ) × (role p ≡ holding e)
is_inside-holding (running due e) h = (e, refl)
is_inside-holding (renewing e) h = (e, refl)
is_inside-holding (releasing e) h = (e, refl)
is_inside-holding p h = cc

module _ (owner_of nonce_of : ℕ → String) where
  -- The worlds that a run of the calls comes to, in which each tab stays in time.
  pub data Reaches (w : World) : World → Type 0 where
    start : Reaches w w
    follow :
        {v u : World} (l : Label)
        → Reaches w v
        → step owner_of nonce_of l v ≡ some u
        → IsTimely u
        → Reaches w u

  -- No call has begun.
  abbrev pub IsInitial : World → Type 0
  IsInitial w = (j : ℕ) → w.phase j ≡ outside

  module _ (distinct : (i j : ℕ) → nonce_of i ≡ nonce_of j → i ≡ j) where
    step-InOrder :
        (l : Label) (w u : World)
        → step owner_of nonce_of l w ≡ some u
        → IsTimely w
        → InOrder owner_of nonce_of w
        → InOrder owner_of nonce_of u
    unfolding step
    step-InOrder (tick n) w u e t o =
        subst (InOrder owner_of nonce_of) (some-injective e)
          (IsOrderly-tick owner_of nonce_of distinct w.clock n w.lease (roles w) o)
    step-InOrder (enter i) w u e t o =
        enter_from-InOrder owner_of nonce_of distinct i w u (w.phase i) e o
    step-InOrder (look i random) w u e t o =
        look_from-InOrder owner_of nonce_of distinct i random w u (w.phase i) e t o
    step-InOrder (write i random) w u e t o =
        write_from-InOrder owner_of nonce_of distinct i random w u (w.phase i) refl e o
    step-InOrder (confirm i random) w u e t o =
        confirm_from-InOrder owner_of nonce_of distinct i random w u (w.phase i) refl e t o
    step-InOrder (resume i) w u e t o =
        resume_from-InOrder owner_of nonce_of distinct i w u (w.phase i) e o
    step-InOrder (renew_read i) w u e t o =
        renew_read_from-InOrder owner_of nonce_of distinct i w u (w.phase i) refl e o
    step-InOrder (renew_write i) w u e t o =
        renew_write_from-InOrder owner_of nonce_of distinct i w u (w.phase i) refl e o
    step-InOrder (finish i) w u e t o =
        finish_from-InOrder owner_of nonce_of distinct i w u (w.phase i) refl e o
    step-InOrder (release i) w u e t o =
        release_from-InOrder owner_of nonce_of distinct i w u (w.phase i) refl e o

    initial-IsTimely : (w : World) → IsInitial w → IsTimely w
    initial-IsTimely w h j = subst (λ p. IsOnTime w.clock (role p)) (sym (h j)) tt

    initial-InOrder : (w : World) → IsInitial w → InOrder owner_of nonce_of w
    initial-InOrder w h =
        let calm : (j : ℕ) → role (w.phase j) ≡ idle = λ j. ap role (h j) in
        record {
          held = λ j e g. let calm = calm j in cc;
          quiet = λ j e k t g f. let calm = calm j in cc;
          ordered = λ j wake e k t g m f. let calm = calm j in cc;
          fresh = λ j wake e g m. let calm = calm j in cc;
          past = λ j t g. let calm = calm j in cc;
        }

    reached-InOrder :
        (w u : World) → IsInitial w → Reaches w u → InOrder owner_of nonce_of u × IsTimely u
    unfolding step
    reached-InOrder w u h start = (initial-InOrder w h, λ j. initial-IsTimely w h j)
    reached-InOrder w u h (follow {v} l run e t) =
        let (o, before) = reached-InOrder w v h run in (step-InOrder l v u e before o, t)

    -- Two calls that are both inside are the same call, in each world that a run comes to in which
    -- every tab writes less than 25 ms after it has read and acts before its own lease ends. No call
    -- has begun when the run begins, whatever lease is stored, and each has a nonce of its own.
    pub one_inside :
        (w u : World)
        → IsInitial w
        → Reaches w u
        → (i j : ℕ) → is_inside (u.phase i) ≡ true
        → is_inside (u.phase j) ≡ true
        → i ≡ j
    one_inside w u h run i j in_i in_j =
        let (o, t) = reached-InOrder w u h run in
        let (d, held_i) = is_inside-holding (u.phase i) in_i in
        let (e, held_j) = is_inside-holding (u.phase j) in_j in
        held_same owner_of nonce_of distinct u.clock u.lease i (roles u) (roles u) o i j d e held_i
          held_j
