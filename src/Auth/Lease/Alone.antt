-- ===== src/Auth/Lease/Alone.antt =====
-- A call of withStorageLease in frontend/src/features/auth-coordination.ts on its own.
use stechbaza_iot.Prelude.{
  List, Option, String, [], arith, eq_refl, le→leb, lt→ltb, none, refl, some, true, ℕ, ◌+◌, ◌<◌,
  ◌∙◌, ◌∷◌, ◌≡◌,
}
use stechbaza_iot.Auth.Lease.{
  Label, Phase, World, at, claimed, confirm, confirm_from, confirmed, goto, is_free, is_mine,
  lease_of, lock_lease_ms, lock_renew_ms, look, look_from, looked, looping, running, saw, step,
  tick, write, write_from,
}
use stechbaza_iot.Auth.Lease.Exclusion.{is_inside}

at_self : (i : ℕ) (p : Phase) (f : ℕ → Phase) → at i p f i ≡ p
unfolding at
at_self i p f = ground arith

abbrev continue : (World → Option World) → Option World → Option World
continue k none = none
continue k (some u) = k u

-- What the call does from its loop to `operation`.
abbrev pub taking : ℕ → ℕ → List Label
taking i random = look i 0 ∷ write i random ∷ tick (25 + random) ∷ confirm i 0 ∷ []

module _ (owner_of nonce_of : ℕ → String) where
  pub run_all : List Label → World → Option World
  run_all [] w = some w
  run_all (l ∷ rest) w = continue (λ u. run_all rest u) (step owner_of nonce_of l w)

  run_all-step :
      (l : Label) (rest : List Label) (w u : World)
      → step owner_of nonce_of l w ≡ some u
      → run_all (l ∷ rest) w ≡ run_all rest u
  unfolding run_all
  run_all-step l rest w u e = rw e

  is_mine-own :
      (i e : ℕ) → is_mine owner_of nonce_of i (some (lease_of owner_of nonce_of i e)) ≡ true
  unfolding is_mine lease_of
  is_mine-own i e = rw (eq_refl (owner_of i), eq_refl (nonce_of i))

  module _ (i d random : ℕ) (w : World) where
    seen : World
    seen = goto i (saw d w.clock) w

    wrote : World
    wrote = record (goto i (claimed d (w.clock + 25 + random) (w.clock + lock_lease_ms)) seen) {
      lease = some (lease_of owner_of nonce_of i (w.clock + lock_lease_ms));
    }

    slept : World
    slept = record wrote { clock = w.clock + (25 + random) }

    entered : World
    entered =
        goto i (running (w.clock + (25 + random) + lock_renew_ms) (w.clock + lock_lease_ms)) slept

    step-look :
        w.phase i ≡ looping d
        → w.clock < d
        → is_free w.lease w.clock ≡ true
        → step owner_of nonce_of (look i 0) w ≡ some seen
    unfolding step look_from looked seen
    step-look h early free = rw (h, lt→ltb w.clock d early, free)

    step-write : step owner_of nonce_of (write i random) seen ≡ some wrote
    unfolding step write_from seen wrote goto
    step-write = rw (at_self i (saw d w.clock) w.phase)

    step-tick : step owner_of nonce_of (tick (25 + random)) wrote ≡ some slept
    unfolding step slept wrote seen goto
    step-tick = refl

    step-confirm : step owner_of nonce_of (confirm i 0) slept ≡ some entered
    unfolding step confirm_from confirmed entered slept wrote goto at lease_of seen
    step-confirm = rw (
      at_self i (claimed d (w.clock + 25 + random) (w.clock + lock_lease_ms))
          (at i (saw d w.clock) w.phase),
      le→leb (w.clock + 25 + random) (w.clock + (25 + random)) (omega arith),
      is_mine-own i (w.clock + lock_lease_ms),
    )

  -- A call that stands at its loop before its deadline, while the lease in the storage is missing or
  -- over, is in `operation` after its one delay of 25 to 49 ms, with the lease its own and in force
  -- for 15 seconds from the reading, where no other call takes a step meanwhile.
  pub run_all-taking :
      (i d random : ℕ) (w : World)
      → w.phase i ≡ looping d
      → w.clock < d
      → is_free w.lease w.clock ≡ true
      → (u : World) × (run_all (taking i random) w ≡ some u)
        × (is_inside (u.phase i) ≡ true)
        × (u.clock ≡ w.clock + 25 + random)
        × (u.lease ≡ some (lease_of owner_of nonce_of i (w.clock + 15000)))
  unfolding run_all entered slept wrote seen goto
  run_all-taking i d random w h early free = (
    entered i d random w,
    run_all-step (look i 0) (write i random ∷ tick (25 + random) ∷ confirm i 0 ∷ []) w _
          (step-look i d random w h early free)
        ∙ run_all-step (write i random) (tick (25 + random) ∷ confirm i 0 ∷ []) _ _
            (step-write i d random w)
        ∙ run_all-step (tick (25 + random)) (confirm i 0 ∷ []) _ _ (step-tick i d random w)
        ∙ run_all-step (confirm i 0) [] _ _ (step-confirm i d random w)
        ∙ refl,
    rw
        (at_self i (running (w.clock + (25 + random) + lock_renew_ms) (w.clock + lock_lease_ms))
          (slept i d random w).phase)
        refl,
    omega arith,
    refl,
  )
