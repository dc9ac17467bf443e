-- ===== src/Auth/Lease/Tests.antt =====
-- Runs of withStorageLease of frontend/src/features/auth-coordination.ts.
use stechbaza_iot.Prelude.{
  Bool-cases, String, ap, arith, if◌then◌else◌, inl, inr, refl, some, subst, suc, sym, true, zero,
  ℕ, ◌+◌, ◌<◌, ◌==◌, ◌≡◌,
}
use stechbaza_iot.Auth.Lease.{
  Phase, World, at, claimed, confirm, confirm_from, confirmed, enter, enter_from, goto, is_free,
  is_mine, lease_of, look, look_from, looked, looping, outside, pausing, running, saw, step, tick,
  write, write_from,
}
use stechbaza_iot.Auth.Lease.Alone.{run_all, run_all-taking, taking}
use stechbaza_iot.Auth.Lease.Exclusion.{IsInitial, Reaches, follow, is_inside, one_inside, start}
use stechbaza_iot.Auth.Lease.Roles.{IsOnTime, role}
use stechbaza_iot.Auth.Lease.Turns.{IsTimely}
use stechbaza_iot.Prelude.Int.{pos}

abbrev owner : ℕ → String
owner n = "tab"

-- Nonces that differ: as many letters as the number says.
nonce : ℕ → String
nonce zero = String.[]
nonce (suc n) = String.◌∷◌ "a" (nonce n)

abbrev tail : String → String
tail String.[] = String.[]
tail (String.◌∷◌ c s) = s

nonce-distinct : (i j : ℕ) → nonce i ≡ nonce j → i ≡ j
unfolding nonce
nonce-distinct zero zero e = refl
nonce-distinct zero (suc j) e = cc
nonce-distinct (suc i) zero e = cc
nonce-distinct (suc i) (suc j) e = ap suc (nonce-distinct i j (ap tail e))

-- A lease that a closed tab has left, over since a second.
abbrev left_behind : World
left_behind = record {
  clock = 1000;
  lease = some (record { owner = "tab"; nonce = "gone"; expires_at = pos 0 });
  phase = λ j. outside;
}

left_behind-IsInitial : IsInitial owner nonce left_behind
left_behind-IsInitial j = refl

abbrev both_entered : World
both_entered = goto 4 (looping 26000) (goto 3 (looping 26000) left_behind)

run_all-taking_example :
    (u : World) × (run_all owner nonce (taking 3 7) both_entered ≡ some u)
    × (is_inside (u.phase 3) ≡ true)
    × (u.clock ≡ 1000 + 25 + 7)
    × (u.lease ≡ some (lease_of owner nonce 3 (1000 + 15000)))
unfolding is_free goto at
run_all-taking_example = run_all-taking owner nonce 3 26000 7 both_entered refl (ground arith) refl

-- The calls 3 and 4 race: both see the old lease over, and the one that writes last gets in.
abbrev one_looked : World
one_looked = goto 3 (saw 26000 1000) both_entered

abbrev both_looked : World
both_looked = goto 4 (saw 26000 1000) one_looked

abbrev one_wrote : World
one_wrote = record (goto 3 (claimed 26000 1025 16000) both_looked) {
  lease = some (lease_of owner nonce 3 16000);
}

abbrev both_wrote : World
both_wrote = record (goto 4 (claimed 26000 1025 16000) one_wrote) {
  lease = some (lease_of owner nonce 4 16000);
}

abbrev both_slept : World
both_slept = record both_wrote { clock = 1025 }

abbrev one_lost : World
one_lost = goto 3 (pausing 26000 1075) both_slept

abbrev one_won : World
one_won = goto 4 (running 6025 16000) one_lost

IsTimely-goto :
    (i : ℕ) (p : Phase) (w : World) → IsOnTime w.clock (role p) → IsTimely w → IsTimely (goto i p w)
unfolding goto at
IsTimely-goto i p w h t j = elim (Bool-cases (j == i)) [
  | inl same ↦ subst (λ b. IsOnTime w.clock (role (if b then p else w.phase j))) (sym same) h
  | inr other ↦ subst (λ b. IsOnTime w.clock (role (if b then p else w.phase j))) (sym other) (t j)
]

entered-IsTimely : IsTimely (goto 3 (looping 26000) left_behind) × IsTimely both_entered
unfolding goto
entered-IsTimely =
    let one : IsTimely (goto 3 (looping 26000) left_behind) =
      IsTimely-goto 3 (looping 26000) left_behind tt (λ j. tt) in
    (one, IsTimely-goto 4 (looping 26000) (goto 3 (looping 26000) left_behind) tt one)

both_looked-IsTimely : IsTimely both_looked
unfolding goto
both_looked-IsTimely =
    IsTimely-goto 4 (saw 26000 1000) one_looked (ground arith)
      (IsTimely-goto 3 (saw 26000 1000) both_entered (ground arith) entered-IsTimely.1)

one_wrote-IsTimely : IsTimely one_wrote
unfolding goto
one_wrote-IsTimely =
    IsTimely-goto 3 (claimed 26000 1025 16000) both_looked (ground arith) both_looked-IsTimely

both_wrote-IsTimely : (clock : ℕ) → clock < 16000 → IsTimely (record both_wrote { clock = clock })
unfolding goto at
both_wrote-IsTimely clock h j = elim (Bool-cases (j == 4)) [
  | inl last ↦ rw last h
  | inr other ↦ elim (Bool-cases (j == 3)) [
    | inl first ↦ rw (other, first) h
    | inr calm ↦ rw (other, calm) tt
  ]
]

one_won-IsTimely : IsTimely one_lost × IsTimely one_won
unfolding goto
one_won-IsTimely =
    let lost : IsTimely one_lost =
      IsTimely-goto 3 (pausing 26000 1075) both_slept tt
        (both_wrote-IsTimely 1025 (ground arith)) in
    (lost, IsTimely-goto 4 (running 6025 16000) one_lost (ground arith) lost)

race : Reaches owner nonce left_behind one_won
unfolding step enter_from look_from looked write_from confirm_from confirmed goto at is_free is_mine
    lease_of nonce
race =
    follow (confirm 4 0)
      (follow (confirm 3 0)
        (follow (tick 25)
          (follow (write 4 0)
            (follow (write 3 0)
              (follow (look 4 0)
                (follow (look 3 0)
                  (follow (enter 4) (follow (enter 3) start refl entered-IsTimely.0) refl
                    entered-IsTimely.1)
                  refl
                  (IsTimely-goto 3 (saw 26000 1000) both_entered (ground arith) entered-IsTimely.1))
                refl both_looked-IsTimely)
              refl one_wrote-IsTimely)
            refl (both_wrote-IsTimely 1000 (ground arith)))
          refl (both_wrote-IsTimely 1025 (ground arith)))
        refl one_won-IsTimely.0)
      refl one_won-IsTimely.1

one_inside_example : ◌≡◌ {A = ℕ} 4 4
unfolding goto at
one_inside_example =
    one_inside owner nonce nonce-distinct left_behind one_won left_behind-IsInitial race 4 4 refl
      refl
