-- ===== src/Api/Inventory/Queue/Aborted.antt =====
-- An abort of mapBounded in frontend/src/lib/api/inventory.ts.
use stechbaza_iot.Prelude.{
  Bool, List, Option, [], false, if-intro, length, ltb, min, none, refl, some, subst, sym, true, ℕ,
  ◌∷◌, ◌≡◌, ◌≢◌,
}
use stechbaza_iot.Api.Errors.{Failure, Result, err, ok}
use stechbaza_iot.Api.Inventory.Queue.{
  Happening, Queue, Worker, abort, advance, advance_from, all_ended, answer, answer_of, happen,
  listed, ready, run_queue, settle, settle_from, settle_with, throw_from, waiting,
}

module _ {A B : Type 0} (items : List A) (task : A → Result B) where
  -- The signal stays aborted, and `next` stays where it was.
  abbrev IsHalted : ℕ → Queue B → Type 0
  IsHalted n q = (q.is_aborted ≡ true) × (q.upcoming ≡ n)

  advance_from-IsHalted :
      (n w : ℕ) (q : Queue B) (p : Worker)
      → IsHalted n q
      → IsHalted n (advance_from items task w q p)
  unfolding advance_from throw_from
  advance_from-IsHalted n w q ready (halted, same) =
      if-intro (IsHalted n) (ltb q.upcoming (length items))
        (λ more. if-intro (IsHalted n) q.is_aborted (λ yes_it_is. (halted, same)) (λ runs. cc))
        (λ over. (halted, same))
  advance_from-IsHalted n w q p h = h

  settle_with-IsHalted :
      (n w i : ℕ) (q : Queue B) (r : Option (Result B))
      → IsHalted n q
      → IsHalted n (settle_with items task w i q r)
  unfolding settle_with throw_from
  settle_with-IsHalted n w i q none h = h
  settle_with-IsHalted n w i q (some (err e)) (halted, same) = (halted, same)
  settle_with-IsHalted n w i q (some (ok r)) (halted, same) = (halted, same)

  settle_from-IsHalted :
      (n w : ℕ) (q : Queue B) (p : Worker)
      → IsHalted n q
      → IsHalted n (settle_from items task w q p)
  unfolding settle_from
  settle_from-IsHalted n w q (waiting i) h = settle_with-IsHalted n w i q _ h
  settle_from-IsHalted n w q p h = h

  abort-IsHalted : (q : Queue B) → IsHalted q.upcoming (happen items task abort q)
  unfolding happen
  abort-IsHalted q = (refl, refl)

  happen-IsHalted :
      (n : ℕ) (x : Happening) (q : Queue B) → IsHalted n q → IsHalted n (happen items task x q)
  unfolding happen
  happen-IsHalted n abort q (halted, same) = (refl, same)
  happen-IsHalted n (advance w) q h = advance_from-IsHalted n w q (q.worker w) h
  happen-IsHalted n (settle w) q h = settle_from-IsHalted n w q (q.worker w) h

  run_queue-IsHalted :
      (n : ℕ) (l : List Happening) (q : Queue B)
      → IsHalted n q
      → IsHalted n (run_queue items task l q)
  unfolding run_queue
  run_queue-IsHalted n [] q h = h
  run_queue-IsHalted n (x ∷ l) q h =
      run_queue-IsHalted n l (happen items task x q) (happen-IsHalted n x q h)

  answer_of-halted :
      (rejection : Option Failure) (over : Bool) (l m : List (Option B))
      → answer_of rejection over true l ≢ some (ok m)
  unfolding answer_of
  answer_of-halted (some e) over l m h = cc
  answer_of-halted none false l m h = cc
  answer_of-halted none true l m h = cc

  answer-halted :
      (concurrency : ℕ) (results : List (Option B)) (q : Queue B)
      → q.is_aborted ≡ true
      → answer items task concurrency q ≢ some (ok results)
  unfolding answer
  answer-halted concurrency results q h =
      subst
        (λ b.
          answer_of q.rejection (all_ended (min concurrency (length items)) q.worker) b
            (listed (length items) q.results)
          ≢ some (ok results))
        (sym h) (answer_of-halted q.rejection _ _ results)

  -- Once the signal is aborted while mapBounded has not answered, no task is started any more,
  -- whatever the workers do, and mapBounded never returns.
  pub run_queue-aborted :
      (l : List Happening) (q : Queue B) (concurrency : ℕ) (results : List (Option B))
      → answer items task concurrency q ≡ none
      → let after = run_queue items task l (happen items task abort q) in
        (after.upcoming ≡ q.upcoming) × (answer items task concurrency after ≢ some (ok results))
  run_queue-aborted l q concurrency results pending =
      let halt : IsHalted q.upcoming (happen items task abort q) = abort-IsHalted q in
      let (halted, same) = run_queue-IsHalted q.upcoming l (happen items task abort q) halt in
      (
        same,
        answer-halted concurrency results (run_queue items task l (happen items task abort q))
            halted,
      )
