-- ===== src/Api/Inventory/Queue.antt =====
-- frontend/src/lib/api/inventory.ts: mapBounded, a queue of requests that a few workers share.
pub mod Tickets
pub mod Results
pub mod Aborted
pub mod Progress
pub mod Ending
mod Tests
use mathlib.Core.Option
use stechbaza_iot.Prelude.{
  Bool, List, Option, [], false, get_elem?, if◌then◌else◌, length, ltb, min, none, some, suc, true,
  zero, ℕ, ◌&&◌, ◌+◌, ◌==◌, ◌∷◌,
}
use stechbaza_iot.Api.Errors.{Failure, Result, err, error, ok}
use stechbaza_iot.Js.Number.{Number, safe_integer?}
use stechbaza_iot.Prelude.Int.{pos}

-- A worker is at the head of its loop, waits for the task of an index, or has ended.
pub data Worker : Type 0 where
  ready : Worker
  waiting : ℕ → Worker
  ended : Worker
  threw : Worker

-- The signal, the variables `next` and `results`, the workers, and what Promise.all rejects with:
-- the failure of the worker that failed first.
pub record Queue (B : Type 0) : Type 0 where
  pub is_aborted : Bool
  pub upcoming : ℕ
  pub results : ℕ → Option B
  pub rejection : Option Failure
  pub worker : ℕ → Worker

-- What happens next: the signal is aborted, a worker runs to its `await`, or its task is settled.
pub data Happening : Type 0 where
  abort : Happening
  advance : ℕ → Happening
  settle : ℕ → Happening

pub put {ℓ} : {A : Type ℓ} → ℕ → A → (ℕ → A) → ℕ → A
put i x f j = if j == i then x else f j

-- The reason of the signal that throwIfAborted throws.
abbrev pub abort_failure : Failure
abort_failure = error "AbortError"

abbrev pub first_failure : Option Failure → Failure → Option Failure
first_failure none e = some e
first_failure (some d) e = some d

pub throw_from : {B : Type 0} → ℕ → Failure → Queue B → Queue B
throw_from w e q = record q {
  rejection = first_failure q.rejection e;
  worker = put w threw q.worker;
}

abbrev pub is_ended : Worker → Bool
is_ended ended = true
is_ended p = false

pub all_ended : ℕ → (ℕ → Worker) → Bool
all_ended zero f = true
all_ended (suc k) f = is_ended (f k) && all_ended k f

-- The array from the index 0 on; a hole where there is no result
pub listed {ℓ} : {B : Type ℓ} → ℕ → (ℕ → Option B) → List (Option B)
listed zero f = []
listed (suc n) f = f 0 ∷ listed n (λ i. f (suc i))

pub answer_of {ℓ} :
    {B : Type ℓ}
    → Option Failure
    → Bool
    → Bool
    → List (Option B)
    → Option (Result (List (Option B)))
answer_of (some e) all_done stopped l = some (err e)
answer_of none false stopped l = none
answer_of none true true l = some (err abort_failure)
answer_of none true false l = some (ok l)

module _ {A B : Type 0} (items : List A) (task : A → Result B) where
  -- The loop's test, and up to the call of the task
  pub advance_from : ℕ → Queue B → Worker → Queue B
  advance_from w q ready =
      if ltb q.upcoming (length items)
      then (if q.is_aborted
          then throw_from w abort_failure q
          else record q { upcoming = q.upcoming + 1; worker = put w (waiting q.upcoming) q.worker })
      else record q { worker = put w ended q.worker }
  advance_from w q p = q

  -- The task's answer, which `await` returns or throws
  pub settle_with : ℕ → ℕ → Queue B → Option (Result B) → Queue B
  settle_with w i q none = q
  settle_with w i q (some (err e)) = throw_from w e q
  settle_with w i q (some (ok r)) = record q {
    results = put i (some r) q.results;
    worker = put w ready q.worker;
  }

  pub settle_from : ℕ → Queue B → Worker → Queue B
  settle_from w q (waiting i) = settle_with w i q (Option.map task (get_elem? items i))
  settle_from w q p = q

  pub happen : Happening → Queue B → Queue B
  happen abort q = record q { is_aborted = true }
  happen (advance w) q = advance_from w q (q.worker w)
  happen (settle w) q = settle_from w q (q.worker w)

  pub run_queue : List Happening → Queue B → Queue B
  run_queue [] q = q
  run_queue (x ∷ rest) q = run_queue rest (happen x q)

  -- Array.from({ length: Math.min(concurrency, items.length) }, …)
  pub new_queue : ℕ → Queue B
  new_queue concurrency = record {
    is_aborted = false;
    upcoming = 0;
    results = λ i. none;
    rejection = none;
    worker = λ w. if ltb w (min concurrency (length items)) then ready else ended;
  }

  -- The start of mapBounded, with its check of the concurrency
  pub start_queue : Number → Result (Queue B)
  start_queue x = elim (safe_integer? x) [
    | some (pos (suc n)) ↦ ok (new_queue (suc n))
    | _ ↦ err (error "Invalid concurrency")
  ]

  -- What mapBounded has answered; `none` while it waits.
  pub answer : ℕ → Queue B → Option (Result (List (Option B)))
  answer concurrency q =
      answer_of q.rejection (all_ended (min concurrency (length items)) q.worker) q.is_aborted
        (listed (length items) q.results)
