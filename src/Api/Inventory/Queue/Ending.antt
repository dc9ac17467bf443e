-- ===== src/Api/Inventory/Queue/Ending.antt =====
-- The end of mapBounded of frontend/src/lib/api/inventory.ts, and its answer.
use stechbaza_iot.Prelude.{
  Bool, Bool-cases, List, Option, Option-cases, [], arith, false, inl, inr, length, min, none,
  none-some, refl, some, suc, sym, true, zero, ℕ, ◌*◌, ◌<◌, ◌∙◌, ◌∷◌, ◌≡◌, ◌≢◌, ◌≤◌,
}
use stechbaza_iot.Api.Errors.{Failure, Result}
use stechbaza_iot.Api.Inventory.Queue.{
  Happening, Queue, Worker, advance, all_ended, answer, answer_of, ended, happen, is_ended,
  new_queue, ready, run_queue, settle, threw, waiting,
}
use stechbaza_iot.Api.Inventory.Queue.Progress.{
  advance-lowers, settle-lowers, work_left, work_left-bound,
}
use stechbaza_iot.Api.Inventory.Queue.Results.{Fair, happen-Fair, new_queue-Fair, run_queue-Fair}

some_worker :
    (k : ℕ) (f : ℕ → Worker) → all_ended k f ≡ false → (w : ℕ) × (w < k) × (is_ended (f w) ≡ false)
unfolding all_ended
some_worker zero f h = cc
some_worker (suc k) f h = elim (Bool-cases (is_ended (f k))) [
  | inr going ↦ (k, omega arith, going)
  | inl over ↦ let (w, less, going) = some_worker k f (ground arith) in (w, omega arith, going)
]

answer_of-none :
    {B : Type 0} (rejection : Option Failure) (over stopped : Bool) (l : List (Option B))
    → answer_of rejection over stopped l ≡ none
    → (rejection ≡ none) × (over ≡ false)
unfolding answer_of
answer_of-none (some e) over stopped l h = cc
answer_of-none none false stopped l h = (refl, refl)
answer_of-none none true true l h = cc
answer_of-none none true false l h = cc

module _ {A B : Type 0} (items : List A) (task : A → Result B) (concurrency : ℕ) where
  -- A step that a worker can take.
  abbrev Lowers : Queue B → Type 0
  Lowers q =
      (x : Happening) × (work_left items task concurrency (happen items task x q)
        < work_left items task concurrency q)

  worker-Lowers :
      (q : Queue B) (w : ℕ) (p : Worker)
      → Fair items task concurrency q
      → q.rejection ≡ none
      → w < min concurrency (length items)
      → q.worker w ≡ p
      → is_ended p ≡ false
      → Lowers q
  worker-Lowers q w ready h none_failed less is going =
      (advance w, advance-lowers items task concurrency w q less is)
  worker-Lowers q w (waiting i) h none_failed less is going =
      let early = h.taken w i is in
      let all = h.within in
      (settle w, settle-lowers items task concurrency w i q less is (omega arith))
  worker-Lowers q w threw h none_failed less is going =
      let (e, why) = h.told w is in absurd (none-some (sym none_failed ∙ why))
  worker-Lowers q w ended h none_failed less is going = cc

  waiting-Lowers :
      (q : Queue B)
      → Fair items task concurrency q
      → answer items task concurrency q ≡ none
      → Lowers q
  unfolding answer
  waiting-Lowers q h e =
      let (none_failed, going) = answer_of-none q.rejection _ q.is_aborted _ e in
      let (w, less, not_over) = some_worker _ q.worker going in
      worker-Lowers q w (q.worker w) h none_failed less refl not_over

  -- A run of a length that answers.
  abbrev AnswersWithin : ℕ → Queue B → Type 0
  AnswersWithin fuel q =
      (l : List Happening) × (length l ≤ fuel)
      × (answer items task concurrency (run_queue items task l q) ≢ none)

  answered :
      (fuel : ℕ) (q : Queue B) → answer items task concurrency q ≢ none → AnswersWithin fuel q
  unfolding run_queue
  answered fuel q h = ([], omega arith, h)

  one_more :
      (fuel : ℕ) (x : Happening) (q : Queue B)
      → AnswersWithin fuel (happen items task x q)
      → AnswersWithin (suc fuel) q
  unfolding run_queue
  one_more fuel x q (l, short, h) = (x ∷ l, omega arith, h)

  answer-within :
      (fuel : ℕ) (q : Queue B)
      → Fair items task concurrency q
      → work_left items task concurrency q ≤ fuel
      → AnswersWithin fuel q
  answer-within zero q h enough = elim (Option-cases (answer items task concurrency q)) [
    | inr (a, given) ↦ answered zero q (λ e. none-some (sym e ∙ given))
    | inl none_yet ↦ let (x, lower) = waiting-Lowers q h none_yet in absurd (omega arith)
  ]
  answer-within (suc fuel) q h enough = elim (Option-cases (answer items task concurrency q)) [
    | inr (a, given) ↦ answered (suc fuel) q (λ e. none-some (sym e ∙ given))
    | inl none_yet ↦
        let (x, lower) = waiting-Lowers q h none_yet in
        one_more fuel x q (
          answer-within fuel (happen items task x q) (happen-Fair items task concurrency x q h)
            (omega arith))
  ]

  -- Wherever the workers have come to, four steps for each item are enough for mapBounded to
  -- answer: it never waits for nothing.
  pub answer-reached :
      (l : List Happening)
      → let q = run_queue items task l (new_queue items task concurrency) in
        (m : List Happening) × (length m ≤ 4 * length items)
        × (answer items task concurrency (run_queue items task m q) ≢ none)
  answer-reached l =
      let q = run_queue items task l (new_queue items task concurrency) in
      answer-within (4 * length items) q
        (run_queue-Fair items task concurrency l _ (new_queue-Fair items task concurrency))
        (work_left-bound items task concurrency q)
