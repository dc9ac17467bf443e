-- ===== src/Api/Inventory/Queue/Tests.antt =====
-- Three requests for two workers of mapBounded in frontend/src/lib/api/inventory.ts.
use stechbaza_iot.Prelude.{
  List, [], arith, length, map, none, refl, some, ℕ, ◌*◌, ◌∷◌, ◌≡◌, ◌≢◌, ◌≤◌,
}
use stechbaza_iot.Api.Errors.{Result, ok, traverse}
use stechbaza_iot.Api.Inventory.Queue.{
  Happening, Queue, abort, advance, advance_from, all_ended, answer, answer_of, happen, listed,
  new_queue, put, run_queue, settle, settle_from, settle_with, throw_from,
}
use stechbaza_iot.Api.Inventory.Queue.Aborted.{run_queue-aborted}
use stechbaza_iot.Api.Inventory.Queue.Ending.{answer-reached}
use stechbaza_iot.Api.Inventory.Queue.Results.{answer-traverse}

abbrev sites : List ℕ
sites = 5 ∷ 6 ∷ 7 ∷ []

abbrev request : ℕ → Result ℕ
request n = ok (n * 10)

-- The second worker answers first, and takes the last item too.
abbrev turns : List Happening
turns =
    advance 0 ∷ advance 1 ∷ settle 1 ∷ advance 1 ∷ settle 1 ∷ advance 1 ∷ settle 0 ∷ advance 0 ∷ []

abbrev done_queue : Queue ℕ
done_queue = run_queue sites request turns (new_queue sites request 2)

in_order : answer sites request 2 done_queue ≡ some (ok (some 50 ∷ some 60 ∷ some 70 ∷ []))
unfolding answer answer_of run_queue new_queue happen advance_from settle_from settle_with
    throw_from put all_ended listed
in_order = refl

answer-traverse_example :
    (ys : List ℕ) × (traverse request sites ≡ ok ys)
    × ((some 50 ∷ some 60 ∷ some 70 ∷ []) ≡ map some ys)
answer-traverse_example =
    answer-traverse sites request 2 turns (some 50 ∷ some 60 ∷ some 70 ∷ []) (ground arith) in_order

answer-reached_example :
    let q = run_queue sites request (advance 0 ∷ []) (new_queue sites request 2) in
    (m : List Happening) × (length m ≤ 4 * length sites)
    × (answer sites request 2 (run_queue sites request m q) ≢ none)
answer-reached_example = answer-reached sites request 2 (advance 0 ∷ [])

-- Two of the three tasks were started, and none has answered.
abbrev begun_queue : Queue ℕ
begun_queue = run_queue sites request (advance 0 ∷ advance 1 ∷ []) (new_queue sites request 2)

begun-pending : answer sites request 2 begun_queue ≡ none
unfolding answer answer_of run_queue new_queue happen advance_from settle_from settle_with
    throw_from put all_ended listed
begun-pending = refl

-- With no abort these turns start the third task and give its result.
run_queue-aborted_example :
    let after = run_queue sites request turns (happen sites request abort begun_queue) in
    (after.upcoming ≡ begun_queue.upcoming)
    × (answer sites request 2 after ≢ some (ok (some 50 ∷ some 60 ∷ some 70 ∷ [])))
run_queue-aborted_example =
    run_queue-aborted sites request turns begun_queue 2 (some 50 ∷ some 60 ∷ some 70 ∷ [])
      begun-pending
