-- ===== src/Api/Inventory/Queue/Results.antt =====
-- What mapBounded of frontend/src/lib/api/inventory.ts answers in the end.
use mathlib.Core.Option
use stechbaza_iot.Prelude.{
  &&-eq-true, Bool, List, Option, [], ap, arith, dec_lt, false, get_elem?, if-intro, inl, inr,
  length, ltb, ltb→lt, map, min, none, refl, some, some-injective, suc, sym, true, zero, ℕ,
  ℕ_discrete, ◌<◌, ◌∙◌, ◌∷◌, ◌≡◌, ◌≤◌,
}
use stechbaza_iot.Api.Errors.{Failure, Result, err, ok, traverse}
use stechbaza_iot.Api.Inventory.Queue.{
  Happening, Queue, Worker, abort, abort_failure, advance, advance_from, all_ended, answer,
  answer_of, ended, happen, is_ended, listed, new_queue, ready, run_queue, settle, settle_from,
  settle_with, waiting,
}
use stechbaza_iot.Api.Inventory.Queue.Tickets.{
  IsFair, IsKept, leave-IsFair, ready_ended, store-IsFair, take-IsFair, throw_from-IsFair,
  waiting_ended,
}

is_ended-eq : (p : Worker) → is_ended p ≡ true → p ≡ ended
is_ended-eq ended h = refl
is_ended-eq p h = cc

all_ended-worker : (k : ℕ) (f : ℕ → Worker) → all_ended k f ≡ true → (w : ℕ) → w < k → f w ≡ ended
unfolding all_ended
all_ended-worker zero f h w g = absurd (omega arith)
all_ended-worker (suc k) f h w g =
    let (last, rest) = &&-eq-true {a = is_ended (f k)} {b = all_ended k f} h in
    elim (ℕ_discrete w k) [
      | yes e ↦ ap f e ∙ is_ended-eq (f k) last
      | no n ↦ all_ended-worker k f rest w (omega arith)
    ]

some_ok-injective : {B : Type 0} {a b : B} → some (ok a) ≡ some (ok b) → a ≡ b
some_ok-injective e = cc

answer_of-ok :
    {B : Type 0} (rejection : Option Failure) (over stopped : Bool) (l m : List (Option B))
    → answer_of rejection over stopped l ≡ some (ok m)
    → (rejection ≡ none) × (over ≡ true) × (l ≡ m)
unfolding answer_of
answer_of-ok (some e) over stopped l m h = cc
answer_of-ok none false stopped l m h = cc
answer_of-ok none true true l m h = cc
answer_of-ok none true false l m h = (refl, refl, some_ok-injective h)

get_elem?-lt : {A : Type 0} (l : List A) (i : ℕ) (x : A) → get_elem? l i ≡ some x → i < length l
get_elem?-lt [] i x h = cc
get_elem?-lt (y ∷ l) zero x h = omega arith
get_elem?-lt (y ∷ l) (suc i) x h = let less = get_elem?-lt l i x h in omega arith

-- Where each element has its result, the array holds the results of the map.
listed-traverse :
    {A B : Type 0} (task : A → Result B) (l : List A) (f : ℕ → Option B)
    → ((i : ℕ) (x : A) → get_elem? l i ≡ some x → (r : B) × (task x ≡ ok r) × (f i ≡ some r))
    → (ys : List B) × (traverse task l ≡ ok ys) × (listed (length l) f ≡ map some ys)
unfolding traverse listed
listed-traverse task [] f h = ([], refl, refl)
listed-traverse task (x ∷ l) f h =
    let (r, good, here) = h 0 x refl in
    let (ys, rest, there) = listed-traverse task l (λ i. f (suc i)) (λ i y g. h (suc i) y g) in
    (r ∷ ys, rw (good, rest), rw (here, there))

module _ {A B : Type 0} (items : List A) (task : A → Result B) (concurrency : ℕ) where
  abbrev pub Fair : Queue B → Type 0
  Fair q = IsFair items task (min concurrency (length items)) q

  advance_from-Fair :
      (w : ℕ) (q : Queue B) (p : Worker)
      → q.worker w ≡ p
      → Fair q
      → Fair (advance_from items task w q p)
  unfolding advance_from
  advance_from-Fair w q ready at_head h =
      if-intro Fair (ltb q.upcoming (length items))
        (λ more.
          if-intro Fair q.is_aborted
            (λ halted.
              throw_from-IsFair items task (min concurrency (length items)) w abort_failure q
                (λ e. ready_ended (sym at_head ∙ e)) h)
            (λ runs.
              take-IsFair items task (min concurrency (length items)) w q at_head (ltb→lt _ _ more)
                h))
        (λ none_left.
          leave-IsFair items task (min concurrency (length items)) w q at_head (ground arith) h)
  advance_from-Fair w q p same h = h

  settle_result :
      (w i : ℕ) (q : Queue B)
      → q.worker w ≡ waiting i
      → (x : A) → get_elem? items i ≡ some x
      → (r : Result B) → task x ≡ r
      → Fair q
      → Fair (settle_with items task w i q (some r))
  unfolding settle_with
  settle_result w i q busy x found (err e) good h =
      throw_from-IsFair items task (min concurrency (length items)) w e q
        (λ e. waiting_ended (sym busy ∙ e)) h
  settle_result w i q busy x found (ok r) good h =
      store-IsFair items task (min concurrency (length items)) w i x r q busy found good h

  settle_with-Fair :
      (w i : ℕ) (q : Queue B)
      → q.worker w ≡ waiting i
      → (a : Option A) → get_elem? items i ≡ a
      → Fair q
      → Fair (settle_with items task w i q (Option.map task a))
  unfolding settle_with
  settle_with-Fair w i q busy none found h = h
  settle_with-Fair w i q busy (some x) found h = settle_result w i q busy x found (task x) refl h

  settle_from-Fair :
      (w : ℕ) (q : Queue B) (p : Worker)
      → q.worker w ≡ p
      → Fair q
      → Fair (settle_from items task w q p)
  unfolding settle_from
  settle_from-Fair w q (waiting i) busy h = settle_with-Fair w i q busy (get_elem? items i) refl h
  settle_from-Fair w q p same h = h

  pub happen-Fair : (x : Happening) (q : Queue B) → Fair q → Fair (happen items task x q)
  unfolding happen
  happen-Fair abort q h = record {
    taken = h.taken;
    own = h.own;
    kept = h.kept;
    over = h.over;
    within = h.within;
    told = h.told;
    away = h.away;
  }
  happen-Fair (advance w) q h = advance_from-Fair w q (q.worker w) refl h
  happen-Fair (settle w) q h = settle_from-Fair w q (q.worker w) refl h

  pub run_queue-Fair : (l : List Happening) (q : Queue B) → Fair q → Fair (run_queue items task l q)
  unfolding run_queue
  run_queue-Fair [] q h = h
  run_queue-Fair (x ∷ l) q h = run_queue-Fair l (happen items task x q) (happen-Fair x q h)

  pub new_queue-Fair : Fair (new_queue items task concurrency)
  unfolding new_queue
  new_queue-Fair = record {
    taken = λ w i g. ground arith;
    own = λ w v i g k. ground arith;
    kept = λ i g. absurd (omega arith);
    over = λ w g k. ground arith;
    within = omega arith;
    told = λ w g. ground arith;
    away = λ w g. ground arith;
  }

  IsKept-result :
      (q : Queue B) (i : ℕ) (x : A)
      → Fair q
      → q.rejection ≡ none
      → all_ended (min concurrency (length items)) q.worker ≡ true
      → get_elem? items i ≡ some x
      → IsKept items task (min concurrency (length items)) q i
      → (r : B) × (task x ≡ ok r) × (q.results i ≡ some r)
  IsKept-result q i x h none_failed all_over found (inl (r, y, also, good, there)) =
      (r, ap task (some-injective (sym found ∙ also)) ∙ good, there)
  IsKept-result q i x h none_failed all_over found (inr (inl (w, busy))) =
      absurd (elim (dec_lt w (min concurrency (length items))) [
        | yes less ↦ waiting_ended (sym busy ∙ all_ended-worker _ q.worker all_over w less)
        | no more ↦ waiting_ended (sym busy ∙ h.away w (omega arith))
      ])
  IsKept-result q i x h none_failed all_over found (inr (inr (e, why))) = cc

  -- However the workers take turns, and whenever the signal is aborted: if mapBounded returns, then
  -- each task has given its result, and the array is that of the tasks run one after the other, in
  -- the order of the items.
  pub answer-traverse :
      (l : List Happening) (results : List (Option B))
      → 1 ≤ concurrency
      → let q = run_queue items task l (new_queue items task concurrency) in
        answer items task concurrency q ≡ some (ok results)
        → (ys : List B) × (traverse task items ≡ ok ys) × (results ≡ map some ys)
  unfolding answer
  answer-traverse l results positive h =
      let q = run_queue items task l (new_queue items task concurrency) in
      let fair = run_queue-Fair l (new_queue items task concurrency) new_queue-Fair in
      let (none_failed, all_over, same) = answer_of-ok q.rejection _ q.is_aborted _ results h in
      let (ys, mapped, array) = listed-traverse task items q.results (λ i x found.
        let less = get_elem?-lt items i x found in
        let workers_ended = all_ended-worker _ q.worker all_over 0 (ground arith) in
        let all_taken = fair.over 0 (ground arith) workers_ended in
        IsKept-result q i x fair none_failed all_over found (fair.kept i (omega arith))) in
      (ys, mapped, sym same ∙ array)
