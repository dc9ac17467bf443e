-- ===== src/Api/Inventory/Queue/Progress.antt =====
-- The steps that are left to mapBounded of frontend/src/lib/api/inventory.ts.
use mathlib.Core.Option
use stechbaza_iot.Prelude.{
  List, [], ap, arith, get_elem?, if-intro, length, ltb, ltb→lt, min, refl, some, subst, suc, sym,
  zero, ℕ, ℕ_discrete, ◌*◌, ◌+◌, ◌-◌, ◌<◌, ◌∙◌, ◌∷◌, ◌≡◌, ◌≤◌,
}
use stechbaza_iot.Api.Errors.{Result, err, ok}
use stechbaza_iot.Api.Inventory.Queue.{
  Queue, Worker, abort_failure, advance, advance_from, ended, happen, put, ready, settle,
  settle_from, settle_with, threw, throw_from, waiting,
}
use stechbaza_iot.Api.Inventory.Queue.Tickets.{put_here, put_there}

-- The steps that a worker is still to take, but for the items that it will take.
abbrev pub steps_of : Worker → ℕ
steps_of ready = 1
steps_of (waiting i) = 2
steps_of ended = 0
steps_of threw = 0

pub steps_left : ℕ → (ℕ → Worker) → ℕ
steps_left zero f = 0
steps_left (suc k) f = steps_of (f k) + steps_left k f

steps_left-same :
    (k : ℕ) (f g : ℕ → Worker) → ((v : ℕ) → v < k → g v ≡ f v) → steps_left k g ≡ steps_left k f
unfolding steps_left
steps_left-same zero f g h = refl
steps_left-same (suc k) f g h =
    let last = ap steps_of (h k (omega arith)) in
    let rest = steps_left-same k f g (λ v less. h v (omega arith)) in omega arith

below_itself : (k v : ℕ) → v < k → v ≡ k → ⊥
below_itself k v h e = omega arith

steps_left-put :
    (k w : ℕ) (p : Worker) (f : ℕ → Worker)
    → w < k
    → steps_left k (put w p f) + steps_of (f w) ≡ steps_left k f + steps_of p
unfolding steps_left
steps_left-put zero w p f h = absurd (omega arith)
steps_left-put (suc k) w p f h = elim (ℕ_discrete w k) [
  | yes e ↦
      let here = ap steps_of (ap (put w p f) (sym e) ∙ put_here w p f) in
      let was = ap steps_of (ap f e) in
      let rest =
        steps_left-same k f (put w p f)
          (λ v less. put_there w p f v (λ g. below_itself k v less (g ∙ e))) in
      omega arith
  | no n ↦
      let rest = steps_left-put k w p f (omega arith) in
      let last = ap steps_of (put_there w p f k (λ e. n (sym e))) in omega arith
]

get_elem?-some :
    {A : Type 0} (l : List A) (i : ℕ) → i < length l → (x : A) × (get_elem? l i ≡ some x)
get_elem?-some [] i h = absurd (omega arith)
get_elem?-some (x ∷ l) zero h = (x, refl)
get_elem?-some (x ∷ l) (suc i) h = get_elem?-some l i (omega arith)

steps_of-bound : (p : Worker) → steps_of p ≤ 2
steps_of-bound ready = omega arith
steps_of-bound (waiting i) = omega arith
steps_of-bound ended = omega arith
steps_of-bound threw = omega arith

steps_left-bound : (k : ℕ) (f : ℕ → Worker) → steps_left k f ≤ 2 * k
unfolding steps_left
steps_left-bound zero f = omega arith
steps_left-bound (suc k) f =
    let last = steps_of-bound (f k) in let rest = steps_left-bound k f in omega arith

module _ {A B : Type 0} (items : List A) (task : A → Result B) (concurrency : ℕ) where
  -- Two steps for each item that nobody has taken, and what the workers still have to do.
  pub work_left : Queue B → ℕ
  work_left q =
      2 * (length items - q.upcoming) + steps_left (min concurrency (length items)) q.worker

  -- A worker that goes on without an item to take.
  work_left-put :
      (q r : Queue B) (w : ℕ) (p : Worker)
      → w < min concurrency (length items)
      → r.upcoming ≡ q.upcoming
      → r.worker ≡ put w p q.worker
      → steps_of p < steps_of (q.worker w)
      → work_left r < work_left q
  unfolding work_left
  work_left-put q r w p less same workers lower =
      let change = steps_left-put (min concurrency (length items)) w p q.worker less in
      let after = ap (steps_left (min concurrency (length items))) workers in omega arith

  work_left-take :
      (q r : Queue B) (w i : ℕ)
      → w < min concurrency (length items)
      → q.upcoming < length items
      → r.upcoming ≡ q.upcoming + 1
      → r.worker ≡ put w (waiting i) q.worker
      → q.worker w ≡ ready
      → work_left r < work_left q
  unfolding work_left
  work_left-take q r w i less more one_on workers at_head =
      let change = steps_left-put (min concurrency (length items)) w (waiting i) q.worker less in
      let after = ap (steps_left (min concurrency (length items))) workers in
      let was = ap steps_of at_head in omega arith

  advance_from-lowers :
      (w : ℕ) (q : Queue B)
      → w < min concurrency (length items)
      → q.worker w ≡ ready
      → work_left (advance_from items task w q ready) < work_left q
  unfolding advance_from throw_from
  advance_from-lowers w q less at_head =
      let one = ap steps_of at_head in
      if-intro (λ r. work_left r < work_left q) (ltb q.upcoming (length items))
        (λ more.
          if-intro (λ r. work_left r < work_left q) q.is_aborted
            (λ halted.
              work_left-put q (throw_from w abort_failure q) w threw less refl refl (omega arith))
            (λ runs.
              work_left-take q
                (record q {
                  upcoming = q.upcoming + 1;
                  worker = put w (waiting q.upcoming) q.worker;
                })
                w q.upcoming less (ltb→lt _ _ more) refl refl at_head))
        (λ over.
          work_left-put q (record q { worker = put w ended q.worker }) w ended less refl refl
            (omega arith))

  settle_result-lowers :
      (w i : ℕ) (q : Queue B) (r : Result B)
      → w < min concurrency (length items)
      → q.worker w ≡ waiting i
      → work_left (settle_with items task w i q (some r)) < work_left q
  unfolding settle_with throw_from
  settle_result-lowers w i q (err e) less busy =
      let two = ap steps_of busy in
      work_left-put q (throw_from w e q) w threw less refl refl (omega arith)
  settle_result-lowers w i q (ok x) less busy =
      let two = ap steps_of busy in
      work_left-put q
        (record q { results = put i (some x) q.results; worker = put w ready q.worker }) w ready
        less refl refl (omega arith)

  settle_from-lowers :
      (w i : ℕ) (q : Queue B)
      → w < min concurrency (length items)
      → q.worker w ≡ waiting i
      → i < length items
      → work_left (settle_from items task w q (waiting i)) < work_left q
  unfolding settle_from
  settle_from-lowers w i q less busy there =
      let (x, found) = get_elem?-some items i there in
      subst (λ o. work_left (settle_with items task w i q (Option.map task o)) < work_left q)
        (sym found) (settle_result-lowers w i q (task x) less busy)

  pub advance-lowers :
      (w : ℕ) (q : Queue B)
      → w < min concurrency (length items)
      → q.worker w ≡ ready
      → work_left (happen items task (advance w) q) < work_left q
  unfolding happen
  advance-lowers w q less at_head =
      subst (λ p. work_left (advance_from items task w q p) < work_left q) (sym at_head)
        (advance_from-lowers w q less at_head)

  pub settle-lowers :
      (w i : ℕ) (q : Queue B)
      → w < min concurrency (length items)
      → q.worker w ≡ waiting i
      → i < length items
      → work_left (happen items task (settle w) q) < work_left q
  unfolding happen
  settle-lowers w i q less busy there =
      subst (λ p. work_left (settle_from items task w q p) < work_left q) (sym busy)
        (settle_from-lowers w i q less busy there)

  pub work_left-bound : (q : Queue B) → work_left q ≤ 4 * length items
  unfolding work_left
  work_left-bound q =
      let most = steps_left-bound (min concurrency (length items)) q.worker in omega arith
