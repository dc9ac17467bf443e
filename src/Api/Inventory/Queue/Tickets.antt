-- ===== src/Api/Inventory/Queue/Tickets.antt =====
-- Who works on what in mapBounded of frontend/src/lib/api/inventory.ts.
use stechbaza_iot.Prelude.{
  List, Option, ap, arith, dec_lt, get_elem?, inl, inr, length, none, refl, some, sym, ℕ,
  ℕ_discrete, ◌+◌, ◌<◌, ◌∙◌, ◌≡◌, ◌≢◌, ◌≤◌, ◌⊎◌,
}
use stechbaza_iot.Api.Errors.{Failure, Result, ok}
use stechbaza_iot.Api.Inventory.Queue.{
  Queue, Worker, ended, first_failure, put, ready, threw, throw_from, waiting,
}

module _ {A : Type 0} (i : ℕ) (x : A) (f : ℕ → A) where
  pub put-cases : (j : ℕ) (y : A) → put i x f j ≡ y → ((j ≡ i) × (x ≡ y)) ⊎ ((f j ≡ y) × (j ≢ i))
  unfolding put
  put-cases j y h = elim (ℕ_discrete j i) [
    | yes p ↦ inl (p, ground arith)
    | no n ↦ inr (ground arith, n)
  ]

  pub put_here : put i x f i ≡ x
  unfolding put
  put_here = ground arith

  pub put_there : (j : ℕ) → j ≢ i → put i x f j ≡ f j
  unfolding put
  put_there j n = ground arith

  pub put_old : (j : ℕ) (y : A) → put i x f j ≡ y → x ≢ y → (f j ≡ y) × (j ≢ i)
  put_old j y h differ = elim (put-cases j y h) [ inl e ↦ absurd (differ e.1) | inr e ↦ e ]

first_failure-some :
    (old : Option Failure) (e : Failure) → (d : Failure) × (first_failure old e ≡ some d)
first_failure-some none e = (e, refl)
first_failure-some (some d) e = (d, refl)

ready_busy : {i : ℕ} → ready ≡ waiting i → ⊥
ready_busy e = cc

pub ready_ended : ready ≡ ended → ⊥
ready_ended e = cc

pub waiting_ended : {i : ℕ} → waiting i ≡ ended → ⊥
waiting_ended e = cc

waiting-injective : {i j : ℕ} → waiting i ≡ waiting j → i ≡ j
waiting-injective e = cc

module _ {A B : Type 0} (items : List A) (task : A → Result B) (workers : ℕ) where
  -- The result of an index is there, on its way, or not to come.
  abbrev pub IsKept : Queue B → ℕ → Type 0
  IsKept q i =
      ((r : B) × (x : A) × (get_elem? items i ≡ some x) × (task x ≡ ok r) × (q.results i ≡ some r))
      ⊎ ((w : ℕ) × (q.worker w ≡ waiting i))
      ⊎ ((e : Failure) × (q.rejection ≡ some e))

  pub record IsFair (q : Queue B) : Type 0 where
    pub taken : (w i : ℕ) → q.worker w ≡ waiting i → i < q.upcoming
    -- No index is worked on twice at once.
    pub own : (w v i : ℕ) → q.worker w ≡ waiting i → q.worker v ≡ waiting i → w ≡ v
    pub kept : (i : ℕ) → i < q.upcoming → IsKept q i
    pub over : (w : ℕ) → w < workers → q.worker w ≡ ended → length items ≤ q.upcoming
    pub within : q.upcoming ≤ length items
    pub told : (w : ℕ) → q.worker w ≡ threw → (e : Failure) × (q.rejection ≡ some e)
    pub away : (w : ℕ) → workers ≤ w → q.worker w ≡ ended

  away_put :
      (w : ℕ) (p : Worker) (q : Queue B)
      → q.worker w ≢ ended
      → IsFair q
      → (v : ℕ) → workers ≤ v
      → put w p q.worker v ≡ ended
  away_put w p q alive h v g =
      put_there w p q.worker v (λ e. alive (ap q.worker (sym e) ∙ h.away v g)) ∙ h.away v g

  pub throw_from-IsFair :
      (w : ℕ) (e : Failure) (q : Queue B)
      → q.worker w ≢ ended
      → IsFair q
      → IsFair (throw_from w e q)
  unfolding throw_from
  throw_from-IsFair w e q alive h = record {
    taken = λ v i g. h.taken v i (put_old w threw q.worker v _ g cc).0;
    own = λ v u i g k.
        h.own v u i (put_old w threw q.worker v _ g cc).0 (put_old w threw q.worker u _ k cc).0;
    kept = λ i g. inr (inr (first_failure-some q.rejection e));
    within = h.within;
    told = λ v g. first_failure-some q.rejection e;
    away = away_put w threw q alive h;
    over = λ v g k. h.over v g (put_old w threw q.worker v _ k cc).0;
  }

  -- A worker that was at the head of its loop leaves the others to their tasks.
  still-IsKept :
      (w : ℕ) (p : Worker) (q r : Queue B) (i : ℕ)
      → q.worker w ≡ ready
      → r.worker ≡ put w p q.worker
      → r.results ≡ q.results
      → r.rejection ≡ q.rejection
      → IsKept q i
      → IsKept r i
  still-IsKept w p q r i at_head workers_same results_same rejection_same
        (inl (s, x, found, good, there)) =
      inl (s, x, found, good, ap (λ f. f i) results_same ∙ there)
  still-IsKept w p q r i at_head workers_same results_same rejection_same (inr (inl (v, busy))) =
      inr (
        inl (
          v,
          ap (λ f. f v) workers_same
              ∙ put_there w p q.worker v
                  (λ e. ready_busy (sym at_head ∙ ap q.worker (sym e) ∙ busy))
              ∙ busy,
        ))
  still-IsKept w p q r i at_head workers_same results_same rejection_same (inr (inr (e, why))) =
      inr (inr (e, rejection_same ∙ why))

  -- A worker that waits for another index leaves this one as it is.
  stored-IsKept :
      (w i : ℕ) (r : B) (q : Queue B) (j : ℕ)
      → q.worker w ≡ waiting i
      → j ≢ i
      → IsKept q j
      → IsKept (record q { results = put i (some r) q.results; worker = put w ready q.worker }) j
  stored-IsKept w i r q j busy other (inl (s, x, found, good, there)) =
      inl (s, x, found, good, put_there i (some r) q.results j other ∙ there)
  stored-IsKept w i r q j busy other (inr (inl (v, g))) = inr (
      inl (
        v,
        put_there w ready q.worker v
              (λ e. other (sym (waiting-injective (sym busy ∙ ap q.worker (sym e) ∙ g))))
            ∙ g,
      ))
  stored-IsKept w i r q j busy other (inr (inr rejected)) = inr (inr rejected)

  pub leave-IsFair :
      (w : ℕ) (q : Queue B)
      → q.worker w ≡ ready
      → length items ≤ q.upcoming
      → IsFair q
      → IsFair (record q { worker = put w ended q.worker })
  leave-IsFair w q at_head none_left h = record {
    taken = λ v i g. h.taken v i (put_old w ended q.worker v _ g cc).0;
    own = λ v u i g k.
        h.own v u i (put_old w ended q.worker v _ g cc).0 (put_old w ended q.worker u _ k cc).0;
    kept = λ i g.
        still-IsKept w ended q (record q { worker = put w ended q.worker }) i at_head refl refl refl
          (h.kept i g);
    within = h.within;
    told = λ v g. h.told v (put_old w ended q.worker v _ g cc).0;
    away = away_put w ended q (λ e. ready_ended (sym at_head ∙ e)) h;
    over = λ v g k. none_left;
  }

  pub take-IsFair :
      (w : ℕ) (q : Queue B)
      → q.worker w ≡ ready
      → q.upcoming < length items
      → IsFair q
      → IsFair
          (record q { upcoming = q.upcoming + 1; worker = put w (waiting q.upcoming) q.worker })
  take-IsFair w q at_head more h = record {
    taken = λ v i g. elim (put-cases w (waiting q.upcoming) q.worker v _ g) [
      | inl mine ↦ let same = waiting-injective mine.1 in omega arith
      | inr other ↦ let before = h.taken v i other.0 in omega arith
    ];
    own = λ v u i g k. elim (put-cases w (waiting q.upcoming) q.worker v _ g) [
      | inl (one, new) ↦ elim (put-cases w (waiting q.upcoming) q.worker u _ k) [
        | inl (two, _) ↦ one ∙ sym two
        | inr (busy, _) ↦
            let early = h.taken u i busy in let same = waiting-injective new in absurd (omega arith)
      ]
      | inr (busy, _) ↦ elim (put-cases w (waiting q.upcoming) q.worker u _ k) [
        | inl (_, new) ↦
            let early = h.taken v i busy in let same = waiting-injective new in absurd (omega arith)
        | inr (other, _) ↦ h.own v u i busy other
      ]
    ];
    kept = λ i g.
        let taken = record q {
          upcoming = q.upcoming + 1;
          worker = put w (waiting q.upcoming) q.worker;
        } in
        elim (dec_lt i q.upcoming) [
          | yes early ↦
              still-IsKept w (waiting q.upcoming) q taken i at_head refl refl refl (h.kept i early)
          | no late ↦
              let same : q.upcoming ≡ i = omega arith in
              inr (inl (w, put_here w (waiting q.upcoming) q.worker ∙ ap waiting same))
        ];
    within = omega arith;
    told = λ v g. h.told v (put_old w (waiting q.upcoming) q.worker v _ g cc).0;
    away = away_put w (waiting q.upcoming) q (λ e. ready_ended (sym at_head ∙ e)) h;
    over = λ v g k.
        let full = h.over v g (put_old w (waiting q.upcoming) q.worker v _ k cc).0 in omega arith;
  }

  -- The worker that waited for the index `i` stores its result.
  pub store-IsFair :
      (w i : ℕ) (x : A) (r : B) (q : Queue B)
      → q.worker w ≡ waiting i
      → get_elem? items i ≡ some x
      → task x ≡ ok r
      → IsFair q
      → IsFair (record q { results = put i (some r) q.results; worker = put w ready q.worker })
  store-IsFair w i x r q busy found good h = record {
    taken = λ v j g. h.taken v j (put_old w ready q.worker v _ g cc).0;
    own = λ v u j g k.
        h.own v u j (put_old w ready q.worker v _ g cc).0 (put_old w ready q.worker u _ k cc).0;
    kept = λ j g. elim (ℕ_discrete j i) [
      | yes same ↦ inl (
        r,
        x,
        ap (get_elem? items) same ∙ found,
        good,
        ap (put i (some r) q.results) same ∙ put_here i (some r) q.results,
      )
      | no other ↦ stored-IsKept w i r q j busy other (h.kept j g)
    ];
    within = h.within;
    told = λ v g. h.told v (put_old w ready q.worker v _ g cc).0;
    away = away_put w ready q (λ e. waiting_ended (sym busy ∙ e)) h;
    over = λ v g k. h.over v g (put_old w ready q.worker v _ k cc).0;
  }
