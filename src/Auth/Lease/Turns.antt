-- ===== src/Auth/Lease/Turns.antt =====
-- The steps of withStorageLease in frontend/src/features/auth-coordination.ts, and the order of
-- the lease.
use stechbaza_iot.Prelude.{
  Bool, Bool-cases, String, ap, arith, false, if◌then◌else◌, inl, inr, leb, leb→le, ltb, none, refl,
  some, some-injective, subst, sym, true, ℕ, ℕ_discrete, ◌+◌, ◌∙◌, ◌≡◌, ◌≤◌,
}
use stechbaza_iot.Auth.Lease.{
  Phase, World, at, claimed, confirm_from, confirmed, done, enter_from, failed, finish_from, goto,
  is_free, is_mine, lock_lease_ms, lock_renew_ms, lock_timeout_ms, look_from, looked, looping,
  outside, pausing, release_from, releasing, renew_read_from, renew_write_from, renewing,
  resume_from, running, saw, write_from,
}
use stechbaza_iot.Auth.Lease.Keeps.{
  IsOrderly-confirm, IsOrderly-look, IsOrderly-release, IsOrderly-renew, IsOrderly-same,
  IsOrderly-write,
}
use stechbaza_iot.Auth.Lease.Roles.{
  Changes, IsOnTime, IsOrderly, IsOrderly-idle, Role, holding, idle, role,
}

-- Each tab is in time for what it has begun.
abbrev pub IsTimely : World → Type 0
IsTimely w = (j : ℕ) → IsOnTime w.clock (role (w.phase j))

abbrev pub roles : World → ℕ → Role
roles w j = role (w.phase j)

at-Changes :
    (i : ℕ) (p : Phase) (f : ℕ → Phase)
    → Changes i (role p) (λ j. role (f j)) (λ j. role (at i p f j))
unfolding at
at-Changes i p f = record { here = ground arith; there = λ j n. ground arith }

at-here : (i j : ℕ) (p : Phase) (f : ℕ → Phase) → j ≡ i → at i p f j ≡ p
unfolding at
at-here i j p f e = ground arith

at-same :
    (i j : ℕ) (p : Phase) (f : ℕ → Phase) → role p ≡ role (f i) → role (at i p f j) ≡ role (f j)
unfolding at
at-same i j p f h = elim (ℕ_discrete j i) [
  | yes e ↦ ap role (at-here i j p f e) ∙ h ∙ ap (λ k. role (f k)) (sym e)
  | no n ↦ ground arith
]

guarded :
    {A : Type 0} (b : Bool) {a c : A} → (if b then some a else none) ≡ some c → (b ≡ true) × (a ≡ c)
guarded true e = (refl, some-injective e)
guarded false e = cc

role-if :
    {x : Role} (b : Bool) (p q : Phase) → role p ≡ x → role q ≡ x → role (if b then p else q) ≡ x
role-if true p q h g = h
role-if false p q h g = g

module _ (owner_of nonce_of : ℕ → String) where
  abbrev pub InOrder : World → Type 0
  InOrder w = IsOrderly owner_of nonce_of w.clock w.lease (λ j. role (w.phase j))

  module _ (distinct : (i j : ℕ) → nonce_of i ≡ nonce_of j → i ≡ j) where
    -- The call `i` turns to a phase.
    abbrev Turned : ℕ → Phase → World → Type 0
    Turned i p w = IsOrderly owner_of nonce_of w.clock w.lease (λ j. role (at i p w.phase j))

    Turned-idle : (i : ℕ) (p : Phase) (w : World) → role p ≡ idle → InOrder w → Turned i p w
    Turned-idle i p w h o =
        IsOrderly-idle owner_of nonce_of distinct w.clock w.lease i (roles w) _
          (subst (λ x. Changes i x (roles w) (λ j. role (at i p w.phase j))) h
            (at-Changes i p w.phase))
          o

    -- It goes on with the lease that it has.
    Turned-holding :
        (i e : ℕ) (p : Phase) (w : World)
        → role (w.phase i) ≡ holding e
        → role p ≡ holding e
        → InOrder w
        → Turned i p w
    Turned-holding i e p w h g o =
        IsOrderly-same owner_of nonce_of distinct w.clock w.lease i (roles w) _
          (λ j. at-same i j p w.phase (g ∙ sym h)) o

    Turned-looked :
        (i d random : ℕ) (w : World)
        → IsTimely w
        → InOrder w
        → Turned i (looked owner_of nonce_of d random w) w
    unfolding looked
    Turned-looked i d random w t o = elim (Bool-cases (ltb w.clock d)) [
      | inr late ↦ rw late (Turned-idle i failed w refl o)
      | inl early ↦ elim (Bool-cases (is_free w.lease w.clock)) [
        | inl free ↦
            rw (early, free)
              (IsOrderly-look owner_of nonce_of distinct w.clock w.lease i (roles w) _
                (at-Changes i (saw d w.clock) w.phase) free t o)
        | inr taken ↦ rw (early, taken) (Turned-idle i (pausing d (w.clock + 50 + random)) w refl o)
      ]
    ]

    Turned-confirmed :
        (i d wake e random : ℕ) (w : World)
        → w.phase i ≡ claimed d wake e
        → wake ≤ w.clock
        → IsTimely w
        → InOrder w
        → Turned i (confirmed owner_of nonce_of i d e random w) w
    unfolding confirmed
    Turned-confirmed i d wake e random w was awake t o =
        elim (Bool-cases (is_mine owner_of nonce_of i w.lease)) [
          | inl mine ↦ rw mine (
              IsOrderly-confirm owner_of nonce_of distinct w.clock w.lease i (roles w) _ wake e
                (ap role was) awake mine
                (at-Changes i (running (w.clock + lock_renew_ms) e) w.phase) t o)
          | inr other ↦ rw other (Turned-idle i (pausing d (w.clock + 50 + random)) w refl o)
        ]

    pub enter_from-InOrder :
        (i : ℕ) (w u : World) (p : Phase) → enter_from i w p ≡ some u → InOrder w → InOrder u
    unfolding enter_from goto
    enter_from-InOrder i w u outside e o =
        subst InOrder (some-injective e)
          (Turned-idle i (looping (w.clock + lock_timeout_ms)) w refl o)
    enter_from-InOrder i w u p e o = cc

    pub look_from-InOrder :
        (i random : ℕ) (w u : World) (p : Phase)
        → look_from owner_of nonce_of i random w p ≡ some u
        → IsTimely w
        → InOrder w
        → InOrder u
    unfolding look_from goto
    look_from-InOrder i random w u (looping d) e t o =
        subst InOrder (some-injective e) (Turned-looked i d random w t o)
    look_from-InOrder i random w u p e t o = cc

    pub write_from-InOrder :
        (i random : ℕ) (w u : World) (p : Phase)
        → w.phase i ≡ p
        → write_from owner_of nonce_of i random w p ≡ some u
        → InOrder w
        → InOrder u
    unfolding write_from goto
    write_from-InOrder i random w u (saw d now) was e o = subst InOrder (some-injective e) (
        IsOrderly-write owner_of nonce_of distinct w.clock w.lease i (roles w) _ now
          (now + lock_lease_ms) random (ap role was)
          (at-Changes i (claimed d (w.clock + 25 + random) (now + lock_lease_ms)) w.phase) o)
    write_from-InOrder i random w u p was e o = cc

    pub confirm_from-InOrder :
        (i random : ℕ) (w u : World) (p : Phase)
        → w.phase i ≡ p
        → confirm_from owner_of nonce_of i random w p ≡ some u
        → IsTimely w
        → InOrder w
        → InOrder u
    unfolding confirm_from goto
    confirm_from-InOrder i random w u (claimed d wake until) was e t o =
        let (awake, e) = guarded (leb wake w.clock) e in
        subst InOrder e (Turned-confirmed i d wake until random w was (leb→le _ _ awake) t o)
    confirm_from-InOrder i random w u p was e t o = cc

    pub resume_from-InOrder :
        (i : ℕ) (w u : World) (p : Phase)
        → resume_from owner_of nonce_of i w p ≡ some u
        → InOrder w
        → InOrder u
    unfolding resume_from goto
    resume_from-InOrder i w u (pausing d wake) e o =
        subst InOrder (guarded (leb wake w.clock) e).1 (Turned-idle i (looping d) w refl o)
    resume_from-InOrder i w u p e o = cc

    pub renew_read_from-InOrder :
        (i : ℕ) (w u : World) (p : Phase)
        → w.phase i ≡ p
        → renew_read_from owner_of nonce_of i w p ≡ some u
        → InOrder w
        → InOrder u
    unfolding renew_read_from goto
    renew_read_from-InOrder i w u (running due until) was e o =
        subst InOrder (guarded (leb due w.clock) e).1 (
          Turned-holding i until _ w (ap role was)
            (role-if (is_mine owner_of nonce_of i w.lease) _ _ refl refl) o)
    renew_read_from-InOrder i w u p was e o = cc

    pub renew_write_from-InOrder :
        (i : ℕ) (w u : World) (p : Phase)
        → w.phase i ≡ p
        → renew_write_from owner_of nonce_of i w p ≡ some u
        → InOrder w
        → InOrder u
    unfolding renew_write_from goto
    renew_write_from-InOrder i w u (renewing until) was e o = subst InOrder (some-injective e) (
        IsOrderly-renew owner_of nonce_of distinct w.clock w.lease i (roles w) _ until
          (w.clock + lock_lease_ms) (ap role was)
          (at-Changes i (running (w.clock + lock_renew_ms) (w.clock + lock_lease_ms)) w.phase) o)
    renew_write_from-InOrder i w u p was e o = cc

    pub finish_from-InOrder :
        (i : ℕ) (w u : World) (p : Phase)
        → w.phase i ≡ p
        → finish_from owner_of nonce_of i w p ≡ some u
        → InOrder w
        → InOrder u
    unfolding finish_from goto
    finish_from-InOrder i w u (running due until) was e o =
        subst InOrder (some-injective e) (elim (Bool-cases (is_mine owner_of nonce_of i w.lease)) [
          | inl mine ↦ rw mine (Turned-holding i until (releasing until) w (ap role was) refl o)
          | inr other ↦ rw other (Turned-idle i done w refl o)
        ])
    finish_from-InOrder i w u p was e o = cc

    pub release_from-InOrder :
        (i : ℕ) (w u : World) (p : Phase)
        → w.phase i ≡ p
        → release_from owner_of nonce_of i w p ≡ some u
        → InOrder w
        → InOrder u
    unfolding release_from goto
    release_from-InOrder i w u (releasing until) was e o = subst InOrder (some-injective e) (
        IsOrderly-release owner_of nonce_of distinct w.clock w.lease i (roles w) _ until
          (ap role was) (at-Changes i done w.phase) o)
    release_from-InOrder i w u p was e o = cc
