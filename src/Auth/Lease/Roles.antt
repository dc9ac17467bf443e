-- ===== src/Auth/Lease/Roles.antt =====
-- The invariant of the lease of frontend/src/features/auth-coordination.ts, on what each call of
-- withStorageLease does at the storage.
use stechbaza_iot.Prelude.{
  &&-eq-true, Option, String, ap, arith, eq_iff, eq_refl, inl, inr, some, str_eq, sym, true, ℕ,
  ℕ_discrete, ◌+◌, ◌<◌, ◌∙◌, ◌≡◌, ◌≢◌, ◌≤◌, ◌⊎◌,
}
use stechbaza_iot.Auth.Lease.{
  Phase, StorageLease, claimed, is_free, is_mine, lease_of, releasing, renewing, running, saw,
}

pub data Role : Type 0 where
  idle : Role
  -- read at a time that no lease was in force
  seeing : ℕ → Role
  -- sleeps until a time over a lease that ends at another
  claiming : ℕ → ℕ → Role
  -- in `operation`, or giving the lease back; the end of the lease
  holding : ℕ → Role

abbrev pub role : Phase → Role
role (saw deadline now) = seeing now
role (claimed deadline wake expires_at) = claiming wake expires_at
role (running next expires_at) = holding expires_at
role (renewing expires_at) = holding expires_at
role (releasing expires_at) = holding expires_at
role p = idle

-- The tab is not stopped for so long that it writes 25 ms after it has read, or that its lease ends.
abbrev pub IsOnTime : ℕ → Role → Type 0
IsOnTime clock idle = Unit
IsOnTime clock (seeing t) = clock < t + 25
IsOnTime clock (claiming wake e) = clock < e
IsOnTime clock (holding e) = clock < e

-- Only the call number `i` has changed its role.
pub record Changes (i : ℕ) (x : Role) (r s : ℕ → Role) : Type 0 where
  pub here : s i ≡ x
  pub there : (j : ℕ) → j ≢ i → s j ≡ r j

pub Changes-cases :
    {i : ℕ} {x : Role} {r s : ℕ → Role}
    → Changes i x r s
    → (j : ℕ) (y : Role) → s j ≡ y
    → ((j ≡ i) × (x ≡ y)) ⊎ ((r j ≡ y) × (j ≢ i))
Changes-cases {i} {s} c j y h = elim (ℕ_discrete j i) [
  | yes p ↦ inl (p, sym c.here ∙ sym (ap s p) ∙ h)
  | no n ↦ inr (sym (c.there j n) ∙ h, n)
]

-- A role that is not the new one was there before.
pub old :
    {i : ℕ} {x : Role} {r s : ℕ → Role}
    → Changes i x r s
    → (j : ℕ) (y : Role) → s j ≡ y
    → x ≢ y
    → (r j ≡ y) × (j ≢ i)
old c j y h differ = elim (Changes-cases c j y h) [ inl e ↦ absurd (differ e.1) | inr e ↦ e ]

module _ (owner_of nonce_of : ℕ → String) where
  pub record IsOrderly (clock : ℕ) (lease : Option StorageLease) (r : ℕ → Role) : Type 0 where
    -- A holder's lease is the one in the storage.
    pub held : (i e : ℕ) → r i ≡ holding e → lease ≡ some (lease_of owner_of nonce_of i e)
    -- Nobody is about to write while there is a holder.
    pub quiet : (i e j t : ℕ) → r i ≡ holding e → r j ≡ seeing t → ⊥
    -- Whoever is about to write has read 25 ms before the owner wakes.
    pub ordered :
        (i wake e j t : ℕ)
        → r i ≡ claiming wake e
        → is_mine owner_of nonce_of i lease ≡ true
        → r j ≡ seeing t
        → t + 25 ≤ wake
    pub fresh :
        (i wake e : ℕ)
        → r i ≡ claiming wake e
        → is_mine owner_of nonce_of i lease ≡ true
        → lease ≡ some (lease_of owner_of nonce_of i e)
    pub past : (j t : ℕ) → r j ≡ seeing t → t ≤ clock

  module _ (distinct : (i j : ℕ) → nonce_of i ≡ nonce_of j → i ≡ j) where
    pub is_mine-lease_of :
        (i j e : ℕ)
        → is_mine owner_of nonce_of i (some (lease_of owner_of nonce_of j e)) ≡ true
        → i ≡ j
    unfolding is_mine lease_of
    is_mine-lease_of i j e h =
        let (_, same) =
          &&-eq-true {a = str_eq (owner_of j) (owner_of i)} {b = str_eq (nonce_of j) (nonce_of i)}
            h in
        sym (distinct j i ((eq_iff (nonce_of j) (nonce_of i)).0 same))

    pub is_mine_self :
        (i e : ℕ) → is_mine owner_of nonce_of i (some (lease_of owner_of nonce_of i e)) ≡ true
    unfolding is_mine lease_of
    is_mine_self i e = rw (eq_refl (owner_of i), eq_refl (nonce_of i))

    pub is_free-lease_of :
        (i e clock : ℕ)
        → clock < e
        → is_free (some (lease_of owner_of nonce_of i e)) clock ≡ true
        → ⊥
    unfolding is_free lease_of
    is_free-lease_of i e clock h k = ground arith

    pub IsOrderly-tick :
        (clock n : ℕ) (lease : Option StorageLease) (r : ℕ → Role)
        → IsOrderly clock lease r
        → IsOrderly (clock + n) lease r
    IsOrderly-tick clock n lease r o = record {
      held = o.held;
      quiet = o.quiet;
      ordered = o.ordered;
      fresh = o.fresh;
      past = λ j t h. let early = o.past j t h in omega arith;
    }

    -- A call that turns to what does not touch the lease.
    pub IsOrderly-idle :
        (clock : ℕ) (lease : Option StorageLease) (i : ℕ) (r s : ℕ → Role)
        → Changes i idle r s
        → IsOrderly clock lease r
        → IsOrderly clock lease s
    IsOrderly-idle clock lease i r s c o = record {
      held = λ j e h. o.held j e (old c j _ h cc).0;
      quiet = λ j e k t h g. o.quiet j e k t (old c j _ h cc).0 (old c k _ g cc).0;
      ordered = λ j wake e k t h mine g.
          o.ordered j wake e k t (old c j _ h cc).0 mine (old c k _ g cc).0;
      fresh = λ j wake e h mine. o.fresh j wake e (old c j _ h cc).0 mine;
      past = λ j t h. o.past j t (old c j _ h cc).0;
    }
