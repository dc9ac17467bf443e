-- ===== src/Auth/Lease/Keeps.antt =====
-- The reads, writes and removals of the lease of frontend/src/features/auth-coordination.ts, and
-- its order.
use stechbaza_iot.Prelude.{
  Option, String, arith, inl, inr, none, some, subst, sym, true, ℕ, ◌+◌, ◌<◌, ◌∙◌, ◌≡◌, ◌≤◌,
}
use stechbaza_iot.Auth.Lease.{StorageLease, is_free, is_mine, lease_of}
use stechbaza_iot.Auth.Lease.Roles.{
  Changes, Changes-cases, IsOnTime, IsOrderly, Role, claiming, holding, idle, is_free-lease_of,
  is_mine-lease_of, is_mine_self, old, seeing,
}

module _ (owner_of nonce_of : ℕ → String) (distinct : (i j : ℕ) → nonce_of i ≡ nonce_of j → i ≡ j)
    (clock : ℕ) (lease : Option StorageLease) (i : ℕ) (r s : ℕ → Role) where
  abbrev Orderly : Option StorageLease → (ℕ → Role) → Type 0
  Orderly l q = IsOrderly owner_of nonce_of clock l q

  abbrev Mine : ℕ → Option StorageLease → Type 0
  Mine j l = is_mine owner_of nonce_of j l ≡ true

  abbrev mine : ℕ → ℕ → Option StorageLease
  mine j e = some (lease_of owner_of nonce_of j e)

  on_time-holding : ((j : ℕ) → IsOnTime clock (r j)) → (j e : ℕ) → r j ≡ holding e → clock < e
  on_time-holding on_time j e h = subst (IsOnTime clock) h (on_time j)

  on_time-claiming :
      ((j : ℕ) → IsOnTime clock (r j)) → (j wake e : ℕ) → r j ≡ claiming wake e → clock < e
  on_time-claiming on_time j wake e h = subst (IsOnTime clock) h (on_time j)

  on_time-seeing : ((j : ℕ) → IsOnTime clock (r j)) → (j t : ℕ) → r j ≡ seeing t → clock < t + 25
  on_time-seeing on_time j t h = subst (IsOnTime clock) h (on_time j)

  -- A lease that is in force is not free.
  not_free : is_free lease clock ≡ true → (j e : ℕ) → lease ≡ mine j e → clock < e → ⊥
  not_free free j e l h =
      is_free-lease_of owner_of nonce_of distinct j e clock h
        (subst (λ k. is_free k clock ≡ true) l free)

  -- Two holders are one.
  pub held_same : Orderly lease r → (j k d e : ℕ) → r j ≡ holding d → r k ≡ holding e → j ≡ k
  held_same o j k d e h g = is_mine-lease_of owner_of nonce_of distinct j k e (
      subst (Mine j) (sym (o.held j d h) ∙ o.held k e g)
        (is_mine_self owner_of nonce_of distinct j d))

  lease_cong : (j k d e : ℕ) → j ≡ k → d ≡ e → mine j d ≡ mine k e
  lease_cong j k d e p q = cc

  pub IsOrderly-look :
      Changes i (seeing clock) r s
      → is_free lease clock ≡ true
      → ((j : ℕ) → IsOnTime clock (r j))
      → Orderly lease r
      → Orderly lease s
  IsOrderly-look c free on_time o = record {
    held = λ j e h. o.held j e (old c j _ h cc).0;
    quiet = λ j e k t h g.
        let h = (old c j _ h cc).0 in
        not_free free j e (o.held j e h) (on_time-holding on_time j e h);
    ordered = λ j wake e k t h its g.
        let h = (old c j _ h cc).0 in
        absurd (not_free free j e (o.fresh j wake e h its) (on_time-claiming on_time j wake e h));
    fresh = λ j wake e h its. o.fresh j wake e (old c j _ h cc).0 its;
    past = λ j t h. elim (Changes-cases c j _ h) [ inl e ↦ ground arith | inr e ↦ o.past j t e.0 ];
  }

  pub IsOrderly-write :
      (t e random : ℕ)
      → r i ≡ seeing t
      → Changes i (claiming (clock + 25 + random) e) r s
      → Orderly lease r
      → Orderly (mine i e) s
  IsOrderly-write t e random was c o = record {
    held = λ j d h. absurd (o.quiet j d i t (old c j _ h cc).0 was);
    quiet = λ j d k u h g. o.quiet j d k u (old c j _ h cc).0 (old c k _ g cc).0;
    ordered = λ j wake d k u h its g.
        let early = o.past k u (old c k _ g cc).0 in
        elim (Changes-cases c j _ h) [
          | inl same ↦ ground arith
          | inr other ↦ absurd (other.1 (is_mine-lease_of owner_of nonce_of distinct j i e its))
        ];
    fresh = λ j wake d h its. elim (Changes-cases c j _ h) [
      | inl same ↦ cc
      | inr other ↦ absurd (other.1 (is_mine-lease_of owner_of nonce_of distinct j i e its))
    ];
    past = λ j u h. o.past j u (old c j _ h cc).0;
  }

  pub IsOrderly-confirm :
      (wake e : ℕ)
      → r i ≡ claiming wake e
      → wake ≤ clock
      → Mine i lease
      → Changes i (holding e) r s
      → ((j : ℕ) → IsOnTime clock (r j))
      → Orderly lease r
      → Orderly lease s
  IsOrderly-confirm wake e was awake its c on_time o =
      let none_sees : (k t : ℕ) → r k ≡ seeing t → ⊥ = λ k t g.
        let before = o.ordered i wake e k t was its g in
        let late = on_time-seeing on_time k t g in omega arith in
      record {
        held = λ j d h. elim (Changes-cases c j _ h) [
          | inl same ↦
              let its_end : e ≡ d = cc in
              o.fresh i wake e was its ∙ lease_cong i j e d (sym same.0) its_end
          | inr other ↦ o.held j d other.0
        ];
        quiet = λ j d k t h g. none_sees k t (old c k _ g cc).0;
        ordered = λ j w d k t h m g. absurd (none_sees k t (old c k _ g cc).0);
        fresh = λ j w d h m. o.fresh j w d (old c j _ h cc).0 m;
        past = λ j t h. o.past j t (old c j _ h cc).0;
      }

  pub IsOrderly-renew :
      (d e : ℕ)
      → r i ≡ holding d
      → Changes i (holding e) r s
      → Orderly lease r
      → Orderly (mine i e) s
  IsOrderly-renew d e was c o = record {
    held = λ j u h. elim (Changes-cases c j _ h) [
      | inl same ↦ let its_end : e ≡ u = cc in lease_cong i j e u (sym same.0) its_end
      | inr other ↦ absurd (other.1 (held_same o j i u d other.0 was))
    ];
    quiet = λ j u k t h g. o.quiet i d k t was (old c k _ g cc).0;
    ordered = λ j w u k t h m g. absurd (o.quiet i d k t was (old c k _ g cc).0);
    fresh = λ j w u h m.
        absurd ((old c j _ h cc).1 (is_mine-lease_of owner_of nonce_of distinct j i e m));
    past = λ j t h. o.past j t (old c j _ h cc).0;
  }

  pub IsOrderly-release :
      (d : ℕ) → r i ≡ holding d → Changes i idle r s → Orderly lease r → Orderly none s
  unfolding is_mine
  IsOrderly-release d was c o = record {
    held = λ j u h. let (h, other) = old c j _ h cc in absurd (other (held_same o j i u d h was));
    quiet = λ j u k t h g. o.quiet j u k t (old c j _ h cc).0 (old c k _ g cc).0;
    ordered = λ j w u k t h m g. cc;
    fresh = λ j w u h m. cc;
    past = λ j t h. o.past j t (old c j _ h cc).0;
  }

  pub IsOrderly-same : ((j : ℕ) → s j ≡ r j) → Orderly lease r → Orderly lease s
  IsOrderly-same e o = record {
    held = λ j u h. o.held j u (sym (e j) ∙ h);
    quiet = λ j u k t h g. o.quiet j u k t (sym (e j) ∙ h) (sym (e k) ∙ g);
    ordered = λ j w u k t h m g. o.ordered j w u k t (sym (e j) ∙ h) m (sym (e k) ∙ g);
    fresh = λ j w u h m. o.fresh j w u (sym (e j) ∙ h) m;
    past = λ j t h. o.past j t (sym (e j) ∙ h);
  }
