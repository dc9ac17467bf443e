-- ===== src/Api/Overview/Control/Fresh.antt =====
-- When a reading counts as fresh for effectiveQuality of frontend/src/lib/api/overview.ts, over time.
use stechbaza_iot.Prelude.{
  Bool, String, arith, eq_iff, false, if◌then◌else◌, not, refl, str_eq, true, ℕ, ◌||◌, ◌≡◌, ◌≤◌,
}
use stechbaza_iot.Api.Overview.{Freshness}
use stechbaza_iot.Api.Overview.Control.{age_now, effective_quality}
use stechbaza_iot.Host.{Host}
use stechbaza_iot.Js.Number.{Number, dyadic, nat, num_lt}
use stechbaza_iot.Js.Number.Sum.Later.{non_negative-pos, num_add-le}
use stechbaza_iot.Prelude.Int.{pos}

-- A reading that counts as fresh now: it and the telemetry are, and the age of the telemetry is
-- not over the threshold.
pub record IsFresh ⦃h : Host⦄ (status : String) (f : Freshness) (elapsed : Number) : Type 0 where
  pub was_fresh : status ≡ "fresh"
  pub telemetry_fresh : f.status ≡ "fresh"
  pub in_time : num_lt (nat f.stale_after_seconds) (age_now f elapsed) ≡ false

shown_fresh :
    (was : Bool) (status shown : String)
    → (if not was then status else shown) ≡ "fresh"
    → (status ≡ "fresh" → was ≡ true)
    → (was ≡ true) × (shown ≡ "fresh")
shown_fresh true status shown e h = (refl, e)
shown_fresh false status shown e h = cc (h e)

not_stale :
    (now late : Bool)
    → ◌≡◌ {A = String} (if not now || late then "stale" else "fresh") "fresh"
    → (now ≡ true) × (late ≡ false)
not_stale true false e = (refl, refl)
not_stale true true e = ground (arith, eq_iff "stale" "fresh")
not_stale false late e = ground (arith, eq_iff "stale" "fresh")

quality_fresh :
    (status telemetry : String) (late : Bool)
    → (if not (str_eq status "fresh")
        then status
        else if not (str_eq telemetry "fresh") || late
        then "stale"
        else "fresh")
      ≡ "fresh"
    → (status ≡ "fresh") × (telemetry ≡ "fresh") × (late ≡ false)
quality_fresh status telemetry late e =
    let (was, still) = shown_fresh _ status _ e λ s. (eq_iff status "fresh").1 s in
    let (now, timely) = not_stale _ late still in
    ((eq_iff status "fresh").0 was, (eq_iff telemetry "fresh").0 now, timely)

fresh_quality :
    (status telemetry : String) (late : Bool)
    → status ≡ "fresh"
    → telemetry ≡ "fresh"
    → late ≡ false
    → (if not (str_eq status "fresh")
        then status
        else if not (str_eq telemetry "fresh") || late
        then "stale"
        else "fresh")
      ≡ "fresh"
fresh_quality status telemetry late was now timely = rw was (rw now (rw timely refl))

module _ ⦃h : Host⦄ (f : Freshness) (elapsed : Number) where
  pub effective_quality-IsFresh :
      (status : String) → effective_quality status f elapsed ≡ "fresh" → IsFresh status f elapsed
  unfolding effective_quality
  effective_quality-IsFresh status e =
      let (was, now, timely) = quality_fresh status f.status _ e in
      record { was_fresh = was; telemetry_fresh = now; in_time = timely }

  pub IsFresh-effective_quality :
      (status : String) → IsFresh status f elapsed → effective_quality status f elapsed ≡ "fresh"
  unfolding effective_quality
  IsFresh-effective_quality status fresh =
      fresh_quality status f.status _ fresh.was_fresh fresh.telemetry_fresh fresh.in_time

module _ ⦃h : Host⦄ where
  IsFresh-earlier :
      (status : String) (f : Freshness) (early late k : ℕ)
      → early ≤ late
      → IsFresh status f (dyadic (pos late) k)
      → IsFresh status f (dyadic (pos early) k)
  unfolding age_now
  IsFresh-earlier status f early late k order fresh = record {
    was_fresh = fresh.was_fresh;
    telemetry_fresh = fresh.telemetry_fresh;
    in_time = rw (non_negative-pos early k) (
        num_add-le _ f.stale_after_seconds early late k order
          (rw (non_negative-pos late k) at fresh.in_time));
  }

  -- A reading that is fresh when some time has passed was fresh at every time before: with the same
  -- telemetry, nothing becomes fresh again. The two times are whole numbers of the same power of 2 of
  -- a second, as any two doubles from 0 are.
  pub effective_quality-ages :
      (status : String) (f : Freshness) (early late k : ℕ)
      → early ≤ late
      → effective_quality status f (dyadic (pos late) k) ≡ "fresh"
      → effective_quality status f (dyadic (pos early) k) ≡ "fresh"
  effective_quality-ages status f early late k order e =
      IsFresh-effective_quality f _ status
        (IsFresh-earlier status f early late k order (effective_quality-IsFresh f _ status e))
