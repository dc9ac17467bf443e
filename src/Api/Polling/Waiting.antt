-- ===== src/Api/Polling/Waiting.antt =====
-- How long frontend/src/lib/api/polling-policy.ts waits after a failure.
use native.Mathlib.Nat.{pow-le-pow_right}
use stechbaza_iot.Prelude.{
  arith, false, inl, inr, min, mul-le, mul-lt, some, subst, sym, true, ℕ, ◌*◌, ◌+◌, ◌-◌, ◌<◌, ◌^◌,
  ◌≡◌, ◌≤◌, ◌⊎◌,
}
use stechbaza_iot.Api.Errors.{ApiError, Failure, api_error}
use stechbaza_iot.Api.Polling.{PollingBudget, backoff, blocked, clamp_jitter, failure, retry_after}
use stechbaza_iot.Prelude.Int.{ℤ}

backoff-cap : (base_ms failures : ℕ) → backoff base_ms failures ≤ 300000
unfolding backoff
backoff-cap base_ms failures = omega arith

pow_mono_min : (m n : ℕ) → m ≤ n → 2 ^ min (m - 1) 5 ≤ 2 ^ min (n - 1) 5
pow_mono_min m n h = pow-le-pow_right {n = 2} (omega arith) (omega arith)

-- More failures never make the wait shorter, and it is 300 seconds at most.
backoff_mono :
    (base_ms m n : ℕ)
    → m ≤ n
    → (backoff base_ms m ≤ backoff base_ms n) × (backoff base_ms n ≤ 300000)
unfolding backoff
backoff_mono base_ms m n h = grind (arith, pow_mono_min m n h)

retry_after-sent :
    (e : Failure) (a : ApiError) (s now t : ℕ)
    → e ≡ api_error a
    → a.retry_after_seconds ≡ some s
    → t < now + s * 1000
    → t < retry_after e now
unfolding retry_after
retry_after-sent e a s now t same sent h = rw (same, sent) h

module _ (q : ℕ) (b : PollingBudget) (e : Failure) (base_ms now : ℕ) (jitter : ℤ) where
  backoff-next :
      (t : ℕ)
      → t < now + min 300000 (base_ms * 2 ^ min b.failures 5)
      → t < now + backoff base_ms (b.failures + 1)
  unfolding backoff
  backoff-next t h =
      let same : b.failures + 1 - 1 ≡ b.failures = omega arith in
      subst (λ k. t < now + min 300000 (base_ms * 2 ^ min k 5)) (sym same) h

  -- After a failure the next automatic attempt is blocked for the base time, doubled for each
  -- failure before it, of which five count, and for 300 seconds at most; and for all the
  -- seconds of Retry-After, of 1000 ms each, if the answer had one. The jitter is a fraction
  -- with a positive denominator.
  pub failure_blocks :
      (t : ℕ)
      → 0 < q
      → (t < now + min 300000 (base_ms * 2 ^ min b.failures 5))
        ⊎ ((a : ApiError) × (s : ℕ) × (e ≡ api_error a)
            × (a.retry_after_seconds ≡ some s)
            × (t < now + s * 1000))
      → blocked q (failure q b e base_ms now jitter) false t ≡ true
  unfolding blocked failure
  failure_blocks t positive (inl h) =
      ground (arith, mul-lt t (now + backoff base_ms (b.failures + 1)) (10 * q) (backoff-next t h))
  failure_blocks t positive (inr (a, s, same, sent, h)) =
      ground
        (arith, mul-lt t (retry_after e now) (10 * q) (retry_after-sent e a s now t same sent h))

  -- Without Retry-After it is free again after the wait and a tenth of it.
  failure_frees :
      (t : ℕ)
      → retry_after e now ≡ 0
      → (now + backoff base_ms (b.failures + 1)) * 10 + backoff base_ms (b.failures + 1) ≤ t * 10
      → blocked q (failure q b e base_ms now jitter) false t ≡ false
  unfolding blocked failure
  failure_frees t none_sent late = ground (
    arith,
    none_sent,
    mul-le _ _ q late,
    mul-le (clamp_jitter q jitter) q (backoff base_ms (b.failures + 1)),
  )
