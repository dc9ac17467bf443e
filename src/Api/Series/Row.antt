-- ===== src/Api/Series/Row.antt =====
-- A bucket of frontend/src/lib/api/telemetry-series.ts and the row of the answer that it is read from.
use stechbaza_iot.Prelude.{
  &&-eq-true, Option, String, ap, arith, eq_iff, false, inl, inr, none, refl, some, suc, true, zero,
  ℕ, ◌&&◌, ◌+◌, ◌<◌, ◌∙◌, ◌≡◌, ◌⊎◌,
}
use stechbaza_iot.Api.Access.Fields.{invalid, require_record, required_date_time}
use stechbaza_iot.Api.Access.Fields.Checks.{parser_rules, require_record-ok, required_date_time-ok}
use stechbaza_iot.Api.Errors.{Ends, ok}
use stechbaza_iot.Api.Series.{
  Bucket, BucketStatus, aggregate, are_aggregates, bucket_status, count, full, no_messages,
  no_metric, no_valid, parse_bucket, partial, same_time, series_path, status_text,
}
use stechbaza_iot.Host.{Host}
use stechbaza_iot.Js.Checks.{count?}
use stechbaza_iot.Js.Number.{Number, is_finite, num_lt}
use stechbaza_iot.Js.Value.{Fields, Value, get, is_text, null, num, obj, str}
use stechbaza_iot.Prelude.Int.{eq_of_parts, ℤ}

-- The status that the row has, and the bucket with it, for its counts of samples, of missing and of
-- invalid values
abbrev pub TellsStatus : Value → BucketStatus → ℕ → ℕ → ℕ → Type 0
TellsStatus told status samples missing invalid_ones =
    ((told ≡ str "ok") × (status ≡ full) × (0 < samples) × (missing ≡ 0) × (invalid_ones ≡ 0))
    ⊎ ((told ≡ str "partial") × (status ≡ partial) × (0 < samples) × (0 < missing + invalid_ones))
    ⊎ ((told ≡ str "invalid") × (status ≡ no_valid) × (samples ≡ 0) × (0 < invalid_ones))
    ⊎ ((told ≡ str "missing")
        × (status ≡ no_metric)
        × (samples ≡ 0)
        × (0 < missing)
        × (invalid_ones ≡ 0))
    ⊎ ((told ≡ str "empty")
        × (status ≡ no_messages)
        × (samples ≡ 0)
        × (missing ≡ 0)
        × (invalid_ones ≡ 0))

-- No aggregate of no samples; of some, the least, the mean and the greatest, in this order
abbrev pub FitsSamples : ℕ → Option Number → Option Number → Option Number → Type 0
FitsSamples samples minimum maximum average =
    ((samples ≡ 0) × (minimum ≡ none) × (maximum ≡ none) × (average ≡ none))
    ⊎ ((0 < samples)
        × (lo : Number) × (hi : Number) × (mean : Number) × (minimum ≡ some lo)
        × (maximum ≡ some hi)
        × (average ≡ some mean)
        × (num_lt mean lo ≡ false)
        × (num_lt hi mean ≡ false))

-- A number of the row, or null
abbrev pub IsNumber : Value → Option Number → Type 0
IsNumber v none = v ≡ null
IsNumber v (some x) = (v ≡ num x) × (is_finite x ≡ true)

pub record IsRow ⦃h : Host⦄ (begins ends : ℤ) (raw : Value) (b : Bucket) : Type 0 where
  pub fields : Fields
  pub is_object : raw ≡ obj fields
  pub start : get fields "start" ≡ str b.start
  pub end_time : get fields "end" ≡ str b.end_time
  pub starts : h.date_parse b.start ≡ some begins
  pub stops : h.date_parse b.end_time ≡ some ends
  pub samples : count? (get fields "sample_count") ≡ some b.sample_count
  pub missing : count? (get fields "missing_count") ≡ some b.missing_count
  pub invalid_ones : count? (get fields "invalid_count") ≡ some b.invalid_count
  pub minimum : IsNumber (get fields "minimum") b.minimum
  pub maximum : IsNumber (get fields "maximum") b.maximum
  pub average : IsNumber (get fields "average") b.average
  pub status :
      TellsStatus (get fields "status") b.status b.sample_count b.missing_count b.invalid_count
  pub aggregates : FitsSamples b.sample_count b.minimum b.maximum b.average

bucket_status-cases :
    (samples missing invalid_ones : ℕ)
    → let status = bucket_status samples missing invalid_ones in
      ((status ≡ full) × (0 < samples) × (missing ≡ 0) × (invalid_ones ≡ 0))
      ⊎ ((status ≡ partial) × (0 < samples) × (0 < missing + invalid_ones))
      ⊎ ((status ≡ no_valid) × (samples ≡ 0) × (0 < invalid_ones))
      ⊎ ((status ≡ no_metric) × (samples ≡ 0) × (0 < missing) × (invalid_ones ≡ 0))
      ⊎ ((status ≡ no_messages) × (samples ≡ 0) × (missing ≡ 0) × (invalid_ones ≡ 0))
unfolding bucket_status
bucket_status-cases samples missing invalid_ones = ground arith

bucket_status-TellsStatus :
    (v : Value) (samples missing invalid_ones : ℕ)
    → v ≡ str (status_text (bucket_status samples missing invalid_ones))
    → TellsStatus v (bucket_status samples missing invalid_ones) samples missing invalid_ones
bucket_status-TellsStatus v samples missing invalid_ones e =
    let told : (status : BucketStatus)
        → bucket_status samples missing invalid_ones ≡ status
        → v ≡ str (status_text status) =
      λ status same. e ∙ ap (λ t. str (status_text t)) same in
    elim (bucket_status-cases samples missing invalid_ones) [
      | inl (same, a, b, c) ↦ inl (told full same, same, a, b, c)
      | inr (inl (same, a, b)) ↦ inr (inl (told partial same, same, a, b))
      | inr (inr (inl (same, a, b))) ↦ inr (inr (inl (told no_valid same, same, a, b)))
      | inr (inr (inr (inl (same, a, b, c)))) ↦
          inr (inr (inr (inl (told no_metric same, same, a, b, c))))
      | inr (inr (inr (inr (same, a, b, c)))) ↦
          inr (inr (inr (inr (told no_messages same, same, a, b, c))))
    ]

are_aggregates-FitsSamples :
    (samples : ℕ) (minimum maximum average : Option Number)
    → are_aggregates samples minimum maximum average ≡ true
    → FitsSamples samples minimum maximum average
unfolding are_aggregates
are_aggregates-FitsSamples zero none none none e = inl (refl, refl, refl, refl)
are_aggregates-FitsSamples zero minimum maximum average e = cc
are_aggregates-FitsSamples (suc n) (some lo) (some hi) (some mean) e =
    inr (omega arith, lo, hi, mean, refl, refl, refl, ground arith, ground arith)
are_aggregates-FitsSamples (suc n) minimum maximum average e = cc

is_text-str : (v : Value) (s : String) → is_text v s ≡ true → v ≡ str s
is_text-str (str t) s e = ap str ((eq_iff t s).0 e)
is_text-str v s e = cc

pub same_time-some : (t : Option ℤ) (z : ℤ) → same_time t (some z) ≡ true → t ≡ some z
same_time-some none z e = cc
same_time-some (some a) z e = ap some (eq_of_parts a z (ground arith))

module _ ⦃h : Host⦄ where
  pub count-ok :
      (fields : Fields) (key : String) (n : ℕ)
      → count fields key ≡ ok n
      → count? (get fields key) ≡ some n
  unfolding count invalid
  count-ok fields key n e = ground arith

  aggregate-IsNumber :
      (v : Value) (key : String) (o : Option Number) → aggregate v key ≡ ok o → IsNumber v o
  unfolding aggregate invalid
  aggregate-IsNumber null key none e = refl
  aggregate-IsNumber (num x) key none e = ground arith
  aggregate-IsNumber (num x) key (some y) e = ground arith
  aggregate-IsNumber v key o e = cc

  bucket-IsRow :
      (begins ends : ℤ) (raw : Value) (fields : Fields) (b : Bucket)
      → require_record raw series_path "object" ≡ ok fields
      → required_date_time fields "start" series_path ≡ ok b.start
      → required_date_time fields "end" series_path ≡ ok b.end_time
      → (same_time (h.date_parse b.start) (some begins)
          && same_time (h.date_parse b.end_time) (some ends))
        ≡ true
      → count fields "sample_count" ≡ ok b.sample_count
      → count fields "missing_count" ≡ ok b.missing_count
      → count fields "invalid_count" ≡ ok b.invalid_count
      → aggregate (get fields "minimum") "minimum" ≡ ok b.minimum
      → aggregate (get fields "maximum") "maximum" ≡ ok b.maximum
      → aggregate (get fields "average") "average" ≡ ok b.average
      → is_text
          (get fields "status")
          (status_text (bucket_status b.sample_count b.missing_count b.invalid_count))
        ≡ true
      → are_aggregates b.sample_count b.minimum b.maximum b.average ≡ true
      → b.status ≡ bucket_status b.sample_count b.missing_count b.invalid_count
      → IsRow begins ends raw b
  bucket-IsRow begins ends raw fields b is_object start end_time timed samples missing invalid_ones
        minimum maximum average told coherent same =
      let v = get fields "status" in
      record {
        fields = fields;
        is_object = require_record-ok raw series_path "object" is_object;
        start = (required_date_time-ok fields "start" series_path b.start start).0;
        end_time = (required_date_time-ok fields "end" series_path b.end_time end_time).0;
        starts = same_time-some _ begins (&&-eq-true timed).0;
        stops = same_time-some _ ends (&&-eq-true timed).1;
        samples = count-ok fields "sample_count" b.sample_count samples;
        missing = count-ok fields "missing_count" b.missing_count missing;
        invalid_ones = count-ok fields "invalid_count" b.invalid_count invalid_ones;
        minimum = aggregate-IsNumber (get fields "minimum") "minimum" b.minimum minimum;
        maximum = aggregate-IsNumber (get fields "maximum") "maximum" b.maximum maximum;
        average = aggregate-IsNumber (get fields "average") "average" b.average average;
        status = rw same (
            bucket_status-TellsStatus v b.sample_count b.missing_count b.invalid_count
              (is_text-str v _ told));
        aggregates =
            are_aggregates-FitsSamples b.sample_count b.minimum b.maximum b.average coherent;
      }

  pub parse_bucket-IsRow :
      (begins ends : ℤ) (raw : Value) → Ends (IsRow begins ends raw) (parse_bucket begins ends raw)
  unfolding parse_bucket
  parse_bucket-IsRow begins ends raw =
      search (parser_rules, bucket-IsRow begins ends raw) depth 25 fits 5000
