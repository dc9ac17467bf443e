-- ===== src/Api/Series.antt =====
-- frontend/src/lib/api/telemetry-series.ts: the windows and buckets of a series of telemetry. A time
-- of Date.parse is an integer of milliseconds, and a bucket lasts for a whole number of seconds.
pub mod Answer
pub mod Count
pub mod Row
pub mod Tiled
pub mod Tests
use stechbaza_iot.Prelude.{
  Bool, List, Option, String, [], false, if◌then◌else◌, is_some, leb, length, none, not, some, suc,
  zero, ℕ, ◌&&◌, ◌*◌, ◌+◌, ◌/◌, ◌==◌, ◌∷◌,
}
use stechbaza_iot.Api.Access.Fields.{invalid, require, require_record, required_date_time}
use stechbaza_iot.Api.Answers.{require_list}
use stechbaza_iot.Api.Errors.{Result, ok, ◌>>=◌, ◌>>◌}
use stechbaza_iot.Api.Errors.Retry.{ceil_div}
use stechbaza_iot.Host.{Host}
use stechbaza_iot.Js.Checks.{count?}
use stechbaza_iot.Js.Number.{Number, is_finite, num_lt}
use stechbaza_iot.Js.Regex.{test}
use stechbaza_iot.Js.Value.{Fields, Value, get, is_nat, is_null, is_text, null, num}
use stechbaza_iot.Prelude.Int.{leb_ℤ, min_ℤ, pos, pos_part, ℤ, ◌+ℤ◌, ◌-ℤ◌}

abbrev pub series_path : String
series_path = "/api/v1/devices/telemetry/series"

pub record SeriesWindow : Type 0 where
  pub start : String
  pub end_time : String
  pub bucket_seconds : ℕ

-- The fields of a channel that a series is asked for
pub record SeriesChannel : Type 0 where
  pub key : String
  pub unit : Option String

pub data BucketStatus : Type 0 where
  full partial no_valid no_metric no_messages : BucketStatus

pub record Bucket : Type 0 where
  pub start : String
  pub end_time : String
  pub status : BucketStatus
  pub sample_count : ℕ
  pub missing_count : ℕ
  pub invalid_count : ℕ
  pub minimum : Option Number
  pub maximum : Option Number
  pub average : Option Number

pub record Series : Type 0 where
  pub device_id : String
  pub metric : String
  pub unit : Option String
  pub start : String
  pub end_time : String
  pub bucket_seconds : ℕ
  pub generated_at : String
  pub message_count : ℕ
  pub sample_count : ℕ
  pub max_messages : ℕ
  pub buckets : List Bucket

-- The times of seriesWindow(seconds, bucket, now): `none` is the error "Invalid history window".
pub window_times : ℕ → ℕ → ℕ → Option (ℤ × ℤ)
window_times seconds bucket now =
    let end_time = now / 1000 * 1000 in
    if leb 1 seconds
      && leb seconds 604800
      && leb 1 bucket
      && leb bucket 86400
      && leb (ceil_div seconds bucket) 1000
    then some (pos end_time -ℤ pos (seconds * 1000), pos end_time)
    else none

-- The text of a status, as the answer has it
abbrev pub status_text : BucketStatus → String
status_text full = "ok"
status_text partial = "partial"
status_text no_valid = "invalid"
status_text no_metric = "missing"
status_text no_messages = "empty"

unfoldable pub bucket_status : ℕ → ℕ → ℕ → BucketStatus
bucket_status samples missing invalid =
    if samples == 0
    then (if invalid == 0 then (if missing == 0 then no_messages else no_metric) else no_valid)
    else if missing == 0 && invalid == 0
    then full
    else partial

-- samples ? minimum <= average <= maximum : all three are null
unfoldable pub are_aggregates : ℕ → Option Number → Option Number → Option Number → Bool
are_aggregates zero minimum maximum average =
    not (is_some minimum) && not (is_some maximum) && not (is_some average)
are_aggregates (suc n) (some lo) (some hi) (some mean) =
    not (num_lt mean lo) && not (num_lt hi mean)
are_aggregates (suc n) minimum maximum average = false

-- value === expected, of a text that may be null
abbrev pub is_text_or_null : Value → Option String → Bool
is_text_or_null v none = is_null v
is_text_or_null v (some s) = is_text v s

-- a === b, of two times
abbrev pub same_time : Option ℤ → Option ℤ → Bool
same_time (some a) (some b) = leb_ℤ a b && leb_ℤ b a
same_time a b = false

module _ ⦃h : Host⦄ where
  abbrev pub refuse_unless : Bool → String → Result (Unit {0})
  refuse_unless test expected = require test series_path expected

  -- count(raw, key)
  unfoldable pub count : Fields → String → Result ℕ
  count fields key = elim (count? (get fields key)) [
    | some n ↦ ok n
    | none ↦ invalid series_path key
  ]

  -- aggregate(raw, key)
  unfoldable pub aggregate : Value → String → Result (Option Number)
  aggregate null key = ok none
  aggregate (num x) key = if is_finite x then ok (some x) else invalid series_path key
  aggregate v key = invalid series_path key

  -- Date.parse(text) of a text that requiredDateTime let through
  abbrev pub known_time : Option ℤ → Result ℤ
  known_time (some t) = ok t
  known_time none = invalid series_path "date-time"

  unfoldable pub time_of : String → Result ℤ
  time_of s = known_time (h.date_parse s)

  -- The body of data.buckets.map, for the bucket that begins at a time
  unfoldable pub parse_bucket : ℤ → ℤ → Value → Result Bucket
  parse_bucket expected_start expected_end raw = do
    fields ← require_record raw series_path "object"
    start ← required_date_time fields "start" series_path
    end_time ← required_date_time fields "end" series_path
    refuse_unless
        (same_time (h.date_parse start) (some expected_start)
          && same_time (h.date_parse end_time) (some expected_end))
        "contiguous bucket bounds"
    samples ← count fields "sample_count"
    missing ← count fields "missing_count"
    invalid_ones ← count fields "invalid_count"
    minimum ← aggregate (get fields "minimum") "minimum"
    maximum ← aggregate (get fields "maximum") "maximum"
    average ← aggregate (get fields "average") "average"
    refuse_unless
        (is_text (get fields "status") (status_text (bucket_status samples missing invalid_ones)))
        "coherent bucket status"
    refuse_unless (are_aggregates samples minimum maximum average) "coherent aggregates"
    ok (record {
      start = start;
      end_time = end_time;
      status = bucket_status samples missing invalid_ones;
      sample_count = samples;
      missing_count = missing;
      invalid_count = invalid_ones;
      minimum = minimum;
      maximum = maximum;
      average = average;
    })

  -- data.buckets.map: the bucket with an index begins `index` widths after the start.
  unfoldable pub parse_buckets : ℤ → ℤ → ℕ → List Value → Result (List Bucket)
  parse_buckets start window_end width [] = ok []
  parse_buckets start window_end width (raw ∷ rest) = do
    bucket ← parse_bucket start (min_ℤ window_end (start +ℤ pos width)) raw
    buckets ← parse_buckets (start +ℤ pos width) window_end width rest
    ok (bucket ∷ buckets)
