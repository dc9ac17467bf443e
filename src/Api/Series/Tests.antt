-- ===== src/Api/Series/Tests.antt =====
-- A series of an hour in two buckets for frontend/src/lib/api/telemetry-series.ts.
use stechbaza_iot.Prelude.{Option, String, [], if◌then◌else◌, none, refl, some, ℕ, ◌==◌, ◌∷◌, ◌≡◌}
use stechbaza_iot.Api.Access.Fields.{require, require_record, required_date_time, required_string}
use stechbaza_iot.Api.Answers.{require_list}
use stechbaza_iot.Api.Errors.{ok}
use stechbaza_iot.Api.Series.{
  Bucket, BucketStatus, Series, SeriesChannel, SeriesWindow, aggregate, are_aggregates,
  bucket_status, count, full, no_messages, parse_bucket, parse_buckets, time_of, window_times,
}
use stechbaza_iot.Api.Series.Answer.{bucket_count, parse_series}
use stechbaza_iot.Api.Series.Tiled.{IsSeries, parse_series-IsSeries}
use stechbaza_iot.Host.Sample.{sample}
use stechbaza_iot.Js.Checks.{count?}
use stechbaza_iot.Js.Number.{Number, is_finite, nat, num_eq, safe_integer?}
use stechbaza_iot.Js.Value.{Value, arr, end, field, get, items, null, num, obj, str}
use stechbaza_iot.Prelude.Int.{pos, ◌+ℤ◌, ◌-ℤ◌}

abbrev first_time : String
first_time = "2026-10-05T08:00:00.000250Z"

abbrev bucket_value : String → String → ℕ → Value → Value
bucket_value from_text to_text samples number = obj (
    field "start" (str from_text) (
      field "end" (str to_text) (
        field "sample_count" (num (nat samples)) (
          field "missing_count" (num (nat 0)) (
            field "invalid_count" (num (nat 0)) (
              field "minimum" number (
                field "maximum" number (
                  field "average" number
                    (field "status" (str (if samples == 0 then "empty" else "ok")) end)))))))))

abbrev series_value : Value
series_value = obj (
    field "device_id" (str "d") (
      field "metric" (str "power") (
        field "unit" (str "kW") (
          field "time_basis" (str "server_received_at") (
            field "bucket_seconds" (num (nat 2400)) (
              field "start" (str first_time) (
                field "end" (str "2026-10-05T09:00:00Z") (
                  field "message_count" (num (nat 3)) (
                    field "sample_count" (num (nat 3)) (
                      field "max_messages" (num (nat 1000)) (
                        field "generated_at" (str "2026-10-05T09:00:00Z") (
                          field "buckets"
                            (arr (
                              items (
                                bucket_value first_time "2026-10-05T08:40:00Z" 3 (num (nat 7))
                                ∷ bucket_value "2026-10-05T08:40:00Z" "2026-10-05T09:00:00Z" 0 null
                                ∷ [])))
                            end))))))))))))

abbrev power : SeriesChannel
power = record { key = "power"; unit = some "kW" }

abbrev hour : SeriesWindow
hour = record { start = first_time; end_time = "2026-10-05T09:00:00Z"; bucket_seconds = 2400 }

abbrev bucket_of : String → String → BucketStatus → ℕ → Option Number → Bucket
bucket_of from_text to_text told samples number = record {
  start = from_text;
  end_time = to_text;
  status = told;
  sample_count = samples;
  missing_count = 0;
  invalid_count = 0;
  minimum = number;
  maximum = number;
  average = number;
}

abbrev hour_series : Series
hour_series = record {
  device_id = "d";
  metric = "power";
  unit = some "kW";
  start = first_time;
  end_time = "2026-10-05T09:00:00Z";
  bucket_seconds = 2400;
  generated_at = "2026-10-05T09:00:00Z";
  message_count = 3;
  sample_count = 3;
  max_messages = 1000;
  buckets =
      bucket_of first_time "2026-10-05T08:40:00Z" full 3 (some (nat 7))
      ∷ bucket_of "2026-10-05T08:40:00Z" "2026-10-05T09:00:00Z" no_messages 0 none
      ∷ [];
}

hour-parsed : parse_series series_value "d" power hour ≡ ok hour_series
unfolding parse_series parse_buckets parse_bucket bucket_status are_aggregates count aggregate
    time_of bucket_count num_eq count? safe_integer? is_finite require_list required_date_time
    required_string require require_record get ◌+ℤ◌ ◌-ℤ◌
hour-parsed = refl

parse_series-IsSeries_example : IsSeries series_value hour hour_series
parse_series-IsSeries_example =
    parse_series-IsSeries series_value "d" power hour hour_series hour-parsed

-- An hour in buckets of a minute up to the last whole second, and a window of too many buckets
hour-window :
    (window_times 3600 60 1791190800999 ≡ some (pos 1791187200000, pos 1791190800000))
    × (window_times 604800 60 1791190800999 ≡ none)
unfolding window_times ◌-ℤ◌
hour-window = (refl, refl)
