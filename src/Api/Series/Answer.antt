-- ===== src/Api/Series/Answer.antt =====
-- frontend/src/lib/api/telemetry-series.ts: the whole answer, with its counts.
use stechbaza_iot.Prelude.{Bool, List, String, [], leb, length, ℕ, ◌&&◌, ◌*◌, ◌+◌, ◌==◌, ◌∷◌}
use stechbaza_iot.Api.Access.Fields.{require_record, required_date_time}
use stechbaza_iot.Api.Answers.{require_list}
use stechbaza_iot.Api.Errors.{Result, ok, ◌>>=◌, ◌>>◌}
use stechbaza_iot.Api.Errors.Retry.{ceil_div}
use stechbaza_iot.Host.{Host}
use stechbaza_iot.Js.Value.{Fields, Value, get, is_nat, is_text}
use stechbaza_iot.Prelude.Int.{pos_part, ℤ, ◌-ℤ◌}
use stechbaza_iot.Api.Series.{
  series_path, SeriesWindow, SeriesChannel, Bucket, Series, is_text_or_null, same_time,
  refuse_unless, count, time_of, parse_buckets,
}

-- totalSamples and totalMessages
abbrev pub total_samples : List Bucket → ℕ
total_samples [] = 0
total_samples (b ∷ rest) = b.sample_count + total_samples rest

abbrev pub total_messages : List Bucket → ℕ
total_messages [] = 0
total_messages (b ∷ rest) = b.sample_count + b.missing_count + b.invalid_count + total_messages rest

-- Math.ceil((end - start) / width), of a window that does not end before it starts
unfoldable pub bucket_count : ℤ → ℤ → ℕ → ℕ
bucket_count start window_end width = ceil_div (pos_part (window_end -ℤ start)) width

module _ ⦃h : Host⦄ where
  is_identity : Fields → String → SeriesChannel → SeriesWindow → Bool
  is_identity fields device_id channel expected =
      is_text (get fields "device_id") device_id
      && is_text (get fields "metric") channel.key
      && is_text_or_null (get fields "unit") channel.unit
      && is_text (get fields "time_basis") "server_received_at"
      && is_nat (get fields "bucket_seconds") expected.bucket_seconds

  -- parseSeries(raw, deviceId, channel, expected)
  unfoldable pub parse_series : Value → String → SeriesChannel → SeriesWindow → Result Series
  unfolding is_identity
  parse_series raw device_id channel expected = do
    fields ← require_record raw series_path "object"
    refuse_unless (is_identity fields device_id channel expected) "series identity/unit/bucket"
    start ← required_date_time fields "start" series_path
    end_time ← required_date_time fields "end" series_path
    refuse_unless
        (same_time (h.date_parse start) (h.date_parse expected.start)
          && same_time (h.date_parse end_time) (h.date_parse expected.end_time))
        "requested time window"
    message_count ← count fields "message_count"
    sample_count ← count fields "sample_count"
    max_messages ← count fields "max_messages"
    refuse_unless (leb 1 max_messages && leb max_messages 100000 && leb message_count max_messages)
        "message budget"
    from_time ← time_of start
    to_time ← time_of end_time
    let width = expected.bucket_seconds * 1000
    let length_expected = bucket_count from_time to_time width
    rows ← require_list (get fields "buckets") series_path "complete bounded buckets"
    refuse_unless
        (leb 1 length_expected && leb length_expected 1000 && length rows == length_expected)
        "complete bounded buckets"
    buckets ← parse_buckets from_time to_time width rows
    refuse_unless (total_samples buckets == sample_count && total_messages buckets == message_count)
        "complete counts"
    generated_at ← required_date_time fields "generated_at" series_path
    ok (record {
      device_id = device_id;
      metric = channel.key;
      unit = channel.unit;
      start = start;
      end_time = end_time;
      bucket_seconds = expected.bucket_seconds;
      generated_at = generated_at;
      message_count = message_count;
      sample_count = sample_count;
      max_messages = max_messages;
      buckets = buckets;
    })
