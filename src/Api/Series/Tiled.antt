-- ===== src/Api/Series/Tiled.antt =====
-- The buckets of a series that frontend/src/lib/api/telemetry-series.ts accepts.
use stechbaza_iot.Prelude.{
  &&-eq-true, List, Option, String, [], ap, arith, leb, length, none, refl, some, subst, sym, true,
  ℕ, ◌&&◌, ◌*◌, ◌+◌, ◌==◌, ◌∙◌, ◌∷◌, ◌≡◌, ◌≤◌,
}
use stechbaza_iot.Api.Access.Fields.{invalid, require_record}
use stechbaza_iot.Api.Access.Fields.Checks.{parser_rules, require_record-ok}
use stechbaza_iot.Api.Answers.{require_list}
use stechbaza_iot.Api.Errors.{Ends, Ends->>=, Ends-ok, ok, ok-injective}
use stechbaza_iot.Api.Series.{
  Bucket, Series, SeriesChannel, SeriesWindow, count, known_time, parse_bucket, parse_buckets,
  same_time, series_path, time_of,
}
use stechbaza_iot.Api.Series.Answer.{bucket_count, parse_series, total_messages, total_samples}
use stechbaza_iot.Api.Series.Count.{Needs, bucket_count-Needs, bucket_count-positive}
use stechbaza_iot.Api.Series.Row.{IsRow, count-ok, parse_bucket-IsRow}
use stechbaza_iot.Host.{Host}
use stechbaza_iot.Js.Checks.{count?}
use stechbaza_iot.Js.Value.{Fields, Items, Value, arr, elements, get, obj}
use stechbaza_iot.Prelude.Int.{eq_of_parts, min_ℤ, pos, ℤ, ◌+ℤ◌, ◌<ℤ◌, ◌≤ℤ◌}

-- The buckets are those of the rows. They begin at a time and follow each other, each of one width
-- or up to the end of the window, and the last one reaches it.
abbrev pub Tiles : ⦃h : Host⦄ → ℕ → ℤ → ℤ → List Value → List Bucket → Type 0
Tiles width begins ends [] [] = ends ≤ℤ begins
Tiles width begins ends (raw ∷ rows) (b ∷ rest) =
    (begins <ℤ ends)
    × IsRow begins (min_ℤ ends (begins +ℤ pos width)) raw b
    × Tiles width (begins +ℤ pos width) ends rows rest
Tiles width begins ends rows buckets = ⊥

-- A count of each bucket, added up
abbrev pub sum_of : (Bucket → ℕ) → List Bucket → ℕ
sum_of f [] = 0
sum_of f (b ∷ rest) = f b + sum_of f rest

total_samples-sum : (l : List Bucket) → sum_of (λ b. b.sample_count) l ≡ total_samples l
total_samples-sum [] = refl
total_samples-sum (b ∷ rest) = ap (λ n. b.sample_count + n) (total_samples-sum rest)

total_messages-sum :
    (l : List Bucket)
    → sum_of (λ b. b.sample_count + b.missing_count + b.invalid_count) l ≡ total_messages l
total_messages-sum [] = refl
total_messages-sum (b ∷ rest) =
    ap (λ n. b.sample_count + b.missing_count + b.invalid_count + n) (total_messages-sum rest)

same_time-right : (a b : Option ℤ) (z : ℤ) → same_time a b ≡ true → a ≡ some z → b ≡ some z
same_time-right none b z e known = cc
same_time-right (some a) none z e known = cc
same_time-right (some a) (some b) z e known = ap some (sym (eq_of_parts a b (ground arith))) ∙ known

module _ ⦃h : Host⦄ where
  parse_buckets-Ends :
      (begins ends : ℤ) (width : ℕ) (rows : List Value)
      → Needs width begins ends (length rows)
      → Ends (Tiles width begins ends rows) (parse_buckets begins ends width rows)
  unfolding parse_buckets
  parse_buckets-Ends begins ends width [] done_all = Ends-ok _ done_all
  parse_buckets-Ends begins ends width (raw ∷ rest) (more, needs) =
      Ends->>= (parse_bucket _ _ raw) _ λ b is_b.
        Ends->>= (parse_buckets _ _ width rest) _ λ bs are_bs.
          let row =
            (parse_bucket-IsRow begins (min_ℤ ends (begins +ℤ pos width)) raw).holds b is_b in
          let tiles =
            (parse_buckets-Ends (begins +ℤ pos width) ends width rest needs).holds bs are_bs in
          Ends-ok _ (more, row, tiles)

  -- parse_series that ends well: the buckets are those of the answer and tile the window, and their
  -- counts add up to those of the answer.
  pub record IsSeries (raw : Value) (expected : SeriesWindow) (s : Series) : Type 0 where
    pub fields : Fields
    pub listed : Items
    pub is_object : raw ≡ obj fields
    pub has_listed : get fields "buckets" ≡ arr listed
    pub samples : count? (get fields "sample_count") ≡ some s.sample_count
    pub messages : count? (get fields "message_count") ≡ some s.message_count
    pub budget : count? (get fields "max_messages") ≡ some s.max_messages
    pub begins : ℤ
    pub ends : ℤ
    pub asked_from : h.date_parse expected.start ≡ some begins
    pub asked_to : h.date_parse expected.end_time ≡ some ends
    pub tiles : Tiles (expected.bucket_seconds * 1000) begins ends (elements listed) s.buckets
    pub all_samples : sum_of (λ b. b.sample_count) s.buckets ≡ s.sample_count
    pub all_messages :
        sum_of (λ b. b.sample_count + b.missing_count + b.invalid_count) s.buckets ≡ s.message_count
    pub within : s.message_count ≤ s.max_messages
    pub affordable : s.max_messages ≤ 100000

  known_time-ok : (known : Option ℤ) (t : ℤ) → known_time known ≡ ok t → known ≡ some t
  unfolding invalid
  known_time-ok none t e = cc
  known_time-ok (some a) t e = cc

  time_of-ok : (s : String) (t : ℤ) → time_of s ≡ ok t → h.date_parse s ≡ some t
  unfolding time_of
  time_of-ok s t e = known_time-ok _ t e

  require_list-ok :
      (v : Value) (path expected : String) (rows : List Value)
      → require_list v path expected ≡ ok rows
      → (listed : Items) × (v ≡ arr listed) × (rows ≡ elements listed)
  unfolding require_list invalid
  require_list-ok (arr xs) path expected rows e = (xs, refl, sym (ok-injective e))
  require_list-ok v path expected rows e = cc

  series-IsSeries :
      (raw : Value) (expected : SeriesWindow) (begins ends : ℤ) (fields : Fields)
      (rows : List Value) (s : Series)
      → require_record raw series_path "object" ≡ ok fields
      → count fields "message_count" ≡ ok s.message_count
      → count fields "sample_count" ≡ ok s.sample_count
      → count fields "max_messages" ≡ ok s.max_messages
      → require_list (get fields "buckets") series_path "complete bounded buckets" ≡ ok rows
      → (same_time (h.date_parse s.start) (h.date_parse expected.start)
          && same_time (h.date_parse s.end_time) (h.date_parse expected.end_time))
        ≡ true
      → (leb 1 s.max_messages && leb s.max_messages 100000 && leb s.message_count s.max_messages)
        ≡ true
      → time_of s.start ≡ ok begins
      → time_of s.end_time ≡ ok ends
      → (leb 1 (bucket_count begins ends (expected.bucket_seconds * 1000))
          && leb (bucket_count begins ends (expected.bucket_seconds * 1000)) 1000
          && length rows == bucket_count begins ends (expected.bucket_seconds * 1000))
        ≡ true
      → parse_buckets begins ends (expected.bucket_seconds * 1000) rows ≡ ok s.buckets
      → (total_samples s.buckets == s.sample_count && total_messages s.buckets == s.message_count)
        ≡ true
      → IsSeries raw expected s
  series-IsSeries raw expected begins ends fields rows s is_object messages samples budget are_rows
        windows limits from_time to_time lengths are_buckets sums =
      let needs =
        bucket_count-Needs (length rows) (expected.bucket_seconds * 1000) begins ends
          (bucket_count-positive begins ends _ (ground arith)) (ground arith) in
      let (listed, has_listed, same) = require_list-ok _ series_path _ rows are_rows in
      record {
        fields = fields;
        listed = listed;
        is_object = require_record-ok raw series_path "object" is_object;
        has_listed = has_listed;
        samples = count-ok fields "sample_count" s.sample_count samples;
        messages = count-ok fields "message_count" s.message_count messages;
        budget = count-ok fields "max_messages" s.max_messages budget;
        begins = begins;
        ends = ends;
        asked_from =
            same_time-right _ _ begins (&&-eq-true windows).0 (time_of-ok s.start begins from_time);
        asked_to =
            same_time-right _ _ ends (&&-eq-true windows).1 (time_of-ok s.end_time ends to_time);
        tiles =
            subst (λ l. Tiles (expected.bucket_seconds * 1000) begins ends l s.buckets) same
              ((parse_buckets-Ends begins ends _ rows needs).holds s.buckets are_buckets);
        all_samples = total_samples-sum s.buckets ∙ ground arith;
        all_messages = total_messages-sum s.buckets ∙ ground arith;
        within = ground arith;
        affordable = ground arith;
      }

  parse_series-Ends :
      (raw : Value) (device_id : String) (channel : SeriesChannel) (expected : SeriesWindow)
      → Ends (IsSeries raw expected) (parse_series raw device_id channel expected)
  unfolding parse_series
  parse_series-Ends raw device_id channel expected =
      search (parser_rules, series-IsSeries raw expected) depth 30 fits 5000

  -- A series is accepted only if its buckets are those of the answer, one for each row, and
  -- follow each other without a gap from the start of the window that was asked for to its end,
  -- each of the width asked for or up to the end. The status in the answer is the one that the
  -- counts of the row imply; a bucket has a minimum, an average and a maximum, in this order,
  -- exactly if it has samples. The counts add up to those of the series, whose messages are
  -- within its budget, of 100000 at most.
  pub parse_series-IsSeries :
      (raw : Value) (device_id : String) (channel : SeriesChannel) (expected : SeriesWindow)
      (s : Series)
      → parse_series raw device_id channel expected ≡ ok s
      → IsSeries raw expected s
  parse_series-IsSeries raw device_id channel expected s e =
      (parse_series-Ends raw device_id channel expected).holds s e
