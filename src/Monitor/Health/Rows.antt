-- ===== src/Monitor/Health/Rows.antt =====
-- One row per channel: the rows of the tables, and the aggregation from the cached minutes and from the
-- logs.
use api_ops.Common.{
  ℕ, Bool, not, ◌&&◌, Option, none, some, List, [], ◌∷◌, map, String, ℕ_discrete, leb, ltb, ◌==◌,
  if◌then◌else◌, select, total, group_by,
}
use api_ops.Summary.Rows.{
  Figures, Log, LogsSummary, count_type, log_type_error, log_type_consume, channel_groups,
}

abbrev pub channel_status_enabled : ℕ
channel_status_enabled = 1

abbrev pub channel_status_manually_disabled : ℕ
channel_status_manually_disabled = 2

abbrev pub channel_status_auto_disabled : ℕ
channel_status_auto_disabled = 3

unfoldable pub channel_status_str : ℕ → String
channel_status_str status =
    if status == channel_status_enabled
    then "enabled"
    else (if status == channel_status_manually_disabled
        then "manual_disabled"
        else (if status == channel_status_auto_disabled then "auto_disabled" else "unknown"))

module _ (fg : Figures) where
  open fg use {Float, zero_rate, div, percentile}

  -- What is read of upstream_channel_cache.
  pub record ChannelMirror : Type 0 where
    pub id : ℕ
    pub balance : Float
    pub status : ℕ

  pub record ChannelAggRow : Type 0 where
    pub channel_id : ℕ
    pub bucket_ts : ℕ
    pub request_count : ℕ
    pub error_count : ℕ
    pub success_count : ℕ
    pub prompt_tokens : ℕ
    pub completion_tokens : ℕ
    pub p50_latency_ms : ℕ
    pub p95_latency_ms : ℕ
    pub p99_latency_ms : ℕ
    pub ttft_p95_ms : ℕ
    pub error_rate : Float
    pub balance : Float
    pub status : String

  pub record ChannelHealth5min : Type 0 where
    pub channel_id : ℕ
    pub bucket_ts : ℕ
    pub request_count : ℕ
    pub error_count : ℕ
    pub success_count : ℕ
    pub prompt_tokens : ℕ
    pub completion_tokens : ℕ
    pub p50_latency_ms : ℕ
    pub p95_latency_ms : ℕ
    pub p99_latency_ms : ℕ
    pub ttft_p95_ms : ℕ
    pub error_rate : Float
    pub balance : Float
    pub status : String

  pub record ChannelHealth1h : Type 0 where
    pub channel_id : ℕ
    pub bucket_ts : ℕ
    pub request_count : ℕ
    pub error_count : ℕ
    pub success_count : ℕ
    pub prompt_tokens : ℕ
    pub completion_tokens : ℕ
    pub p50_latency_ms : ℕ
    pub p95_latency_ms : ℕ
    pub p99_latency_ms : ℕ
    pub ttft_p95_ms : ℕ
    pub error_rate : Float
    pub balance : Float
    pub status : String

  unfoldable pub to_five_min : ChannelAggRow → ChannelHealth5min
  to_five_min r = record {
    channel_id = r.channel_id;
    bucket_ts = r.bucket_ts;
    request_count = r.request_count;
    error_count = r.error_count;
    success_count = r.success_count;
    prompt_tokens = r.prompt_tokens;
    completion_tokens = r.completion_tokens;
    p50_latency_ms = r.p50_latency_ms;
    p95_latency_ms = r.p95_latency_ms;
    p99_latency_ms = r.p99_latency_ms;
    ttft_p95_ms = r.ttft_p95_ms;
    error_rate = r.error_rate;
    balance = r.balance;
    status = r.status;
  }

  unfoldable pub to_one_hour : ChannelAggRow → ChannelHealth1h
  to_one_hour r = record {
    channel_id = r.channel_id;
    bucket_ts = r.bucket_ts;
    request_count = r.request_count;
    error_count = r.error_count;
    success_count = r.success_count;
    prompt_tokens = r.prompt_tokens;
    completion_tokens = r.completion_tokens;
    p50_latency_ms = r.p50_latency_ms;
    p95_latency_ms = r.p95_latency_ms;
    p99_latency_ms = r.p99_latency_ms;
    ttft_p95_ms = r.ttft_p95_ms;
    error_rate = r.error_rate;
    balance = r.balance;
    status = r.status;
  }

  -- chMap[id]: a later channel with the same id replaces an earlier one.
  unfoldable pub channel_of : ℕ → List ChannelMirror → Option ChannelMirror
  channel_of id [] = none
  channel_of id (c ∷ cs) = elim (channel_of id cs) [
    | some d ↦ some d
    | none ↦ if c.id == id then some c else none
  ]

  unfoldable pub balance_of : Option ChannelMirror → Float
  balance_of none = zero_rate
  balance_of (some c) = c.balance

  unfoldable pub status_of : Option ChannelMirror → String
  unfolding channel_status_str
  status_of none = "enabled"
  status_of (some c) = channel_status_str c.status

  -- The first of the rows with the most requests, which the query lists first.
  unfoldable pub busiest : List (LogsSummary fg) → Option (LogsSummary fg)
  busiest [] = none
  busiest (r ∷ rs) = elim (busiest rs) [
    | none ↦ some r
    | some q ↦ if ltb r.request_count q.request_count then some q else some r
  ]

  abbrev latency : (LogsSummary fg → ℕ) → Option (LogsSummary fg) → ℕ
  latency f none = 0
  latency f (some r) = f r

  -- The groups of the cached minutes from `start` to `bucket`, the last included.
  unfoldable pub minute_groups : ℕ → ℕ → List (LogsSummary fg) → List (ℕ × List (LogsSummary fg))
  minute_groups start bucket minutes =
      group_by ℕ_discrete (λ r. r.channel_id)
        (select (λ r. (leb start r.bucket_ts && leb r.bucket_ts bucket) && ltb 0 r.channel_id)
          minutes)

  unfoldable pub cached_row : ℕ → List ChannelMirror → ℕ × List (LogsSummary fg) → ChannelAggRow
  unfolding balance_of status_of
  cached_row bucket chs g =
      let requests = total (λ r. r.request_count) g.1 in
      let errors = total (λ r. r.error_count) g.1 in
      record {
        channel_id = g.0;
        bucket_ts = bucket;
        request_count = requests;
        error_count = errors;
        success_count = total (λ r. r.success_count) g.1;
        prompt_tokens = total (λ r. r.prompt_tokens) g.1;
        completion_tokens = total (λ r. r.completion_tokens) g.1;
        p50_latency_ms = latency (λ r. r.p50_latency_ms) (busiest g.1);
        p95_latency_ms = latency (λ r. r.p95_latency_ms) (busiest g.1);
        p99_latency_ms = latency (λ r. r.p99_latency_ms) (busiest g.1);
        ttft_p95_ms = 0;
        error_rate = div errors requests;
        balance = balance_of (channel_of g.0 chs);
        status = status_of (channel_of g.0 chs);
      }

  -- Groups without a request are passed over.
  abbrev with_requests : List ChannelAggRow → List ChannelAggRow
  with_requests rows = select (λ r. not (r.request_count == 0)) rows

  -- Where there is no sum, the queries that follow are not made; `ok` says that they succeed.
  unfoldable pub cached_groups :
      Bool → ℕ → List ChannelMirror → List (ℕ × List (LogsSummary fg)) → Option (List ChannelAggRow)
  cached_groups ok bucket chs [] = some []
  cached_groups ok bucket chs (g ∷ gs) =
      if ok then some (with_requests (map (cached_row bucket chs) (g ∷ gs))) else none

  unfoldable pub cached_rows :
      Bool → ℕ → ℕ → List (LogsSummary fg) → List ChannelMirror → Option (List ChannelAggRow)
  unfolding cached_groups
  cached_rows ok start bucket minutes chs =
      cached_groups ok bucket chs (minute_groups start bucket minutes)

  unfoldable pub raw_row : ℕ → List ChannelMirror → ℕ × List Log → ChannelAggRow
  unfolding balance_of status_of
  raw_row bucket chs g =
      let requests = total (λ r. 1) g.1 in
      let errors = count_type log_type_error g.1 in
      let times = map (λ r. r.use_time) g.1 in
      record {
        channel_id = g.0;
        bucket_ts = bucket;
        request_count = requests;
        error_count = errors;
        success_count = count_type log_type_consume g.1;
        prompt_tokens = total (λ r. r.prompt_tokens) g.1;
        completion_tokens = total (λ r. r.completion_tokens) g.1;
        p50_latency_ms = percentile 50 times;
        p95_latency_ms = percentile 95 times;
        p99_latency_ms = percentile 99 times;
        ttft_p95_ms = 0;
        error_rate = div errors requests;
        balance = balance_of (channel_of g.0 chs);
        status = status_of (channel_of g.0 chs);
      }

  -- GROUP BY channel_id over the logs from `start` to before `bucket`.
  unfoldable pub raw_rows : ℕ → ℕ → List Log → List ChannelMirror → List ChannelAggRow
  raw_rows start bucket logs chs =
      with_requests (map (raw_row bucket chs) (channel_groups start bucket logs))
