-- ===== src/Summary/Rows.antt =====
-- The rows of `logs` that the queries read, the rows of the two tables, and the aggregations
-- aggregateLogsSummaryOne, ByChannel and ByModel of internal/sync/sync_logs_summary.go.
use mathlib.Core.HLevel.{×_discrete}
use api_ops.Common.{
  ℕ, ◌*◌, ◌/◌, Bool, true, false, not, ◌&&◌, ◌||◌, List, [], ◌∷◌, map, ite, String, String_discrete,
  ℕ_discrete, leb, ltb, ◌==◌, if◌then◌else◌, select, total, group_by,
}

-- The functions of the database and float64: `percentile p` is the percentile p of the values as an
-- integer of milliseconds, `average` their average as an integer; `json_int` reads a number in the
-- column `other`, which is 0 where there is none; `div` is the division of two int64.
pub record Figures : Type 1 where
  pub Float : Type 0
  pub zero_rate : Float
  pub div : ℕ → ℕ → Float
  pub percentile : ℕ → List ℕ → ℕ
  pub average : List ℕ → ℕ
  pub json_int : String → String → ℕ

abbrev pub log_type_consume : ℕ
log_type_consume = 2

abbrev pub log_type_error : ℕ
log_type_error = 5

abbrev pub log_type_refund : ℕ
log_type_refund = 6

pub record Log : Type 0 where
  pub created_at : ℕ
  pub channel_id : ℕ
  pub log_type : ℕ
  pub quota : ℕ
  pub prompt_tokens : ℕ
  pub completion_tokens : ℕ
  pub use_time : ℕ
  pub model_name : String
  pub other : String

-- SUM(CASE WHEN type = ? THEN 1 ELSE 0 END)
unfoldable pub count_type : ℕ → List Log → ℕ
count_type t rows = total (λ r. if r.log_type == t then 1 else 0) rows

unfoldable pub charged : List Log → ℕ
charged rows =
    total
      (λ r. if r.log_type == log_type_consume || r.log_type == log_type_refund then r.quota else 0)
      rows

-- The second before `end` is the last.
abbrev pub in_window : ℕ → ℕ → Log → Bool
in_window start end r = leb start r.created_at && ltb r.created_at end

unfoldable pub bucket_of : ℕ → ℕ
bucket_of t = t / 60 * 60

-- GROUP BY channel_id; the groups come in no particular order.
unfoldable pub channel_groups : ℕ → ℕ → List Log → List (ℕ × List Log)
channel_groups start end logs =
    group_by ℕ_discrete (λ r. r.channel_id)
      (select (λ r. in_window start end r && ltb 0 r.channel_id) logs)

-- channel_vendor_map
pub record ChannelVendorMap : Type 0 where
  pub channel_id : ℕ
  pub vendor_code : String

-- The vendor of the first mapping of a channel; "" where there is none.
unfoldable pub vendor_of : List ChannelVendorMap → ℕ → String
vendor_of [] channel = ""
vendor_of (m ∷ ms) channel =
    let rest = vendor_of ms channel in if m.channel_id == channel then m.vendor_code else rest

module _ (fg : Figures) where
  open fg use {Float, zero_rate, div, percentile, average, json_int}

  -- cache_logs_summary_5min
  pub record LogsSummary : Type 0 where
    pub channel_id : ℕ
    pub bucket_ts : ℕ
    pub request_count : ℕ
    pub error_count : ℕ
    pub success_count : ℕ
    pub quota : ℕ
    pub prompt_tokens : ℕ
    pub completion_tokens : ℕ
    pub p50_latency_ms : ℕ
    pub p95_latency_ms : ℕ
    pub p99_latency_ms : ℕ
    pub avg_latency_ms : ℕ
    pub error_rate : Float

  -- The row that both queries make of the logs they read.
  unfoldable pub summary_of : ℕ → ℕ → List Log → LogsSummary
  unfolding count_type charged bucket_of
  summary_of channel start rows =
      let requests = total (λ r. 1) rows in
      let errors = count_type log_type_error rows in
      let times = map (λ r. r.use_time) rows in
      record {
        channel_id = channel;
        bucket_ts = bucket_of start;
        request_count = requests;
        error_count = errors;
        success_count = count_type log_type_consume rows;
        quota = charged rows;
        prompt_tokens = total (λ r. r.prompt_tokens) rows;
        completion_tokens = total (λ r. r.completion_tokens) rows;
        p50_latency_ms = percentile 50 times;
        p95_latency_ms = percentile 95 times;
        p99_latency_ms = percentile 99 times;
        avg_latency_ms = average times;
        error_rate = if ltb 0 requests then div errors requests else zero_rate;
      }

  -- Channel 0 stands for all.
  unfoldable pub aggregate_one : ℕ → ℕ → ℕ → List Log → LogsSummary
  aggregate_one channel start end logs =
      let rows = select (in_window start end) logs in
      summary_of channel start
        (if channel == 0 then rows else select (λ r. r.channel_id == channel) rows)

  unfoldable pub aggregate_by_channel : ℕ → ℕ → List Log → List LogsSummary
  aggregate_by_channel start end logs =
      map (λ g. summary_of g.0 start g.1) (channel_groups start end logs)

  -- cache_logs_summary_by_model_5min
  pub record LogsSummaryByModel : Type 0 where
    pub bucket_ts : ℕ
    pub channel_id : ℕ
    pub model_name : String
    pub vendor_code : String
    pub request_count : ℕ
    pub error_count : ℕ
    pub success_count : ℕ
    pub refund_count : ℕ
    pub quota : ℕ
    pub prompt_tokens : ℕ
    pub completion_tokens : ℕ
    pub cache_tokens : ℕ
    pub cache_creation_tokens_5m : ℕ
    pub cache_creation_tokens_1h : ℕ

  -- The sum of a number that stands in `other`.
  unfoldable pub total_other : String → List Log → ℕ
  total_other key rows = total (λ r. ite (String_discrete r.other "") 0 (json_int key r.other)) rows

  unfoldable pub model_summary_of :
      List ChannelVendorMap → ℕ → (ℕ × String) × List Log → LogsSummaryByModel
  unfolding count_type charged bucket_of
  model_summary_of maps start g =
      let rows = g.1 in
      record {
        bucket_ts = bucket_of start;
        channel_id = g.0.0;
        model_name = g.0.1;
        vendor_code = vendor_of maps g.0.0;
        request_count = total (λ r. 1) rows;
        error_count = count_type log_type_error rows;
        success_count = count_type log_type_consume rows;
        refund_count = count_type log_type_refund rows;
        quota = charged rows;
        prompt_tokens = total (λ r. r.prompt_tokens) rows;
        completion_tokens = total (λ r. r.completion_tokens) rows;
        cache_tokens = total_other "cache_tokens" rows;
        cache_creation_tokens_5m = total_other "cache_creation_tokens_5m" rows;
        cache_creation_tokens_1h = total_other "cache_creation_tokens_1h" rows;
      }

  -- GROUP BY channel_id, model_name
  unfoldable pub aggregate_by_model :
      List ChannelVendorMap → ℕ → ℕ → List Log → List LogsSummaryByModel
  aggregate_by_model maps start end logs = map (model_summary_of maps start) (
      group_by (×_discrete ℕ_discrete String_discrete) (λ r. (r.channel_id, r.model_name))
        (select
          (λ r.
            in_window start end r
            && ltb 0 r.channel_id
            && not (ite (String_discrete r.model_name "") true false))
          logs))
