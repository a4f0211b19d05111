-- ===== src/Monitor/Health.antt =====
-- The health of the channels: internal/monitor/health.go with the two tables of internal/dal that it
-- fills. Times are Unix seconds; whether each call succeeds is in `Calls`. Of a channel's cached minutes
-- with equally many requests, which the database may list in any order, the first in the table is taken
-- as the first listed. Sums stay below 2 ^ 63.
pub mod Rows
mod Counts
mod Window
mod Writes
mod Tests
use api_ops.Common.{
  ℕ, zero, suc, ◌+◌, ◌-◌, ◌*◌, ◌/◌, ◌%◌, Bool, true, false, not, ◌&&◌, Option, none, some, List, [],
  ◌∷◌, ◌==◌, if◌then◌else◌, length, upsert, map,
}
use api_ops.Summary.Rows.{Figures, Log, LogsSummary}
use api_ops.Summary.Sync.{Key, key_discrete}
use api_ops.Monitor.Health.Rows.{
  ChannelMirror, ChannelAggRow, ChannelHealth5min, ChannelHealth1h, to_five_min, to_one_hour,
  cached_rows, raw_rows,
}

abbrev pub bucket_5min : ℕ
bucket_5min = 300

abbrev pub bucket_1h : ℕ
bucket_1h = 3600

-- `bucket` is not 0.
unfoldable pub floor_to_bucket : ℕ → ℕ → ℕ
floor_to_bucket ts bucket = ts / bucket * bucket

-- 0 stands for the present time.
abbrev pub end_or_now : ℕ → ℕ → ℕ
end_or_now end_ts now = if end_ts == 0 then now else end_ts

pub record Calls : Type 0 where
  pub has_ro : Bool
  pub has_ops : Bool
  pub sums : Bool
  pub details : Bool
  pub channels : Bool
  pub logs : Bool
  pub upsert_5min : Bool
  pub upsert_1h : Bool

module _ (fg : Figures) where
  -- What a tick reads.
  pub record Sources : Type 0 where
    pub minutes : List (LogsSummary fg)
    pub logs : List Log
    pub channels : List (ChannelMirror fg)

  pub record HealthTables : Type 0 where
    pub five_min : List (Key × ChannelHealth5min fg)
    pub one_hour : List (Key × ChannelHealth1h fg)

  -- Nothing where a query fails; the listing of channels is not reached where no sum comes.
  unfoldable pub aggregate_from_cache : Calls → ℕ → ℕ → Sources → Option (List (ChannelAggRow fg))
  aggregate_from_cache calls start bucket src =
      if calls.has_ops && calls.sums
      then cached_rows fg (calls.details && calls.channels) start bucket src.minutes src.channels
      else none

  unfoldable pub aggregate_raw : Calls → ℕ → ℕ → Sources → Option (List (ChannelAggRow fg))
  aggregate_raw calls start bucket src =
      if calls.has_ro
      then (if calls.logs && calls.channels
          then some (raw_rows fg start bucket src.logs src.channels)
          else none)
      else some []

  or_raw :
      Option (List (ChannelAggRow fg)) → Calls → ℕ → ℕ → Sources → Option (List (ChannelAggRow fg))
  or_raw none calls start bucket src = aggregate_raw calls start bucket src
  or_raw (some rows) calls start bucket src = some rows

  -- The rows of the window before the bucket, from the cache or else from the logs.
  unfoldable pub aggregate : Calls → ℕ → ℕ → Sources → Option (List (ChannelAggRow fg))
  unfolding or_raw
  aggregate calls width end_ts src =
      let bucket = floor_to_bucket end_ts width in
      or_raw (aggregate_from_cache calls (bucket - width) bucket src) calls (bucket - width) bucket
        src

  -- A number of rows, or nothing for an error, with the tables.
  abbrev pub Outcome : Type 0
  Outcome = Option ℕ × HealthTables

  write_5min : Calls → Option (List (ChannelAggRow fg)) → HealthTables → Outcome
  write_5min calls none t = (none, t)
  write_5min calls (some []) t = (some 0, t)
  write_5min calls (some (r ∷ rs)) t =
      if calls.upsert_5min
      then (
        some (length (r ∷ rs)),
        record t {
          five_min =
              upsert key_discrete
                (map (λ q. ((q.channel_id, q.bucket_ts), to_five_min fg q)) (r ∷ rs)) t.five_min;
        },
      )
      else (none, t)

  write_1h : Calls → Option (List (ChannelAggRow fg)) → HealthTables → Outcome
  write_1h calls none t = (none, t)
  write_1h calls (some []) t = (some 0, t)
  write_1h calls (some (r ∷ rs)) t =
      if calls.upsert_1h
      then (
        some (length (r ∷ rs)),
        record t {
          one_hour =
              upsert key_discrete
                (map (λ q. ((q.channel_id, q.bucket_ts), to_one_hour fg q)) (r ∷ rs)) t.one_hour;
        },
      )
      else (none, t)

  unfoldable pub aggregate_channel_health_5min : Calls → ℕ → Sources → HealthTables → Outcome
  unfolding write_5min
  aggregate_channel_health_5min calls end_ts src t =
      if calls.has_ro
      then write_5min calls (aggregate calls bucket_5min end_ts src) t
      else (some 0, t)

  unfoldable pub aggregate_channel_health_1h : Calls → ℕ → Sources → HealthTables → Outcome
  unfolding write_1h
  aggregate_channel_health_1h calls end_ts src t =
      if calls.has_ro then write_1h calls (aggregate calls bucket_1h end_ts src) t else (some 0, t)

  pub record TickResult : Type 0 where
    pub buckets_5min : ℕ
    pub buckets_1h : ℕ
    pub skipped : Bool
    pub failed : Bool

  failed_tick : ℕ → HealthTables → TickResult × HealthTables
  failed_tick n t = (record { buckets_5min = n; buckets_1h = 0; skipped = false; failed = true }, t)

  done_tick : ℕ → ℕ → HealthTables → TickResult × HealthTables
  done_tick n k t =
      (record { buckets_5min = n; buckets_1h = k; skipped = false; failed = false }, t)

  after_1h : ℕ → Outcome → TickResult × HealthTables
  unfolding failed_tick done_tick
  after_1h n (none, t) = failed_tick n t
  after_1h n (some k, t) = done_tick n k t

  then_1h : Bool → Calls → ℕ → Sources → Outcome → TickResult × HealthTables
  unfolding failed_tick done_tick after_1h
  then_1h skip_hourly calls end_ts src (none, t) = failed_tick 0 t
  then_1h true calls end_ts src (some n, t) = done_tick n 0 t
  then_1h false calls end_ts src (some n, t) =
      after_1h n (aggregate_channel_health_1h calls end_ts src t)

  unfoldable pub run_tick :
      Calls → ℕ → ℕ → Bool → Sources → HealthTables → TickResult × HealthTables
  unfolding then_1h
  run_tick calls now end_ts skip_hourly src t =
      if calls.has_ro
      then then_1h skip_hourly calls (end_or_now end_ts now) src
          (aggregate_channel_health_5min calls (end_or_now end_ts now) src t)
      else (record { buckets_5min = 0; buckets_1h = 0; skipped = true; failed = true }, t)

  -- The monitor's tick of internal/scheduler/scheduler.go in minute `minute` of an hour, and whether it
  -- goes on to evaluate the rules.
  unfoldable pub run_once : Calls → ℕ → ℕ → Sources → HealthTables → Bool × HealthTables
  run_once calls now minute src t =
      let p = run_tick calls now 0 (if minute % 5 == 0 then false else true) src t in
      (not (p.0).skipped, p.1)
