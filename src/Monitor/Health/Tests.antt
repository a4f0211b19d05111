-- ===== src/Monitor/Health/Tests.antt =====
-- The aggregation on concrete minutes and logs.
use api_ops.Common.{
  ℕ, ◌/◌, ◌≡◌, ◌≢◌, refl, true, false, List, [], ◌∷◌, lookup, All, ◌≤◌, select, ◌==◌, if◌then◌else◌,
  arith, length,
}
use api_ops.Summary.Rows.{Figures, Log, LogsSummary, summary_of}
use api_ops.Summary.Sync.{key_discrete}
use api_ops.Monitor.Health.Rows.{ChannelMirror, cached_row, cached_rows, raw_rows}
use api_ops.Monitor.Health.{
  bucket_5min, bucket_1h, floor_to_bucket, Calls, Sources, HealthTables, run_tick,
}
use api_ops.Monitor.Health.Counts.{count_in, requests_at, requests_of}
use api_ops.Monitor.Health.Window.{
  minutes_of, cached_window_is_longer, Among, percentiles_of_busiest,
}
use api_ops.Monitor.Health.Writes.{tick_keeps_the_past}

abbrev plain : Figures
plain = record {
  Float = ℕ;
  zero_rate = 0;
  div = λ a b. if b == 0 then 0 else a / b;
  percentile = λ p ts. p;
  average = length;
  json_int = λ k o. 0;
}

abbrev log : ℕ → Log
log t = record {
  created_at = t;
  channel_id = 1;
  log_type = 2;
  quota = 10;
  prompt_tokens = 3;
  completion_tokens = 4;
  use_time = 2;
  model_name = "m";
  other = "";
}

-- The last log is written in the minute that begins at the bucket, 900.
abbrev logs : List Log
logs = log 600 ∷ log 899 ∷ log 905 ∷ []

abbrev channel : ChannelMirror plain
channel = record { id = 1; balance = 5; status = 2 }

abbrev minutes : List (LogsSummary plain)
minutes = minutes_of plain 1 600 6 logs

minutes_one : select (λ (r : LogsSummary plain). r.channel_id == 1) minutes ≡ minutes
unfolding summary_of
minutes_one = refl

cached_window_is_longer_example :
    (requests_of plain 1 (cached_rows plain true 600 900 minutes (channel ∷ []))
      ≡ count_in 1 600 960 logs)
    × (requests_at plain 1 (raw_rows plain 600 900 logs (channel ∷ [])) ≡ count_in 1 600 900 logs)
cached_window_is_longer_example =
    cached_window_is_longer plain 0 600 6 logs minutes (channel ∷ []) refl (omega arith) minutes_one

-- Three requests against two.
three_against_two : (count_in 1 600 960 logs ≡ 3) × (count_in 1 600 900 logs ≡ 2)
three_against_two = (refl, refl)

abbrev busy : LogsSummary plain
busy = summary_of plain 1 600 logs

abbrev idle : LogsSummary plain
idle = summary_of plain 1 660 []

percentiles_of_busiest_example :
    (r : LogsSummary plain) × Among plain r (idle ∷ busy ∷ [])
    × All (λ o. o.request_count ≤ r.request_count) (idle ∷ busy ∷ [])
    × ((cached_row plain 900 [] (1, idle ∷ busy ∷ [])).p50_latency_ms ≡ r.p50_latency_ms)
    × ((cached_row plain 900 [] (1, idle ∷ busy ∷ [])).p95_latency_ms ≡ r.p95_latency_ms)
    × ((cached_row plain 900 [] (1, idle ∷ busy ∷ [])).p99_latency_ms ≡ r.p99_latency_ms)
percentiles_of_busiest_example = percentiles_of_busiest plain 900 1 idle (busy ∷ []) []

abbrev all_well : Calls
all_well = record {
  has_ro = true;
  has_ops = true;
  sums = true;
  details = true;
  channels = true;
  logs = true;
  upsert_5min = true;
  upsert_1h = true;
}

abbrev sources : Sources plain
sources = record { minutes = minutes; logs = logs; channels = channel ∷ [] }

abbrev no_rows : HealthTables plain
no_rows = record { five_min = []; one_hour = [] }

tick_keeps_the_past_example :
    (600 ≢ floor_to_bucket 960 bucket_5min
      → lookup key_discrete
          (1, 600)
          (run_tick plain all_well 960 0 false sources no_rows).1.five_min
        ≡ lookup key_discrete (1, 600) no_rows.five_min)
    × (600 ≢ floor_to_bucket 960 bucket_1h
        → lookup key_discrete
            (1, 600)
            (run_tick plain all_well 960 0 false sources no_rows).1.one_hour
          ≡ lookup key_discrete (1, 600) no_rows.one_hour)
tick_keeps_the_past_example = tick_keeps_the_past plain all_well 960 0 1 600 false sources no_rows
