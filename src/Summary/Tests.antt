-- ===== src/Summary/Tests.antt =====
-- The sync on concrete logs.
use api_ops.Common.{
  ℕ, ◌+◌, ◌/◌, ◌≡◌, ◌≢◌, refl, ap, ◌∙◌, true, false, Option, none, some, List, [], ◌∷◌, lookup,
  if◌then◌else◌, or_else, ◌==◌, arith, length, select, ◌&&◌, leb,
}
use api_ops.Summary.Rows.{Figures, Log, LogsSummary, summary_of, bucket_of}
use api_ops.Summary.Sync.{
  Calls, Cache, Tick, key_discrete, sync_logs_summary, ticks, prunes, run_events,
}
use api_ops.Summary.Minutes.{TableWorks, minute_row, sync_writes_minute}
use api_ops.Summary.Ticks.{last_tick_decides}

-- Rates in ten thousandths.
abbrev plain : Figures
plain = record {
  Float = ℕ;
  zero_rate = 0;
  div = λ a b. if b == 0 then 0 else (a + 0) / b;
  percentile = λ p ts. p;
  average = length;
  json_int = λ k o. 7;
}

abbrev all_well : Calls
all_well = record {
  has_ro = true;
  global = true;
  by_channel = true;
  upsert_rows = true;
  mappings = true;
  by_model = false;
  upsert_models = true;
}

abbrev all_well-TableWorks : TableWorks all_well
all_well-TableWorks = record { has_ro = refl; global = refl; by_channel = refl; upsert_rows = refl }

abbrev log : ℕ → ℕ → ℕ → Log
log t channel ty = record {
  created_at = t;
  channel_id = channel;
  log_type = ty;
  quota = 10;
  prompt_tokens = 3;
  completion_tokens = 4;
  use_time = 2;
  model_name = "m";
  other = "";
}

-- The last comes 20 seconds after the tick, in the same minute.
abbrev logs : List Log
logs = log 600 1 2 ∷ log 610 2 5 ∷ log 620 1 6 ∷ log 640 1 2 ∷ []

abbrev empty : Cache plain
empty = record { minutes = []; models = [] }

abbrev tick_at : ℕ → Tick plain
tick_at t = record { calls = all_well; maps = []; now = t }

later_minute : bucket_of 620 ≢ bucket_of 680
unfolding bucket_of
later_minute = λ e. omega (arith, e)

sync_writes_minute_example :
    ((sync_logs_summary plain all_well [] 620 logs empty).failed ≡ false)
    × ((c b : ℕ)
        → lookup key_discrete
            (c, b)
            (sync_logs_summary plain all_well [] 620 logs empty).cache.minutes
          ≡ or_else
              (if b == bucket_of 620 then minute_row plain c (bucket_of 620) logs else none)
              (lookup key_discrete (c, b) empty.minutes))
sync_writes_minute_example = sync_writes_minute plain all_well [] 620 logs empty all_well-TableWorks

last_tick_decides_example :
    lookup key_discrete
      (0, bucket_of 620)
      (run_events plain
        (ticks (tick_at 620) ∷ ticks (tick_at 680) ∷ prunes 7 605400 ∷ [])
        logs
        empty).minutes
    ≡ some (
        summary_of plain 0
          (bucket_of 620)
          (select (λ r. leb (bucket_of 620) r.created_at && leb r.created_at 620) logs))
unfolding bucket_of
last_tick_decides_example =
    last_tick_decides plain (tick_at 620) (ticks (tick_at 680) ∷ prunes 7 605400 ∷ []) logs empty
      all_well-TableWorks (later_minute, (refl, tt))

requests : Option (LogsSummary plain) → ℕ
requests none = 0
requests (some r) = r.request_count

-- Three of the four logs of the minute are in its row when all ticks are done.
three_of_four :
    requests (
      lookup key_discrete
        (0, bucket_of 620)
        (run_events plain
          (ticks (tick_at 620) ∷ ticks (tick_at 680) ∷ prunes 7 605400 ∷ [])
          logs
          empty).minutes)
    ≡ 3
unfolding summary_of requests bucket_of
three_of_four = ap requests last_tick_decides_example ∙ refl
