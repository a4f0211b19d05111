-- ===== src/Summary/Sync.antt =====
-- syncLogsSummary, LogsSummaryOnce and the prunes, with the tables that they write.
use mathlib.Core.HLevel.{×_discrete}
use api_ops.Common.{
  ℕ, ◌+◌, ◌-◌, ◌*◌, Bool, true, false, ◌&&◌, List, [], ◌∷◌, String, String_discrete, ℕ_discrete,
  leb, ltb, ◌==◌, if◌then◌else◌, length, select, upsert,
}
use api_ops.Summary.Rows.{
  Figures, Log, LogsSummary, LogsSummaryByModel, ChannelVendorMap, bucket_of, aggregate_one,
  aggregate_by_channel, aggregate_by_model,
}

-- The unique index of cache_logs_summary_5min, (channel_id, bucket_ts).
abbrev pub Key : Type 0
Key = ℕ × ℕ

abbrev pub key_discrete : Discrete Key
key_discrete = ×_discrete ℕ_discrete ℕ_discrete

-- (bucket_ts, channel_id, model_name)
abbrev pub ModelKey : Type 0
ModelKey = ℕ × (ℕ × String)

abbrev pub model_key_discrete : Discrete ModelKey
model_key_discrete = ×_discrete ℕ_discrete (×_discrete ℕ_discrete String_discrete)

-- Which connections there are and which calls succeed during a sync.
pub record Calls : Type 0 where
  pub has_ro : Bool
  pub global : Bool
  pub by_channel : Bool
  pub upsert_rows : Bool
  pub mappings : Bool
  pub by_model : Bool
  pub upsert_models : Bool

module _ (fg : Figures) where
  -- The two tables, their rows behind their keys.
  pub record Cache : Type 0 where
    pub minutes : List (Key × LogsSummary fg)
    pub models : List (ModelKey × LogsSummaryByModel fg)

  -- How many rows are reported, and whether an error is returned.
  pub record Synced : Type 0 where
    pub rows : ℕ
    pub failed : Bool
    pub cache : Cache

  abbrev pub keyed : List (LogsSummary fg) → List (Key × LogsSummary fg)
  keyed [] = []
  keyed (r ∷ rows) = ((r.channel_id, r.bucket_ts), r) ∷ keyed rows

  abbrev pub model_keyed : List (LogsSummaryByModel fg) → List (ModelKey × LogsSummaryByModel fg)
  model_keyed [] = []
  model_keyed (r ∷ rows) = ((r.bucket_ts, (r.channel_id, r.model_name)), r) ∷ model_keyed rows

  unfoldable pub upsert_logs_summary : List (LogsSummary fg) → Cache → Cache
  upsert_logs_summary rows c = record c { minutes = upsert key_discrete (keyed rows) c.minutes }

  unfoldable pub upsert_by_model : List (LogsSummaryByModel fg) → Cache → Cache
  upsert_by_model rows c = record c {
    models = upsert model_key_discrete (model_keyed rows) c.models;
  }

  failure : Cache → Synced
  failure c = record { rows = 0; failed = true; cache = c }

  -- The part by model, after `n` rows; its errors are dropped.
  unfoldable pub sync_models : Calls → List ChannelVendorMap → ℕ → ℕ → List Log → Cache → Synced
  sync_models calls maps n start logs c =
      let rows = aggregate_by_model fg maps start (start + 60) logs in
      if calls.mappings && calls.by_model && ltb 0 (length rows) && calls.upsert_models
      then record { rows = n + length rows; failed = false; cache = upsert_by_model rows c }
      else record { rows = n; failed = false; cache = c }

  unfoldable pub summary_rows : ℕ → List Log → List (LogsSummary fg)
  summary_rows start logs =
      aggregate_one fg 0 start (start + 60) logs ∷ aggregate_by_channel fg start (start + 60) logs

  unfoldable pub sync_logs_summary : Calls → List ChannelVendorMap → ℕ → List Log → Cache → Synced
  unfolding failure
  sync_logs_summary calls maps now logs c =
      let start = bucket_of now in
      let rows = summary_rows start logs in
      if calls.has_ro
      then (if calls.global && calls.by_channel && calls.upsert_rows
          then sync_models calls maps (length rows) start logs (upsert_logs_summary rows c)
          else failure c)
      else record { rows = 0; failed = false; cache = c }

  -- A tick of the loop: what one call of the sync finds.
  pub record Tick : Type 0 where
    pub calls : Calls
    pub maps : List ChannelVendorMap
    pub now : ℕ

  -- The logs that are there at a time, of all that are ever written.
  abbrev pub written_by : ℕ → List Log → List Log
  written_by now logs = select (λ r. leb r.created_at now) logs

  unfoldable pub run_tick : Tick → List Log → Cache → Cache
  run_tick t logs c = (sync_logs_summary t.calls t.maps t.now (written_by t.now logs) c).cache

  abbrev pub retention : ℕ → ℕ
  retention days = if days == 0 then 7 else days

  -- PruneOldSummary, with the number of rows; `days` is not negative.
  unfoldable pub prune_old_summary : ℕ → ℕ → Cache → ℕ × Cache
  prune_old_summary days now c =
      let kept = select (λ e. leb (now - retention days * 86400) e.0.1) c.minutes in
      (length c.minutes - length kept, record c { minutes = kept })

  -- Ticks of the loop, and calls of pruneLogsSummary with the days and the time, of which the program makes
  -- none.
  pub data Event : Type 0 where
    ticks : Tick → Event
    prunes : ℕ → ℕ → Event

  unfoldable pub run_event : Event → List Log → Cache → Cache
  unfolding run_tick prune_old_summary
  run_event (ticks t) logs c = run_tick t logs c
  run_event (prunes days now) logs c = (prune_old_summary days now c).1

  unfoldable pub run_events : List Event → List Log → Cache → Cache
  unfolding run_event
  run_events [] logs c = c
  run_events (e ∷ es) logs c = run_events es logs (run_event e logs c)
