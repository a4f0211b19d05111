-- ===== src/Summary/Ticks.antt =====
-- Sequences of ticks, each of which sees the logs that are written by its time.
use api_ops.Common.{
  ℕ, ◌+◌, ◌*◌, ◌/◌, ◌≡◌, ◌≢◌, ◌-◌, refl, sym, ap, ◌∙◌, ◌⊎◌, inl, inr, Bool, true, false, ◌&&◌, some,
  List, [], ◌∷◌, lookup, leb, Bool-cases, arith, select, select-select, All,
}
use api_ops.Summary.Rows.{Figures, Log, ChannelVendorMap, in_window, bucket_of, summary_of}
use api_ops.Summary.Sync.{
  key_discrete, Calls, Cache, sync_logs_summary, Tick, written_by, Event, ticks, prunes, retention,
  prune_old_summary, run_tick, run_event, run_events,
}
use api_ops.Summary.Minutes.{TableWorks, sync_writes_minute, logs_of, select-same}

works_or_not :
    (calls : Calls)
    → TableWorks calls
      ⊎ ((calls.has_ro && calls.global && calls.by_channel && calls.upsert_rows) ≡ false)
works_or_not calls =
    elim (Bool-cases (calls.has_ro && calls.global && calls.by_channel && calls.upsert_rows)) [
      | inl e ↦ inl (record {
        has_ro = ground (arith, e);
        global = ground (arith, e);
        by_channel = ground (arith, e);
        upsert_rows = ground (arith, e);
      })
      | inr e ↦ inr e
    ]

-- A selection that keeps a key keeps what is behind it.
lookup-select :
    {K V : Type 0} (dec : Discrete K) (keep : K → Bool) (k : K)
    → keep k ≡ true
    → (m : List (K × V)) → lookup dec k (select (λ e. keep e.0) m) ≡ lookup dec k m
unfolding lookup
lookup-select dec keep k h [] = refl
lookup-select dec keep k h ((j, v) ∷ m) = elim (dec k j) [
  | yes e ↦
      let kept : keep j ≡ true = ap keep (sym e) ∙ h in
      ground (arith, kept, e, lookup-select dec keep k h m)
  | no n ↦ ground (arith, n, lookup-select dec keep k h m)
]

module _ (fg : Figures) where
  sync-idle :
      (calls : Calls) (maps : List ChannelVendorMap) (now : ℕ) (logs : List Log) (m : Cache fg)
      → (calls.has_ro && calls.global && calls.by_channel && calls.upsert_rows) ≡ false
      → sync_logs_summary fg calls maps now logs m
        ≡ record { rows = 0; failed = calls.has_ro; cache = m }
  unfolding sync_logs_summary
  sync-idle calls maps now logs m n = ground (arith, n)

  -- Ticks that fall in other minutes leave the rows of this one.
  tick-keeps :
      (t : Tick fg) (c b : ℕ) (logs : List Log) (m : Cache fg)
      → b ≢ bucket_of (t.now)
      → lookup key_discrete (c, b) (run_tick fg t logs m).minutes
        ≡ lookup key_discrete (c, b) m.minutes
  unfolding run_tick
  tick-keeps t c b logs m h = elim (works_or_not t.calls) [
    | inl w ↦
        (sync_writes_minute fg t.calls t.maps t.now (written_by fg t.now logs) m w).1 c b
        ∙ ground (arith, h)
    | inr n ↦
        ap (λ r. lookup key_discrete (c, b) r.cache.minutes)
          (sync-idle t.calls t.maps t.now (written_by fg t.now logs) m n)
  ]

  prune-keeps :
      (days now c b : ℕ) (logs : List Log) (m : Cache fg)
      → leb (now - retention fg days * 86400) b ≡ true
      → lookup key_discrete (c, b) (prune_old_summary fg days now m).1.minutes
        ≡ lookup key_discrete (c, b) m.minutes
  unfolding prune_old_summary
  prune-keeps days now c b logs m h =
      lookup-select key_discrete (λ k. leb (now - retention fg days * 86400) k.1) (c, b) h m.minutes

  -- A tick of another minute, or a prune that still keeps this one.
  abbrev pub Spares : ℕ → Event fg → Type 0
  Spares b (ticks t) = b ≢ bucket_of t.now
  Spares b (prunes days now) = leb (now - retention fg days * 86400) b ≡ true

  events-keep :
      (es : List (Event fg)) (c b : ℕ) (logs : List Log) (m : Cache fg)
      → All (Spares b) es
      → lookup key_discrete (c, b) (run_events fg es logs m).minutes
        ≡ lookup key_discrete (c, b) m.minutes
  unfolding run_events run_event
  events-keep [] c b logs m h = refl
  events-keep (ticks t ∷ es) c b logs m h =
      events-keep es c b logs (run_tick fg t logs m) h.1 ∙ tick-keeps t c b logs m h.0
  events-keep (prunes days now ∷ es) c b logs m h =
      events-keep es c b logs (prune_old_summary fg days now m).1 h.1
      ∙ prune-keeps days now c b logs m h.0

  written-window :
      (now : ℕ) (logs : List Log)
      → logs_of 0 (bucket_of now) (written_by fg now logs)
        ≡ select (λ r. leb (bucket_of now) r.created_at && leb r.created_at now) logs
  unfolding bucket_of
  written-window now logs =
      select-select (in_window (now / 60 * 60) (now / 60 * 60 + 60)) (λ r. leb r.created_at now)
        logs
      ∙ select-same (λ r. leb r.created_at now && in_window (now / 60 * 60) (now / 60 * 60 + 60) r)
          (λ r. leb (now / 60 * 60) r.created_at && leb r.created_at now) logs (λ r. ground arith)

  -- The last tick of a minute that can read the logs and write the table of minutes decides: whatever ticks
  -- of other minutes follow, and whatever prunes whose retention the minute has not left, the row of all
  -- channels for that minute is the summary of the logs that were created from the start of the minute up to
  -- the second of that tick, and of none that the minute has after it.
  pub last_tick_decides :
      (t : Tick fg) (later : List (Event fg)) (logs : List Log) (m : Cache fg)
      → TableWorks t.calls
      → All (Spares (bucket_of t.now)) later
      → lookup key_discrete (0, bucket_of (t.now)) (run_events fg (ticks t ∷ later) logs m).minutes
        ≡ some (
            summary_of fg 0
              (bucket_of t.now)
              (select (λ r. leb (bucket_of t.now) r.created_at && leb r.created_at t.now) logs))
  unfolding run_events run_event run_tick
  last_tick_decides t later logs m w h =
      events-keep later 0 (bucket_of t.now) logs (run_tick fg t logs m) h
      ∙ (sync_writes_minute fg t.calls t.maps t.now (written_by fg t.now logs) m w).1 0
          (bucket_of t.now)
      ∙ ground (arith, written-window t.now logs)
