-- ===== src/Monitor/Health/Writes.antt =====
-- Which rows of the two tables a tick can change.
use api_ops.Common.{
  ℕ, ◌-◌, ◌≡◌, ◌≢◌, refl, ap, ◌∙◌, inl, inr, Bool, true, false, not, ◌&&◌, Option, none, some, List,
  [], ◌∷◌, map, lookup, insert, lookup-insert, if_neg, ◌==◌, if◌then◌else◌, arith, All, select,
  upsert, Bool-cases,
}
use api_ops.Summary.Rows.{Figures, Log, LogsSummary, channel_groups}
use api_ops.Summary.Sync.{Key, key_discrete}
use api_ops.Monitor.Health.Rows.{
  ChannelMirror, ChannelAggRow, to_five_min, to_one_hour, minute_groups, cached_row, cached_groups,
  cached_rows, raw_row, raw_rows,
}
use api_ops.Monitor.Health.{
  bucket_5min, bucket_1h, floor_to_bucket, Calls, Sources, HealthTables, aggregate_from_cache,
  aggregate_raw, or_raw, aggregate, Outcome, write_5min, write_1h, aggregate_channel_health_5min,
  aggregate_channel_health_1h, then_1h, after_1h, failed_tick, done_tick, end_or_now, run_tick,
}

-- Rows under other buckets do not reach a key.
upsert-other :
    {V : Type 0} (c b bucket : ℕ) (rows table : List (Key × V))
    → b ≢ bucket
    → All (λ e. e.0.1 ≡ bucket) rows
    → lookup key_discrete (c, b) (upsert key_discrete rows table) ≡ lookup key_discrete (c, b) table
upsert-other c b bucket [] table n h = refl
upsert-other c b bucket ((k, v) ∷ rows) table n h =
    upsert-other c b bucket rows (insert key_discrete k v table) n h.1
    ∙ lookup-insert key_discrete k (c, b) v table
    ∙ if_neg (key_discrete (c, b) k) (λ e. n (ap (λ (j : Key). j.1) e ∙ h.0)) (some v)
        (lookup key_discrete (c, b) table)

module _ (fg : Figures) where
  abbrev Bucketed : ℕ → List (ChannelAggRow fg) → Type 0
  Bucketed bucket rows = All (λ r. r.bucket_ts ≡ bucket) rows

  select-Bucketed :
      (bucket : ℕ) (p : ChannelAggRow fg → Bool) (rows : List (ChannelAggRow fg))
      → Bucketed bucket rows
      → Bucketed bucket (select p rows)
  select-Bucketed bucket p [] h = tt
  select-Bucketed bucket p (r ∷ rows) h = ground (arith, h.0, select-Bucketed bucket p rows h.1)

  cached-Bucketed :
      (bucket : ℕ) (chs : List (ChannelMirror fg)) (gs : List (ℕ × List (LogsSummary fg)))
      → Bucketed bucket (map (cached_row fg bucket chs) gs)
  unfolding cached_row
  cached-Bucketed bucket chs [] = tt
  cached-Bucketed bucket chs (g ∷ gs) = (refl, cached-Bucketed bucket chs gs)

  raw-Bucketed :
      (bucket : ℕ) (chs : List (ChannelMirror fg)) (gs : List (ℕ × List Log))
      → Bucketed bucket (map (raw_row fg bucket chs) gs)
  unfolding raw_row
  raw-Bucketed bucket chs [] = tt
  raw-Bucketed bucket chs (g ∷ gs) = (refl, raw-Bucketed bucket chs gs)

  abbrev AllBucketed : ℕ → Option (List (ChannelAggRow fg)) → Type 0
  AllBucketed bucket none = Unit
  AllBucketed bucket (some rows) = Bucketed bucket rows

  groups-Bucketed :
      (ok : Bool) (bucket : ℕ) (chs : List (ChannelMirror fg))
      (gs : List (ℕ × List (LogsSummary fg)))
      → AllBucketed bucket (cached_groups fg ok bucket chs gs)
  unfolding cached_groups
  groups-Bucketed ok bucket chs [] = tt
  groups-Bucketed false bucket chs (g ∷ gs) = tt
  groups-Bucketed true bucket chs (g ∷ gs) =
      select-Bucketed bucket (λ r. not (r.request_count == 0))
        (map (cached_row fg bucket chs) (g ∷ gs)) (cached-Bucketed bucket chs (g ∷ gs))

  cache-Bucketed :
      (calls : Calls) (start bucket : ℕ) (src : Sources fg)
      → AllBucketed bucket (aggregate_from_cache fg calls start bucket src)
  unfolding aggregate_from_cache cached_rows
  cache-Bucketed calls start bucket src = ground (
    arith,
    groups-Bucketed (calls.details && calls.channels) bucket src.channels
        (minute_groups fg start bucket src.minutes),
  )

  all-raw-Bucketed :
      (start bucket : ℕ) (src : Sources fg)
      → Bucketed bucket (raw_rows fg start bucket src.logs src.channels)
  unfolding raw_rows
  all-raw-Bucketed start bucket src =
      select-Bucketed bucket (λ r. not (r.request_count == 0))
        (map (raw_row fg bucket src.channels) (channel_groups start bucket src.logs))
        (raw-Bucketed bucket src.channels (channel_groups start bucket src.logs))

  logs-Bucketed :
      (calls : Calls) (start bucket : ℕ) (src : Sources fg)
      → AllBucketed bucket (aggregate_raw fg calls start bucket src)
  unfolding aggregate_raw
  logs-Bucketed calls start bucket src = ground (arith, all-raw-Bucketed start bucket src)

  or-Bucketed :
      (bucket : ℕ) (o : Option (List (ChannelAggRow fg))) (calls : Calls) (start : ℕ)
      (src : Sources fg)
      → AllBucketed bucket o
      → AllBucketed bucket (or_raw fg o calls start bucket src)
  unfolding or_raw
  or-Bucketed bucket none calls start src h = logs-Bucketed calls start bucket src
  or-Bucketed bucket (some rows) calls start src h = h

  aggregate-Bucketed :
      (calls : Calls) (width end_ts : ℕ) (src : Sources fg)
      → AllBucketed (floor_to_bucket end_ts width) (aggregate fg calls width end_ts src)
  unfolding aggregate
  aggregate-Bucketed calls width end_ts src =
      let bucket = floor_to_bucket end_ts width in
      or-Bucketed bucket (aggregate_from_cache fg calls (bucket - width) bucket src) calls
        (bucket - width) src (cache-Bucketed calls (bucket - width) bucket src)

  keyed-bucket :
      {V : Type 0} (bucket : ℕ) (f : ChannelAggRow fg → V) (rows : List (ChannelAggRow fg))
      → Bucketed bucket rows
      → All (λ (e : Key × V). e.0.1 ≡ bucket) (map (λ q. ((q.channel_id, q.bucket_ts), f q)) rows)
  keyed-bucket bucket f [] h = tt
  keyed-bucket bucket f (r ∷ rows) h = (h.0, keyed-bucket bucket f rows h.1)

  write_5min-keeps :
      (calls : Calls) (o : Option (List (ChannelAggRow fg))) (t : HealthTables fg) (bucket c b : ℕ)
      → AllBucketed bucket o
      → ((write_5min fg calls o t).1.one_hour ≡ t.one_hour)
        × (b ≢ bucket
            → lookup key_discrete (c, b) (write_5min fg calls o t).1.five_min
              ≡ lookup key_discrete (c, b) t.five_min)
  unfolding write_5min
  write_5min-keeps calls none t bucket c b h = (refl, λ n. refl)
  write_5min-keeps calls (some []) t bucket c b h = (refl, λ n. refl)
  write_5min-keeps calls (some (r ∷ rs)) t bucket c b h = elim (Bool-cases calls.upsert_5min) [
    | inl e ↦ rw e (
      refl,
      λ n.
          upsert-other c b bucket
            (map (λ q. ((q.channel_id, q.bucket_ts), to_five_min fg q)) (r ∷ rs)) t.five_min n
            (keyed-bucket bucket (to_five_min fg) (r ∷ rs) h),
    )
    | inr e ↦ rw e (refl, λ n. refl)
  ]

  write_1h-keeps :
      (calls : Calls) (o : Option (List (ChannelAggRow fg))) (t : HealthTables fg) (bucket c b : ℕ)
      → AllBucketed bucket o
      → ((write_1h fg calls o t).1.five_min ≡ t.five_min)
        × (b ≢ bucket
            → lookup key_discrete (c, b) (write_1h fg calls o t).1.one_hour
              ≡ lookup key_discrete (c, b) t.one_hour)
  unfolding write_1h
  write_1h-keeps calls none t bucket c b h = (refl, λ n. refl)
  write_1h-keeps calls (some []) t bucket c b h = (refl, λ n. refl)
  write_1h-keeps calls (some (r ∷ rs)) t bucket c b h = elim (Bool-cases calls.upsert_1h) [
    | inl e ↦ rw e (
      refl,
      λ n.
          upsert-other c b bucket
            (map (λ q. ((q.channel_id, q.bucket_ts), to_one_hour fg q)) (r ∷ rs)) t.one_hour n
            (keyed-bucket bucket (to_one_hour fg) (r ∷ rs) h),
    )
    | inr e ↦ rw e (refl, λ n. refl)
  ]

  -- The two tables away from two buckets.
  abbrev Kept : ℕ → ℕ → ℕ → ℕ → HealthTables fg → HealthTables fg → Type 0
  Kept five hour c b t t' =
      (b ≢ five → lookup key_discrete (c, b) t'.five_min ≡ lookup key_discrete (c, b) t.five_min)
      × (b ≢ hour → lookup key_discrete (c, b) t'.one_hour ≡ lookup key_discrete (c, b) t.one_hour)

  if-Kept :
      {A : Type 0} (five hour c b : ℕ) (t : HealthTables fg) (ok : Bool) (x y : A × HealthTables fg)
      → Kept five hour c b t x.1
      → Kept five hour c b t y.1
      → Kept five hour c b t (if ok then x else y).1
  if-Kept five hour c b t true x y h k = h
  if-Kept five hour c b t false x y h k = k

  health_5min-Kept :
      (calls : Calls) (end_ts hour c b : ℕ) (src : Sources fg) (t : HealthTables fg)
      → Kept
          (floor_to_bucket end_ts bucket_5min)
          hour
          c
          b
          t
          (aggregate_channel_health_5min fg calls end_ts src t).1
  unfolding aggregate_channel_health_5min
  health_5min-Kept calls end_ts hour c b src t =
      let bucket = floor_to_bucket end_ts bucket_5min in
      let o = aggregate fg calls bucket_5min end_ts src in
      let (one, five) =
        write_5min-keeps calls o t bucket c b (aggregate-Bucketed calls bucket_5min end_ts src) in
      if-Kept bucket hour c b t calls.has_ro (write_5min fg calls o t) (some 0, t)
        (five, λ n. ap (lookup key_discrete (c, b)) one) (λ n. refl, λ n. refl)

  health_1h-Kept :
      (calls : Calls) (end_ts five c b : ℕ) (src : Sources fg) (t : HealthTables fg)
      → Kept five
          (floor_to_bucket end_ts bucket_1h)
          c
          b
          t
          (aggregate_channel_health_1h fg calls end_ts src t).1
  unfolding aggregate_channel_health_1h
  health_1h-Kept calls end_ts five c b src t =
      let bucket = floor_to_bucket end_ts bucket_1h in
      let o = aggregate fg calls bucket_1h end_ts src in
      let (same, one) =
        write_1h-keeps calls o t bucket c b (aggregate-Bucketed calls bucket_1h end_ts src) in
      if-Kept five bucket c b t calls.has_ro (write_1h fg calls o t) (some 0, t)
        (λ n. ap (lookup key_discrete (c, b)) same, one) (λ n. refl, λ n. refl)

  Kept-trans :
      (five hour c b : ℕ) (t u v : HealthTables fg)
      → Kept five hour c b t u
      → Kept five hour c b u v
      → Kept five hour c b t v
  Kept-trans five hour c b t u v h k = (λ n. k.0 n ∙ h.0 n, λ n. k.1 n ∙ h.1 n)

  after-table : (n : ℕ) (o : Outcome fg) → (after_1h fg n o).1 ≡ o.1
  unfolding after_1h failed_tick done_tick
  after-table n (none, t) = refl
  after-table n (some k, t) = refl

  then-Kept :
      (skip : Bool) (calls : Calls) (end_ts five c b : ℕ) (src : Sources fg) (t : HealthTables fg)
      (o : Outcome fg)
      → Kept five (floor_to_bucket end_ts bucket_1h) c b t o.1
      → Kept five (floor_to_bucket end_ts bucket_1h) c b t (then_1h fg skip calls end_ts src o).1
  unfolding then_1h failed_tick done_tick
  then-Kept skip calls end_ts five c b src t (none, u) h = h
  then-Kept true calls end_ts five c b src t (some n, u) h = h
  then-Kept false calls end_ts five c b src t (some n, u) h =
      rw (after-table n (aggregate_channel_health_1h fg calls end_ts src u)) (
        Kept-trans five (floor_to_bucket end_ts bucket_1h) c b t u
          (aggregate_channel_health_1h fg calls end_ts src u).1 h
          (health_1h-Kept calls end_ts five c b src u))

  -- A tick, whichever of its calls fail, leaves the five-minute table as it was under every other bucket
  -- than that of its time, and the hourly table under every other hour.
  pub tick_keeps_the_past :
      (calls : Calls) (now end_ts c b : ℕ) (skip_hourly : Bool) (src : Sources fg)
      (t : HealthTables fg)
      → (b ≢ floor_to_bucket (end_or_now end_ts now) bucket_5min
          → lookup key_discrete (c, b) (run_tick fg calls now end_ts skip_hourly src t).1.five_min
            ≡ lookup key_discrete (c, b) t.five_min)
        × (b ≢ floor_to_bucket (end_or_now end_ts now) bucket_1h
            → lookup key_discrete (c, b) (run_tick fg calls now end_ts skip_hourly src t).1.one_hour
              ≡ lookup key_discrete (c, b) t.one_hour)
  unfolding run_tick
  tick_keeps_the_past calls now end_ts c b skip_hourly src t =
      let end = end_or_now end_ts now in
      let five = floor_to_bucket end bucket_5min in
      let hour = floor_to_bucket end bucket_1h in
      let o = aggregate_channel_health_5min fg calls end src t in
      if-Kept five hour c b t calls.has_ro (then_1h fg skip_hourly calls end src o)
        (record { buckets_5min = 0; buckets_1h = 0; skipped = true; failed = true }, t)
        (then-Kept skip_hourly calls end five c b src t o
          (health_5min-Kept calls end hour c b src t))
        (λ n. refl, λ n. refl)
