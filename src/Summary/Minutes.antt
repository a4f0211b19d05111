-- ===== src/Summary/Minutes.antt =====
-- What the minute table holds after a sync and after a sequence of ticks.
use api_ops.Common.{
  ℕ, zero, suc, ◌+◌, ◌≡◌, refl, ap, ◌∙◌, Bool, true, false, ◌&&◌, Option, none, some, List, [], ◌∷◌,
  map, lookup, ite, if_pos, if_neg, ℕ_discrete, ltb, ◌==◌, if◌then◌else◌, arith, select,
  select-select, length, rows_of, append_row, some_rows, or_else, lookup-group_by,
  group_by-KeysDistinct, lookup-upsert, KeysDistinct, upsert,
}
use api_ops.Summary.Rows.{
  Figures, Log, LogsSummary, ChannelVendorMap, in_window, bucket_of, summary_of, aggregate_one,
  channel_groups, aggregate_by_channel,
}
use api_ops.Summary.Sync.{
  Key, key_discrete, Calls, Cache, keyed, summary_rows, sync_models, sync_logs_summary,
  upsert_logs_summary, upsert_by_model,
}

bucket_of-bucket_of : (t : ℕ) → bucket_of (bucket_of t) ≡ bucket_of t
unfolding bucket_of
bucket_of-bucket_of t = omega arith

ite-key :
    {C : Type 0} (c b c' b' : ℕ) (x y : C)
    → ite (key_discrete (c, b) (c', b')) x y ≡ (if c == c' then (if b == b' then x else y) else y)
ite-key c b c' b' x y = elim (ℕ_discrete c c') [
  | yes p ↦ elim (ℕ_discrete b b') [
    | yes q ↦ if_pos _ (rw (p, q) refl) x y ∙ ground (arith, p, q)
    | no q ↦ if_neg _ (λ e. q (ap (λ k. k.1) e)) x y ∙ ground (arith, p, q)
  ]
  | no p ↦ if_neg _ (λ e. p (ap (λ k. k.0) e)) x y ∙ ground (arith, p)
]

pub select-same :
    {R : Type 0} (p q : R → Bool) (rs : List R) → ((r : R) → p r ≡ q r) → select p rs ≡ select q rs
select-same p q [] h = refl
select-same p q (r ∷ rs) h = ground (arith, h r, select-same p q rs h)

rows_of-channel :
    (c : ℕ) (rs : List Log)
    → rows_of {V = List Log} ℕ_discrete (λ r. r.channel_id) append_row c rs
      ≡ select (λ r. r.channel_id == c) rs
rows_of-channel c [] = refl
rows_of-channel c (r ∷ rs) = ground (arith, rows_of-channel c rs)

-- The logs of one minute and one channel; 0 stands for all channels.
abbrev pub logs_of : ℕ → ℕ → List Log → List Log
logs_of zero start logs = select (in_window start (start + 60)) logs
logs_of (suc c) start logs =
    select (λ r. in_window start (start + 60) r && r.channel_id == suc c) logs

group-logs_of :
    (c start : ℕ) (logs : List Log)
    → lookup ℕ_discrete (suc c) (channel_groups start (start + 60) logs)
      ≡ some_rows (logs_of (suc c) start logs)
unfolding channel_groups
group-logs_of c start logs =
    lookup-group_by ℕ_discrete (λ r. r.channel_id) (suc c) _
    ∙ ap some_rows (
        rows_of-channel (suc c) _
        ∙ select-select _ _ logs
        ∙ select-same
            (λ r. in_window start (start + 60) r && ltb 0 r.channel_id && r.channel_id == suc c) _
            logs (λ r. ground arith))

group-zero :
    (start : ℕ) (logs : List Log)
    → lookup ℕ_discrete 0 (channel_groups start (start + 60) logs) ≡ none
unfolding channel_groups
group-zero start logs =
    lookup-group_by ℕ_discrete (λ r. r.channel_id) 0
      (select (λ r. in_window start (start + 60) r && ltb 0 r.channel_id) logs)
    ∙ ap some_rows (
        rows_of-channel 0 (select (λ r. in_window start (start + 60) r && ltb 0 r.channel_id) logs)
        ∙ select-select (λ r. r.channel_id == 0)
            (λ r. in_window start (start + 60) r && ltb 0 r.channel_id) logs
        ∙ select-same
            (λ r. in_window start (start + 60) r && ltb 0 r.channel_id && r.channel_id == 0)
            (λ r. false) logs (λ r. ground arith)
        ∙ select_none logs)
  where
    select_none : (rs : List Log) → select (λ r. false) rs ≡ []
    select_none [] = refl
    select_none (r ∷ rs) = select_none rs

-- The connection is there, and the calls for the table of minutes succeed.
pub record TableWorks (calls : Calls) : Type 0 where
  pub has_ro : calls.has_ro ≡ true
  pub global : calls.global ≡ true
  pub by_channel : calls.by_channel ≡ true
  pub upsert_rows : calls.upsert_rows ≡ true

module _ (fg : Figures) where
  abbrev pub found_summary : ℕ → ℕ → Option (List Log) → Option (LogsSummary fg)
  found_summary c start none = none
  found_summary c start (some rows) = some (summary_of fg c start rows)

  summary-keys :
      (c start : ℕ) (rows : List Log)
      → ((summary_of fg c start rows).channel_id ≡ c)
        × ((summary_of fg c start rows).bucket_ts ≡ bucket_of start)
  unfolding summary_of
  summary-keys c start rows = (refl, refl)

  abbrev rows_of_groups : ℕ → List (ℕ × List Log) → List (LogsSummary fg)
  rows_of_groups start gs = map (λ g. summary_of fg g.0 start g.1) gs

  lookup-keyed :
      (c b start : ℕ) (gs : List (ℕ × List Log))
      → lookup key_discrete (c, b) (keyed fg (rows_of_groups start gs))
        ≡ (if b == bucket_of start then found_summary c start (lookup ℕ_discrete c gs) else none)
  unfolding lookup
  lookup-keyed c b start [] = ground arith
  lookup-keyed c b start ((d, rs) ∷ gs) =
      let (e, f) = summary-keys d start rs in
      rw (e, f)
        (ground (
          arith,
          ite-key c b d (bucket_of start) (some (summary_of fg d start rs))
              (lookup key_discrete (c, b) (keyed fg (rows_of_groups start gs))),
          lookup-keyed c b start gs,
        ))

  keyed-KeysDistinct :
      (start : ℕ) (gs : List (ℕ × List Log))
      → KeysDistinct ℕ_discrete gs
      → KeysDistinct key_discrete (keyed fg (rows_of_groups start gs))
  keyed-KeysDistinct start [] h = tt
  keyed-KeysDistinct start ((d, rs) ∷ gs) h =
      let (e, f) = summary-keys d start rs in
      (
        rw (e, f) (lookup-keyed d (bucket_of start) start gs ∙ rw (h.0) (ground arith)),
        keyed-KeysDistinct start gs h.1,
      )

  -- The row of a minute and a channel; channels have one only where they have logs.
  abbrev pub minute_row : ℕ → ℕ → List Log → Option (LogsSummary fg)
  minute_row zero start logs = some (summary_of fg 0 start (logs_of 0 start logs))
  minute_row (suc c) start logs =
      found_summary (suc c) start (some_rows (logs_of (suc c) start logs))

  -- The groups of a sync, that of all logs among them.
  abbrev all_groups : ℕ → List Log → List (ℕ × List Log)
  all_groups start logs = (0, logs_of 0 start logs) ∷ channel_groups start (start + 60) logs

  rows-all_groups :
      (start : ℕ) (logs : List Log)
      → summary_rows fg start logs ≡ rows_of_groups start (all_groups start logs)
  unfolding summary_rows aggregate_one aggregate_by_channel
  rows-all_groups start logs = refl

  lookup-all_groups :
      (c start : ℕ) (logs : List Log)
      → found_summary c start (lookup ℕ_discrete c (all_groups start logs))
        ≡ minute_row c start logs
  unfolding lookup
  lookup-all_groups zero start logs = ground arith
  lookup-all_groups (suc c) start logs = ground (arith, group-logs_of c start logs)

  all_groups-KeysDistinct :
      (start : ℕ) (logs : List Log) → KeysDistinct ℕ_discrete (all_groups start logs)
  unfolding channel_groups
  all_groups-KeysDistinct start logs = (
    group-zero start logs,
    group_by-KeysDistinct {R = Log} ℕ_discrete (λ r. r.channel_id)
        (select (λ r. in_window start (start + 60) r && ltb 0 r.channel_id) logs),
  )

  lookup-upserted :
      (c b start : ℕ) (logs : List Log) (table : List (Key × LogsSummary fg))
      → lookup key_discrete
          (c, b)
          (upsert key_discrete (keyed fg (summary_rows fg start logs)) table)
        ≡ or_else
            (if b == bucket_of start then minute_row c start logs else none)
            (lookup key_discrete (c, b) table)
  lookup-upserted c b start logs table = rw (rows-all_groups start logs) (
      lookup-upsert key_discrete (c, b) _ table
        (keyed-KeysDistinct start (all_groups start logs) (all_groups-KeysDistinct start logs))
      ∙ ap (λ o. or_else o (lookup key_discrete (c, b) table))
          (lookup-keyed c b start (all_groups start logs)
            ∙ ap (λ o. if b == bucket_of start then o else none) (lookup-all_groups c start logs)))

  models-keep-minutes :
      (calls : Calls) (maps : List ChannelVendorMap) (n start : ℕ) (logs : List Log) (m : Cache fg)
      → ((sync_models fg calls maps n start logs m).cache.minutes ≡ m.minutes)
        × ((sync_models fg calls maps n start logs m).failed ≡ false)
  unfolding sync_models upsert_by_model
  models-keep-minutes calls maps n start logs m = ground arith

  sync-minutes :
      (calls : Calls) (maps : List ChannelVendorMap) (now : ℕ) (logs : List Log) (m : Cache fg)
      → TableWorks calls
      → ((sync_logs_summary fg calls maps now logs m).failed ≡ false)
        × ((sync_logs_summary fg calls maps now logs m).cache.minutes
            ≡ upsert key_discrete (keyed fg (summary_rows fg (bucket_of now) logs)) m.minutes)
  unfolding sync_logs_summary upsert_logs_summary
  sync-minutes calls maps now logs m w =
      let start = bucket_of now in
      let rows = summary_rows fg start logs in
      ground (
        arith,
        w.has_ro,
        w.global,
        w.by_channel,
        w.upsert_rows,
        models-keep-minutes calls maps (length rows) start logs (upsert_logs_summary fg rows m),
      )

  -- A sync at `now` that can read the logs and write the table of minutes does not fail, whatever
  -- happens to the part by model. For the minute of `now` it leaves under channel 0 the summary of all
  -- logs of the minute and under another channel the summary of its logs, if it has any; every other
  -- row stays as it was.
  pub sync_writes_minute :
      (calls : Calls) (maps : List ChannelVendorMap) (now : ℕ) (logs : List Log) (m : Cache fg)
      → TableWorks calls
      → ((sync_logs_summary fg calls maps now logs m).failed ≡ false)
        × ((c b : ℕ)
            → lookup key_discrete (c, b) (sync_logs_summary fg calls maps now logs m).cache.minutes
              ≡ or_else
                  (if b == bucket_of now then minute_row c (bucket_of now) logs else none)
                  (lookup key_discrete (c, b) m.minutes))
  sync_writes_minute calls maps now logs m w =
      let (f, e) = sync-minutes calls maps now logs m w in
      (
        f,
        λ c b.
            ap (λ t. lookup key_discrete (c, b) t) e
            ∙ lookup-upserted c b (bucket_of now) logs m.minutes
            ∙ ap
                (λ t.
                  or_else (if b == t then minute_row c (bucket_of now) logs else none)
                    (lookup key_discrete (c, b) m.minutes))
                (bucket_of-bucket_of now),
      )
