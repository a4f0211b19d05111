-- ===== src/Monitor/Health/Window.antt =====
-- Which time the two aggregations count, and whose percentiles the cached one takes.
use api_ops.Common.{
  ℕ, zero, suc, ◌+◌, ◌*◌, ◌%◌, ◌≤◌, ◌≡◌, refl, sym, ap, ◌∙◌, ◌⊎◌, inl, inr, true, ◌&&◌, some, List,
  [], ◌∷◌, leb, ltb, ◌==◌, arith, dec_le, Bool-cases, All, select, total,
}
use api_ops.Summary.Rows.{Figures, Log, LogsSummary, in_window, bucket_of, summary_of}
use api_ops.Monitor.Health.Rows.{ChannelMirror, cached_row, cached_rows, raw_rows, busiest}
use api_ops.Monitor.Health.Counts.{
  count_in, count_in-empty, count_in-split, requests_at, requests_of, raw_counts, cached_counts,
}

module _ (fg : Figures) where
  -- The rows that the sync writes for a channel in `k` minutes, the first of which begins at `start`.
  abbrev pub minutes_of : ℕ → ℕ → ℕ → List Log → List (LogsSummary fg)
  minutes_of c start zero logs = []
  minutes_of c start (suc k) logs =
      summary_of fg c start (select (λ r. in_window start (start + 60) r && r.channel_id == c) logs)
      ∷ minutes_of c (start + 60) k logs

  abbrev requests_between : ℕ → ℕ → List (LogsSummary fg) → ℕ
  requests_between start bucket rows =
      total (λ r. r.request_count)
        (select (λ r. leb start r.bucket_ts && leb r.bucket_ts bucket) rows)

  summary-requests :
      (c start : ℕ) (rows : List Log)
      → start % 60 ≡ 0
      → ((summary_of fg c start rows).bucket_ts ≡ start)
        × ((summary_of fg c start rows).request_count ≡ total (λ r. 1) rows)
  unfolding summary_of bucket_of
  summary-requests c start rows h = (omega (arith, h), refl)

  minutes_counted :
      (c start bucket t k : ℕ) (logs : List Log)
      → t % 60 ≡ 0
      → bucket % 60 ≡ 0
      → start ≤ t
      → bucket + 60 ≤ t + 60 * k
      → requests_between start bucket (minutes_of c t k logs) ≡ count_in c t (bucket + 60) logs
  minutes_counted c start bucket t zero logs a b h k =
      sym (count_in-empty c t (bucket + 60) logs (omega arith))
  minutes_counted c start bucket t (suc n) logs a b h k =
      let rows = select (λ r. in_window t (t + 60) r && r.channel_id == c) logs in
      let ih =
        minutes_counted c start bucket (t + 60) n logs (omega (arith, a)) b (omega arith)
          (omega arith) in
      elim (dec_le t bucket) [
        | yes p ↦ ground (
          arith,
          summary-requests c t rows a,
          ih,
          p,
          count_in-split c t (t + 60) (bucket + 60) logs (omega arith) (omega (arith, a, b, p)),
        )
        | no p ↦ ground (
          arith,
          summary-requests c t rows a,
          ih,
          p,
          count_in-empty c t (bucket + 60) logs (omega (arith, p, a, b)),
          count_in-empty c (t + 60) (bucket + 60) logs (omega (arith, p, a, b)),
        )
      ]

  -- For a bucket of five minutes that begins at a whole minute, and a cache that holds a channel's
  -- rows of the minutes from `start` on, the bucket's first minute among them: the rows taken from the
  -- cache count the channel's logs of six minutes, up to the end of the minute that begins at the
  -- bucket, where the rows taken from the logs count the five minutes before the bucket.
  pub cached_window_is_longer :
      (c start k : ℕ) (logs : List Log) (minutes : List (LogsSummary fg))
      (chs : List (ChannelMirror fg))
      → start % 60 ≡ 0
      → 6 ≤ k
      → select (λ r. r.channel_id == suc c) minutes ≡ minutes_of (suc c) start k logs
      → (requests_of fg (suc c) (cached_rows fg true start (start + 300) minutes chs)
          ≡ count_in (suc c) start (start + 360) logs)
        × (requests_at fg (suc c) (raw_rows fg start (start + 300) logs chs)
            ≡ count_in (suc c) start (start + 300) logs)
  cached_window_is_longer c start k logs minutes chs a h e = (
    cached_counts fg c start (start + 300) minutes chs
        ∙ ap (requests_between start (start + 300)) e
        ∙ minutes_counted (suc c) start (start + 300) start k logs a (omega (arith, a))
            (omega arith) (omega (arith, h))
        ∙ ap (λ b. count_in (suc c) start b logs) (omega arith),
    raw_counts fg c start (start + 300) logs chs,
  )

  -- A row among rows.
  abbrev pub Among : LogsSummary fg → List (LogsSummary fg) → Type 0
  Among r [] = ⊥
  Among r (q ∷ rows) = (r ≡ q) ⊎ Among r rows

  weaken_counts :
      (n m : ℕ) (rows : List (LogsSummary fg))
      → n ≤ m
      → All (λ o. o.request_count ≤ n) rows
      → All (λ o. o.request_count ≤ m) rows
  weaken_counts n m [] h a = tt
  weaken_counts n m (r ∷ rows) h a = (omega (arith, h, a.0), weaken_counts n m rows h a.1)

  busiest-largest :
      (q : LogsSummary fg) (rows : List (LogsSummary fg))
      → (r : LogsSummary fg) × (busiest fg (q ∷ rows) ≡ some r)
        × Among r (q ∷ rows)
        × All (λ o. o.request_count ≤ r.request_count) (q ∷ rows)
  unfolding busiest
  busiest-largest q [] = (q, refl, inl refl, (omega arith, tt))
  busiest-largest q (p ∷ rows) =
      let (r, e, a, l) = busiest-largest p rows in
      elim (Bool-cases (ltb q.request_count r.request_count)) [
        | inl t ↦ (r, ground (arith, e, t), inr a, (ground (arith, t), l))
        | inr f ↦ (
          q,
          ground (arith, e, f),
          inl refl,
          (
            omega arith,
            weaken_counts r.request_count q.request_count (p ∷ rows) (ground (arith, f)) l,
          ),
        )
      ]

  -- The three percentiles of a channel's row from the cache are those of one of its minutes that has at
  -- least as many requests as every other.
  pub percentiles_of_busiest :
      (bucket c : ℕ) (q : LogsSummary fg) (rows : List (LogsSummary fg))
      (chs : List (ChannelMirror fg))
      → (r : LogsSummary fg) × Among r (q ∷ rows)
        × All (λ o. o.request_count ≤ r.request_count) (q ∷ rows)
        × ((cached_row fg bucket chs (c, q ∷ rows)).p50_latency_ms ≡ r.p50_latency_ms)
        × ((cached_row fg bucket chs (c, q ∷ rows)).p95_latency_ms ≡ r.p95_latency_ms)
        × ((cached_row fg bucket chs (c, q ∷ rows)).p99_latency_ms ≡ r.p99_latency_ms)
  unfolding cached_row
  percentiles_of_busiest bucket c q rows chs =
      let (r, e, a, l) = busiest-largest q rows in
      (r, a, l, ground (arith, e), ground (arith, e), ground (arith, e))
