-- ===== src/Monitor/Health/Counts.antt =====
-- How many requests the rows of the two aggregations report for a channel.
use api_ops.Common.{
  ℕ, suc, ◌+◌, ◌≤◌, ◌≡◌, refl, sym, ap, ◌∙◌, Bool, true, not, ◌&&◌, Option, none, some, List, [],
  ◌∷◌, map, lookup, if_pos, if_neg, ℕ_discrete, leb, ltb, ◌==◌, if◌then◌else◌, arith, select,
  select-select, total, group_by, rows_of, append_row, some_rows, lookup-group_by,
  group_by-KeysDistinct, KeysDistinct,
}
use api_ops.Summary.Rows.{Figures, Log, LogsSummary, in_window, channel_groups}
use api_ops.Monitor.Health.Rows.{
  ChannelMirror, ChannelAggRow, minute_groups, cached_row, cached_groups, cached_rows, raw_row,
  raw_rows,
}

pub select-agree :
    {R : Type 0} (p q : R → Bool) (rs : List R) → ((r : R) → p r ≡ q r) → select p rs ≡ select q rs
select-agree p q [] h = refl
select-agree p q (r ∷ rs) h = ground (arith, h r, select-agree p q rs h)

-- How many logs of the channel are created from `start` to before `end`.
abbrev pub count_in : ℕ → ℕ → ℕ → List Log → ℕ
count_in c start end logs =
    total (λ r. 1) (select (λ r. in_window start end r && r.channel_id == c) logs)

pub count_in-empty : (c s e : ℕ) (logs : List Log) → e ≤ s → count_in c s e logs ≡ 0
count_in-empty c s e [] h = refl
count_in-empty c s e (r ∷ logs) h = ground (arith, count_in-empty c s e logs h)

pub count_in-split :
    (c s m e : ℕ) (logs : List Log)
    → s ≤ m
    → m ≤ e
    → count_in c s m logs + count_in c m e logs ≡ count_in c s e logs
count_in-split c s m e [] h k = refl
count_in-split c s m e (r ∷ logs) h k = ground (arith, count_in-split c s m e logs h k)

-- A sum over the groups that takes one key only.
abbrev weigh : {V : Type 0} → (List V → ℕ) → Option (List V) → ℕ
weigh w none = 0
weigh w (some rows) = w rows

total-key :
    {V : Type 0} (w : List V → ℕ) (c : ℕ) (m : List (ℕ × List V))
    → KeysDistinct ℕ_discrete m
    → total (λ g. if g.0 == c then w g.1 else 0) m ≡ weigh w (lookup ℕ_discrete c m)
unfolding lookup
total-key w c [] h = refl
total-key w c ((k, v) ∷ m) h = elim (ℕ_discrete c k) [
  | yes p ↦
      let e : lookup ℕ_discrete c m ≡ none = rw p h.0 in
      rw (if_pos _ p) (ground (arith, total-key w c m h.1, e, p))
  | no p ↦ rw (if_neg _ p) (ground (arith, total-key w c m h.1, p))
]

rows_of-key :
    {R : Type 0} (key : R → ℕ) (c : ℕ) (rs : List R)
    → rows_of {V = List R} ℕ_discrete key append_row c rs ≡ select (λ r. key r == c) rs
rows_of-key key c [] = refl
rows_of-key key c (r ∷ rs) = ground (arith, rows_of-key key c rs)

weigh-some_rows :
    {V : Type 0} (w : List V → ℕ) (rows : List V) → w [] ≡ 0 → weigh w (some_rows rows) ≡ w rows
weigh-some_rows w [] z = sym z
weigh-some_rows w (r ∷ rows) z = refl

-- The same over the groups of GROUP BY.
total-group_by :
    {R : Type 0} (key : R → ℕ) (w : List R → ℕ) (c : ℕ) (rs : List R)
    → w [] ≡ 0
    → total (λ g. if g.0 == c then w g.1 else 0) (group_by ℕ_discrete key rs)
      ≡ w (select (λ r. key r == c) rs)
total-group_by key w c rs z =
    total-key w c (group_by ℕ_discrete key rs) (group_by-KeysDistinct ℕ_discrete key rs)
    ∙ ap (weigh w) (lookup-group_by ℕ_discrete key c rs ∙ ap some_rows (rows_of-key key c rs))
    ∙ weigh-some_rows w (select (λ r. key r == c) rs) z

module _ (fg : Figures) where
  -- The requests that rows report for a channel.
  abbrev pub requests_at : ℕ → List (ChannelAggRow fg) → ℕ
  requests_at c rows = total (λ r. if r.channel_id == c then r.request_count else 0) rows

  abbrev pub requests_of : ℕ → Option (List (ChannelAggRow fg)) → ℕ
  requests_of c none = 0
  requests_of c (some rows) = requests_at c rows

  requests-passed :
      (c : ℕ) (rows : List (ChannelAggRow fg))
      → requests_at c (select (λ r. not (r.request_count == 0)) rows) ≡ requests_at c rows
  requests-passed c [] = refl
  requests-passed c (r ∷ rows) = ground (arith, requests-passed c rows)

  raw-figures :
      (bucket : ℕ) (chs : List (ChannelMirror fg)) (g : ℕ × List Log)
      → ((raw_row fg bucket chs g).channel_id ≡ g.0)
        × ((raw_row fg bucket chs g).request_count ≡ total (λ r. 1) g.1)
  unfolding raw_row
  raw-figures bucket chs g = (refl, refl)

  cached-figures :
      (bucket : ℕ) (chs : List (ChannelMirror fg)) (g : ℕ × List (LogsSummary fg))
      → ((cached_row fg bucket chs g).channel_id ≡ g.0)
        × ((cached_row fg bucket chs g).request_count ≡ total (λ r. r.request_count) g.1)
  unfolding cached_row
  cached-figures bucket chs g = (refl, refl)

  requests-raw :
      (c bucket : ℕ) (chs : List (ChannelMirror fg)) (gs : List (ℕ × List Log))
      → requests_at c (map (raw_row fg bucket chs) gs)
        ≡ total (λ g. if g.0 == c then total (λ r. 1) g.1 else 0) gs
  requests-raw c bucket chs [] = refl
  requests-raw c bucket chs (g ∷ gs) =
      ground (arith, raw-figures bucket chs g, requests-raw c bucket chs gs)

  requests-cached :
      (c bucket : ℕ) (chs : List (ChannelMirror fg)) (gs : List (ℕ × List (LogsSummary fg)))
      → requests_at c (map (cached_row fg bucket chs) gs)
        ≡ total (λ g. if g.0 == c then total (λ r. r.request_count) g.1 else 0) gs
  requests-cached c bucket chs [] = refl
  requests-cached c bucket chs (g ∷ gs) =
      ground (arith, cached-figures bucket chs g, requests-cached c bucket chs gs)

  pub raw_counts :
      (c start bucket : ℕ) (logs : List Log) (chs : List (ChannelMirror fg))
      → requests_at (suc c) (raw_rows fg start bucket logs chs) ≡ count_in (suc c) start bucket logs
  unfolding raw_rows channel_groups
  raw_counts c start bucket logs chs =
      let p : Log → Bool = λ r. in_window start bucket r && ltb 0 r.channel_id in
      requests-passed (suc c) (map (raw_row fg bucket chs) (channel_groups start bucket logs))
      ∙ requests-raw (suc c) bucket chs (channel_groups start bucket logs)
      ∙ total-group_by (λ r. r.channel_id) (total (λ r. 1)) (suc c) (select p logs) refl
      ∙ ap (total (λ r. 1)) (
          select-select (λ r. r.channel_id == suc c) p logs
          ∙ select-agree
              (λ r. (in_window start bucket r && ltb 0 r.channel_id) && r.channel_id == suc c)
              (λ r. in_window start bucket r && r.channel_id == suc c) logs (λ r. ground arith))

  groups-cached :
      (c bucket : ℕ) (chs : List (ChannelMirror fg)) (gs : List (ℕ × List (LogsSummary fg)))
      → requests_of c (cached_groups fg true bucket chs gs)
        ≡ total (λ g. if g.0 == c then total (λ r. r.request_count) g.1 else 0) gs
  unfolding cached_groups
  groups-cached c bucket chs [] = refl
  groups-cached c bucket chs (g ∷ gs) =
      requests-passed c (map (cached_row fg bucket chs) (g ∷ gs))
      ∙ requests-cached c bucket chs (g ∷ gs)

  pub cached_counts :
      (c start bucket : ℕ) (minutes : List (LogsSummary fg)) (chs : List (ChannelMirror fg))
      → requests_of (suc c) (cached_rows fg true start bucket minutes chs)
        ≡ total
            (λ r. r.request_count)
            (select
              (λ r. leb start r.bucket_ts && leb r.bucket_ts bucket)
              (select (λ r. r.channel_id == suc c) minutes))
  unfolding cached_rows minute_groups
  cached_counts c start bucket minutes chs =
      let p : LogsSummary fg → Bool =
        λ r. (leb start r.bucket_ts && leb r.bucket_ts bucket) && ltb 0 r.channel_id in
      let q : LogsSummary fg → Bool = λ r. leb start r.bucket_ts && leb r.bucket_ts bucket in
      groups-cached (suc c) bucket chs (minute_groups fg start bucket minutes)
      ∙ total-group_by (λ r. r.channel_id) (total (λ r. r.request_count)) (suc c) (select p minutes)
          refl
      ∙ ap (total (λ r. r.request_count)) (
          select-select (λ r. r.channel_id == suc c) p minutes
          ∙ select-agree (λ r. p r && r.channel_id == suc c) (λ r. r.channel_id == suc c && q r)
              minutes (λ r. ground arith)
          ∙ sym (select-select q (λ r. r.channel_id == suc c) minutes))
