-- ===== src/Billing/Cached/Ticks.antt =====
-- The ticks of internal/billing/upstream_summary_tick.go.
use api_ops.Common.{
  ℕ, zero, suc, ◌+◌, ◌*◌, ◌%◌, Bool, true, false, ◌&&◌, ◌||◌, Option, none, some, List, [], ◌∷◌,
  String, ltb, ◌==◌, if◌then◌else◌, length,
}
use api_ops.Billing.Upstream.Amounts.{Amounts}
use api_ops.Billing.Upstream.{Statement}
use api_ops.Billing.Cached.Rows.{
  current_month, last_month, compute_upstream_bucket, UpstreamSummary, Table,
  upsert_upstream_summary, prune_old_upstream_summary,
}

-- The bounds of the present and the last month at a time.
pub record Months : Type 0 where
  pub current_bounds : ℕ → ℕ × ℕ
  pub last_bounds : ℕ → ℕ × ℕ

pub record UpstreamVendor : Type 0 where
  pub code : String
  pub name : String

pub record TickState : Type 0 where
  pub vendor_idx : ℕ
  pub period_idx : ℕ

pub record Pick : Type 0 where
  pub vendor_code : String
  pub period_label : String
  pub period_start : ℕ
  pub period_end : ℕ

-- The element at an index; the first where there is none.
unfoldable pub at_index : {A : Type 0} → A → List A → ℕ → A
at_index v [] n = v
at_index v (x ∷ xs) zero = x
at_index v (x ∷ xs) (suc n) = at_index v xs n

unfoldable pub advance : ℕ → TickState → TickState
advance count st =
    let next = (st.vendor_idx + 1) % (count * 2) in
    record {
      vendor_idx = next;
      period_idx = if next % count == 0 then (st.period_idx + 1) % 2 else st.period_idx;
    }

unfoldable pub period_of : Months → ℕ → String → ℕ → Pick
period_of ms now vendor p =
    if p % 2 == 0
    then record {
      vendor_code = vendor;
      period_label = current_month;
      period_start = (ms.current_bounds now).0;
      period_end = (ms.current_bounds now).1;
    }
    else record {
      vendor_code = vendor;
      period_label = last_month;
      period_start = (ms.last_bounds now).0;
      period_end = (ms.last_bounds now).1;
    }

-- Nothing where the vendors cannot be listed or there are none.
unfoldable pub pick_next_tick :
    Months → ℕ → Option (List UpstreamVendor) → TickState → Option (Pick × TickState)
unfolding advance period_of
pick_next_tick ms now none st = none
pick_next_tick ms now (some []) st = none
pick_next_tick ms now (some (v ∷ vs)) st =
    let count = length (v ∷ vs) in
    some (
      period_of ms now (at_index v (v ∷ vs) (st.vendor_idx % count)).code st.period_idx,
      advance count st,
    )

module _ (am : Amounts) where
  -- CalcUpstreamStatement for a vendor over a period; nothing for an error.
  abbrev pub Calc : Type 0
  Calc = String → ℕ → ℕ → Option (Statement am)

  unfoldable pub row_of : Pick → ℕ → Statement am → UpstreamSummary am
  row_of p now s = record {
    vendor_code = p.vendor_code;
    period_label = p.period_label;
    period_start = p.period_start;
    period_end = p.period_end;
    request_count = s.total_request_count;
    revenue = s.total_revenue;
    cost = s.total_cost;
    profit = s.total_profit;
    ts_bucket = compute_upstream_bucket now;
  }

  -- The table after the statement of a pick; `writes` says whether the upsert succeeds.
  unfoldable pub store_statement : Bool → Pick → ℕ → Option (Statement am) → Table am → Table am
  store_statement writes p now none table = table
  store_statement writes p now (some s) table =
      if writes then upsert_upstream_summary am (row_of p now s ∷ []) table else table

  unfoldable pub after_pick :
      Calc → Bool → ℕ → Option (Pick × TickState) → TickState × Table am → TickState × Table am
  unfolding store_statement
  after_pick calc writes now none s = s
  after_pick calc writes now (some (p, st)) s =
      (st, store_statement writes p now (calc p.vendor_code p.period_start p.period_end) s.1)

  -- runOnceUpstreamSummarySafe: a tick of the loop, which reads the clock before the statement, for its
  -- period, and again behind it, for the bucket.
  unfoldable pub run_once :
      Months
      → Calc
      → Bool
      → ℕ
      → ℕ
      → Option (List UpstreamVendor)
      → TickState × Table am
      → TickState × Table am
  unfolding after_pick
  run_once ms calc writes now done vendors s =
      after_pick calc writes done (pick_next_tick ms now vendors s.0) s

  -- The ticks of the loop at the times of their two readings, while the list of vendors stays the same.
  unfoldable pub run_loop :
      Months
      → Calc
      → Bool
      → List (ℕ × ℕ)
      → Option (List UpstreamVendor)
      → TickState × Table am
      → TickState × Table am
  run_loop ms calc writes [] vendors s = s
  run_loop ms calc writes ((t, done) ∷ ts) vendors s =
      run_loop ms calc writes ts vendors (run_once ms calc writes t done vendors s)

  add_made :
      Pick
      → ℕ
      → Option (Statement am)
      → List (UpstreamSummary am) × Bool
      → List (UpstreamSummary am) × Bool
  add_made p now none made = (made.0, true)
  add_made p now (some s) made = (row_of p now s ∷ made.0, made.1)

  -- The rows of one tick over all vendors, and whether a statement failed.
  unfoldable pub both_rows :
      Months → Calc → ℕ → List UpstreamVendor → List (UpstreamSummary am) × Bool
  unfolding add_made
  both_rows ms calc now [] = ([], false)
  both_rows ms calc now (v ∷ vs) =
      let rest = both_rows ms calc now vs in
      let p = period_of ms now v.code 0 in
      let q = period_of ms now v.code 1 in
      add_made p now (calc p.vendor_code p.period_start p.period_end)
        (add_made q now (calc q.vendor_code q.period_start q.period_end) rest)

  pub record TickResult : Type 0 where
    pub vendors : ℕ
    pub rows : ℕ
    pub failed : Bool
    pub table : Table am

  prune_at : Bool → ℕ → Table am → Table am
  prune_at works now table =
      if ltb (compute_upstream_bucket now % 86400) 300 && works
      then (prune_old_upstream_summary am 30 now table).1
      else table

  -- RunUpstreamSummaryTick; `writes` and `prunes` say whether those calls succeed.
  unfoldable pub run_upstream_summary_tick :
      Bool → Months → Calc → Bool → Bool → ℕ → Option (List UpstreamVendor) → Table am → TickResult
  unfolding prune_at
  run_upstream_summary_tick has_ro ms calc writes prunes now none table = record {
    vendors = 0;
    rows = 0;
    failed = has_ro;
    table = table;
  }
  run_upstream_summary_tick has_ro ms calc writes prunes now (some []) table = record {
    vendors = 0;
    rows = 0;
    failed = false;
    table = table;
  }
  run_upstream_summary_tick has_ro ms calc writes prunes now (some (v ∷ vs)) table =
      let made = both_rows ms calc now (v ∷ vs) in
      if has_ro
      then (if ltb 0 (length made.0) && writes
          then record {
            vendors = length (v ∷ vs);
            rows = length made.0;
            failed = made.1;
            table = prune_at prunes now (upsert_upstream_summary am made.0 table);
          }
          else record {
            vendors = 0;
            rows = 0;
            failed = made.1 || ltb 0 (length made.0);
            table = prune_at prunes now table;
          })
      else record { vendors = 0; rows = 0; failed = false; table = table }
