-- ===== src/Billing/Cached/Overview.antt =====
-- The overview of the vendors and the cached statement: internal/billing/upstream_cache.go.
use api_ops.Common.{
  ℕ, zero, suc, Bool, true, false, not, ◌&&◌, Option, none, some, List, [], ◌∷◌, map, String,
  String_discrete, ite, ltb, if◌then◌else◌, length,
}
use api_ops.Billing.Upstream.Amounts.{Amounts}
use api_ops.Billing.Upstream.{Statement, Totals}
use api_ops.Billing.Cached.Rows.{
  current_month, UpstreamSummary, Table, listed_summary, get_latest_upstream_summary,
}
use api_ops.Billing.Cached.Ticks.{Months, UpstreamVendor, Calc}

module _ (am : Amounts) where
  open am use {Float, zero_amount, lt, sub, div}

  pub record OverviewChannel : Type 0 where
    pub channel_id : ℕ
    pub channel_name : String
    pub request_count : ℕ
    pub total_cost : Float
    pub total_revenue : Float
    pub total_profit : Float
    pub profit_rate : Float

  pub record OverviewVendor : Type 0 where
    pub vendor_code : String
    pub vendor_name : String
    pub request_count : ℕ
    pub total_cost : Float
    pub total_revenue : Float
    pub total_profit : Float
    pub profit_rate : Float
    pub channels : List OverviewChannel

  unfoldable pub rate : Float → Float → Float
  rate profit cost = if lt zero_amount cost then div profit cost else zero_amount

  channel_of : ℕ × (String × Totals am) → OverviewChannel
  unfolding rate
  channel_of c =
      let t = c.1.1 in
      let profit = sub t.total_revenue t.total_cost in
      record {
        channel_id = c.0;
        channel_name = c.1.0;
        request_count = t.request_count;
        total_cost = t.total_cost;
        total_revenue = t.total_revenue;
        total_profit = profit;
        profit_rate = rate profit t.total_cost;
      }

  unfoldable pub cached_vendor : UpstreamVendor → UpstreamSummary am → OverviewVendor
  unfolding rate
  cached_vendor v r = record {
    vendor_code = v.code;
    vendor_name = v.name;
    request_count = r.request_count;
    total_cost = r.cost;
    total_revenue = r.revenue;
    total_profit = r.profit;
    profit_rate = rate r.profit r.cost;
    channels = [];
  }

  unfoldable pub live_vendor : UpstreamVendor → Statement am → OverviewVendor
  unfolding rate channel_of
  live_vendor v s = record {
    vendor_code = v.code;
    vendor_name = v.name;
    request_count = s.total_request_count;
    total_cost = s.total_cost;
    total_revenue = s.total_revenue;
    total_profit = s.total_profit;
    profit_rate = rate s.total_profit s.total_cost;
    channels = map channel_of s.by_channel;
  }

  -- What the loop over the vendors has: the rows, the latest bucket of a cached one, and whether a
  -- statement was made.
  pub record Gathered : Type 0 where
    pub vendors : List OverviewVendor
    pub latest : ℕ
    pub stale : Bool

  -- One vendor: its cached row, or else its statement.
  unfoldable pub gather_one :
      UpstreamVendor → Option (UpstreamSummary am) → Option (Statement am) → Gathered → Gathered
  unfolding cached_vendor live_vendor
  gather_one v (some r) live g = record {
    vendors = cached_vendor v r ∷ g.vendors;
    latest = if ltb g.latest r.ts_bucket then r.ts_bucket else g.latest;
    stale = g.stale;
  }
  gather_one v none none g = g
  gather_one v none (some s) g = record {
    vendors = live_vendor v s ∷ g.vendors;
    latest = g.latest;
    stale = true;
  }

  -- `cached` is the map of the cached rows of the present month.
  unfoldable pub gather :
      (String → Option (UpstreamSummary am))
      → (String → Option (Statement am))
      → List UpstreamVendor
      → Gathered
  unfolding gather_one
  gather cached live [] = record { vendors = []; latest = 0; stale = false }
  gather cached live (v ∷ vs) = gather_one v (cached v.code) (live v.code) (gather cached live vs)

  -- The inner loop: from place i on, the vendor that stands at i is compared with each later one and
  -- exchanged for one that has more requests.
  unfoldable pub exchange :
      OverviewVendor → List OverviewVendor → OverviewVendor × List OverviewVendor
  exchange x [] = (x, [])
  exchange x (y ∷ ys) =
      let (m, r) = exchange (if ltb x.request_count y.request_count then y else x) ys in
      (m, (if ltb x.request_count y.request_count then x else y) ∷ r)

  -- The outer loop, on fuel.
  unfoldable pub exchange_all : ℕ → List OverviewVendor → List OverviewVendor
  unfolding exchange
  exchange_all zero vs = vs
  exchange_all (suc n) [] = []
  exchange_all (suc n) (x ∷ xs) = let p = exchange x xs in p.0 ∷ exchange_all n p.1

  unfoldable pub sort_vendors_by_request_count : List OverviewVendor → List OverviewVendor
  sort_vendors_by_request_count vs = exchange_all (length vs) vs

  pub record Overview : Type 0 where
    pub vendors : List OverviewVendor
    pub cache_ts : ℕ
    pub stale : Bool
    pub generated_at : ℕ

  -- Of the calls: whether the cache can be listed, and each of its rows read again.
  pub record Calls : Type 0 where
    pub lists_cache : Bool
    pub reads : String → String → Bool

  unfoldable pub cached_row_of : Calls → ℕ → Table am → String → Option (UpstreamSummary am)
  cached_row_of calls now table vendor =
      if calls.lists_cache
      then listed_summary am calls.reads 300 now table vendor current_month
      else none

  unfoldable pub overview_of : ℕ → Gathered → Overview
  overview_of now g = record {
    vendors = sort_vendors_by_request_count g.vendors;
    cache_ts = g.latest;
    stale = g.stale;
    generated_at = if not g.stale && ltb 0 g.latest then g.latest else now;
  }

  -- GetUpstreamOverviewCached; nothing where there is no gateway database or no list of vendors.
  unfoldable pub get_upstream_overview_cached :
      Bool
      → Months
      → Calc am
      → Calls
      → ℕ
      → Option (List UpstreamVendor)
      → Table am
      → Option Overview
  unfolding overview_of
  get_upstream_overview_cached false ms calc calls now vendors table = none
  get_upstream_overview_cached true ms calc calls now none table = none
  get_upstream_overview_cached true ms calc calls now (some []) table =
      some (record { vendors = []; cache_ts = 0; stale = false; generated_at = 0 })
  get_upstream_overview_cached true ms calc calls now (some (v ∷ vs)) table = some (
      overview_of now (
        gather (cached_row_of calls now table)
          (λ code. calc code (ms.current_bounds now).0 (ms.current_bounds now).1) (v ∷ vs)))

  -- The totals of a statement from a cached row; the rate is kept where the cost is not positive.
  override : Option (UpstreamSummary am) → Statement am → Statement am × Bool
  override none s = (s, false)
  override (some r) s = (
    record s {
      total_request_count = r.request_count;
      total_revenue = r.revenue;
      total_cost = r.cost;
      total_profit = r.profit;
      profit_rate = if lt zero_amount r.cost then div r.profit r.cost else s.profit_rate;
    },
    true,
  )

  with_statement :
      Option (UpstreamSummary am) → Option (Statement am) → Option (Statement am × Bool)
  unfolding override
  with_statement o none = none
  with_statement o (some s) = some (override o s)

  -- GetUpstreamStatementCached, with whether the totals came from the cache; `reads` says whether the
  -- query of the cache succeeds.
  unfoldable pub get_upstream_statement_cached :
      Bool → Calc am → Bool → ℕ → String → ℕ → ℕ → String → Table am → Option (Statement am × Bool)
  unfolding with_statement
  get_upstream_statement_cached has_ro calc reads now vendor start end label table =
      if has_ro && not (ite (String_discrete vendor "") true false)
      then with_statement (get_latest_upstream_summary am reads vendor label 300 now table)
          (calc vendor start end)
      else none
