-- ===== src/Billing/Cached/Tests.antt =====
-- Two vendors, their ticks and their overview.
use mathlib.Core.List.{Perm}
use api_ops.Common.{
  ℕ, ◌+◌, ◌≡◌, ◌≢◌, refl, ap, length, codes, true, false, some, [], ◌∷◌, ◌++◌, String, ltb, leb,
  arith,
}
use api_ops.Billing.Upstream.Amounts.{Amounts}
use api_ops.Billing.Upstream.{Statement}
use api_ops.Billing.Cached.Ticks.{Months, UpstreamVendor, TickState, Calc, run_loop}
use api_ops.Billing.Cached.Overview.{
  Overview, OverviewVendor, Calls, get_upstream_overview_cached, exchange_all,
  sort_vendors_by_request_count,
}
use api_ops.Billing.Cached.Rounds.{visits, labelled, round_visits_all}
use api_ops.Billing.Cached.Freshness.{overview_stays_stale}
use api_ops.Billing.Cached.Sorting.{Descending, sort_vendors_sorts}

abbrev whole : Amounts
whole = record {
  Float = ℕ;
  zero_amount = 0;
  one_amount = 1;
  quota_per_usd = 1;
  of_int64 = λ n. n;
  le = leb;
  lt = ltb;
  add = λ a b. a + b;
  sub = λ a b. a;
  mul = λ a b. a;
  div = λ a b. a;
  decode = λ s. record { group_ratio = 1; cache_tokens = 0 };
  day = λ t. "";
}

abbrev months : Months
months = record { current_bounds = λ t. (0, t); last_bounds = λ t. (0, 0) }

abbrev north : UpstreamVendor
north = record { code = "north"; name = "North" }

abbrev south : UpstreamVendor
south = record { code = "so"; name = "South" }

round_visits_all_example :
    visits months
      (north ∷ south ∷ [])
      ((10 ∷ 310 ∷ []) ++ 610 ∷ 910 ∷ [])
      (record { vendor_idx = 0; period_idx = 0 })
    ≡ (
      labelled 0 (north ∷ south ∷ []) ++ labelled 1 (north ∷ south ∷ []),
      record { vendor_idx = 0; period_idx = 0 },
    )
round_visits_all_example =
    round_visits_all months north (south ∷ []) (10 ∷ 310 ∷ []) (610 ∷ 910 ∷ []) refl refl

statement : Statement whole
statement = record {
  total_request_count = 7;
  total_revenue = 3;
  total_cost = 2;
  total_profit = 1;
  profit_rate = 0;
  unmatched = false;
  by_date = [];
  by_channel = [];
  by_model = [];
}

abbrev always : Calc whole
always = λ code a b. some statement

abbrev calls : Calls whole
calls = record { lists_cache = true; reads = λ v l. true }

abbrev begin : TickState
begin = record { vendor_idx = 0; period_idx = 0 }

codes_differ : north.code ≢ south.code
codes_differ e = omega (arith, ap (λ s. length (codes s)) e)

overview_stays_stale_example :
    (o : Overview whole) × (get_upstream_overview_cached whole true months always calls 400
        (some (north ∷ south ∷ []))
        (run_loop whole months always true
          ((10, 12) ∷ (310, 315) ∷ [])
          (some (north ∷ south ∷ []))
          (begin, [])).1
      ≡ some o)
    × (o.stale ≡ true)
    × (o.generated_at ≡ 400)
overview_stays_stale_example =
    overview_stays_stale whole months always true calls north south [] (10, 12) ((310, 315) ∷ [])
      400 begin codes_differ (λ code a b. (statement, refl)) (omega arith, omega arith)

abbrev vendor : String → ℕ → OverviewVendor whole
vendor code n = record {
  vendor_code = code;
  vendor_name = code;
  request_count = n;
  total_cost = 0;
  total_revenue = 0;
  total_profit = 0;
  profit_rate = 0;
  channels = [];
}

sort_vendors_sorts_example :
    Descending whole
      (sort_vendors_by_request_count whole (vendor "a" 1 ∷ vendor "b" 2 ∷ vendor "c" 3 ∷ []))
    × Perm
        (sort_vendors_by_request_count whole (vendor "a" 1 ∷ vendor "b" 2 ∷ vendor "c" 3 ∷ []))
        (vendor "a" 1 ∷ vendor "b" 2 ∷ vendor "c" 3 ∷ [])
sort_vendors_sorts_example =
    sort_vendors_sorts whole (vendor "a" 1 ∷ vendor "b" 2 ∷ vendor "c" 3 ∷ [])

two_is_second :
    sort_vendors_by_request_count whole (vendor "a" 1 ∷ vendor "b" 2 ∷ vendor "c" 3 ∷ [])
    ≡ vendor "c" 3 ∷ vendor "b" 2 ∷ vendor "a" 1 ∷ []
unfolding sort_vendors_by_request_count exchange_all
two_is_second = refl
