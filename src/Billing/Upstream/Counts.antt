-- ===== src/Billing/Upstream/Counts.antt =====
-- The three groupings and the total count the same rows.
use api_ops.Common.{
  ℕ, ◌<◌, ◌≡◌, refl, sym, true, Option, none, some, List, [], ◌∷◌, String, String_discrete,
  ℕ_discrete, arith,
}
use api_ops.Billing.Upstream.Amounts.{Amounts, add64, two_64}
use api_ops.Billing.Upstream.Statements.{
  LogRow, Mapping, Totals, Statement, Discounts, statement, no_totals, parse_other, count_row,
  model_of, day_of, found, found_channel, empty_statement, add_row, add_rows, conclude,
  calc_upstream_statement,
}
use api_ops.Billing.Upstream.Grouping.{sum_groups, sum_rows, sum-group, weigh_found}
use api_ops.Billing.Upstream.Groups.{
  step, step_channel, channel_of, summed, add_rows_dates, add_rows_channels, add_rows_models,
  rows_read, calc_is,
}
use mathlib.Core.Path.{subst}

module _ (am : Amounts) where
  -- The counters of a group.
  pub data Counter : Type 0 where
    requests : Counter
    prompts : Counter
    completions : Counter
    cached : Counter

  abbrev pub counter : Counter → Totals am → ℕ
  counter requests t = t.request_count
  counter prompts t = t.prompt_tokens
  counter completions t = t.completion_tokens
  counter cached t = t.cache_tokens

  -- What a row adds to a counter.
  abbrev pub amount : Counter → LogRow → ℕ
  amount requests row = 1
  amount prompts row = row.prompt_tokens
  amount completions row = row.completion_tokens
  amount cached row = (parse_other am row.other).cache_tokens

  counts :
      (c : Counter) (ds : Discounts am) (row : LogRow) (t : Totals am)
      → counter c (count_row am ds row t) ≡ add64 (counter c t) (amount c row)
  unfolding count_row
  counts requests ds row t = refl
  counts prompts ds row t = refl
  counts completions ds row t = refl
  counts cached ds row t = refl

  counts_step :
      (c : Counter) (ds : Discounts am) (row : LogRow) (o : Option (Totals am))
      → counter c (step am ds row o) ≡ add64 (weigh_found (counter c) o) (amount c row)
  unfolding found no_totals
  counts_step c ds row (some t) = counts c ds row t
  counts_step requests ds row none = counts requests ds row _
  counts_step prompts ds row none = counts prompts ds row _
  counts_step completions ds row none = counts completions ds row _
  counts_step cached ds row none = counts cached ds row _

  abbrev channel_counter : Counter → String × Totals am → ℕ
  channel_counter c v = counter c v.1

  counts_step_channel :
      (c : Counter) (ds : Discounts am) (row : LogRow) (o : Option (String × Totals am))
      → channel_counter c (step_channel am ds row o)
        ≡ add64 (weigh_found (channel_counter c) o) (amount c row)
  unfolding found_channel no_totals
  counts_step_channel c ds row (some t) = counts c ds row t.1
  counts_step_channel requests ds row none = counts requests ds row _
  counts_step_channel prompts ds row none = counts prompts ds row _
  counts_step_channel completions ds row none = counts completions ds row _
  counts_step_channel cached ds row none = counts cached ds row _

  total_requests :
      (ds : Discounts am) (rows : List LogRow) (st : Statement am)
      → st.total_request_count < two_64
      → (add_rows am ds rows st).total_request_count
        ≡ add64 st.total_request_count (sum_rows (amount requests) rows)
  unfolding add_rows add_row
  total_requests ds [] st h = omega arith
  total_requests ds (row ∷ rows) st h = omega (arith, total_requests ds rows (add_row am ds row st))

  -- Every counter, summed over the days, the channels or the models, is its sum over the rows.
  abbrev pub Conserves : List LogRow → Statement am → Counter → Type 0
  Conserves rows st c =
      (sum_groups (counter c) st.by_date ≡ sum_rows (amount c) rows)
      × (sum_groups (channel_counter c) st.by_channel ≡ sum_rows (amount c) rows)
      × (sum_groups (counter c) st.by_model ≡ sum_rows (amount c) rows)
      × (st.total_request_count ≡ sum_rows (amount requests) rows)

  sum_rows-lt : (c : Counter) (rows : List LogRow) → sum_rows (amount c) rows < two_64
  sum_rows-lt c [] = omega arith
  sum_rows-lt c (row ∷ rows) = omega arith

  summed-Conserves :
      (ds : Discounts am) (rows : List LogRow) (c : Counter)
      → Conserves rows (conclude am (summed am ds rows)) c
  unfolding conclude empty_statement
  summed-Conserves ds rows c =
      let e = empty_statement am in
      rw (add_rows_dates am ds rows e) (
        rw (add_rows_channels am ds rows e) (
          rw (add_rows_models am ds rows e) (
            omega (
              arith,
              sum-group String_discrete (day_of am) (step am ds) (counter c) (amount c)
                  (counts_step c ds) rows [],
              sum_rows-lt c rows,
            ),
            omega (
              arith,
              sum-group ℕ_discrete (channel_of am) (step_channel am ds) (channel_counter c)
                  (amount c) (counts_step_channel c ds) rows [],
              sum_rows-lt c rows,
            ),
            omega (
              arith,
              sum-group String_discrete (model_of am) (step am ds) (counter c) (amount c)
                  (counts_step c ds) rows [],
              sum_rows-lt c rows,
            ),
            omega (arith, total_requests ds rows e, sum_rows-lt requests rows),
          )))

  -- In a vendor's statement the requests and the three kinds of tokens, summed over the days, over the
  -- channels or over the models, are the same sums over the rows read for the vendor, wrapping at
  -- 2 ^ 64, and the total count of requests is the number of these rows.
  pub statement-Conserves :
      (vendor : String) (first last : ℕ) (ms again : List (Mapping am)) (logs : List LogRow)
      (st : Statement am) (c : Counter)
      → calc_upstream_statement am true vendor first last (some ms) (some again) (some logs)
        ≡ statement st
      → Conserves (rows_read am vendor first last ms logs) st c
  statement-Conserves vendor first last ms again logs st c h =
      subst (λ st. Conserves (rows_read am vendor first last ms logs) st c)
        (sym (calc_is am vendor first last ms again logs st h)) (summed-Conserves _ _ c)
