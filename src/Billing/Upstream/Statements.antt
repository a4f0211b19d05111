-- ===== src/Billing/Upstream/Statements.antt =====
-- CalcUpstreamStatement: the rows of the logs, the totals, and the three groupings.
use api_ops.Common.{
  ℕ, Bool, true, false, ◌&&◌, ◌||◌, Option, none, some, List, [], ◌∷◌, String, String_discrete,
  ℕ_discrete, lookup, insert, ite, leb, ◌==◌, if◌then◌else◌,
}
use api_ops.Billing.Upstream.Amounts.{Amounts, OtherFields, add64, calc_log_cost, revenue_of}

-- A row of `logs`.
pub record LogRow : Type 0 where
  pub log_type : ℕ
  pub channel_id : ℕ
  pub channel_name : String
  pub model_name : String
  pub prompt_tokens : ℕ
  pub completion_tokens : ℕ
  pub quota : ℕ
  pub other : String
  pub created_at : ℕ

-- dal.LogTypeConsume.
abbrev pub log_type_consume : ℕ
log_type_consume = 2

module _ (am : Amounts) where
  open am use {Float, zero_amount, one_amount, le, lt, add, sub, div, decode, day}

  -- A row of `channel_vendor_map`.
  pub record Mapping : Type 0 where
    pub channel : ℕ
    pub vendor_code : String
    pub discount : Float

  -- The counters that the three groupings share.
  pub record Totals : Type 0 where
    pub request_count : ℕ
    pub prompt_tokens : ℕ
    pub completion_tokens : ℕ
    pub cache_tokens : ℕ
    pub total_cost : Float
    pub total_revenue : Float

  unfoldable pub no_totals : Totals
  no_totals = record {
    request_count = 0;
    prompt_tokens = 0;
    completion_tokens = 0;
    cache_tokens = 0;
    total_cost = zero_amount;
    total_revenue = zero_amount;
  }

  -- ParseOther, which always gives fields.
  unfoldable pub parse_other : String → OtherFields Float
  parse_other s =
      ite (String_discrete s "") (record { group_ratio = zero_amount; cache_tokens = 0 }) (decode s)

  unfoldable pub group_ratio_of : LogRow → Float
  unfolding parse_other
  group_ratio_of row =
      let r = (parse_other row.other).group_ratio in if lt zero_amount r then r else one_amount

  -- A discount that is missing or not positive counts as 1.
  unfoldable pub discount_or_one : Option Float → Float
  discount_or_one none = one_amount
  discount_or_one (some d) = if le d zero_amount then one_amount else d

  unfoldable pub lacks_discount : Option Float → Bool
  lacks_discount none = true
  lacks_discount (some d) = le d zero_amount

  abbrev pub Discounts : Type 0
  Discounts = List (ℕ × Float)

  unfoldable pub cost_of : Discounts → LogRow → Float
  unfolding group_ratio_of discount_or_one calc_log_cost
  cost_of ds row =
      calc_log_cost am row.quota (group_ratio_of row)
        (discount_or_one (lookup ℕ_discrete row.channel_id ds))

  unfoldable pub unmatched_row : Discounts → LogRow → Bool
  unfolding lacks_discount
  unmatched_row ds row = lacks_discount (lookup ℕ_discrete row.channel_id ds)

  -- The increments of one group by a row.
  unfoldable pub count_row : Discounts → LogRow → Totals → Totals
  unfolding cost_of revenue_of parse_other
  count_row ds row t = record {
    request_count = add64 t.request_count 1;
    prompt_tokens = add64 t.prompt_tokens row.prompt_tokens;
    completion_tokens = add64 t.completion_tokens row.completion_tokens;
    cache_tokens = add64 t.cache_tokens (parse_other row.other).cache_tokens;
    total_cost = add t.total_cost (cost_of ds row);
    total_revenue = add t.total_revenue (revenue_of am row.quota);
  }

  unfoldable pub model_of : LogRow → String
  model_of row = ite (String_discrete row.model_name "") "[unknown]" row.model_name

  abbrev pub day_of : LogRow → String
  day_of row = day row.created_at

  -- What the map holds of a group, or a new group.
  unfoldable pub found : Option Totals → Totals
  unfolding no_totals
  found none = no_totals
  found (some t) = t

  unfoldable pub found_channel : LogRow → Option (String × Totals) → String × Totals
  unfolding no_totals
  found_channel row none = (row.channel_name, no_totals)
  found_channel row (some c) = c

  pub record Statement : Type 0 where
    pub total_request_count : ℕ
    pub total_revenue : Float
    pub total_cost : Float
    pub total_profit : Float
    pub profit_rate : Float
    pub unmatched : Bool
    pub by_date : List (String × Totals)
    pub by_channel : List (ℕ × (String × Totals))
    pub by_model : List (String × Totals)

  unfoldable pub empty_statement : Statement
  empty_statement = record {
    total_request_count = 0;
    total_revenue = zero_amount;
    total_cost = zero_amount;
    total_profit = zero_amount;
    profit_rate = zero_amount;
    unmatched = false;
    by_date = [];
    by_channel = [];
    by_model = [];
  }

  -- The body of the loop over the rows.
  unfoldable pub add_row : Discounts → LogRow → Statement → Statement
  unfolding cost_of revenue_of unmatched_row count_row found found_channel model_of
  add_row ds row st =
      let (name, c) = found_channel row (lookup ℕ_discrete row.channel_id st.by_channel) in
      record st {
        total_request_count = add64 st.total_request_count 1;
        total_cost = add st.total_cost (cost_of ds row);
        total_revenue = add st.total_revenue (revenue_of am row.quota);
        unmatched = st.unmatched || unmatched_row ds row;
        by_date =
            insert String_discrete (day_of row)
              (count_row ds row (found (lookup String_discrete (day_of row) st.by_date)))
              st.by_date;
        by_channel = insert ℕ_discrete row.channel_id (name, count_row ds row c) st.by_channel;
        by_model =
            insert String_discrete (model_of row)
              (count_row ds row (found (lookup String_discrete (model_of row) st.by_model)))
              st.by_model;
      }

  unfoldable pub add_rows : Discounts → List LogRow → Statement → Statement
  unfolding add_row
  add_rows ds [] st = st
  add_rows ds (row ∷ rows) st = add_rows ds rows (add_row ds row st)

  unfoldable pub conclude : Statement → Statement
  conclude st =
      let profit = sub st.total_revenue st.total_cost in
      record st {
        total_profit = profit;
        profit_rate =
            if lt zero_amount st.total_cost then div profit st.total_cost else st.profit_rate;
      }

  -- loadChannelDiscounts: a later mapping of a channel overwrites an earlier one.
  unfoldable pub load_discounts : List Mapping → Discounts → Discounts
  load_discounts [] ds = ds
  load_discounts (m ∷ ms) ds = load_discounts ms (insert ℕ_discrete m.channel m.discount ds)

  -- The keys of channelSet.
  unfoldable pub channels_of : String → List Mapping → List ℕ
  channels_of vendor [] = []
  channels_of vendor (m ∷ ms) =
      let rest = channels_of vendor ms in
      ite (String_discrete m.vendor_code vendor) (m.channel ∷ rest) rest

  unfoldable pub one_of : ℕ → List ℕ → Bool
  one_of c [] = false
  one_of c (d ∷ ds) = c == d || one_of c ds

  -- The condition of the query.
  unfoldable pub wanted : List ℕ → ℕ → ℕ → LogRow → Bool
  unfolding one_of
  wanted ids first last row =
      row.log_type == log_type_consume
      && leb first row.created_at
      && leb row.created_at last
      && one_of row.channel_id ids

  unfoldable pub select_rows : List ℕ → ℕ → ℕ → List LogRow → List LogRow
  unfolding wanted
  select_rows ids first last [] = []
  select_rows ids first last (row ∷ rows) =
      let rest = select_rows ids first last rows in
      if wanted ids first last row then row ∷ rest else rest

  pub data Answer : Type 0 where
    no_ro_db : Answer
    list_failed : Answer
    query_failed : Answer
    no_channels : Answer
    statement : Statement → Answer

  unfoldable pub with_rows : Discounts → Option (List LogRow) → Answer
  unfolding add_rows conclude empty_statement
  with_rows ds none = query_failed
  with_rows ds (some rows) = statement (conclude (add_rows ds rows empty_statement))

  unfoldable pub with_discounts :
      List ℕ → ℕ → ℕ → Option (List Mapping) → Option (List LogRow) → Answer
  unfolding with_rows select_rows load_discounts
  with_discounts ids first last none logs = list_failed
  with_discounts ids first last (some ms) none = with_rows (load_discounts ms []) none
  with_discounts ids first last (some ms) (some logs) =
      with_rows (load_discounts ms []) (some (select_rows ids first last logs))

  unfoldable pub with_channels :
      List ℕ → ℕ → ℕ → Option (List Mapping) → Option (List LogRow) → Answer
  unfolding with_discounts
  with_channels [] first last again logs = no_channels
  with_channels (c ∷ ids) first last again logs = with_discounts (c ∷ ids) first last again logs

  -- The mappings are listed twice, and each listing may fail, as may the query.
  unfoldable pub calc_upstream_statement :
      Bool
      → String
      → ℕ
      → ℕ
      → Option (List Mapping)
      → Option (List Mapping)
      → Option (List LogRow)
      → Answer
  unfolding with_channels channels_of
  calc_upstream_statement false vendor first last mappings again logs = no_ro_db
  calc_upstream_statement true vendor first last none again logs = list_failed
  calc_upstream_statement true vendor first last (some ms) again logs =
      with_channels (channels_of vendor ms) first last again logs
