-- ===== src/Billing/Upstream/Tests.antt =====
-- A statement in millionths of a dollar, and names of models: runs and witnesses.
use api_ops.Common.{
  ℕ, ◌+◌, ◌-◌, ◌*◌, ◌/◌, ◌≡◌, ◌↔◌, refl, true, Option, none, some, List, [], ◌∷◌, String,
  String_discrete, ℕ_discrete, lookup, insert, codes, leb, ltb,
}
use api_ops.Billing.Upstream.Amounts.{Amounts, calc_log_cost}
use api_ops.Billing.Upstream.Statements.{
  LogRow, Mapping, Totals, Statement, statement, calc_upstream_statement, add_rows, conclude,
  empty_statement, load_discounts, select_rows, channels_of, with_channels, with_discounts,
  with_rows, log_type_consume,
}
use api_ops.Billing.Upstream.Groups.{GroupsExact, statement_groups, rows_read, summed}
use api_ops.Billing.Upstream.Counts.{prompts, Conserves, statement-Conserves}
use api_ops.Billing.Upstream.Answers.{Among, LacksDiscount, unmatched_iff}
use api_ops.Billing.Upstream.Models.{
  contains_substring, is_image_generation_model, to_lower_ascii, keywords, search_from,
  contains_one,
}
use api_ops.Billing.Upstream.Search.{ContainsOne, image_model_iff}

abbrev millionths : Amounts
millionths = record {
  Float = ℕ;
  zero_amount = 0;
  one_amount = 1000000;
  quota_per_usd = 500000000000;
  of_int64 = λ n. n * 1000000;
  le = leb;
  lt = ltb;
  add = λ a b. a + b;
  sub = λ a b. a - b;
  mul = λ a b. a * b / 1000000;
  div = λ a b. a * 1000000 / b;
  decode = λ s. record { group_ratio = 640000; cache_tokens = 5 };
  day = λ t. "2026-06-14";
}

-- The example of the file's header: $0.1 at the ratio 0.64 and the discount 0.24.
header_cost : calc_log_cost millionths 50000 640000 240000 ≡ 37500
unfolding calc_log_cost
header_cost = refl

abbrev mappings : List (Mapping millionths)
mappings =
    record { channel = 2; vendor_code = "provider_alpha"; discount = 240000 }
    ∷ record { channel = 3; vendor_code = "provider_alpha"; discount = 0 }
    ∷ record { channel = 4; vendor_code = "provider_beta"; discount = 500000 }
    ∷ []

abbrev log_of : ℕ → String → LogRow
log_of channel model = record {
  log_type = log_type_consume;
  channel_id = channel;
  channel_name = "main";
  model_name = model;
  prompt_tokens = 10;
  completion_tokens = 20;
  quota = 50000;
  other = "{}";
  created_at = 100;
}

abbrev logs : List LogRow
logs = log_of 2 "claude" ∷ log_of 4 "claude" ∷ log_of 3 "" ∷ log_of 2 "claude" ∷ []

abbrev made : Statement millionths
made = conclude millionths (
    summed millionths (load_discounts millionths mappings [])
      (rows_read millionths "provider_alpha" 0 200 mappings logs))

made_lem :
    calc_upstream_statement millionths true "provider_alpha" 0 200
      (some mappings)
      (some mappings)
      (some logs)
    ≡ statement made
unfolding calc_upstream_statement channels_of String_discrete select_rows with_channels
    with_discounts with_rows
made_lem = refl

count_in : Option (String × Totals millionths) → ℕ
count_in none = 0
count_in (some c) = c.1.request_count

two_of_channel : count_in (lookup ℕ_discrete 2 made.by_channel) ≡ 2
unfolding count_in add_rows conclude empty_statement load_discounts select_rows channels_of
    String_discrete ℕ_discrete lookup insert calc_log_cost
two_of_channel = refl

statement_groups_example :
    GroupsExact millionths
      (load_discounts millionths mappings [])
      (rows_read millionths "provider_alpha" 0 200 mappings logs)
      made
      "2026-06-14"
      2
      "claude"
statement_groups_example =
    statement_groups millionths "provider_alpha" 0 200 mappings mappings logs made "2026-06-14" 2
      "claude" made_lem

statement-Conserves_example :
    Conserves millionths (rows_read millionths "provider_alpha" 0 200 mappings logs) made prompts
statement-Conserves_example =
    statement-Conserves millionths "provider_alpha" 0 200 mappings mappings logs made prompts
      made_lem

unmatched_iff_example : (made.unmatched ≡ true) ↔ (
    (row : LogRow) × Among millionths row
      (rows_read millionths "provider_alpha" 0 200 mappings logs)
    × LacksDiscount millionths (load_discounts millionths mappings []) row)
unmatched_iff_example =
    unmatched_iff millionths "provider_alpha" 0 200 mappings mappings logs made made_lem

image_model_iff_example :
    (is_image_generation_model (codes "Sora-2") ≡ true)
    ↔ ContainsOne (to_lower_ascii (codes "Sora-2")) keywords
image_model_iff_example = image_model_iff (codes "Sora-2")

sora : is_image_generation_model (codes "Sora-2") ≡ true
unfolding is_image_generation_model contains_one contains_substring search_from to_lower_ascii
sora = refl
