-- ===== src/Monitor/Evaluation.antt =====
-- The evaluation of the rules: evalChannelErrorRate, evalP95Degraded, evalUserErrors and the loop of
-- EvaluateRules in internal/monitor/alert_engine.go. What the queries answer is in `Reads`, one for
-- each rule; the loops over the rows are those of the alerts. The arithmetic on float64 is a record.
pub mod Durations
pub mod Outcomes
mod Loops
pub mod Written
pub mod Rounds
pub mod Users
pub mod Defaults
mod Tests
use Prim.Native.String
use api_ops.Common.Int.{ℤ, pos, negsuc, leb_ℤ}
use api_ops.Common.{
  ℕ, zero, suc, ◌+◌, Bool, true, false, not, ◌&&◌, Option, none, some, List, [], ◌∷◌, codes, leb,
  ltb, ◌==◌, if◌then◌else◌, map, strip, split_first, trim_space,
}
use api_ops.Monitor.Conditions.{
  Numbers, Op, all_ops, op_text, Threshold, Parsed, threshold, bad_multiplier, bad_value,
  no_operator, parse_threshold, hit,
}
use api_ops.Monitor.Alerts.{
  AlertRule, Calls, Store, Fired, fire_rows, ChannelHealth, eval_balance_low,
}
use api_ops.Monitor.Evaluation.Durations.{duration_of}

pub data RuleType : Type 0 where
  channel_error_rate : RuleType
  balance_low : RuleType
  p95_degraded : RuleType
  user_consecutive_error : RuleType
  other : RuleType

pub record Rule : Type 0 where
  pub rule : AlertRule
  pub type : RuleType
  pub target : List ℕ

pub record Arithmetic (nu : Numbers) : Type 0 where
  pub nil_amount : nu.Float
  pub three_halves : nu.Float
  pub of_nat : ℕ → nu.Float
  pub to_int : nu.Float → ℤ
  pub add : nu.Float → nu.Float → nu.Float
  pub mul : nu.Float → nu.Float → nu.Float
  pub div : nu.Float → nu.Float → nu.Float

-- A row of the logs.
pub record Log : Type 0 where
  pub user_id : ℕ
  pub created_at : ℕ
  pub is_error : Bool

unfoldable pub broke : Store → Fired
broke st = record { count = 0; broke_off = true; store = st }

abbrev pub nothing_fired : Store → Fired
nothing_fired st = record { count = 0; broke_off = false; store = st }

module _ (nu : Numbers) (ar : Arithmetic nu) where
  open nu use {Float, le}
  open ar use {nil_amount, three_halves, of_nat, to_int, add, mul, div}

  pub record ChannelLatestHealth : Type 0 where
    pub channel_id : ℕ
    pub request_count : ℕ
    pub error_rate : Float
    pub p95_latency_ms : ℕ
    pub balance : Float

  -- The latest row of each channel, the hours of a day as a channel and its p95, the users of a tier,
  -- and the logs. A query may fail.
  pub record Reads : Type 0 where
    pub calls : Calls
    pub now : ℕ
    pub latest : Option (List ChannelLatestHealth)
    pub hours : Option (List (ℕ × ℕ))
    pub users_of : List ℕ → Option (List ℕ)
    pub logs : Option (List Log)

  unfoldable pub fire : Reads → Rule → List (ℕ × Bool) → Store → Fired
  fire rd r rows st = fire_rows rd.calls r.rule (duration_of r.rule.condition) rd.now 0 rows st

  -- The operator that a condition with a bad value leaves in its threshold.
  unfoldable pub first_op : List Op → List ℕ → Option Op
  first_op [] cond = none
  first_op (op ∷ ops) cond =
      let next = first_op ops cond in
      elim (split_first (op_text op) cond) [
        | none ↦ next
        | some p ↦ elim p.0 [ [] ↦ next | c ∷ before ↦ some op ]
      ]

  unfoldable pub hit_partly : Option Op → Float → Bool
  hit_partly none actual = false
  hit_partly (some op) actual = hit nu (record { metric = []; op = op; value = nil_amount }) actual

  -- hit on what parseThreshold returns beside an error.
  unfoldable pub hit_anyway : List ℕ → Parsed nu → Float → Bool
  unfolding hit_partly first_op
  hit_anyway cond (threshold t) actual = hit nu t actual
  hit_anyway cond bad_multiplier actual = hit_partly (first_op all_ops cond) actual
  hit_anyway cond bad_value actual = hit_partly (first_op all_ops cond) actual
  hit_anyway cond no_operator actual = false

  unfoldable pub is_parsed : Parsed nu → Bool
  is_parsed (threshold t) = true
  is_parsed bad_multiplier = false
  is_parsed bad_value = false
  is_parsed no_operator = false

  unfoldable pub strip_prefix : List ℕ → List ℕ → List ℕ
  strip_prefix s prefix = elim (strip prefix (trim_space s)) [ none ↦ trim_space s | some t ↦ t ]

  unfoldable pub error_rows : List ℕ → List ChannelLatestHealth → List (ℕ × Bool)
  unfolding hit_anyway
  error_rows cond [] = []
  error_rows cond (h ∷ hs) =
      (
        h.channel_id,
        not (h.request_count == 0) && hit_anyway cond (parse_threshold nu cond) h.error_rate,
      )
      ∷ error_rows cond hs

  unfoldable pub rows_of : Option (List ChannelLatestHealth) → Reads → Rule → Store → Fired
  unfolding error_rows fire broke
  rows_of none rd r st = broke st
  rows_of (some hs) rd r st = fire rd r (error_rows r.rule.condition hs) st

  -- A condition that begins with "ratio " may be read without it.
  unfoldable pub eval_channel_error_rate : Reads → Rule → Store → Fired
  unfolding is_parsed strip_prefix rows_of broke
  eval_channel_error_rate rd r st =
      if is_parsed (parse_threshold nu (strip_prefix r.rule.condition (codes "ratio ")))
      then rows_of rd.latest rd r st
      else (if is_parsed (parse_threshold nu r.rule.condition)
          then rows_of rd.latest rd r st
          else broke st)

  unfoldable pub balance_row : ChannelLatestHealth → ChannelHealth nu
  balance_row h = record { channel_id = h.channel_id; balance = h.balance }

  unfoldable pub eval_balance : Reads → Rule → Store → Fired
  unfolding balance_row
  eval_balance rd r st =
      eval_balance_low nu rd.calls r.rule (duration_of r.rule.condition) rd.now
        (elim rd.latest [ none ↦ none | some hs ↦ some (map balance_row hs) ]) st

  -- The sum of the positive p95 of a channel, and how many there are.
  unfoldable pub sum_p95 : ℕ → List (ℕ × ℕ) → Float × ℕ → Float × ℕ
  sum_p95 ch [] acc = acc
  sum_p95 ch ((c, p) ∷ hs) acc =
      sum_p95 ch hs (if c == ch && ltb 0 p then (add acc.0 (of_nat p), acc.1 + 1) else acc)

  unfoldable pub above_base : Float → Float × ℕ → ℕ → Bool
  above_base mult (sum, zero) p = false
  above_base mult (sum, suc n) p =
      let base = div sum (of_nat (suc n)) in
      if le base nil_amount then false else not (le (of_nat p) (mul base mult))

  unfoldable pub p95_rows : Float → List (ℕ × ℕ) → List ChannelLatestHealth → List (ℕ × Bool)
  unfolding sum_p95 above_base
  p95_rows mult hours [] = []
  p95_rows mult hours (h ∷ hs) =
      (h.channel_id, above_base mult (sum_p95 h.channel_id hours (nil_amount, 0)) h.p95_latency_ms)
      ∷ p95_rows mult hours hs

  unfoldable pub multiplier : Float → Float
  multiplier value = if le value nil_amount then three_halves else value

  unfoldable pub p95_with :
      Option (List (ℕ × ℕ))
      → Option (List ChannelLatestHealth)
      → Float
      → Reads
      → Rule
      → Store
      → Fired
  unfolding p95_rows multiplier fire broke
  p95_with none latest value rd r st = broke st
  p95_with (some hours) none value rd r st = broke st
  p95_with (some hours) (some hs) value rd r st =
      fire rd r (p95_rows (multiplier value) hours hs) st

  unfoldable pub p95_parsed : Parsed nu → Reads → Rule → Store → Fired
  unfolding p95_with broke
  p95_parsed (threshold t) rd r st = p95_with rd.hours rd.latest t.value rd r st
  p95_parsed bad_multiplier rd r st = broke st
  p95_parsed bad_value rd r st = broke st
  p95_parsed no_operator rd r st = broke st

  unfoldable pub eval_p95_degraded : Reads → Rule → Store → Fired
  unfolding p95_parsed
  eval_p95_degraded rd r st = p95_parsed (parse_threshold nu r.rule.condition) rd r st

  abbrev renamed : List ℕ → Option (List ℕ) → List ℕ
  renamed tier none = tier
  renamed tier (some []) = codes "vip-1"
  renamed tier (some (c ∷ s)) = tier

  -- The tier of the target; "vip" is the tier "vip-1" of the table.
  unfoldable pub tier_filter : List ℕ → List ℕ
  tier_filter target = elim (strip (codes "group=") target) [
    | none ↦ []
    | some tier ↦ renamed tier (strip (codes "vip") tier)
  ]

  unfoldable pub errors_of : ℕ → ℕ → List Log → ℕ
  errors_of user now [] = 0
  errors_of user now (l ∷ ls) =
      let rest = errors_of user now ls in
      if l.user_id == user && (l.is_error && (leb now (l.created_at + 300) && ltb l.created_at now))
      then rest + 1
      else rest

  unfoldable pub among : ℕ → List ℕ → Bool
  among id [] = false
  among id (u ∷ us) = let rest = among id us in if u == id then true else rest

  -- GROUP BY: the users of the logs in the window, each once.
  unfoldable pub grouped : ℕ → List Log → List ℕ
  unfolding among
  grouped now [] = []
  grouped now (l ∷ ls) =
      let rest = grouped now ls in
      if l.is_error && (leb now (l.created_at + 300) && ltb l.created_at now)
      then (if among l.user_id rest then rest else l.user_id ∷ rest)
      else rest

  -- HAVING, and the users of the tier.
  unfoldable pub user_rows : ℤ → List ℕ → ℕ → List Log → List ℕ → List (ℕ × Bool)
  unfolding errors_of among
  user_rows limit tier now logs [] = []
  user_rows limit tier now logs (u ∷ us) =
      (u, leb_ℤ limit (pos (errors_of u now logs)) && among u tier)
      ∷ user_rows limit tier now logs us

  unfoldable pub users_with :
      Float → Option (List ℕ) → Option (List Log) → Reads → Rule → Store → Fired
  unfolding user_rows grouped fire broke
  users_with value none logs rd r st = broke st
  users_with value (some []) logs rd r st = nothing_fired st
  users_with value (some (u ∷ us)) none rd r st = broke st
  users_with value (some (u ∷ us)) (some logs) rd r st =
      fire rd r (user_rows (to_int value) (u ∷ us) rd.now logs (grouped rd.now logs)) st

  unfoldable pub users_parsed : Parsed nu → Reads → Rule → Store → Fired
  unfolding users_with tier_filter broke
  users_parsed (threshold t) rd r st =
      users_with t.value (rd.users_of (tier_filter r.target)) rd.logs rd r st
  users_parsed bad_multiplier rd r st = broke st
  users_parsed bad_value rd r st = broke st
  users_parsed no_operator rd r st = broke st

  -- The operator of the condition is not read.
  unfoldable pub eval_user_errors : Reads → Rule → Store → Fired
  unfolding users_parsed
  eval_user_errors rd r st = users_parsed (parse_threshold nu r.rule.condition) rd r st

  unfoldable pub eval_by : RuleType → Reads → Rule → Store → Fired
  unfolding eval_channel_error_rate eval_balance eval_p95_degraded eval_user_errors
  eval_by channel_error_rate rd r st = eval_channel_error_rate rd r st
  eval_by balance_low rd r st = eval_balance rd r st
  eval_by p95_degraded rd r st = eval_p95_degraded rd r st
  eval_by user_consecutive_error rd r st = eval_user_errors rd r st
  eval_by other rd r st = nothing_fired st

  unfoldable pub evaluate_rule : Reads → Rule → Store → Fired
  unfolding eval_by
  evaluate_rule rd r st = eval_by r.type rd r st

  -- The loop: the count of a rule that broke off is dropped, its alerts stay.
  unfoldable pub evaluate_each : List (Reads × Rule) → ℕ → Store → ℕ × Store
  unfolding evaluate_rule
  evaluate_each [] n st = (n, st)
  evaluate_each ((rd, r) ∷ rules) n st =
      let f = evaluate_rule rd r st in
      evaluate_each rules (if f.broke_off then n else n + f.count) f.store
