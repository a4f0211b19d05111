-- ===== src/Monitor/Lifecycle.antt =====
-- The life of an alert: resolveFiredAlerts with its checks, AcknowledgeAlert and ResolveAlert of
-- internal/monitor/alert_engine.go, and UpdateAlertHistoryStatus of internal/dal/ops_repo.go. Texts are
-- lists of code points, times are seconds, a subject is the number that its text stands for, float64 is
-- the record `Metrics`. The table lists the newest alert first, as the query does.
pub mod Transitions
mod Tests
use Prim.Native.String
use api_ops.Common.{
  ℕ, zero, suc, ◌+◌, ◌-◌, Bool, true, false, not, ◌&&◌, ◌||◌, Option, none, some, List, [], ◌∷◌,
  ◌++◌, codes, leb, ltb, ◌==◌, if◌then◌else◌, length, split_first,
}
use api_ops.Monitor.Alerts.{Status, firing, acknowledged, resolved, suppressed, escalated}

pub record Alert : Type 0 where
  pub id : ℕ
  pub rule_name : List ℕ
  pub for_channel : Bool
  pub for_user : Bool
  pub subject : ℕ
  pub status : Status
  pub created_at : ℕ
  pub acked_at : Option ℕ
  pub acked_by : List ℕ
  pub resolved_at : Option ℕ

-- The statuses that callers write.
pub data NewStatus : Type 0 where
  to_acknowledged : NewStatus
  to_resolved : NewStatus

unfoldable pub apply_status : NewStatus → List ℕ → ℕ → Alert → Alert
apply_status to_acknowledged by now a = record a {
  status = acknowledged;
  acked_at = some now;
  acked_by = by;
}
apply_status to_resolved by now a = record a { status = resolved; resolved_at = some now }

-- UPDATE ... WHERE id = ?, whatever the status is; a failing update changes nothing.
unfoldable pub update_status : Bool → ℕ → NewStatus → List ℕ → ℕ → List Alert → List Alert
unfolding apply_status
update_status works id st by now [] = []
update_status works id st by now (a ∷ rest) =
    (if works && a.id == id then apply_status st by now a else a)
    ∷ update_status works id st by now rest

unfoldable pub acknowledge_alert : Bool → ℕ → List ℕ → ℕ → List Alert → List Alert
unfolding update_status
acknowledge_alert works id [] now rest =
    update_status works id to_acknowledged (codes "ops") now rest
acknowledge_alert works id (c ∷ by) now rest =
    update_status works id to_acknowledged (c ∷ by) now rest

unfoldable pub resolve_alert : Bool → ℕ → ℕ → List Alert → List Alert
unfolding update_status
resolve_alert works id now rest = update_status works id to_resolved (codes "manual") now rest

pub record Metrics : Type 1 where
  pub Float : Type 0
  pub nil_amount : Float
  pub one_fifth : Float
  pub five : Float
  pub three_halves : Float
  pub of_nat : ℕ → Float
  pub lt : Float → Float → Bool
  pub le : Float → Float → Bool
  pub add : Float → Float → Float
  pub mul : Float → Float → Float
  pub div : Float → Float → Float

module _ (me : Metrics) where
  open me use {Float, nil_amount, one_fifth, five, three_halves, of_nat, lt, le, add, mul, div}

  -- The latest figures of a channel.
  pub record Latest : Type 0 where
    pub channel_id : ℕ
    pub error_rate : Float
    pub balance : Float
    pub p95_latency_ms : ℕ

  -- What the checks read: the latest figures, the hours of a day (channel and p95), and the errors of a
  -- user in five minutes. A listing may fail.
  pub record Readings : Type 0 where
    pub latest : Option (List Latest)
    pub hours : Option (List (ℕ × ℕ))
    pub user_errors : ℕ → Option ℕ

  unfoldable pub error_rate_low : ℕ → List Latest → Bool
  error_rate_low ch [] = true
  error_rate_low ch (r ∷ rows) =
      let rest = error_rate_low ch rows in
      if r.channel_id == ch then lt r.error_rate one_fifth else rest

  unfoldable pub balance_enough : ℕ → List Latest → Bool
  balance_enough ch [] = true
  balance_enough ch (r ∷ rows) =
      let rest = balance_enough ch rows in if r.channel_id == ch then le five r.balance else rest

  unfoldable pub error_rate_resolved : Readings → ℕ → Bool
  unfolding error_rate_low
  error_rate_resolved rd ch = elim rd.latest [ none ↦ false | some rows ↦ error_rate_low ch rows ]

  unfoldable pub balance_resolved : Readings → ℕ → Bool
  unfolding balance_enough
  balance_resolved rd ch = elim rd.latest [ none ↦ false | some rows ↦ balance_enough ch rows ]

  -- The sum of the positive p95 of a channel, and how many there are.
  sum_hours : ℕ → List (ℕ × ℕ) → Float × ℕ → Float × ℕ
  sum_hours ch [] acc = acc
  sum_hours ch ((c, p) ∷ hs) acc =
      sum_hours ch hs (if c == ch && ltb 0 p then (add acc.0 (of_nat p), acc.1 + 1) else acc)

  average_of : Float × ℕ → Float
  average_of acc = if ltb 0 acc.1 then div acc.0 (of_nat acc.1) else acc.0

  p95_low : ℕ → Float → List Latest → Bool
  p95_low ch base [] = true
  p95_low ch base (r ∷ rows) =
      let rest = p95_low ch base rows in
      if r.channel_id == ch
      then (if lt nil_amount base
          then le (of_nat r.p95_latency_ms) (mul base three_halves)
          else true)
      else rest

  p95_against : Option (List (ℕ × ℕ)) → Option (List Latest) → ℕ → Bool
  unfolding sum_hours average_of p95_low
  p95_against none rows ch = false
  p95_against (some hs) none ch = false
  p95_against (some hs) (some rows) ch =
      p95_low ch (average_of (sum_hours ch hs (nil_amount, 0))) rows

  unfoldable pub p95_resolved : Readings → ℕ → Bool
  unfolding p95_against
  p95_resolved rd ch = p95_against rd.hours rd.latest ch

  -- A failing count leaves 0.
  unfoldable pub user_errors_resolved : Readings → ℕ → Bool
  user_errors_resolved rd user = elim (rd.user_errors user) [ none ↦ true | some n ↦ ltb n 3 ]

  -- strings.Contains.
  unfoldable pub contains : List ℕ → List ℕ → Bool
  contains s sub = elim (split_first sub s) [ none ↦ false | some p ↦ true ]

  unfoldable pub check_resolved : Readings → ℕ → Alert → Bool
  unfolding contains error_rate_resolved balance_resolved p95_resolved user_errors_resolved
  check_resolved rd now a =
      if a.for_channel && contains a.rule_name (codes "错误率")
      then error_rate_resolved rd a.subject
      else if a.for_channel && contains a.rule_name (codes "余额")
      then balance_resolved rd a.subject
      else if a.for_channel && contains a.rule_name (codes "P95")
      then p95_resolved rd a.subject
      else if a.for_user
      then user_errors_resolved rd a.subject
      else ltb (a.created_at + 3600) now

  is_firing : Status → Bool
  is_firing firing = true
  is_firing acknowledged = false
  is_firing resolved = false
  is_firing suppressed = false
  is_firing escalated = false

  -- The first `n` firing alerts.
  unfoldable pub listed : ℕ → List Alert → List Alert
  unfolding is_firing
  listed zero rest = []
  listed (suc n) [] = []
  listed (suc n) (a ∷ rest) = if is_firing a.status then a ∷ listed n rest else listed (suc n) rest

  -- The loop over the listed alerts, each update with its outcome.
  unfoldable pub resolve_each : (ℕ → Bool) → Readings → ℕ → List Alert → List Alert → List Alert
  resolve_each works rd now [] table = table
  resolve_each works rd now (a ∷ rest) table = resolve_each works rd now rest (
      if check_resolved rd now a
      then update_status (works a.id) a.id to_resolved (codes "auto-resolver") now table
      else table)

  -- resolveFiredAlerts; nothing happens where the listing fails.
  unfoldable pub resolve_fired : Bool → (ℕ → Bool) → Readings → ℕ → List Alert → List Alert
  resolve_fired lists works rd now table =
      if lists then resolve_each works rd now (listed 500 table) table else table
