-- ===== src/Monitor/Lifecycle/Tests.antt =====
-- One alert on a low balance: runs and witnesses, in whole dollars.
use api_ops.Common.{
  ℕ, ◌+◌, ◌*◌, ◌/◌, ◌≡◌, refl, true, false, none, some, [], ◌∷◌, codes, ltb, leb, if◌then◌else◌,
  split_first, strip,
}
use api_ops.Monitor.Alerts.{firing, resolved, acknowledged}
use api_ops.Monitor.Lifecycle.{
  Alert, Metrics, Readings, update_status, acknowledge_alert, check_resolved, listed, resolve_each,
  resolve_fired,
}
use api_ops.Monitor.Lifecycle.Transitions.{find, marked, due, resolve_fired_exact}

abbrev hundredths : Metrics
hundredths = record {
  Float = ℕ;
  nil_amount = 0;
  one_fifth = 20;
  five = 500;
  three_halves = 150;
  of_nat = λ n. n * 100;
  lt = ltb;
  le = leb;
  add = λ a b. a + b;
  mul = λ a b. a * b / 100;
  div = λ a b. a * 100 / b;
}

abbrev low_balance : Alert
low_balance = record {
  id = 4;
  rule_name = codes "渠道余额低 (high)";
  for_channel = true;
  for_user = false;
  subject = 7;
  status = firing;
  created_at = 1000;
  acked_at = none;
  acked_by = [];
  resolved_at = none;
}

-- The channel has six dollars again.
abbrev topped_up : Readings hundredths
topped_up = record {
  latest =
      some (record { channel_id = 7; error_rate = 1; balance = 600; p95_latency_ms = 90 } ∷ []);
  hours = some [];
  user_errors = λ u. some 0;
}

resolves :
    resolve_fired hundredths true (λ i. true) topped_up 1300 (low_balance ∷ [])
    ≡ record low_balance { status = resolved; resolved_at = some 1300 } ∷ []
unfolding resolve_fired resolve_each listed check_resolved update_status split_first strip
resolves = refl

acknowledges :
    acknowledge_alert true 4 [] 1200 (low_balance ∷ [])
    ≡ record low_balance { status = acknowledged; acked_at = some 1200; acked_by = codes "ops" }
      ∷ []
unfolding acknowledge_alert
acknowledges = refl

resolve_fired_exact_example :
    find 4 (resolve_fired hundredths true (λ i. true) topped_up 1300 (low_balance ∷ [])) ≡ (
      if due hundredths (λ i. true) topped_up 1300 4 (listed hundredths 500 (low_balance ∷ []))
      then marked 1300 (find 4 (low_balance ∷ []))
      else find 4 (low_balance ∷ []))
resolve_fired_exact_example =
    resolve_fired_exact hundredths (λ i. true) topped_up 1300 4 (low_balance ∷ [])
