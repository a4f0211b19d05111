-- ===== src/Monitor/Alerts/Tests.antt =====
-- Runs of evalBalanceLow with whole dollars: two channels, the first of them low.
use api_ops.Common.{
  ℕ, ◌≡◌, inl, refl, true, false, some, List, [], ◌∷◌, codes, arith, ltb, leb, ◌==◌,
  String_discrete, split_first, strip, trim_space, trim_right,
}
use api_ops.Monitor.Conditions.{
  Numbers, Threshold, below, threshold, parse_threshold, try_ops, with_value, number_part,
}
use api_ops.Monitor.Alerts.{
  AlertRule, Calls, Keys, Store, ChannelHealth, ttl, eval_balance_low, fire_rows, fire_one,
  fire_alert, should_suppress, mark_suppressed,
}
use api_ops.Monitor.Alerts.Suppression.{balance_alert_fires_once}

abbrev dollars : Numbers
dollars = record { Float = ℕ; parse_float = λ s. some 5; lt = ltb; le = leb; eq = λ a b. a == b }

abbrev low : AlertRule
low = record {
  id = 2;
  condition = codes "balance<5.0";
  severity = "high";
  channels = "feishu_finance" ∷ [];
}

abbrev figures : List (ChannelHealth dollars)
figures = record { channel_id = 7; balance = 3 } ∷ record { channel_id = 8; balance = 9 } ∷ []

abbrev no_keys : Keys
no_keys = λ r s. 0

abbrev fresh : Store
fresh = record {
  rdb = some no_keys;
  histories = [];
  actions = [];
  has_notifier = true;
  has_broadcaster = true;
  sent = [];
  frames = [];
}

abbrev well : Calls
well = record { redis_answers = true; counts = true; creates = true; acts = true }

abbrev below_five : Threshold dollars
below_five = record { metric = codes "balance"; op = below; value = 5 }

low_is_read : parse_threshold dollars low.condition ≡ threshold below_five
unfolding parse_threshold try_ops with_value number_part split_first strip trim_space trim_right
low_is_read = refl

fires_for_one : (eval_balance_low dollars well low 0 1000 (some figures) fresh).count ≡ 1
unfolding eval_balance_low parse_threshold try_ops with_value number_part split_first strip
    trim_space trim_right fire_rows fire_one fire_alert should_suppress mark_suppressed
    String_discrete
fires_for_one = refl

balance_alert_fires_once_example :
    ((eval_balance_low dollars well low 0 1000 (some figures) fresh).broke_off ≡ false)
    × (eval_balance_low dollars well low 0 1060
          (some figures)
          (eval_balance_low dollars well low 0 1000 (some figures) fresh).store
        ≡ record {
          count = 0;
          broke_off = false;
          store = (eval_balance_low dollars well low 0 1000 (some figures) fresh).store;
        })
unfolding ttl
balance_alert_fires_once_example =
    balance_alert_fires_once dollars well low 0 1000 1060 figures fresh no_keys below_five
      low_is_read (record { redis = refl; answers = refl; creates = refl }) (omega arith)
      (omega arith) (λ s. inl (omega arith))
