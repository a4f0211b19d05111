-- ===== src/Monitor/Evaluation/Defaults.antt =====
-- DefaultAlertRules of internal/monitor/alert_engine.go, with the ids that the database gives them.
use api_ops.Common.{
  ◌≡◌, refl, ◌∙◌, ap, ◌⊎◌, inl, inr, ℕ, false, List, [], ◌∷◌, codes, if◌then◌else◌, split_first,
  strip, trim_space, trim_right, is_white, ◌+◌,
}
use api_ops.Monitor.Conditions.{
  Numbers, above, at_least, at_most, equals, all_ops, Parsed, bad_multiplier, bad_value,
  parse_threshold, number_part,
}
use api_ops.Monitor.Conditions.Reading.{options_are_refused, FirstOp, found, absent, RejectsSpaces}
use api_ops.Monitor.Alerts.{Store}
use api_ops.Monitor.Evaluation.{
  channel_error_rate, balance_low, p95_degraded, user_consecutive_error, Rule, Arithmetic, broke,
  Reads, is_parsed, strip_prefix, eval_channel_error_rate, p95_parsed, eval_p95_degraded, eval_by,
  evaluate_rule, evaluate_each,
}

abbrev pub error_rate_condition : List ℕ
error_rate_condition = codes "error_rate>0.20 window=5m duration=10m"

abbrev pub p95_condition : List ℕ
p95_condition = codes "p95>baseline*1.5 window=15m"

abbrev pub high_error_rate : ℕ → Rule
high_error_rate id = record {
  rule = record {
    id = id;
    condition = error_rate_condition;
    severity = "critical";
    channels = "feishu_ops" ∷ "feishu_oncall" ∷ [];
  };
  type = channel_error_rate;
  target = codes "all";
}

abbrev pub balance_rule : ℕ → Rule
balance_rule id = record {
  rule = record {
    id = id;
    condition = codes "balance<5.0";
    severity = "high";
    channels = "feishu_finance" ∷ [];
  };
  type = balance_low;
  target = codes "all";
}

abbrev pub degraded_p95 : ℕ → Rule
degraded_p95 id = record {
  rule = record {
    id = id;
    condition = p95_condition;
    severity = "high";
    channels = "feishu_ops" ∷ [];
  };
  type = p95_degraded;
  target = codes "all";
}

abbrev pub vip_errors : ℕ → Rule
vip_errors id = record {
  rule = record {
    id = id;
    condition = codes "errors_in_5m>=10";
    severity = "high";
    channels = "feishu_cs" ∷ [];
  };
  type = user_consecutive_error;
  target = codes "group=vip";
}

abbrev pub svip_errors : ℕ → Rule
svip_errors id = record {
  rule = record {
    id = id;
    condition = codes "errors_in_5m>=3";
    severity = "critical";
    channels = "feishu_ops" ∷ "feishu_oncall" ∷ [];
  };
  type = user_consecutive_error;
  target = codes "group=svip";
}

-- With the answers that each of them gets.
abbrev pub default_alert_rules : {R : Type 0} (i j k l m : ℕ) (a b c d e : R) → List (R × Rule)
default_alert_rules i j k l m a b c d e =
    (a, high_error_rate i)
    ∷ (b, balance_rule j)
    ∷ (c, degraded_p95 k)
    ∷ (d, vip_errors l)
    ∷ (e, svip_errors m)
    ∷ []

first_of_error_rate :
    FirstOp error_rate_condition all_ops above
      (codes "error_rate")
      (codes "0.20 window=5m duration=10m")
unfolding split_first strip
first_of_error_rate = absent _ at_least above _ _ refl (
    absent _ at_most above _ _ refl (
      absent _ equals above _ _ refl
        (found _ above b'e' (codes "rror_rate") (codes "0.20 window=5m duration=10m") refl)))

first_of_p95 : FirstOp p95_condition all_ops above (codes "p95") (codes "baseline*1.5 window=15m")
unfolding split_first strip
first_of_p95 = absent _ at_least above _ _ refl (
    absent _ at_most above _ _ refl (
      absent _ equals above _ _ refl
        (found _ above b'p' (codes "95") (codes "baseline*1.5 window=15m") refl)))

module _ (nu : Numbers) (ar : Arithmetic nu) (no_spaces : RejectsSpaces nu) where
  refused_error_rate :
      (parse_threshold nu error_rate_condition ≡ bad_value)
      ⊎ (parse_threshold nu error_rate_condition ≡ bad_multiplier)
  unfolding number_part strip trim_space trim_right is_white
  refused_error_rate =
      options_are_refused nu error_rate_condition above (codes "error_rate")
        (codes "0.20 window=5m duration=10m") (codes "0.20") (codes "window=5m duration=10m")
        no_spaces first_of_error_rate refl

  refused_p95 :
      (parse_threshold nu p95_condition ≡ bad_value)
      ⊎ (parse_threshold nu p95_condition ≡ bad_multiplier)
  unfolding number_part strip trim_space trim_right is_white
  refused_p95 =
      options_are_refused nu p95_condition above (codes "p95") (codes "baseline*1.5 window=15m")
        (codes "1.5") (codes "window=15m") no_spaces first_of_p95 refl

  not_parsed : (p : Parsed nu) → (p ≡ bad_value) ⊎ (p ≡ bad_multiplier) → is_parsed nu ar p ≡ false
  unfolding is_parsed
  not_parsed p (inl e) = ap (is_parsed nu ar) e
  not_parsed p (inr e) = ap (is_parsed nu ar) e

  no_prefix : strip_prefix nu ar error_rate_condition (codes "ratio ") ≡ error_rate_condition
  unfolding strip_prefix strip trim_space trim_right is_white
  no_prefix = refl

  high_error_rate_breaks :
      (rd : Reads nu ar) (id : ℕ) (st : Store)
      → evaluate_rule nu ar rd (high_error_rate id) st ≡ broke st
  unfolding evaluate_rule eval_by eval_channel_error_rate
  high_error_rate_breaks rd id st =
      let stripped : is_parsed nu ar
            (parse_threshold nu (strip_prefix nu ar error_rate_condition (codes "ratio ")))
          ≡ false =
        ap (λ c. is_parsed nu ar (parse_threshold nu c)) no_prefix
        ∙ not_parsed (parse_threshold nu error_rate_condition) refused_error_rate in
      let plain = not_parsed (parse_threshold nu error_rate_condition) refused_error_rate in
      rw (stripped) (rw (plain) refl)

  p95_breaks :
      (rd : Reads nu ar) (r : Rule) (st : Store) (p : Parsed nu)
      → (p ≡ bad_value) ⊎ (p ≡ bad_multiplier)
      → p95_parsed nu ar p rd r st ≡ broke st
  unfolding p95_parsed
  p95_breaks rd r st p (inl e) = ap (λ q. p95_parsed nu ar q rd r st) e
  p95_breaks rd r st p (inr e) = ap (λ q. p95_parsed nu ar q rd r st) e

  degraded_p95_breaks :
      (rd : Reads nu ar) (id : ℕ) (st : Store)
      → evaluate_rule nu ar rd (degraded_p95 id) st ≡ broke st
  unfolding evaluate_rule eval_by eval_p95_degraded
  degraded_p95_breaks rd id st =
      p95_breaks rd (degraded_p95 id) st (parse_threshold nu p95_condition) refused_p95

  skip :
      (rd : Reads nu ar) (r : Rule) (rules : List (Reads nu ar × Rule)) (n : ℕ) (st : Store)
      → evaluate_rule nu ar rd r st ≡ broke st
      → evaluate_each nu ar ((rd, r) ∷ rules) n st ≡ evaluate_each nu ar rules n st
  unfolding evaluate_each broke
  skip rd r rules n st e =
      ap (λ f. evaluate_each nu ar rules (if f.broke_off then n else n + f.count) f.store) e

  skip_second :
      (rd sd : Reads nu ar) (r s : Rule) (rules : List (Reads nu ar × Rule)) (n : ℕ) (st : Store)
      → ((st' : Store) → evaluate_rule nu ar sd s st' ≡ broke st')
      → evaluate_each nu ar ((rd, r) ∷ (sd, s) ∷ rules) n st
        ≡ evaluate_each nu ar ((rd, r) ∷ rules) n st
  unfolding evaluate_each
  skip_second rd sd r s rules n st e =
      let f = evaluate_rule nu ar rd r st in
      skip sd s rules (if f.broke_off then n else n + f.count) f.store (e f.store)

  -- A round over the five default rules does what a round over the other three does: the rules on the error
  -- rate and on the p95 alert about nothing, whatever the figures of the channels are, since ParseFloat
  -- refuses the text behind the operator of their conditions, which has a space in it.
  pub two_defaults_never_fire :
      (i j k l m n : ℕ) (a b c d e : Reads nu ar) (st : Store)
      → evaluate_each nu ar (default_alert_rules i j k l m a b c d e) n st
        ≡ evaluate_each nu ar
            ((b, balance_rule j) ∷ (d, vip_errors l) ∷ (e, svip_errors m) ∷ [])
            n
            st
  two_defaults_never_fire i j k l m n a b c d e st =
      let three = (d, vip_errors l) ∷ (e, svip_errors m) ∷ [] in
      skip a (high_error_rate i) ((b, balance_rule j) ∷ (c, degraded_p95 k) ∷ three) n st
        (high_error_rate_breaks a i st)
      ∙ skip_second b c (balance_rule j) (degraded_p95 k) three n st (degraded_p95_breaks c k)
