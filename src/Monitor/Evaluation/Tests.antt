-- ===== src/Monitor/Evaluation/Tests.antt =====
-- Rounds over the default rules, on whole numbers.
use api_ops.Common.Int.{pos}
use api_ops.Common.{
  ◌≡◌, refl, ℕ, ◌+◌, ◌-◌, ◌*◌, ◌/◌, true, false, ◌&&◌, Option, none, some, List, [], ◌∷◌, ◌++◌,
  codes, leb, ltb, ◌==◌, strip, split_first, trim_space, trim_right, is_white, String_discrete,
  arith,
}
use api_ops.Monitor.Conditions.{
  Numbers, at_least, Threshold, threshold, parse_threshold, try_ops, with_value, number_part,
}
use api_ops.Monitor.Conditions.Reading.{RejectsSpaces}
use api_ops.Monitor.Alerts.{
  Store, fire_rows, fire_one, fire_alert, should_suppress, mark_suppressed,
}
use api_ops.Monitor.Evaluation.{
  Rule, Arithmetic, Log, Reads, fire, among, errors_of, user_rows, grouped, users_with,
  users_parsed, tier_filter, eval_user_errors, evaluate_each,
}
use api_ops.Monitor.Evaluation.Durations.{
  unit_nanos, duration_of, extract_duration, value_nanos, in_unit, times, signed, atoi, number_of,
  digits_value, split_last, seconds,
}
use api_ops.Monitor.Evaluation.Written.{written_duration_is_read}
use api_ops.Monitor.Evaluation.Outcomes.{RunAdds}
use api_ops.Monitor.Evaluation.Users.{IsDue, user_alerts-IsDue}
use api_ops.Monitor.Evaluation.Rounds.{Grows, round_appends}
use api_ops.Monitor.Evaluation.Defaults.{
  balance_rule, vip_errors, svip_errors, default_alert_rules, two_defaults_never_fire,
}

-- The number of a text of digits; nothing where another byte stands in it.
digits : ℕ → List ℕ → Option ℕ
digits n [] = some n
digits n (c ∷ s) = elim (leb b'0' c && leb c b'9') [
  | true ↦ digits (n * 10 + (c - b'0')) s
  | false ↦ none
]

digits_space : (n : ℕ) (v w : List ℕ) → digits n (v ++ b' ' ∷ w) ≡ none
unfolding digits
digits_space n [] w = refl
digits_space n (c ∷ v) w = ground (arith, digits_space (n * 10 + (c - b'0')) v w)

abbrev whole : Numbers
whole = record { Float = ℕ; parse_float = digits 0; lt = ltb; le = leb; eq = λ a b. a == b }

whole_rejects : RejectsSpaces whole
whole_rejects = record { rejects = digits_space 0 }

abbrev counting : Arithmetic whole
counting = record {
  nil_amount = 0;
  three_halves = 1;
  of_nat = λ n. n;
  to_int = λ n. pos n;
  add = λ a b. a + b;
  mul = λ a b. a * b;
  div = λ a b. a / b;
}

abbrev error_at : ℕ → ℕ → Log
error_at user at = record { user_id = user; created_at = at; is_error = true }

abbrev logs : List Log
logs = error_at 5 900 ∷ error_at 5 950 ∷ error_at 6 960 ∷ error_at 5 970 ∷ error_at 5 600 ∷ []

abbrev reads : Reads whole counting
reads = record {
  calls = record { redis_answers = true; counts = true; creates = true; acts = true };
  now = 1000;
  latest = some (
      record {
        channel_id = 3;
        request_count = 10;
        error_rate = 9;
        p95_latency_ms = 4000;
        balance = 90;
      }
      ∷ []);
  hours = some ((3, 100) ∷ []);
  users_of = λ tier. some (5 ∷ 6 ∷ []);
  logs = some logs;
}

abbrev fresh : Store
fresh = record {
  rdb = some (λ r s. 0);
  histories = [];
  actions = [];
  has_notifier = true;
  has_broadcaster = true;
  sent = [];
  frames = [];
}

abbrev three_errors : Threshold whole
three_errors = record { metric = codes "errors_in_5m"; op = at_least; value = 3 }

three_is_read : parse_threshold whole (svip_errors 5).rule.condition ≡ threshold three_errors
unfolding parse_threshold try_ops with_value number_part split_first strip trim_space trim_right
    is_white digits
three_is_read = refl

user_alerts-IsDue_example :
    RunAdds
      (IsDue whole counting reads logs (5 ∷ 6 ∷ []) (pos 3))
      5
      0
      fresh
      (eval_user_errors whole counting reads (svip_errors 5) fresh)
user_alerts-IsDue_example =
    user_alerts-IsDue whole counting reads (svip_errors 5) fresh three_errors (5 ∷ 6 ∷ []) logs
      three_is_read refl refl

fires_for_five : (eval_user_errors whole counting reads (svip_errors 5) fresh).count ≡ 1
unfolding eval_user_errors users_parsed users_with fire user_rows grouped errors_of among
    tier_filter parse_threshold try_ops with_value number_part split_first strip trim_space
    trim_right is_white digits fire_rows fire_one fire_alert should_suppress mark_suppressed
    String_discrete
fires_for_five = refl

abbrev rules : List (Reads whole counting × Rule)
rules = default_alert_rules 1 2 3 4 5 reads reads reads reads reads

round_appends_example :
    (m : ℕ) × ((evaluate_each whole counting rules 0 fresh).0 ≡ 0 + m)
    × Grows (1 ∷ 2 ∷ 3 ∷ 4 ∷ 5 ∷ []) m fresh (evaluate_each whole counting rules 0 fresh).1
round_appends_example = round_appends whole counting rules 0 fresh

two_defaults_never_fire_example :
    evaluate_each whole counting rules 0 fresh
    ≡ evaluate_each whole counting
        ((reads, balance_rule 2) ∷ (reads, vip_errors 4) ∷ (reads, svip_errors 5) ∷ [])
        0
        fresh
two_defaults_never_fire_example =
    two_defaults_never_fire whole counting whole_rejects 1 2 3 4 5 0 reads reads reads reads reads
      fresh

ten_minutes : duration_of (codes "error_rate>0.20 window=5m duration=10m") ≡ 600
unfolding duration_of extract_duration value_nanos in_unit times signed atoi number_of digits_value
    split_last seconds split_first strip
ten_minutes = refl

-- Minutes beyond the range of a duration.
wrapped : duration_of (codes "duration=153722868m") ≡ 0
unfolding duration_of extract_duration value_nanos in_unit times signed atoi number_of digits_value
    split_last seconds split_first strip
wrapped = refl

written_duration_is_read_example :
    extract_duration (codes "error_rate>0.20 duration=90m window=5m") (codes "duration")
    ≡ pos (90 * unit_nanos b'm')
unfolding split_first strip
written_duration_is_read_example =
    written_duration_is_read (codes "error_rate>0.20 duration=90m window=5m") (codes "duration")
      (codes "error_rate>0.20 ") (codes "0") (codes " window=5m") b'9' b'm' refl (refl, (refl, tt))
      refl (ground arith) (ground arith)
