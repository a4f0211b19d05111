-- ===== src/Notifier/Tests.antt =====
-- A robot that answers 500 four times.
use api_ops.Common.{
  ℕ, suc, ◌<◌, ◌≡◌, refl, ◌⊎◌, true, some, [], ◌∷◌, ◌++◌, String_discrete, length, arith,
}
use api_ops.Notifier.Sending.{
  FeishuConfig, Reply, Outside, new, Calls, Outcome, attempts, backoff, AlertHistory, World,
  send_for_alert, load_config, usable, usable_of, parse_config,
}
use api_ops.Notifier.Attempts.{IsAccepted, IsRefused, IsRetried, attempts_end}
use api_ops.Notifier.Delivery.{second_push_is_degraded}

abbrev robot : FeishuConfig
robot = record { url = "https://robot"; secret = "" }

abbrev outside : Outside
outside = record {
  texts = record { to_lower = λ s. s; to_upper = λ s. s; format_time = λ t. "" };
  decode = λ s. robot;
  marshal = λ c. some "{}";
  sign = λ k s. "";
  decimal = λ n. "";
  reply = λ i. Reply.answered 500;
  clock = λ i. i;
}

attempts_end_example :
    (k : ℕ) × (k < 4)
    × ((j : ℕ) → j < k → IsRetried (outside.reply j))
    × (length (attempts outside robot "{}" 0 backoff).posts ≡ suc k)
    × ((IsAccepted (outside.reply k)
          × ((attempts outside robot "{}" 0 backoff).outcome ≡ Outcome.delivered))
        ⊎ ((IsRefused (outside.reply k)
              × ((s : ℕ) × ((attempts outside robot "{}" 0 backoff).outcome ≡ Outcome.refused s)))
            ⊎ (IsRetried (outside.reply k)
                × (k ≡ 3)
                × ((attempts outside robot "{}" 0 backoff).outcome ≡ Outcome.exhausted))))
attempts_end_example = attempts_end outside robot "{}"

abbrev calls : Calls
calls = record { has_ops = true; row = some "{}"; redis_answers = true; creates = true }

abbrev world : World
world = record { notifier = new; marks = some (λ i. 0); actions = [] }

abbrev alert : AlertHistory
alert = record {
  id = 7;
  rule_name = "balance";
  severity = "high";
  subject_type = "channel";
  subject_name = "c";
  message = "low";
  created_at = 100;
}

loads_first : (load_config outside calls 100 new).0 ≡ some robot
unfolding load_config new parse_config usable usable_of String_discrete
loads_first = refl

loads_again : (load_config outside calls 200 (load_config outside calls 100 new).1).0 ≡ some robot
unfolding load_config new parse_config usable usable_of String_discrete
loads_again = refl

second_push_is_degraded_example :
    ((send_for_alert outside calls 200 alert (send_for_alert outside calls 100 alert world).1).0
      ≡ [])
    × ((send_for_alert outside calls 200 alert
          (send_for_alert outside calls 100 alert world).1).1.actions
        ≡ (send_for_alert outside calls 100 alert world).1.actions ++ (7, "degraded") ∷ [])
second_push_is_degraded_example =
    second_push_is_degraded outside calls 100 200 alert world (λ i. 0) robot robot refl refl refl
      (omega arith) (omega arith) loads_first loads_again
