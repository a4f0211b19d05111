-- ===== src/Monitor/Evaluation/Loops.antt =====
-- Every evaluator is one loop over rows, if it does not break off before.
use mathlib.Core.Path.{subst}
use api_ops.Common.{
  ◌≡◌, refl, sym, ◌⊎◌, inl, inr, ℕ, Bool, true, false, Option, none, some, List, [], ◌∷◌, codes,
  if◌then◌else◌,
}
use api_ops.Monitor.Conditions.{
  Numbers, Parsed, threshold, bad_multiplier, bad_value, no_operator, parse_threshold,
}
use api_ops.Monitor.Alerts.{
  Store, Fired, ChannelHealth, hits_of, with_threshold, broken, eval_balance_low,
}
use api_ops.Monitor.Evaluation.{
  RuleType, channel_error_rate, balance_low, p95_degraded, user_consecutive_error, other, Rule,
  Arithmetic, Log, broke, nothing_fired, ChannelLatestHealth, Reads, fire, error_rows, is_parsed,
  strip_prefix, rows_of, eval_channel_error_rate, eval_balance, p95_with, p95_parsed,
  eval_p95_degraded, users_with, users_parsed, tier_filter, eval_user_errors, eval_by,
  evaluate_rule,
}
use api_ops.Monitor.Evaluation.Durations.{duration_of}
use api_ops.Monitor.Evaluation.Outcomes.{Adds-nothing, RunAdds, Hits, fire_rows_adds}

if_cases : {A : Type 0} (b : Bool) (P : A → Type 0) {x y : A} → P x → P y → P (if b then x else y)
if_cases true P p q = p
if_cases false P p q = q

Hits-any : (rows : List (ℕ × Bool)) → Hits (λ s. Unit) rows
Hits-any [] = tt
Hits-any (r ∷ rows) = ((λ h. tt), Hits-any rows)

module _ (nu : Numbers) (ar : Arithmetic nu) where
  -- Whatever an evaluator does is that it breaks off at once, does nothing, or runs the loop.
  abbrev Loops : Reads nu ar → Rule → Store → Fired → Type 0
  Loops rd r st f =
      (f ≡ broke st)
      ⊎ ((f ≡ nothing_fired st) ⊎ ((rows : List (ℕ × Bool)) × (f ≡ fire nu ar rd r rows st)))

  rows_of-Loops :
      (rd : Reads nu ar) (r : Rule) (st : Store) (rows : Option (List (ChannelLatestHealth nu ar)))
      → Loops rd r st (rows_of nu ar rows rd r st)
  unfolding rows_of
  rows_of-Loops rd r st none = inl refl
  rows_of-Loops rd r st (some hs) = inr (inr (error_rows nu ar r.rule.condition hs, refl))

  error_rate-Loops :
      (rd : Reads nu ar) (r : Rule) (st : Store)
      → Loops rd r st (eval_channel_error_rate nu ar rd r st)
  unfolding eval_channel_error_rate
  error_rate-Loops rd r st =
      if_cases
        (is_parsed nu ar
          (parse_threshold nu (strip_prefix nu ar r.rule.condition (codes "ratio "))))
        (Loops rd r st) (rows_of-Loops rd r st rd.latest)
        (if_cases (is_parsed nu ar (parse_threshold nu r.rule.condition)) (Loops rd r st)
          (rows_of-Loops rd r st rd.latest) (inl refl))

  with_threshold-Loops :
      (rd : Reads nu ar) (r : Rule) (st : Store) (hs : List (ChannelHealth nu)) (p : Parsed nu)
      → Loops rd r st
          (with_threshold nu rd.calls r.rule (duration_of r.rule.condition) rd.now p hs st)
  unfolding with_threshold broken broke fire
  with_threshold-Loops rd r st hs (threshold t) = inr (inr (hits_of nu t hs, refl))
  with_threshold-Loops rd r st hs bad_multiplier = inl refl
  with_threshold-Loops rd r st hs bad_value = inl refl
  with_threshold-Loops rd r st hs no_operator = inl refl

  balance-Loops :
      (rd : Reads nu ar) (r : Rule) (st : Store) (hs : Option (List (ChannelHealth nu)))
      → Loops rd r st
          (eval_balance_low nu rd.calls r.rule (duration_of r.rule.condition) rd.now hs st)
  unfolding eval_balance_low broken broke
  balance-Loops rd r st none = inl refl
  balance-Loops rd r st (some hs) =
      with_threshold-Loops rd r st hs (parse_threshold nu r.rule.condition)

  p95_with-Loops :
      (rd : Reads nu ar) (r : Rule) (st : Store) (hours : Option (List (ℕ × ℕ)))
      (latest : Option (List (ChannelLatestHealth nu ar))) (value : nu.Float)
      → Loops rd r st (p95_with nu ar hours latest value rd r st)
  unfolding p95_with
  p95_with-Loops rd r st none latest value = inl refl
  p95_with-Loops rd r st (some hours) none value = inl refl
  p95_with-Loops rd r st (some hours) (some hs) value = inr (inr (_, refl))

  p95-Loops :
      (rd : Reads nu ar) (r : Rule) (st : Store) (p : Parsed nu)
      → Loops rd r st (p95_parsed nu ar p rd r st)
  unfolding p95_parsed
  p95-Loops rd r st (threshold t) = p95_with-Loops rd r st rd.hours rd.latest t.value
  p95-Loops rd r st bad_multiplier = inl refl
  p95-Loops rd r st bad_value = inl refl
  p95-Loops rd r st no_operator = inl refl

  users_with-Loops :
      (rd : Reads nu ar) (r : Rule) (st : Store) (users : Option (List ℕ))
      (logs : Option (List Log)) (value : nu.Float)
      → Loops rd r st (users_with nu ar value users logs rd r st)
  unfolding users_with
  users_with-Loops rd r st none logs value = inl refl
  users_with-Loops rd r st (some []) logs value = inr (inl refl)
  users_with-Loops rd r st (some (u ∷ us)) none value = inl refl
  users_with-Loops rd r st (some (u ∷ us)) (some logs) value = inr (inr (_, refl))

  users-Loops :
      (rd : Reads nu ar) (r : Rule) (st : Store) (p : Parsed nu)
      → Loops rd r st (users_parsed nu ar p rd r st)
  unfolding users_parsed
  users-Loops rd r st (threshold t) =
      users_with-Loops rd r st (rd.users_of (tier_filter nu ar r.target)) rd.logs t.value
  users-Loops rd r st bad_multiplier = inl refl
  users-Loops rd r st bad_value = inl refl
  users-Loops rd r st no_operator = inl refl

  eval_by-Loops :
      (rd : Reads nu ar) (r : Rule) (st : Store) (type : RuleType)
      → Loops rd r st (eval_by nu ar type rd r st)
  unfolding eval_by eval_balance eval_p95_degraded eval_user_errors
  eval_by-Loops rd r st channel_error_rate = error_rate-Loops rd r st
  eval_by-Loops rd r st balance_low = balance-Loops rd r st _
  eval_by-Loops rd r st p95_degraded = p95-Loops rd r st (parse_threshold nu r.rule.condition)
  eval_by-Loops rd r st user_consecutive_error =
      users-Loops rd r st (parse_threshold nu r.rule.condition)
  eval_by-Loops rd r st other = inr (inl refl)

  Loops-adds :
      (rd : Reads nu ar) (r : Rule) (st : Store) (f : Fired)
      → Loops rd r st f
      → RunAdds (λ s. Unit) r.rule.id 0 st f
  unfolding broke fire
  Loops-adds rd r st f (inl e) =
      subst (RunAdds (λ s. Unit) r.rule.id 0 st) (sym e) (0, Adds-nothing _ r.rule.id st, refl)
  Loops-adds rd r st f (inr (inl e)) =
      subst (RunAdds (λ s. Unit) r.rule.id 0 st) (sym e) (0, Adds-nothing _ r.rule.id st, refl)
  Loops-adds rd r st f (inr (inr (rows, e))) = subst (RunAdds (λ s. Unit) r.rule.id 0 st) (sym e) (
      fire_rows_adds (λ s. Unit) rd.calls r.rule (duration_of r.rule.condition) rd.now 0 rows st
        (Hits-any rows))

  pub rule_adds :
      (rd : Reads nu ar) (r : Rule) (st : Store)
      → RunAdds (λ s. Unit) r.rule.id 0 st (evaluate_rule nu ar rd r st)
  unfolding evaluate_rule
  rule_adds rd r st =
      Loops-adds rd r st (eval_by nu ar r.type rd r st) (eval_by-Loops rd r st r.type)
