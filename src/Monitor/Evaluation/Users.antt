-- ===== src/Monitor/Evaluation/Users.antt =====
-- What evalUserErrors alerts about.
use mathlib.Core.Path.{subst}
use api_ops.Common.Int.{ℤ, pos, leb_ℤ}
use api_ops.Common.{◌≡◌, refl, sym, ◌∙◌, ap, ℕ, true, some, List, [], ◌∷◌, arith}
use api_ops.Monitor.Conditions.{Numbers, Threshold, threshold, parse_threshold}
use api_ops.Monitor.Alerts.{Store}
use api_ops.Monitor.Evaluation.{
  Rule, Arithmetic, Log, Reads, fire, among, errors_of, user_rows, grouped, users_with,
  users_parsed, tier_filter, eval_user_errors,
}
use api_ops.Monitor.Evaluation.Durations.{duration_of}
use api_ops.Monitor.Evaluation.Outcomes.{Adds-nothing, RunAdds, Hits, fire_rows_adds}

module _ (nu : Numbers) (ar : Arithmetic nu) where
  -- A user of the tier with at least as many errors in the window as the condition says.
  abbrev pub IsDue : Reads nu ar → List Log → List ℕ → ℤ → ℕ → Type 0
  IsDue rd logs tier limit u =
      (among nu ar u tier ≡ true) × (leb_ℤ limit (pos (errors_of nu ar u rd.now logs)) ≡ true)

  user_rows-Hits :
      (rd : Reads nu ar) (logs : List Log) (tier : List ℕ) (limit : ℤ) (us : List ℕ)
      → Hits (IsDue rd logs tier limit) (user_rows nu ar limit tier rd.now logs us)
  unfolding user_rows
  user_rows-Hits rd logs tier limit [] = tt
  user_rows-Hits rd logs tier limit (u ∷ us) =
      ((λ h. ground arith), user_rows-Hits rd logs tier limit us)

  users_with_adds :
      (rd : Reads nu ar) (r : Rule) (st : Store) (value : nu.Float) (tier : List ℕ)
      (logs : List Log)
      → RunAdds
          (IsDue rd logs tier (ar.to_int value))
          r.rule.id
          0
          st
          (users_with nu ar value (some tier) (some logs) rd r st)
  unfolding users_with fire
  users_with_adds rd r st value [] logs = (0, Adds-nothing _ r.rule.id st, refl)
  users_with_adds rd r st value (u ∷ us) logs =
      fire_rows_adds (IsDue rd logs (u ∷ us) (ar.to_int value)) rd.calls r.rule
        (duration_of r.rule.condition) rd.now 0
        (user_rows nu ar (ar.to_int value) (u ∷ us) rd.now logs (grouped nu ar rd.now logs)) st
        (user_rows-Hits rd logs (u ∷ us) (ar.to_int value) (grouped nu ar rd.now logs))

  -- Where its condition is read and its queries answer, evalUserErrors appends to the histories as many
  -- rows as it returns, also where it breaks off; each is firing, has the id of the rule, and is about a
  -- user of the rule's tier with at least as many errors in the last five minutes as the number of the
  -- condition, whatever the operator of the condition is.
  pub user_alerts-IsDue :
      (rd : Reads nu ar) (r : Rule) (st : Store) (t : Threshold nu) (tier : List ℕ)
      (logs : List Log)
      → parse_threshold nu r.rule.condition ≡ threshold t
      → rd.users_of (tier_filter nu ar r.target) ≡ some tier
      → rd.logs ≡ some logs
      → RunAdds
          (IsDue rd logs tier (ar.to_int t.value))
          r.rule.id
          0
          st
          (eval_user_errors nu ar rd r st)
  unfolding eval_user_errors users_parsed
  user_alerts-IsDue rd r st t tier logs parsed users log =
      subst (RunAdds (IsDue rd logs tier (ar.to_int t.value)) r.rule.id 0 st)
        (sym (
          ap (λ p. users_parsed nu ar p rd r st) parsed
          ∙ ap (λ o. users_with nu ar t.value o rd.logs rd r st) users
          ∙ ap (λ o. users_with nu ar t.value (some tier) o rd r st) log))
        (users_with_adds rd r st t.value tier logs)
