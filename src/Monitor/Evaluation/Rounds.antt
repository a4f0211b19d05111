-- ===== src/Monitor/Evaluation/Rounds.antt =====
-- A round over the rules: what it appends to the histories, and what it returns.
use mathlib.Core.List.{append_assoc}
use api_ops.Common.{
  ◌≡◌, sym, ◌∙◌, ap, ℕ, ◌+◌, ◌≤◌, Bool, true, false, ◌||◌, List, [], ◌∷◌, ◌++◌, ◌==◌, if◌then◌else◌,
  length, length-append, All, arith,
}
use api_ops.Monitor.Conditions.{Numbers}
use api_ops.Monitor.Alerts.{firing, AlertHistory, Store}
use api_ops.Monitor.Evaluation.{Rule, Arithmetic, Reads, evaluate_rule, evaluate_each}
use api_ops.Monitor.Evaluation.Outcomes.{All-append, append-nil, Adds}
use api_ops.Monitor.Evaluation.Loops.{rule_adds}

abbrev pub has_id : ℕ → List ℕ → Bool
has_id id [] = false
has_id id (i ∷ is) = i == id || has_id id is

-- From one store to another the histories grew by firing ones of these rules, at least `n` of them.
pub record Grows (rules : List ℕ) (n : ℕ) (st st' : Store) : Type 0 where
  pub new : List AlertHistory
  pub histories_are : st'.histories ≡ st.histories ++ new
  pub at_least : n ≤ length new
  pub fired : All (λ h. (h.status ≡ firing) × (has_id h.rule_id rules ≡ true)) new

All-map :
    {A : Type 0} (P Q : A → Type 0) → ((x : A) → P x → Q x) → (xs : List A) → All P xs → All Q xs
All-map P Q f [] h = h
All-map P Q f (x ∷ xs) (h, hs) = (f x h, All-map P Q f xs hs)

Grows-rule :
    (id k j m : ℕ) (ids : List ℕ) (st mid st' : Store)
    → j ≤ k
    → Adds (λ s. Unit) id k st mid
    → Grows ids m mid st'
    → Grows (id ∷ ids) (j + m) st st'
Grows-rule id k j m ids st mid st' le a g = record {
  new = a.new ++ g.new;
  histories_are =
      g.histories_are
      ∙ ap (λ hs. hs ++ g.new) a.histories_are
      ∙ append_assoc st.histories a.new g.new;
  at_least = omega (arith, length-append a.new g.new, a.counted, g.at_least, le);
  fired =
      All-append _ a.new g.new (All-map _ _ (λ h due. (due.1, ground (arith, due.0))) a.new a.due)
        (All-map _ _ (λ h due. (due.0, ground (arith, due.1))) g.new g.fired);
}

-- The count of a rule that broke off is dropped.
kept : Bool → ℕ → ℕ
kept true k = 0
kept false k = k

kept_le : (b : Bool) (k : ℕ) → kept b k ≤ k
unfolding kept
kept_le true k = omega arith
kept_le false k = omega arith

kept_counts :
    (b : Bool) (n c k m : ℕ) → c ≡ 0 + k → (if b then n else n + c) + m ≡ n + (kept b k + m)
unfolding kept
kept_counts true n c k m e = omega arith
kept_counts false n c k m e = omega (arith, e)

module _ (nu : Numbers) (ar : Arithmetic nu) where
  abbrev pub ids_of : List (Reads nu ar × Rule) → List ℕ
  ids_of [] = []
  ids_of ((rd, r) ∷ rules) = r.rule.id ∷ ids_of rules

  -- A round returns no more than the alerts that it appends to the histories, which are behind those that
  -- were there, are firing, and belong to the rules of the round, whatever the queries and Redis answer.
  pub round_appends :
      (rules : List (Reads nu ar × Rule)) (n : ℕ) (st : Store)
      → (m : ℕ) × ((evaluate_each nu ar rules n st).0 ≡ n + m)
        × Grows (ids_of rules) m st (evaluate_each nu ar rules n st).1
  unfolding evaluate_each
  round_appends [] n st = (
    0,
    omega arith,
    record {
      new = [];
      histories_are = sym (append-nil st.histories);
      at_least = omega arith;
      fired = tt;
    },
  )
  round_appends ((rd, r) ∷ rules) n st =
      let f = evaluate_rule nu ar rd r st in
      let (k, a, c) = rule_adds nu ar rd r st in
      let (m, e, g) = round_appends rules (if f.broke_off then n else n + f.count) f.store in
      (
        kept f.broke_off k + m,
        e ∙ kept_counts f.broke_off n f.count k m c,
        Grows-rule r.rule.id k (kept f.broke_off k) m (ids_of rules) st f.store _
            (kept_le f.broke_off k) a g,
      )
