-- ===== src/Monitor/Evaluation/Outcomes.antt =====
-- What the evaluation adds to the histories, and what it returns.
use mathlib.Core.List.{append_assoc}
use mathlib.Core.Path.{subst}
use api_ops.Common.{
  ◌≡◌, refl, sym, ◌∙◌, ap, ℕ, ◌+◌, Bool, true, false, Option, none, some, List, [], ◌∷◌, ◌++◌,
  if◌then◌else◌, length, length-append, All, arith, ite, String_discrete,
}
use api_ops.Monitor.Alerts.{
  firing, AlertHistory, AlertRule, Calls, Store, Fired, should_suppress, mark_by, mark_suppressed,
  fire_alert, fire_one, fire_rows, Keys,
}

pub All-append :
    {A : Type 0} (P : A → Type 0) (xs ys : List A) → All P xs → All P ys → All P (xs ++ ys)
All-append P [] ys h k = k
All-append P (x ∷ xs) ys (h, hs) k = (h, All-append P xs ys hs k)

-- A run from one store to another fired `n` alerts of a rule, each about a subject with the property.
pub record Adds (P : ℕ → Type 0) (rule n : ℕ) (st st' : Store) : Type 0 where
  pub new : List AlertHistory
  pub histories_are : st'.histories ≡ st.histories ++ new
  pub counted : length new ≡ n
  pub due : All (λ h. (h.rule_id ≡ rule) × (h.status ≡ firing) × P h.subject_id) new

pub append-nil : (hs : List AlertHistory) → hs ++ [] ≡ hs
append-nil [] = refl
append-nil (h ∷ hs) = ap (λ t. h ∷ t) (append-nil hs)

pub Adds-nothing : (P : ℕ → Type 0) (rule : ℕ) (st : Store) → Adds P rule 0 st st
Adds-nothing P rule st = record {
  new = [];
  histories_are = sym (append-nil st.histories);
  counted = refl;
  due = tt;
}

mark_keeps :
    (calls : Calls) (keys : Option Keys) (rule subject duration now : ℕ) (st : Store)
    → (mark_by keys calls rule subject duration now st).histories ≡ st.histories
unfolding mark_by
mark_keeps calls none rule subject duration now st = refl
mark_keeps calls (some keys) rule subject duration now st = ground arith

-- The row of a fired alert.
abbrev fired_row : AlertRule → ℕ → ℕ → AlertHistory
fired_row rule subject now = record {
  rule_id = rule.id;
  subject_id = subject;
  severity = ite (String_discrete rule.severity "") "warning" rule.severity;
  status = firing;
  created_at = now;
}

fire_alert_adds :
    (calls : Calls) (rule : AlertRule) (subject now : ℕ) (st st' : Store)
    → fire_alert calls rule subject now st ≡ some st'
    → st'.histories ≡ st.histories ++ fired_row rule subject now ∷ []
unfolding fire_alert
fire_alert_adds calls rule subject now st st' e = ground arith

module _ (P : ℕ → Type 0) (calls : Calls) (rule : AlertRule) (duration now : ℕ) where
  marked-Adds :
      (subject : ℕ) (st st' : Store)
      → P subject
      → fire_alert calls rule subject now st ≡ some st'
      → Adds P rule.id 1 st (mark_suppressed calls rule.id subject duration now st')
  unfolding mark_suppressed
  marked-Adds subject st st' p h = record {
    new = fired_row rule subject now ∷ [];
    histories_are =
        mark_keeps calls st'.rdb rule.id subject duration now st'
        ∙ fire_alert_adds calls rule subject now st st' h;
    counted = refl;
    due = ((refl, refl, p), tt);
  }

  fire_one-Adds :
      (subject : ℕ) (st : Store) (s : Option Bool) (o : Option Store) (fired : Bool) (st' : Store)
      → P subject
      → should_suppress calls rule.id subject duration now st ≡ s
      → fire_alert calls rule subject now st ≡ o
      → fire_one calls rule duration now subject st ≡ some (fired, st')
      → Adds P rule.id (if fired then 1 else 0) st st'
  unfolding fire_one
  fire_one-Adds subject st none o fired st' p h a e = ground arith
  fire_one-Adds subject st (some true) o fired st' p h a e =
      let f : fired ≡ false = ground arith in
      let q : st' ≡ st = ground arith in
      subst (λ b. Adds P rule.id (if b then 1 else 0) st st') (sym f)
        (subst (λ t. Adds P rule.id 0 st t) (sym q) (Adds-nothing P rule.id st))
  fire_one-Adds subject st (some false) none fired st' p h a e = ground arith
  fire_one-Adds subject st (some false) (some st1) fired st' p h a e =
      let f : fired ≡ true = ground arith in
      let q : st' ≡ mark_suppressed calls rule.id subject duration now st1 = ground arith in
      subst (λ b. Adds P rule.id (if b then 1 else 0) st st') (sym f)
        (subst (λ t. Adds P rule.id 1 st t) (sym q) (marked-Adds subject st st1 p a))

-- One run after another.
Adds-Adds :
    (P : ℕ → Type 0) (rule n m : ℕ) (st mid st' : Store)
    → Adds P rule n st mid
    → Adds P rule m mid st'
    → Adds P rule (n + m) st st'
Adds-Adds P rule n m st mid st' a b = record {
  new = a.new ++ b.new;
  histories_are =
      b.histories_are
      ∙ ap (λ hs. hs ++ b.new) a.histories_are
      ∙ append_assoc st.histories a.new b.new;
  counted = omega (arith, length-append a.new b.new, a.counted, b.counted);
  due =
      All-append (λ h. (h.rule_id ≡ rule) × (h.status ≡ firing) × P h.subject_id) a.new b.new a.due
        b.due;
}

-- A loop that began at the count `n` fired as many alerts as it counted.
abbrev pub RunAdds : (ℕ → Type 0) → ℕ → ℕ → Store → Fired → Type 0
RunAdds P rule n st f = (k : ℕ) × Adds P rule k st f.store × (f.count ≡ n + k)

-- The rows that are hit are about subjects with the property.
abbrev pub Hits : (ℕ → Type 0) → List (ℕ × Bool) → Type 0
Hits P rows = All (λ r. r.1 ≡ true → P r.0) rows

fire_rows_broke :
    (calls : Calls) (rule : AlertRule) (duration now n s : ℕ) (rows : List (ℕ × Bool)) (st : Store)
    → fire_one calls rule duration now s st ≡ none
    → fire_rows calls rule duration now n ((s, true) ∷ rows) st
      ≡ record { count = n; broke_off = true; store = st }
unfolding fire_rows
fire_rows_broke calls rule duration now n s rows st e = rw (e, fire_rows) refl

fire_rows_goes :
    (calls : Calls) (rule : AlertRule) (duration now n s : ℕ) (rows : List (ℕ × Bool))
    (st st' : Store) (fired : Bool)
    → fire_one calls rule duration now s st ≡ some (fired, st')
    → fire_rows calls rule duration now n ((s, true) ∷ rows) st
      ≡ fire_rows calls rule duration now (if fired then n + 1 else n) rows st'
unfolding fire_rows
fire_rows_goes calls rule duration now n s rows st st' fired e = rw (e, fire_rows) refl

RunAdds-first :
    (P : ℕ → Type 0) (rule n : ℕ) (fired : Bool) (st st' : Store) (f : Fired)
    → Adds P rule (if fired then 1 else 0) st st'
    → RunAdds P rule (if fired then n + 1 else n) st' f
    → RunAdds P rule n st f
RunAdds-first P rule n true st st' f one (k, a, c) =
    (1 + k, Adds-Adds P rule 1 k st st' f.store one a, omega (arith, c))
RunAdds-first P rule n false st st' f one (k, a, c) =
    (0 + k, Adds-Adds P rule 0 k st st' f.store one a, omega (arith, c))

module _ (P : ℕ → Type 0) (calls : Calls) (rule : AlertRule) (duration now : ℕ) where
  hit_adds :
      (n s : ℕ) (rows : List (ℕ × Bool)) (st : Store) (o : Option (Bool × Store))
      → P s
      → ((m : ℕ) (st' : Store)
          → RunAdds P rule.id m st' (fire_rows calls rule duration now m rows st'))
      → fire_one calls rule duration now s st ≡ o
      → RunAdds P rule.id n st (fire_rows calls rule duration now n ((s, true) ∷ rows) st)
  hit_adds n s rows st none p more e =
      subst (λ f. RunAdds P rule.id n st f)
        (sym (fire_rows_broke calls rule duration now n s rows st e))
        (0, Adds-nothing P rule.id st, omega arith)
  hit_adds n s rows st (some (fired, st')) p more e =
      subst (λ f. RunAdds P rule.id n st f)
        (sym (fire_rows_goes calls rule duration now n s rows st st' fired e))
        (RunAdds-first P rule.id n fired st st'
          (fire_rows calls rule duration now (if fired then n + 1 else n) rows st')
          (fire_one-Adds P calls rule duration now s st
            (should_suppress calls rule.id s duration now st) (fire_alert calls rule s now st) fired
            st' p refl refl e)
          (more (if fired then n + 1 else n) st'))

  pub fire_rows_adds :
      (n : ℕ) (rows : List (ℕ × Bool)) (st : Store)
      → Hits P rows
      → RunAdds P rule.id n st (fire_rows calls rule duration now n rows st)
  unfolding fire_rows
  fire_rows_adds n [] st h = (0, Adds-nothing P rule.id st, omega arith)
  fire_rows_adds n ((s, false) ∷ rows) st (h, hs) = fire_rows_adds n rows st hs
  fire_rows_adds n ((s, true) ∷ rows) st (h, hs) =
      hit_adds n s rows st (fire_one calls rule duration now s st) (h refl)
        (λ m st'. fire_rows_adds m rows st' hs) refl
