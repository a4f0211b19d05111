-- ===== src/Monitor/Alerts/Suppression.antt =====
-- What an evaluation fires, and that it does not fire again while the keys live.
use api_ops.Common.{
  ℕ, ◌+◌, ◌≤◌, ◌<◌, ◌≡◌, ◌⊎◌, inl, inr, refl, ◌∙◌, Bool, true, false, some, List, [], ◌∷◌, arith,
}
use api_ops.Monitor.Conditions.{Numbers, Threshold, threshold, parse_threshold}
use api_ops.Monitor.Alerts.{
  AlertRule, Calls, ChannelHealth, hits_of, with_threshold, eval_balance_low, Keys, Store, Fired,
  ttl, should_suppress, suppress_by, set_key, mark_by, mark_suppressed, fire_alert, fire_one,
  fire_rows,
}

-- Redis is there and answers, and histories can be created.
pub record AllWell (calls : Calls) (st : Store) (keys : Keys) : Type 0 where
  pub redis : st.rdb ≡ some keys
  pub answers : calls.redis_answers ≡ true
  pub creates : calls.creates ≡ true

-- One subject: what fire_one does where all is well.
fire_one_suppressed :
    (calls : Calls) (rule : AlertRule) (duration now subject : ℕ) (st : Store) (keys : Keys)
    → AllWell calls st keys
    → now < keys rule.id subject
    → fire_one calls rule duration now subject st ≡ some (false, st)
unfolding fire_one should_suppress suppress_by
fire_one_suppressed calls rule duration now subject st keys w h = ground (arith, w.redis, w.answers)

fire_alert_fires :
    (calls : Calls) (rule : AlertRule) (subject now : ℕ) (st : Store)
    → calls.creates ≡ true
    → (st' : Store) × (fire_alert calls rule subject now st ≡ some st') × (st'.rdb ≡ st.rdb)
unfolding fire_alert
fire_alert_fires calls rule subject now st h = rw h (_, refl, refl)

mark_sets :
    (calls : Calls) (rule duration now subject : ℕ) (st : Store) (keys : Keys)
    → AllWell calls st keys
    → AllWell calls
        (mark_suppressed calls rule subject duration now st)
        (set_key rule subject (now + ttl duration) keys)
unfolding mark_suppressed
mark_sets calls rule duration now subject st keys w = record {
  redis = rw (w.redis, mark_by) (rw (w.answers) refl);
  answers = w.answers;
  creates = w.creates;
}

fire_one_fires :
    (calls : Calls) (rule : AlertRule) (duration now subject : ℕ) (st : Store) (keys : Keys)
    → AllWell calls st keys
    → keys rule.id subject ≤ now
    → (st' : Store) × (fire_one calls rule duration now subject st ≡ some (true, st'))
      × AllWell calls st' (set_key rule.id subject (now + ttl duration) keys)
unfolding fire_one
fire_one_fires calls rule duration now subject st keys w h =
    let (f, e, r) = fire_alert_fires calls rule subject now st w.creates in
    let well : AllWell calls f keys = record {
      redis = r ∙ w.redis;
      answers = w.answers;
      creates = w.creates;
    } in
    let free : should_suppress calls rule.id subject duration now st ≡ some false =
      unfold should_suppress in rw (w.redis, suppress_by) (rw (w.answers) (ground arith)) in
    (
      mark_suppressed calls rule.id subject duration now f,
      rw (free, fire_one) (rw e refl),
      mark_sets calls rule.id duration now subject f keys well,
    )

-- Between `now` and `later` no key of the rule runs out.
abbrev pub Steady : ℕ → ℕ → ℕ → Keys → Type 0
Steady rule now later keys = (s : ℕ) → (keys rule s ≤ now) ⊎ (later < keys rule s)

set_key-Steady :
    (rule subject now later expiry : ℕ) (keys : Keys)
    → later < expiry
    → Steady rule now later keys
    → Steady rule now later (set_key rule subject expiry keys)
unfolding set_key
set_key-Steady rule subject now later expiry keys h k s = ground (arith, k s)

-- The keys of the subjects that are hit live beyond `later`.
abbrev pub Covered : ℕ → ℕ → Keys → List (ℕ × Bool) → Type 0
Covered rule later keys [] = Unit
Covered rule later keys ((s, false) ∷ rows) = Covered rule later keys rows
Covered rule later keys ((s, true) ∷ rows) = (later < keys rule s) × Covered rule later keys rows

-- After a run: nothing broke off, and every subject that was hit has a key that lives on, as every
-- subject has that had one.
record Ran (calls : Calls) (rule later : ℕ) (keys : Keys) (rows : List (ℕ × Bool)) (f : Fired)
    : Type 0 where
  whole : f.broke_off ≡ false
  keys_after : Keys
  well : AllWell calls f.store keys_after
  covered : Covered rule later keys_after rows
  kept : (s : ℕ) → later < keys rule s → later < keys_after rule s

set_key_here :
    (rule s later expiry : ℕ) (keys : Keys)
    → later < expiry
    → later < set_key rule s expiry keys rule s
unfolding set_key
set_key_here rule s later expiry keys h = ground arith

set_key_more :
    (rule s t later expiry : ℕ) (keys : Keys)
    → later < expiry
    → later < keys rule t
    → later < set_key rule s expiry keys rule t
unfolding set_key
set_key_more rule s t later expiry keys h q = ground arith

-- From the rows behind a subject that is hit and has a living key, to all.
Ran-hit :
    (calls : Calls) (rule later s : ℕ) (keys mid : Keys) (rows : List (ℕ × Bool)) (f : Fired)
    → later < mid rule s
    → ((t : ℕ) → later < keys rule t → later < mid rule t)
    → Ran calls rule later mid rows f
    → Ran calls rule later keys ((s, true) ∷ rows) f
Ran-hit calls rule later s keys mid rows f a k r = record {
  whole = r.whole;
  keys_after = r.keys_after;
  well = r.well;
  covered = (r.kept s a, r.covered);
  kept = λ t q. r.kept t (k t q);
}

fire_rows-Ran :
    (calls : Calls) (rule : AlertRule) (duration now later n : ℕ) (rows : List (ℕ × Bool))
    (st : Store) (keys : Keys)
    → now ≤ later
    → later < now + ttl duration
    → AllWell calls st keys
    → Steady rule.id now later keys
    → Ran calls rule.id later keys rows (fire_rows calls rule duration now n rows st)
unfolding fire_rows
fire_rows-Ran calls rule duration now later n [] st keys o h w k = record {
  whole = refl;
  keys_after = keys;
  well = w;
  covered = tt;
  kept = λ s q. q;
}
fire_rows-Ran calls rule duration now later n ((s, false) ∷ rows) st keys o h w k =
    let r = fire_rows-Ran calls rule duration now later n rows st keys o h w k in
    record {
      whole = r.whole;
      keys_after = r.keys_after;
      well = r.well;
      covered = r.covered;
      kept = r.kept;
    }
fire_rows-Ran calls rule duration now later n ((s, true) ∷ rows) st keys o h w k = elim (k s) [
  | inr alive ↦
      rw (fire_one_suppressed calls rule duration now s st keys w (omega arith), fire_rows)
        (Ran-hit calls rule.id later s keys keys rows _ alive (λ t q. q)
          (fire_rows-Ran calls rule duration now later n rows st keys o h w k))
  | inl dead ↦
      let (st', e, w') = fire_one_fires calls rule duration now s st keys w dead in
      let keys' = set_key rule.id s (now + ttl duration) keys in
      rw (e, fire_rows)
        (Ran-hit calls rule.id later s keys keys' rows _
          (set_key_here rule.id s later (now + ttl duration) keys h)
          (λ t q. set_key_more rule.id s t later (now + ttl duration) keys h q)
          (fire_rows-Ran calls rule duration now later (n + 1) rows st' keys' o h w'
            (set_key-Steady rule.id s now later (now + ttl duration) keys h k)))
]

-- Where all the subjects that are hit have living keys, a run fires nothing.
fire_rows_silent :
    (calls : Calls) (rule : AlertRule) (duration later n : ℕ) (rows : List (ℕ × Bool)) (st : Store)
    (keys : Keys)
    → AllWell calls st keys
    → Covered rule.id later keys rows
    → fire_rows calls rule duration later n rows st
      ≡ record { count = n; broke_off = false; store = st }
unfolding fire_rows
fire_rows_silent calls rule duration later n [] st keys w c = refl
fire_rows_silent calls rule duration later n ((s, false) ∷ rows) st keys w c =
    fire_rows_silent calls rule duration later n rows st keys w c
fire_rows_silent calls rule duration later n ((s, true) ∷ rows) st keys w c =
    rw (fire_one_suppressed calls rule duration later s st keys w c.0, fire_rows)
      (fire_rows_silent calls rule duration later n rows st keys w c.1)

second_run_is_silent :
    (calls : Calls) (rule : AlertRule) (duration now later : ℕ) (rows : List (ℕ × Bool))
    (st : Store) (keys : Keys)
    → AllWell calls st keys
    → now ≤ later
    → later < now + ttl duration
    → Steady rule.id now later keys
    → ((fire_rows calls rule duration now 0 rows st).broke_off ≡ false)
      × (fire_rows calls rule duration later 0 rows
            (fire_rows calls rule duration now 0 rows st).store
          ≡ record {
            count = 0;
            broke_off = false;
            store = (fire_rows calls rule duration now 0 rows st).store;
          })
second_run_is_silent calls rule duration now later rows st keys w o h k =
    let r = fire_rows-Ran calls rule duration now later 0 rows st keys o h w k in
    (r.whole, fire_rows_silent calls rule duration later 0 rows _ r.keys_after r.well r.covered)

module _ (nu : Numbers) where
  eval_is :
      (calls : Calls) (rule : AlertRule) (duration now : ℕ) (rows : List (ChannelHealth nu))
      (st : Store) (t : Threshold nu)
      → parse_threshold nu rule.condition ≡ threshold t
      → eval_balance_low nu calls rule duration now (some rows) st
        ≡ fire_rows calls rule duration now 0 (hits_of nu t rows) st
  unfolding eval_balance_low
  eval_is calls rule duration now rows st t e = rw (e, with_threshold) refl

  -- A rule on the balance whose condition is read, evaluated twice on the same figures while Redis
  -- answers and the database writes: the first evaluation does not break off, and the second fires
  -- nothing and changes nothing, if it comes less than an hour (or the condition's longer duration)
  -- after the first and no key of the rule runs out between the two.
  pub balance_alert_fires_once :
      (calls : Calls) (rule : AlertRule) (duration now later : ℕ) (rows : List (ChannelHealth nu))
      (st : Store) (keys : Keys) (t : Threshold nu)
      → parse_threshold nu rule.condition ≡ threshold t
      → AllWell calls st keys
      → now ≤ later
      → later < now + ttl duration
      → Steady rule.id now later keys
      → ((eval_balance_low nu calls rule duration now (some rows) st).broke_off ≡ false)
        × (eval_balance_low nu calls rule duration later
              (some rows)
              (eval_balance_low nu calls rule duration now (some rows) st).store
            ≡ record {
              count = 0;
              broke_off = false;
              store = (eval_balance_low nu calls rule duration now (some rows) st).store;
            })
  balance_alert_fires_once calls rule duration now later rows st keys t e w o h k =
      rw (eval_is calls rule duration now rows st t e) (
        rw (eval_is calls rule duration later rows _ t e)
          (second_run_is_silent calls rule duration now later (hits_of nu t rows) st keys w o h k))
