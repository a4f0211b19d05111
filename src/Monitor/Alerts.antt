-- ===== src/Monitor/Alerts.antt =====
-- Alerts of one rule: shouldSuppress, markSuppressed, fireAlert and evalBalanceLow of
-- internal/monitor/alert_engine.go. Redis keys are a function from rule and subject to the time at
-- which the key expires; times are seconds. Whether a call of Redis or of the database succeeds during
-- the evaluation is in `Calls`; an evaluation reads the clock once. A subject's name and the message
-- are left out, and the condition's duration is an argument.
pub mod Suppression
mod Tests
use Prim.Native.String
use api_ops.Common.{
  ℕ, zero, suc, ◌+◌, ◌-◌, Bool, true, false, not, ◌&&◌, ◌||◌, Option, none, some, List, [], ◌∷◌,
  ◌++◌, String, String_discrete, ite, leb, ltb, ◌==◌, if◌then◌else◌, length,
}
use api_ops.Monitor.Conditions.{
  Numbers, Threshold, Parsed, threshold, bad_multiplier, bad_value, no_operator, parse_threshold,
  hit,
}

pub data Status : Type 0 where
  firing : Status
  acknowledged : Status
  resolved : Status
  suppressed : Status
  escalated : Status

-- A row of `alert_histories`; its id is its place.
pub record AlertHistory : Type 0 where
  pub rule_id : ℕ
  pub subject_id : ℕ
  pub severity : String
  pub status : Status
  pub created_at : ℕ

pub record AlertRule : Type 0 where
  pub id : ℕ
  pub condition : List ℕ
  pub severity : String
  pub channels : List String

pub record Calls : Type 0 where
  pub redis_answers : Bool
  pub counts : Bool
  pub creates : Bool
  pub acts : Bool

abbrev pub Keys : Type 0
Keys = ℕ → ℕ → ℕ

-- `actions` are the rows of `alert_actions`, a history's id and a channel; `sent` and `frames` are the
-- histories handed to the notifier and to the panel.
pub record Store : Type 0 where
  pub rdb : Option Keys
  pub histories : List AlertHistory
  pub actions : List (ℕ × String)
  pub has_notifier : Bool
  pub has_broadcaster : Bool
  pub sent : List ℕ
  pub frames : List ℕ

-- The longer of the condition's duration and an hour.
unfoldable pub ttl : ℕ → ℕ
ttl duration = if ltb duration 3600 then 3600 else duration

is_open : Status → Bool
is_open firing = true
is_open acknowledged = true
is_open resolved = false
is_open suppressed = false
is_open escalated = true

-- The query of the fallback counts a row.
unfoldable pub any_recent : ℕ → ℕ → ℕ → List AlertHistory → Bool
unfolding is_open
any_recent rule subject since [] = false
any_recent rule subject since (h ∷ hs) =
    (h.rule_id == rule && h.subject_id == subject && is_open h.status && leb since h.created_at)
    || any_recent rule subject since hs

from_histories : Calls → ℕ → ℕ → ℕ → ℕ → Store → Option Bool
unfolding any_recent ttl
from_histories calls rule subject duration now st =
    if calls.counts then some (any_recent rule subject (now - ttl duration) st.histories) else none

suppress_by : Option Keys → Calls → ℕ → ℕ → ℕ → ℕ → Store → Option Bool
unfolding from_histories
suppress_by none calls rule subject duration now st =
    from_histories calls rule subject duration now st
suppress_by (some keys) calls rule subject duration now st =
    if calls.redis_answers
    then some (ltb now (keys rule subject))
    else from_histories calls rule subject duration now st

-- Nothing where the query of the fallback fails.
unfoldable pub should_suppress : Calls → ℕ → ℕ → ℕ → ℕ → Store → Option Bool
unfolding suppress_by
should_suppress calls rule subject duration now st =
    suppress_by st.rdb calls rule subject duration now st

unfoldable pub set_key : ℕ → ℕ → ℕ → Keys → Keys
set_key rule subject expiry keys r s = if r == rule && s == subject then expiry else keys r s

unfoldable pub mark_by : Option Keys → Calls → ℕ → ℕ → ℕ → ℕ → Store → Store
unfolding set_key ttl
mark_by none calls rule subject duration now st = st
mark_by (some keys) calls rule subject duration now st =
    if calls.redis_answers
    then record st { rdb = some (set_key rule subject (now + ttl duration) keys) }
    else st

-- The error of SET is dropped.
unfoldable pub mark_suppressed : Calls → ℕ → ℕ → ℕ → ℕ → Store → Store
unfolding mark_by
mark_suppressed calls rule subject duration now st =
    mark_by st.rdb calls rule subject duration now st

-- The actions for the channels that are named, as far as they can be created.
actions_of : Bool → ℕ → List String → List (ℕ × String)
actions_of acts id [] = []
actions_of acts id (ch ∷ chs) =
    let rest = actions_of acts id chs in
    if acts then ite (String_discrete ch "") rest ((id, ch) ∷ rest) else rest

-- Nothing where the history cannot be created.
unfoldable pub fire_alert : Calls → AlertRule → ℕ → ℕ → Store → Option Store
unfolding actions_of
fire_alert calls rule subject now st =
    if calls.creates
    then some (record st {
      histories =
          st.histories
          ++ record {
            rule_id = rule.id;
            subject_id = subject;
            severity = ite (String_discrete rule.severity "") "warning" rule.severity;
            status = firing;
            created_at = now;
          }
            ∷ [];
      actions = st.actions ++ actions_of calls.acts (length st.histories) rule.channels;
      sent = if st.has_notifier then st.sent ++ length st.histories ∷ [] else st.sent;
      frames = if st.has_broadcaster then st.frames ++ length st.histories ∷ [] else st.frames;
    })
    else none

-- How many alerts were fired, and whether the evaluation broke off.
pub record Fired : Type 0 where
  pub count : ℕ
  pub broke_off : Bool
  pub store : Store

-- The body of the loop for a subject that the rule hits; `duration` is the condition's.
unfoldable pub fire_one : Calls → AlertRule → ℕ → ℕ → ℕ → Store → Option (Bool × Store)
fire_one calls rule duration now subject st =
    elim (should_suppress calls rule.id subject duration now st) [
      | none ↦ none
      | some true ↦ some (false, st)
      | some false ↦ elim (fire_alert calls rule subject now st) [
        | none ↦ none
        | some st' ↦ some (true, mark_suppressed calls rule.id subject duration now st')
      ]
    ]

-- The loop over the subjects with the outcome of the rule's test.
unfoldable pub fire_rows : Calls → AlertRule → ℕ → ℕ → ℕ → List (ℕ × Bool) → Store → Fired
fire_rows calls rule duration now n [] st = record { count = n; broke_off = false; store = st }
fire_rows calls rule duration now n ((subject, false) ∷ rows) st =
    fire_rows calls rule duration now n rows st
fire_rows calls rule duration now n ((subject, true) ∷ rows) st =
    elim (fire_one calls rule duration now subject st) [
      | none ↦ record { count = n; broke_off = true; store = st }
      | some p ↦ fire_rows calls rule duration now (if p.0 then n + 1 else n) rows p.1
    ]

module _ (nu : Numbers) where
  open nu use {Float}

  -- What the evaluator reads of `channel_health_5min`: the latest row of each channel.
  pub record ChannelHealth : Type 0 where
    pub channel_id : ℕ
    pub balance : Float

  unfoldable pub hits_of : Threshold nu → List (ChannelHealth) → List (ℕ × Bool)
  unfolding hit
  hits_of t [] = []
  hits_of t (r ∷ rows) = (r.channel_id, hit nu t r.balance) ∷ hits_of t rows

  unfoldable pub broken : Store → Fired
  broken st = record { count = 0; broke_off = true; store = st }

  unfoldable pub with_threshold :
      Calls → AlertRule → ℕ → ℕ → Parsed nu → List ChannelHealth → Store → Fired
  unfolding broken hits_of
  with_threshold calls rule duration now (threshold t) rows st =
      fire_rows calls rule duration now 0 (hits_of t rows) st
  with_threshold calls rule duration now bad_multiplier rows st = broken st
  with_threshold calls rule duration now bad_value rows st = broken st
  with_threshold calls rule duration now no_operator rows st = broken st

  -- evalBalanceLow; the listing may fail.
  unfoldable pub eval_balance_low :
      Calls → AlertRule → ℕ → ℕ → Option (List ChannelHealth) → Store → Fired
  unfolding broken with_threshold
  eval_balance_low calls rule duration now none st = broken st
  eval_balance_low calls rule duration now (some rows) st =
      with_threshold calls rule duration now (parse_threshold nu rule.condition) rows st
