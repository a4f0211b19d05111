-- ===== src/Notifier/Delivery.antt =====
-- What a second push of an alert does.
use api_ops.Common.{
  ℕ, ◌+◌, ◌≤◌, ◌<◌, ◌≡◌, ap, ◌∙◌, true, some, [], ◌∷◌, ◌++◌, ◌==◌, if◌then◌else◌, arith,
}
use api_ops.Notifier.Sending.{
  FeishuConfig, Outside, Calls, load_config, AlertHistory, Marks, nothing_sent, mark, send_with,
  World, send, action_status, send_for_alert,
}

-- A key that lives keeps the alert from being sent.
send_marked :
    (out : Outside) (calls : Calls) (later : ℕ) (h : AlertHistory) (cfg : FeishuConfig)
    (marks : Marks)
    → calls.redis_answers ≡ true
    → later < marks h.id
    → send_with (some cfg) out calls later h (some marks) ≡ (nothing_sent, some marks)
unfolding send_with mark
send_marked out calls later h cfg marks r l = ground (arith, r, l)

-- A first call leaves a key for a day.
send_marks :
    (out : Outside) (calls : Calls) (now : ℕ) (h : AlertHistory) (cfg : FeishuConfig)
    (marks : Marks)
    → calls.redis_answers ≡ true
    → marks h.id ≤ now
    → (kept : Marks) × ((send_with (some cfg) out calls now h (some marks)).1 ≡ some kept)
      × (kept h.id ≡ now + 86400)
unfolding send_with mark
send_marks out calls now h cfg marks r l =
    (λ j. if j == h.id then now + 86400 else marks j, ground (arith, r, l), ground arith)

push-world :
    (out : Outside) (calls : Calls) (now : ℕ) (h : AlertHistory) (w : World)
    → ((send_for_alert out calls now h w).1.notifier ≡ (load_config out calls now w.notifier).1)
      × ((send_for_alert out calls now h w).1.marks
          ≡ (send_with (load_config out calls now w.notifier).0 out calls now h w.marks).1)
unfolding send_for_alert send
push-world out calls now h w = ground arith

-- A push that finds the alert's key.
push_marked :
    (out : Outside) (calls : Calls) (later : ℕ) (h : AlertHistory) (w : World) (cfg : FeishuConfig)
    (marks : Marks)
    → calls.redis_answers ≡ true
    → calls.creates ≡ true
    → w.marks ≡ some marks
    → later < marks h.id
    → (load_config out calls later w.notifier).0 ≡ some cfg
    → ((send_for_alert out calls later h w).0 ≡ [])
      × ((send_for_alert out calls later h w).1.actions ≡ w.actions ++ (h.id, "degraded") ∷ [])
unfolding send_for_alert send action_status
push_marked out calls later h w cfg marks r k m l e =
    let s : send_with (load_config out calls later w.notifier).0 out calls later h w.marks
        ≡ (nothing_sent, some marks) =
      rw e (rw m (send_marked out calls later h cfg marks r l)) in
    (ground (arith, s), ground (arith, s, k))

-- An alert that is pushed once and, within a day, again, while there is a URL and Redis and the database
-- work: the second push posts nothing and writes an action with the status "degraded", however the first
-- has ended, a failure after four posts included.
pub second_push_is_degraded :
    (out : Outside) (calls : Calls) (now later : ℕ) (h : AlertHistory) (w : World) (marks : Marks)
    (cfg cfg' : FeishuConfig)
    → calls.redis_answers ≡ true
    → calls.creates ≡ true
    → w.marks ≡ some marks
    → marks h.id ≤ now
    → later < now + 86400
    → (load_config out calls now w.notifier).0 ≡ some cfg
    → (load_config out calls later (load_config out calls now w.notifier).1).0 ≡ some cfg'
    → ((send_for_alert out calls later h (send_for_alert out calls now h w).1).0 ≡ [])
      × ((send_for_alert out calls later h (send_for_alert out calls now h w).1).1.actions
          ≡ (send_for_alert out calls now h w).1.actions ++ (h.id, "degraded") ∷ [])
second_push_is_degraded out calls now later h w marks cfg cfg' r k m free l e e' =
    let (n, q) = push-world out calls now h w in
    let (kept, x, y) = send_marks out calls now h cfg marks r free in
    push_marked out calls later h (send_for_alert out calls now h w).1 cfg' kept r k
      (q
        ∙ ap (λ o. (send_with o out calls now h w.marks).1) e
        ∙ ap (λ o. (send_with (some cfg) out calls now h o).1) m
        ∙ x)
      (omega (arith, y, l)) (ap (λ o. (load_config out calls later o).0) n ∙ e')
