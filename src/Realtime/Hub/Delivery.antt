-- ===== src/Realtime/Hub/Delivery.antt =====
-- Who gets a frame: the loops of the broadcasts against the subscriptions.
use mathlib.Core.Option.{get_or}
use mathlib.Core.Path.{fun_ext}
use api_ops.Common.{
  ℕ, ◌≡◌, refl, Bool, true, false, not, ◌&&◌, ◌||◌, Option, none, some, List, [], ◌∷◌, ◌++◌, String,
  ℕ_discrete, has, has-append, ite, if◌then◌else◌, arith, Distinct, ltb, length, ◌∙◌, inl, inr,
  Bool-cases,
}
use api_ops.Realtime.Hub.{
  Hub, Client, Bytes, running, subs, post, send_cap, send_raw, send_each, Payload, AlertPayload,
  Frame, alert, fields, broadcast_to, broadcast_tick, broadcast_global, broadcast_alert,
}
use api_ops.Realtime.Hub.Index.{Inv, in_set, wants}

abbrev has_room : Client → Bool
has_room c = ltb (length c.send) send_cap

-- What a client's channel holds after a frame was offered to it.
abbrev pub offered : Bytes → Bool → Client → List Bytes
offered b to c = if to && (not c.closed && has_room c) then c.send ++ b ∷ [] else c.send

-- The hub after a frame was sent to each client of a set: the open ones among them with room have it,
-- the open ones without are about to be unregistered, and nothing else changed.
pub record Delivered (b : Bytes) (to : ℕ → Bool) (h h' : Hub) : Type 0 where
  pub sends : (j : ℕ) → (h'.heap j).send ≡ offered b (to j) (h.heap j)
  pub closed : (j : ℕ) → (h'.heap j).closed ≡ (h.heap j).closed
  pub topics : (j : ℕ) → (h'.heap j).topics ≡ (h.heap j).topics
  pub leaving :
      (j : ℕ)
      → in_set j h'.unregister
        ≡ (in_set j h.unregister || (to j && (not (h.heap j).closed && not (has_room (h.heap j)))))
  pub clients : h'.clients ≡ h.clients
  pub by_topic : h'.by_topic ≡ h.by_topic

send_raw-Delivered :
    (b : Bytes) (c : ℕ) (h : Hub)
    → (h' : Hub) × (send_raw b c h ≡ running h')
      × Delivered b (λ j. ite (ℕ_discrete j c) true false) h h'
unfolding send_raw post has
send_raw-Delivered b c h = elim (Bool-cases (h.heap c).closed) [
  | inl shut ↦ (
    h,
    rw shut,
    record {
      sends = λ j. ground arith;
      closed = λ j. refl;
      topics = λ j. refl;
      leaving = λ j. ground arith;
      clients = refl;
      by_topic = refl;
    },
  )
  | inr live ↦ (
    post b c h,
    rw live,
    record {
      sends = λ j. ground arith;
      closed = λ j. ground arith;
      topics = λ j. ground arith;
      leaving = λ j. ground (arith, has-append ℕ_discrete j h.unregister (c ∷ []));
      clients = ground arith;
      by_topic = ground arith;
    },
  )
]

-- `sendRaw` to each client of a set, with nothing in between, does not panic, and delivers to the set.
send_each-Delivered :
    (b : Bytes) (cs : List ℕ) (h : Hub)
    → Distinct ℕ_discrete cs
    → (h' : Hub) × (send_each b cs h ≡ running h') × Delivered b (λ j. in_set j cs) h h'
unfolding send_each has
send_each-Delivered b [] h d = (
  h,
  refl,
  record {
    sends = λ j. refl;
    closed = λ j. refl;
    topics = λ j. refl;
    leaving = λ j. ground arith;
    clients = refl;
    by_topic = refl;
  },
)
send_each-Delivered b (c ∷ cs) h d =
    let (m, first, here) = send_raw-Delivered b c h in
    let (h', rest, there) = send_each-Delivered b cs m d.1 in
    (
      h',
      rw (first, rest),
      record {
        sends = λ j. ground (arith, here.sends j, here.closed j, there.sends j);
        closed = λ j. there.closed j ∙ here.closed j;
        topics = λ j. there.topics j ∙ here.topics j;
        leaving = λ j. ground (arith, here.sends j, here.closed j, here.leaving j, there.leaving j);
        clients = there.clients ∙ here.clients;
        by_topic = there.by_topic ∙ here.by_topic;
      },
    )

Delivered-ext :
    (b : Bytes) (f g : ℕ → Bool) (h h' : Hub)
    → ((j : ℕ) → f j ≡ g j)
    → Delivered b f h h'
    → Delivered b g h h'
Delivered-ext b f g h h' e d = rw (fun_ext e) at d

module _ {T : Type 0} (marshal : Frame T → Option Bytes) where
  broadcast_to_lem :
      (frame : Frame T) (clients : Option (List ℕ)) (h : Hub) (b : Bytes)
      → marshal frame ≡ some b
      → broadcast_to marshal frame clients h ≡ send_each b (get_or clients h.clients) h
  unfolding broadcast_to
  broadcast_to_lem frame clients h b e = rw (e, broadcast_to)

  pub tick_reaches_subscribers :
      (topic : String) (payload : Payload T) (ts : ℕ) (h : Hub) (b : Bytes)
      → Inv h
      → marshal (record { kind = "tick"; channel = topic; payload = payload; ts = ts }) ≡ some b
      → (h' : Hub) × (broadcast_tick marshal topic payload ts h ≡ running h')
        × Delivered b (λ j. in_set j h.clients && wants topic (h.heap j).topics) h h'
  tick_reaches_subscribers topic payload ts h b v e =
      let (h', done, d) = send_each-Delivered b (subs topic h.by_topic) h (v.once topic) in
      (
        h',
        unfold broadcast_tick in broadcast_to_lem _ (some (subs topic h.by_topic)) h b e ∙ done,
        Delivered-ext b _ _ h h' (λ j. v.exact topic j) d,
      )

  -- The global tick, with nothing in between, does not panic and is offered to the registered clients.
  global_reaches_clients :
      (payload : Payload T) (ts : ℕ) (h : Hub) (b : Bytes)
      → Inv h
      → marshal (record { kind = "tick"; channel = "global"; payload = payload; ts = ts }) ≡ some b
      → (h' : Hub) × (broadcast_global marshal payload ts h ≡ running h')
        × Delivered b (λ j. in_set j h.clients) h h'
  global_reaches_clients payload ts h b v e =
      let (h', done, d) = send_each-Delivered b h.clients h v.distinct in
      (h', unfold broadcast_global in broadcast_to_lem _ none h b e ∙ done, d)

  -- An alert, with nothing in between, does not panic and is two frames: one is offered to every registered
  -- client, and behind it a summary to those that subscribed to `errors`.
  alert_reaches_clients :
      (a : AlertPayload) (now : ℕ) (h : Hub) (b summary : Bytes)
      → Inv h
      → marshal (record { kind = "alert"; channel = "global"; payload = alert a; ts = now })
        ≡ some b
      → marshal (record {
        kind = "tick";
        channel = "errors";
        payload = fields (
            ("subject_type", a.subject_type)
            ∷ ("subject_id", a.subject_id)
            ∷ ("message", a.message)
            ∷ []);
        ts = now;
      })
        ≡ some summary
      → (m : Hub) × (h' : Hub) × (broadcast_alert marshal a now h ≡ running h')
        × Delivered b (λ j. in_set j h.clients) h m
        × Delivered summary (λ j. in_set j h.clients && wants "errors" (h.heap j).topics) m h'
  alert_reaches_clients a now h b summary v e f =
      let (m, first, d) = send_each-Delivered b h.clients h v.distinct in
      let (h', second, d') =
        send_each-Delivered summary (subs "errors" h.by_topic) m (v.once "errors") in
      (
        m,
        h',
        unfold broadcast_alert broadcast_tick in
            rw
              (
                broadcast_to_lem _ none h b e,
                first,
                broadcast_to_lem _ (some (subs "errors" m.by_topic)) m summary f,
                d.by_topic,
              )
              second,
        d,
        Delivered-ext summary _ _ m h' (λ j. v.exact "errors" j) d',
      )
