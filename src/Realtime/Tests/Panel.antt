-- ===== src/Realtime/Tests/Panel.antt =====
-- A hub with three connections: two of one channel and one that also wants errors.
use api_ops.Common.{
  ℕ, ◌≡◌, refl, ◌&&◌, some, List, [], ◌∷◌, String_discrete, ℕ_discrete, lookup, insert, add, has,
  Option,
}
use api_ops.Realtime.Hub.{
  Hub, Bytes, running, panic, tick, AlertPayload, Frame, new_hub, on_register, index_topics,
  broadcast_tick, post,
}
use api_ops.Realtime.Hub.Serve.{enter, subscribe_all}
use api_ops.Realtime.Hub.Index.{in_set, wants}
use api_ops.Realtime.Hub.Steps.{
  IsSafe, Reach, here, next, entered, registered, Reach-new_hub-IsSafe,
}
use api_ops.Realtime.Hub.Delivery.{Delivered, tick_reaches_subscribers}
use api_ops.Realtime.Hub.Race.{send_races_close}
use api_ops.Realtime.Hub.Sending.{Thread, sender, at_start, interleave, outcome}

abbrev waiting : Hub
waiting = enter "10.0.0.2" ("errors" ∷ []) new_hub

-- One client, registered for `errors`.
abbrev panel : Hub
panel = on_register 1 (record waiting { register = [] })

panel_reached : Reach new_hub panel
unfolding enter new_hub
panel_reached = next (next here (entered "10.0.0.2" ("errors" ∷ []))) (registered 1 [] refl)

Reach-new_hub-IsSafe_example : IsSafe panel
Reach-new_hub-IsSafe_example = Reach-new_hub-IsSafe panel_reached

-- The encoding of a frame: its time stamp.
abbrev marshal : Frame ℕ → Option Bytes
marshal f = some (f.ts ∷ [])

tick_reaches_subscribers_example :
    (h' : Hub) × (broadcast_tick marshal "errors" (tick 1) 7 panel ≡ running h')
    × Delivered
        (7 ∷ [])
        (λ j. in_set j panel.clients && wants "errors" (panel.heap j).topics)
        panel
        h'
tick_reaches_subscribers_example =
    tick_reaches_subscribers marshal "errors" (tick 1) 7 panel (7 ∷ [])
      (Reach-new_hub-IsSafe panel_reached).inv refl

-- The subscriber has the frame.
subscriber_has_tick : (tick_reaches_subscribers_example.0.heap 1).send ≡ (7 ∷ []) ∷ []
unfolding on_register enter new_hub index_topics insert add has lookup String_discrete ℕ_discrete
    subscribe_all
subscriber_has_tick = tick_reaches_subscribers_example.2.sends 1

abbrev low_balance : AlertPayload
low_balance = record {
  rule_id = 2;
  rule_name = "balance";
  severity = "high";
  subject_type = "channel";
  subject_id = "5";
  subject_name = "c5";
  message = "balance below 5";
}

send_races_close_example :
    (outcome (interleave (3 ∷ []) 1 (sender ∷ sender ∷ sender ∷ []) (at_start panel))
      ≡ running (post (3 ∷ []) 1 panel))
    × ((turns : List Thread) × (outcome (interleave (3 ∷ []) 1 turns (at_start panel)) ≡ panic))
unfolding on_register enter new_hub add has ℕ_discrete
send_races_close_example =
    send_races_close (3 ∷ []) 1 panel (Reach-new_hub-IsSafe panel_reached).inv refl
