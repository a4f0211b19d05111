-- ===== src/Realtime/Tests.antt =====
-- Histories of the limiter and of the hub, on concrete connections.
mod Redis
mod Panel
use api_ops.Common.{
  ℕ, ◌+◌, ◌*◌, ◌≤◌, ◌≡◌, refl, Bool, true, false, some, List, [], ◌∷◌, String, String_discrete,
  lookup, insert, delete, arith, if◌then◌else◌,
}
use api_ops.Realtime.Limiter.{
  Limiter, minute, at, new_limiter, allow_conn_local, release_conn_local, gc_locked, gc_conns,
  gc_msgs, allow_msg_local, msg_key, window_over,
}
use api_ops.Realtime.Limiter.Conns.{Inv}
use api_ops.Realtime.Limiter.Traces.{
  Call, connect, disconnect, message, Session, start, step, run, start-Inv, run-start-Inv, run-Inv,
  opened_exact,
}
use api_ops.Realtime.Limiter.Unbounded.{opened_unbounded, spaced}
use api_ops.Realtime.Limiter.Messages.{window_cap, passed, sent}

abbrev office : String
office = "10.0.0.1"

abbrev five : List Call
five =
    connect office 1
    ∷ connect office 2
    ∷ connect office 3
    ∷ connect office 4
    ∷ connect office 5
    ∷ []

five_open : at office (run start five).limiter.ip_conn ≡ 5
unfolding run start new_limiter step allow_conn_local gc_locked gc_conns gc_msgs insert delete
    lookup String_discrete
five_open = refl

sixth_refused : (allow_conn_local office 6 (run start five).limiter).1 ≡ false
unfolding run start new_limiter step allow_conn_local gc_locked gc_conns gc_msgs insert delete
    lookup String_discrete
sixth_refused = refl

run-start-Inv_example : Inv (run start five).limiter
run-start-Inv_example = run-start-Inv five

opened_exact_example : at office (run start five).limiter.ip_conn ≡ (run start five).opened office
opened_exact_example = (opened_exact 0 five office (omega arith)).0

opened_unbounded_example : (run start (spaced office (3 * minute) 12)).opened office ≡ 12
opened_unbounded_example = opened_unbounded office 12

abbrev burst : List (String × ℕ)
burst = (office, 7) ∷ ("10.0.0.2", 8) ∷ (office, 9) ∷ []

window_cap_example : passed office ((office, 6) ∷ burst) new_limiter ≡ 3
unfolding sent new_limiter String_discrete window_over lookup
window_cap_example = window_cap office 6 burst new_limiter refl (omega arith)
