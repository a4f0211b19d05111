-- ===== src/Realtime/Limiter/Messages.antt =====
-- The message limit of limiter.go: at most a hundred frames to an IP in a window of a minute.
use api_ops.Common.{
  ℕ, ◌+◌, ◌≤◌, ◌≡◌, ◌≢◌, true, some, List, [], ◌∷◌, String, lookup, insert, String_discrete, ltb,
  ite, if◌then◌else◌, arith, All, lookup-insert,
}
use Prim.Native.Nat.{min}
use text.Mathlib.TextLemmas.{append_cancel_left}
use api_ops.Realtime.Limiter.{
  Limiter, minute, at, msg_key, allow_msg_local, max_msg_per_minute, window_over,
}

-- Frames to any IPs, in the order sent: how many of those to `ip` are let through, and how many
-- there are.
unfoldable pub passed : String → List (String × ℕ) → Limiter → ℕ
passed ip [] l = 0
passed ip ((j, now) ∷ frames) l =
    let (l', pass) = allow_msg_local j now l in
    (if pass then ite (String_discrete ip j) 1 0 else 0) + passed ip frames l'

unfoldable pub sent : String → List (String × ℕ) → ℕ
sent ip [] = 0
sent ip ((j, now) ∷ frames) = ite (String_discrete ip j) 1 0 + sent ip frames

-- Inside an open window a call counts on, and lets the frame through up to the hundredth.
allow_msg_open :
    (ip : String) (now reset : ℕ) (l : Limiter)
    → lookup String_discrete (msg_key ip) l.msg_reset_at ≡ some reset
    → now ≤ reset
    → ((allow_msg_local ip now l).1 ≡ ltb (at (msg_key ip) l.msg_per_min) max_msg_per_minute)
      × (at (msg_key ip) (allow_msg_local ip now l).0.msg_per_min
          ≡ at (msg_key ip) l.msg_per_min + 1)
      × (lookup String_discrete (msg_key ip) (allow_msg_local ip now l).0.msg_reset_at ≡ some reset)
unfolding allow_msg_local
allow_msg_open ip now reset l e h = ground (
  arith,
  lookup-insert String_discrete (msg_key ip) (msg_key ip) (at (msg_key ip) l.msg_per_min + 1)
      l.msg_per_min,
)

-- A call after the window, or the first one, opens a window of a minute and is let through.
allow_msg_fresh :
    (ip : String) (now : ℕ) (l : Limiter)
    → window_over now (lookup String_discrete (msg_key ip) l.msg_reset_at) ≡ true
    → ((allow_msg_local ip now l).1 ≡ true)
      × (at (msg_key ip) (allow_msg_local ip now l).0.msg_per_min ≡ 1)
      × (lookup String_discrete (msg_key ip) (allow_msg_local ip now l).0.msg_reset_at
          ≡ some (now + minute))
unfolding allow_msg_local
allow_msg_fresh ip now l h = ground (
  arith,
  lookup-insert String_discrete (msg_key ip) (msg_key ip) 0 l.msg_per_min,
  lookup-insert String_discrete (msg_key ip) (msg_key ip) 1
      (insert String_discrete (msg_key ip) 0 l.msg_per_min),
  lookup-insert String_discrete (msg_key ip) (msg_key ip) (now + minute) l.msg_reset_at,
)

msg_key_inj : (i j : String) → msg_key i ≡ msg_key j → i ≡ j
msg_key_inj i j e = append_cancel_left "m:" i j e

-- Frames to one IP leave the window of another as it is.
allow_msg_other :
    (ip j : String) (now : ℕ) (l : Limiter)
    → ip ≢ j
    → (at (msg_key ip) (allow_msg_local j now l).0.msg_per_min ≡ at (msg_key ip) l.msg_per_min)
      × (lookup String_discrete (msg_key ip) (allow_msg_local j now l).0.msg_reset_at
          ≡ lookup String_discrete (msg_key ip) l.msg_reset_at)
unfolding allow_msg_local
allow_msg_other ip j now l h = ground (
  arith,
  msg_key_inj ip j,
  lookup-insert String_discrete (msg_key j) (msg_key ip) 0 l.msg_per_min,
  lookup-insert String_discrete (msg_key j) (msg_key ip)
      (at (msg_key j) (insert String_discrete (msg_key j) 0 l.msg_per_min) + 1)
      (insert String_discrete (msg_key j) 0 l.msg_per_min),
  lookup-insert String_discrete (msg_key j) (msg_key ip) (at (msg_key j) l.msg_per_min + 1)
      l.msg_per_min,
  lookup-insert String_discrete (msg_key j) (msg_key ip) (now + minute) l.msg_reset_at,
)

passed_open :
    (ip : String) (frames : List (String × ℕ)) (reset : ℕ) (l : Limiter)
    → lookup String_discrete (msg_key ip) l.msg_reset_at ≡ some reset
    → All (λ f. f.1 ≤ reset) frames
    → passed ip frames l + min (at (msg_key ip) l.msg_per_min) max_msg_per_minute
      ≡ min (at (msg_key ip) l.msg_per_min + sent ip frames) max_msg_per_minute
unfolding passed sent
passed_open ip [] reset l e h = omega arith
passed_open ip ((j, now) ∷ frames) reset l e h = elim (String_discrete ip j) [
  | yes p ↦
      ground (
        arith,
        allow_msg_open j now reset l,
        passed_open ip frames reset (allow_msg_local j now l).0,
      )
  | no p ↦
      ground (
        arith,
        allow_msg_other ip j now l p,
        passed_open ip frames reset (allow_msg_local j now l).0,
      )
]

-- From the frame that opens an IP's window, and over any frames (to any IPs) sent by the end of that
-- minute, exactly the first hundred to the IP are let through.
pub window_cap :
    (ip : String) (now : ℕ) (frames : List (String × ℕ)) (l : Limiter)
    → window_over now (lookup String_discrete (msg_key ip) l.msg_reset_at) ≡ true
    → All (λ f. f.1 ≤ now + minute) frames
    → passed ip ((ip, now) ∷ frames) l ≡ min (1 + sent ip frames) max_msg_per_minute
unfolding passed
window_cap ip now frames l w h = ground (
  arith,
  allow_msg_fresh ip now l w,
  passed_open ip frames (now + minute) (allow_msg_local ip now l).0,
)
