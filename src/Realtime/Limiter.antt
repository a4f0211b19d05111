-- ===== src/Realtime/Limiter.antt =====
-- internal/realtime/limiter.go. A method returns the new limiter beside its answer; `nowFn` is the
-- argument `now`, in nanoseconds. `Shared` adds Redis in front of the tables.
pub mod Gc
pub mod Conns
pub mod Traces
pub mod Unbounded
pub mod Messages
pub mod Shared
use Prim.Native.String
use mathlib.Core.Option.{get_or}
use api_ops.Common.{
  ℕ, ◌+◌, ◌-◌, ◌*◌, Bool, true, false, Option, none, some, List, [], ◌∷◌, String, lookup, insert,
  delete, String_discrete, ltb, leb, if◌then◌else◌,
}

-- The counter of an IP is positive where it is stored (`release_conn_local` deletes it at 0), so the
-- source's `int` is a number here.
pub record Limiter : Type 0 where
  pub ip_conn : List (String × ℕ)
  pub ip_conn_set : List (String × ℕ)
  pub msg_per_min : List (String × ℕ)
  pub msg_reset_at : List (String × ℕ)

unfoldable pub new_limiter : Limiter
new_limiter = record { ip_conn = []; ip_conn_set = []; msg_per_min = []; msg_reset_at = [] }

abbrev pub max_conn_per_ip : ℕ
max_conn_per_ip = 5

abbrev pub max_msg_per_minute : ℕ
max_msg_per_minute = 100

-- `time.Minute`
abbrev pub minute : ℕ
minute = 60_000_000_000

-- A missing entry of a Go map reads as 0.
abbrev pub at : String → List (String × ℕ) → ℕ
at k m = get_or (lookup String_discrete k m) 0

-- The two loops of `gcLocked`, over the entries that each map has at the start of its loop.
unfoldable pub gc_conns : ℕ → List (String × ℕ) → Limiter → Limiter
gc_conns now [] l = l
gc_conns now ((ip, t) ∷ rest) l = gc_conns now rest (
    if ltb (2 * minute) (now - t)
    then record l {
      ip_conn = delete String_discrete ip l.ip_conn;
      ip_conn_set = delete String_discrete ip l.ip_conn_set;
    }
    else l)

unfoldable pub gc_msgs : ℕ → List (String × ℕ) → Limiter → Limiter
gc_msgs now [] l = l
gc_msgs now ((k, t) ∷ rest) l = gc_msgs now rest (
    if ltb (t + 2 * minute) now
    then record l {
      msg_per_min = delete String_discrete k l.msg_per_min;
      msg_reset_at = delete String_discrete k l.msg_reset_at;
    }
    else l)

unfoldable pub gc_locked : ℕ → Limiter → Limiter
gc_locked now l = let l' = gc_conns now l.ip_conn_set l in gc_msgs now l'.msg_reset_at l'

unfoldable pub allow_conn_local : String → ℕ → Limiter → Limiter × Bool
allow_conn_local ip now l =
    let l' = gc_locked now l in
    if leb max_conn_per_ip (at ip l'.ip_conn) then (l', false) else (
      record l' {
        ip_conn = insert String_discrete ip (at ip l'.ip_conn + 1) l'.ip_conn;
        ip_conn_set = insert String_discrete ip now l'.ip_conn_set;
      },
      true,
    )

-- `l.ipConn[ip]--` takes a counter of 0 or 1 to 0 or below, and then the entry goes.
unfoldable pub release_conn_local : String → Limiter → Limiter
release_conn_local ip l =
    let n = at ip l.ip_conn in
    let l' = record l { ip_conn = insert String_discrete ip (n - 1) l.ip_conn } in
    if leb n 1
    then record l' {
      ip_conn = delete String_discrete ip l'.ip_conn;
      ip_conn_set = delete String_discrete ip l'.ip_conn_set;
    }
    else l'

-- `if resetAt, ok := l.msgResetAt[key]; !ok || now.After(resetAt)`
unfoldable pub window_over : ℕ → Option ℕ → Bool
window_over now none = true
window_over now (some reset) = ltb reset now

abbrev pub msg_key : String → String
msg_key ip = String.◌++◌ "m:" ip

unfoldable pub allow_msg_local : String → ℕ → Limiter → Limiter × Bool
unfolding window_over
allow_msg_local ip now l =
    let key = msg_key ip in
    let l' =
      if window_over now (lookup String_discrete key l.msg_reset_at)
      then record l {
        msg_per_min = insert String_discrete key 0 l.msg_per_min;
        msg_reset_at = insert String_discrete key (now + minute) l.msg_reset_at;
      }
      else l in
    let n = at key l'.msg_per_min + 1 in
    (
      record l' { msg_per_min = insert String_discrete key n l'.msg_per_min },
      leb n max_msg_per_minute,
    )
