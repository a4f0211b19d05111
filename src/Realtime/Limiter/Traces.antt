-- ===== src/Realtime/Limiter/Traces.antt =====
-- The limiter over a whole history of calls, beside the connections that are really open.
use mathlib.Core.Option.{get_or}
use api_ops.Common.{
  ℕ, ◌+◌, ◌-◌, ◌*◌, ◌≤◌, ◌≡◌, refl, false, Option, none, some, List, [], ◌∷◌, String, lookup,
  String_discrete, ite, if◌then◌else◌, arith, All, lookup-insert, lookup-delete,
}
use api_ops.Realtime.Limiter.{
  Limiter, new_limiter, minute, at, gc_locked, allow_conn_local, allow_msg_local,
  release_conn_local, max_conn_per_ip,
}
use api_ops.Realtime.Limiter.Gc.{overdue, gc_locked_conns}
use api_ops.Realtime.Limiter.Conns.{
  Inv, allow_conn_decides, release_conn_counts, allow_conn-Inv, release_conn-Inv,
}

-- What the server asks of the limiter: a new connection, a frame to an IP, or the end of a connection.
pub data Call : Type 0 where
  connect message : String → ℕ → Call
  disconnect : String → Call

-- The limiter, and how many connections of each IP are open.
pub record Session : Type 0 where
  pub limiter : Limiter
  pub opened : String → ℕ

unfoldable pub start : Session
start = record { limiter = new_limiter; opened = λ _. 0 }

unfoldable pub step : Session → Call → Session
step s (connect ip now) =
    let (l, admitted) = allow_conn_local ip now s.limiter in
    record {
      limiter = l;
      opened = λ j. s.opened j + ite (String_discrete j ip) (if admitted then 1 else 0) 0;
    }
step s (message ip now) = record s { limiter = (allow_msg_local ip now s.limiter).0 }
step s (disconnect ip) = record {
  limiter = release_conn_local ip s.limiter;
  opened = λ j. s.opened j - ite (String_discrete j ip) 1 0;
}

unfoldable pub run : Session → List Call → Session
run s [] = s
run s (c ∷ cs) = run (step s c) cs

message-Inv : (ip : String) (now : ℕ) (l : Limiter) → Inv l → Inv (allow_msg_local ip now l).0
unfolding allow_msg_local
message-Inv ip now l v = record {
  stamps = ground (arith, v.stamps);
  capped = λ j. ground (arith, v.capped j);
  stored = λ j. ground (arith, v.stored j);
  stamped = λ j. ground (arith, v.stamped j);
}

pub step-Inv : (s : Session) (c : Call) → Inv s.limiter → Inv (step s c).limiter
unfolding step
step-Inv s (connect ip now) v = allow_conn-Inv ip now s.limiter v
step-Inv s (message ip now) v = message-Inv ip now s.limiter v
step-Inv s (disconnect ip) v = release_conn-Inv ip s.limiter v

pub run-Inv : (s : Session) (cs : List Call) → Inv s.limiter → Inv (run s cs).limiter
unfolding run
run-Inv s [] v = v
run-Inv s (c ∷ cs) v = run-Inv (step s c) cs (step-Inv s c v)

pub start-Inv : Inv start.limiter
unfolding start new_limiter lookup
start-Inv = record {
  stamps = tt;
  capped = λ ip. omega arith;
  stored = λ ip. ground arith;
  stamped = λ ip. refl;
}

-- After any calls at all, from a new limiter: no counter passes five, none is stored at 0, and an IP
-- has a counter exactly when it has a stamp.
pub run-start-Inv : (cs : List Call) → Inv (run start cs).limiter
run-start-Inv cs = run-Inv start cs start-Inv

-- The time of a connection is less than two minutes behind the first.
abbrev pub IsTimely : ℕ → Call → Type 0
IsTimely t (connect ip now) = (t ≤ now) × (now ≤ t + 2 * minute)
IsTimely t (message ip now) = Unit
IsTimely t (disconnect ip) = Unit

record IsExact (t : ℕ) (s : Session) : Type 0 where
  inv : Inv s.limiter
  counts : (ip : String) → at ip s.limiter.ip_conn ≡ s.opened ip
  recent : (ip : String) → t ≤ get_or (lookup String_discrete ip s.limiter.ip_conn_set) t

not_overdue :
    (t now : ℕ) (o : Option ℕ) → now ≤ t + 2 * minute → t ≤ get_or o t → overdue now o ≡ false
not_overdue t now none h k = refl
not_overdue t now (some stamp) h k = ground arith

connect_stamps :
    (ip j : String) (now t : ℕ) (l : Limiter)
    → Inv l
    → t ≤ now
    → now ≤ t + 2 * minute
    → ((i : String) → t ≤ get_or (lookup String_discrete i l.ip_conn_set) t)
    → t ≤ get_or (lookup String_discrete j (allow_conn_local ip now l).0.ip_conn_set) t
unfolding allow_conn_local
connect_stamps ip j now t l v h k r = ground (
  arith,
  r j,
  gc_locked_conns now j l v.stamps,
  lookup-insert String_discrete ip j now (gc_locked now l).ip_conn_set,
)

connect-IsExact :
    (ip : String) (now t : ℕ) (s : Session)
    → t ≤ now
    → now ≤ t + 2 * minute
    → IsExact t s
    → IsExact t (step s (connect ip now))
unfolding step
connect-IsExact ip now t s h k e = record {
  inv = allow_conn-Inv ip now s.limiter e.inv;
  counts = λ j. ground (
    arith,
    (allow_conn_decides ip now s.limiter e.inv).0,
    (allow_conn_decides ip now s.limiter e.inv).1 j,
    e.counts j,
    not_overdue t now (lookup String_discrete ip s.limiter.ip_conn_set) k (e.recent ip),
    not_overdue t now (lookup String_discrete j s.limiter.ip_conn_set) k (e.recent j),
  );
  recent = λ j. connect_stamps ip j now t s.limiter e.inv h k e.recent;
}

disconnect-IsExact :
    (ip : String) (t : ℕ) (s : Session) → IsExact t s → IsExact t (step s (disconnect ip))
unfolding step release_conn_local
disconnect-IsExact ip t s e = record {
  inv = unfold release_conn_local in release_conn-Inv ip s.limiter e.inv;
  counts = λ j. ground (arith, release_conn_counts ip j s.limiter, e.counts j);
  recent =
      λ j. ground (arith, e.recent j, lookup-delete String_discrete ip j s.limiter.ip_conn_set);
}

message-IsExact :
    (ip : String) (now t : ℕ) (s : Session) → IsExact t s → IsExact t (step s (message ip now))
unfolding step allow_msg_local
message-IsExact ip now t s e = record {
  inv = message-Inv ip now s.limiter e.inv;
  counts = λ j. ground (arith, e.counts j);
  recent = λ j. ground (arith, e.recent j);
}

step-IsExact : (t : ℕ) (s : Session) (c : Call) → IsTimely t c → IsExact t s → IsExact t (step s c)
step-IsExact t s (connect ip now) h e = connect-IsExact ip now t s h.0 h.1 e
step-IsExact t s (message ip now) h e = message-IsExact ip now t s e
step-IsExact t s (disconnect ip) h e = disconnect-IsExact ip t s e

run-IsExact :
    (t : ℕ) (s : Session) (cs : List Call)
    → All (IsTimely t) cs
    → IsExact t s
    → IsExact t (run s cs)
unfolding run
run-IsExact t s [] h e = e
run-IsExact t s (c ∷ cs) h e = run-IsExact t (step s c) cs h.1 (step-IsExact t s c h.0 e)

-- While all connections are asked for within two minutes, each counter is the number of the
-- IP's open connections, and these are five at most.
pub opened_exact :
    (t : ℕ) (cs : List Call) (ip : String)
    → All (IsTimely t) cs
    → (at ip (run start cs).limiter.ip_conn ≡ (run start cs).opened ip)
      × ((run start cs).opened ip ≤ max_conn_per_ip)
unfolding start new_limiter lookup
opened_exact t cs ip h =
    let e =
      run-IsExact t start cs h
        (record { inv = start-Inv; counts = λ j. refl; recent = λ j. omega arith }) in
    (e.counts ip, omega (arith, e.counts ip, e.inv.capped ip))
