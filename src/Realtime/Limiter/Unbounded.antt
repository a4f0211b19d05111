-- ===== src/Realtime/Limiter/Unbounded.antt =====
-- What the collector of limiter.go does to connections that stay open.
use mathlib.Core.Option.{get_or}
use api_ops.Common.{
  ℕ, zero, suc, ◌+◌, ◌*◌, ◌<◌, ◌≡◌, some, List, [], ◌∷◌, String, lookup, String_discrete, arith,
  lookup-insert,
}
use api_ops.Realtime.Limiter.{Limiter, new_limiter, minute, at, gc_locked, allow_conn_local}
use api_ops.Realtime.Limiter.Gc.{gc_locked_conns}
use api_ops.Realtime.Limiter.Conns.{Inv, counted, allow_conn_decides}
use api_ops.Realtime.Limiter.Traces.{Call, connect, Session, start, step, run, start-Inv, step-Inv}

-- After that the limit is not kept: once the stamp of an IP is two minutes old, the next connection is
-- admitted and added to those that are open, however many these are.
overdue_admits :
    (s : Session) (ip : String) (now stamp : ℕ)
    → Inv s.limiter
    → lookup String_discrete ip s.limiter.ip_conn_set ≡ some stamp
    → stamp + 2 * minute < now
    → ((step s (connect ip now)).opened ip ≡ s.opened ip + 1)
      × (at ip (step s (connect ip now)).limiter.ip_conn ≡ 1)
unfolding step
overdue_admits s ip now stamp v e h =
    ground (
      arith,
      (allow_conn_decides ip now s.limiter v).0,
      (allow_conn_decides ip now s.limiter v).1 ip,
    )

-- `n` connections of one IP, three minutes apart.
unfoldable pub spaced : String → ℕ → ℕ → List Call
spaced ip now zero = []
spaced ip now (suc n) = connect ip now ∷ spaced ip (now + 3 * minute) n

counted_stale :
    (now : ℕ) (ip : String) (l : Limiter)
    → Inv l
    → get_or (lookup String_discrete ip l.ip_conn_set) 0 + 2 * minute < now
    → counted now ip l ≡ 0
counted_stale now ip l v h = ground (arith, v.stamped ip)

connect_stamp :
    (ip : String) (now : ℕ) (l : Limiter)
    → Inv l
    → counted now ip l ≡ 0
    → lookup String_discrete ip (allow_conn_local ip now l).0.ip_conn_set ≡ some now
unfolding allow_conn_local
connect_stamp ip now l v h = ground (
  arith,
  gc_locked_conns now ip l v.stamps,
  lookup-insert String_discrete ip ip now (gc_locked now l).ip_conn_set,
)

connect_opens :
    (ip : String) (now : ℕ) (s : Session)
    → Inv s.limiter
    → counted now ip s.limiter ≡ 0
    → (step s (connect ip now)).opened ip ≡ s.opened ip + 1
unfolding step
connect_opens ip now s v h = ground (arith, (allow_conn_decides ip now s.limiter v).0)

spaced_opens :
    (ip : String) (n now : ℕ) (s : Session)
    → Inv s.limiter
    → get_or (lookup String_discrete ip s.limiter.ip_conn_set) 0 + 2 * minute < now
    → (run s (spaced ip now n)).opened ip ≡ s.opened ip + n
unfolding run spaced
spaced_opens ip zero now s v h = omega arith
spaced_opens ip (suc n) now s v h =
    let fresh = counted_stale now ip s.limiter v h in
    let s' = step s (connect ip now) in
    let later : get_or (lookup String_discrete ip s'.limiter.ip_conn_set) 0 + 2 * minute
        < now + 3 * minute =
      unfold step in rw (connect_stamp ip now s.limiter v fresh) (omega arith) in
    omega (
      arith,
      spaced_opens ip n (now + 3 * minute) s' (step-Inv s (connect ip now) v) later,
      connect_opens ip now s v fresh,
    )

-- So no number bounds the open connections of an IP: connections that stay open and are asked for
-- three minutes apart are all admitted.
pub opened_unbounded : (ip : String) (n : ℕ) → (run start (spaced ip (3 * minute) n)).opened ip ≡ n
unfolding start new_limiter lookup
opened_unbounded ip n = omega (arith, spaced_opens ip n (3 * minute) start start-Inv (omega arith))
