-- ===== src/Realtime/Limiter/Conns.antt =====
-- The connection limit of limiter.go: which calls are admitted, and what the counters say.
use api_ops.Common.{
  ℕ, ◌+◌, ◌-◌, ◌≤◌, ◌≡◌, ◌≢◌, Bool, true, false, Option, none, some, String, lookup, insert,
  String_discrete, ltb, ite, if◌then◌else◌, arith, lookup-insert, lookup-delete, KeysDistinct,
  insert-KeysDistinct, delete-KeysDistinct,
}
use api_ops.Realtime.Limiter.{
  Limiter, at, gc_locked, allow_conn_local, release_conn_local, max_conn_per_ip,
}
use api_ops.Realtime.Limiter.Gc.{overdue, gc_locked_conns, gc_locked_distinct}

abbrev pub has_entry : Option ℕ → Bool
has_entry none = false
has_entry (some n) = true

-- Between two calls: counters lie between 1 and 5, and each has its stamp.
pub record Inv (l : Limiter) : Type 0 where
  pub stamps : KeysDistinct String_discrete l.ip_conn_set
  pub capped : (ip : String) → at ip l.ip_conn ≤ max_conn_per_ip
  pub stored : (ip : String) → lookup String_discrete ip l.ip_conn ≢ some 0
  pub stamped :
      (ip : String)
      → has_entry (lookup String_discrete ip l.ip_conn)
        ≡ has_entry (lookup String_discrete ip l.ip_conn_set)

-- The counter that a call at `now` goes by.
abbrev pub counted : ℕ → String → Limiter → ℕ
counted now ip l =
    if overdue now (lookup String_discrete ip l.ip_conn_set) then 0 else at ip l.ip_conn

-- The call is admitted exactly while fewer than five connections of the IP are counted; it then adds
-- one to that counter. Of every other IP only an overdue counter changes, to 0.
pub allow_conn_decides :
    (ip : String) (now : ℕ) (l : Limiter)
    → Inv l
    → ((allow_conn_local ip now l).1 ≡ ltb (counted now ip l) max_conn_per_ip)
      × ((j : String)
          → at j (allow_conn_local ip now l).0.ip_conn
            ≡ counted now j l
              + ite
                  (String_discrete j ip)
                  (if ltb (counted now ip l) max_conn_per_ip then 1 else 0)
                  0)
unfolding allow_conn_local
allow_conn_decides ip now l v = (
  ground (arith, gc_locked_conns now ip l v.stamps),
  λ j. ground (
    arith,
    gc_locked_conns now ip l v.stamps,
    gc_locked_conns now j l v.stamps,
    lookup-insert String_discrete ip j (at ip (gc_locked now l).ip_conn + 1)
        (gc_locked now l).ip_conn,
  ),
)

-- A disconnection takes one from the counter of its IP, down to 0, and from no other.
pub release_conn_counts :
    (ip j : String) (l : Limiter)
    → at j (release_conn_local ip l).ip_conn ≡ at j l.ip_conn - ite (String_discrete j ip) 1 0
unfolding release_conn_local
release_conn_counts ip j l = ground (
  arith,
  lookup-insert String_discrete ip j (at ip l.ip_conn - 1) l.ip_conn,
  lookup-delete String_discrete ip j (insert String_discrete ip (at ip l.ip_conn - 1) l.ip_conn),
)

pub allow_conn-Inv :
    (ip : String) (now : ℕ) (l : Limiter) → Inv l → Inv (allow_conn_local ip now l).0
unfolding allow_conn_local
allow_conn-Inv ip now l v = record {
  stamps = ground (
    arith,
    gc_locked_distinct now l v.stamps,
    insert-KeysDistinct String_discrete ip now (gc_locked now l).ip_conn_set,
  );
  capped = λ j. ground (
    arith,
    v.capped j,
    gc_locked_conns now j l v.stamps,
    lookup-insert String_discrete ip j (at ip (gc_locked now l).ip_conn + 1)
        (gc_locked now l).ip_conn,
  );
  stored = λ j. ground (
    arith,
    v.stored j,
    gc_locked_conns now j l v.stamps,
    lookup-insert String_discrete ip j (at ip (gc_locked now l).ip_conn + 1)
        (gc_locked now l).ip_conn,
  );
  stamped = λ j. ground (
    arith,
    v.stamped j,
    gc_locked_conns now j l v.stamps,
    lookup-insert String_discrete ip j (at ip (gc_locked now l).ip_conn + 1)
        (gc_locked now l).ip_conn,
    lookup-insert String_discrete ip j now (gc_locked now l).ip_conn_set,
  );
}

pub release_conn-Inv : (ip : String) (l : Limiter) → Inv l → Inv (release_conn_local ip l)
unfolding release_conn_local
release_conn-Inv ip l v = record {
  stamps = ground (arith, v.stamps, delete-KeysDistinct String_discrete ip l.ip_conn_set v.stamps);
  capped = λ j. ground (
    arith,
    v.capped j,
    lookup-insert String_discrete ip j (at ip l.ip_conn - 1) l.ip_conn,
    lookup-delete String_discrete ip j (insert String_discrete ip (at ip l.ip_conn - 1) l.ip_conn),
  );
  stored = λ j. ground (
    arith,
    v.stored j,
    lookup-insert String_discrete ip j (at ip l.ip_conn - 1) l.ip_conn,
    lookup-delete String_discrete ip j (insert String_discrete ip (at ip l.ip_conn - 1) l.ip_conn),
  );
  stamped = λ j. ground (
    arith,
    v.stamped j,
    lookup-insert String_discrete ip j (at ip l.ip_conn - 1) l.ip_conn,
    lookup-delete String_discrete ip j (insert String_discrete ip (at ip l.ip_conn - 1) l.ip_conn),
    lookup-delete String_discrete ip j l.ip_conn_set,
  );
}
