-- ===== src/Realtime/Limiter/Gc.antt =====
-- What `gc_locked` does to the connection tables, one IP at a time.
use api_ops.Common.{
  ℕ, ◌-◌, ◌*◌, ◌≡◌, refl, Bool, false, ◌||◌, Option, none, some, List, [], ◌∷◌, String, lookup,
  delete, String_discrete, ltb, ite, if◌then◌else◌, arith, lookup-delete, KeysDistinct,
  delete-KeysDistinct,
}
use api_ops.Realtime.Limiter.{Limiter, minute, gc_conns, gc_msgs, gc_locked}

-- The test of the loop: a stamp taken more than two minutes ago.
abbrev pub overdue : ℕ → Option ℕ → Bool
overdue now none = false
overdue now (some t) = ltb (2 * minute) (now - t)

-- Some entry of the IP is overdue.
stale : ℕ → String → List (String × ℕ) → Bool
stale now ip [] = false
stale now ip ((j, t) ∷ es) =
    let rest = stale now ip es in ite (String_discrete ip j) (overdue now (some t) || rest) rest

lookup-gc_conns :
    (now : ℕ) (ip : String) (es : List (String × ℕ)) (l : Limiter)
    → (lookup String_discrete ip (gc_conns now es l).ip_conn
        ≡ (if stale now ip es then none else lookup String_discrete ip l.ip_conn))
      × (lookup String_discrete ip (gc_conns now es l).ip_conn_set
          ≡ (if stale now ip es then none else lookup String_discrete ip l.ip_conn_set))
unfolding gc_conns stale
lookup-gc_conns now ip [] l = (refl, refl)
lookup-gc_conns now ip ((j, t) ∷ es) l = ground (
  arith,
  lookup-gc_conns now ip es l,
  lookup-gc_conns now ip es (record l {
    ip_conn = delete String_discrete j l.ip_conn;
    ip_conn_set = delete String_discrete j l.ip_conn_set;
  }),
  lookup-delete String_discrete j ip l.ip_conn,
  lookup-delete String_discrete j ip l.ip_conn_set,
)

stale_absent :
    (now : ℕ) (ip : String) (es : List (String × ℕ))
    → lookup String_discrete ip es ≡ none
    → stale now ip es ≡ false
unfolding stale lookup
stale_absent now ip [] h = refl
stale_absent now ip ((j, t) ∷ es) h = ground (arith, stale_absent now ip es)

stale-overdue :
    (now : ℕ) (ip : String) (es : List (String × ℕ))
    → KeysDistinct String_discrete es
    → stale now ip es ≡ overdue now (lookup String_discrete ip es)
unfolding stale lookup
stale-overdue now ip [] h = refl
stale-overdue now ip ((j, t) ∷ es) h =
    ground (arith, stale_absent now ip es, stale-overdue now ip es h.1)

-- The message loop leaves the connection tables alone.
gc_msgs_conns :
    (now : ℕ) (es : List (String × ℕ)) (l : Limiter)
    → ((gc_msgs now es l).ip_conn ≡ l.ip_conn) × ((gc_msgs now es l).ip_conn_set ≡ l.ip_conn_set)
unfolding gc_msgs
gc_msgs_conns now [] l = (refl, refl)
gc_msgs_conns now ((k, t) ∷ es) l = ground (
  arith,
  gc_msgs_conns now es l,
  gc_msgs_conns now es (record l {
    msg_per_min = delete String_discrete k l.msg_per_min;
    msg_reset_at = delete String_discrete k l.msg_reset_at;
  }),
)

gc_conns_distinct :
    (now : ℕ) (es : List (String × ℕ)) (l : Limiter)
    → KeysDistinct String_discrete l.ip_conn_set
    → KeysDistinct String_discrete (gc_conns now es l).ip_conn_set
unfolding gc_conns
gc_conns_distinct now [] l h = h
gc_conns_distinct now ((j, t) ∷ es) l h =
    gc_conns_distinct now es _
      (ground (arith, delete-KeysDistinct String_discrete j l.ip_conn_set h))

-- A pass of the collector forgets the IPs whose stamp is overdue, and no other.
pub gc_locked_conns :
    (now : ℕ) (ip : String) (l : Limiter)
    → KeysDistinct String_discrete l.ip_conn_set
    → let gone = overdue now (lookup String_discrete ip l.ip_conn_set) in
      (lookup String_discrete ip (gc_locked now l).ip_conn
        ≡ (if gone then none else lookup String_discrete ip l.ip_conn))
      × (lookup String_discrete ip (gc_locked now l).ip_conn_set
          ≡ (if gone then none else lookup String_discrete ip l.ip_conn_set))
unfolding gc_locked
gc_locked_conns now ip l h = ground (
  arith,
  gc_msgs_conns now (gc_conns now l.ip_conn_set l).msg_reset_at (gc_conns now l.ip_conn_set l),
  lookup-gc_conns now ip l.ip_conn_set l,
  stale-overdue now ip l.ip_conn_set h,
)

pub gc_locked_distinct :
    (now : ℕ) (l : Limiter)
    → KeysDistinct String_discrete l.ip_conn_set
    → KeysDistinct String_discrete (gc_locked now l).ip_conn_set
unfolding gc_locked
gc_locked_distinct now l h =
    let l' = gc_conns now l.ip_conn_set l in
    rw (gc_msgs_conns now l'.msg_reset_at l').1 (gc_conns_distinct now l.ip_conn_set l h)
