-- ===== src/Realtime/Limiter/Shared/Degraded.antt =====
-- The limiter's public methods with Redis answering, failing and absent.
use Prim.Native.Nat.{min}
use api_ops.Common.Int.{pos}
use api_ops.Common.{ℕ, ◌+◌, ◌<◌, ◌≡◌, ◌⊎◌, none, some, List, [], ◌∷◌, String, arith, length, ltb}
use api_ops.Realtime.Limiter.{
  minute, at, allow_conn_local, allow_msg_local, max_conn_per_ip, max_msg_per_minute,
}
use api_ops.Realtime.Limiter.Conns.{Inv, counted, allow_conn_decides}
use api_ops.Realtime.Limiter.Shared.{
  Redis, Shared, Counting, conn_key, msg_key, allow_conn, allow_msg, release_conn, passed, bump,
}

module _ (r : Redis) where
  open r use {Store, incr}

  -- No answer for the key: Redis is absent, or its `INCR` fails.
  abbrev pub IsSilent : String → Shared r → Type 0
  IsSilent key w = (w.rdb ≡ none) ⊎ ((s : Store) × (w.rdb ≡ some s) × ((incr key s).1 ≡ none))

  -- Without an answer both questions are decided by the tables of the process, which they update.
  degraded_is_local :
      (ip : String) (now : ℕ) (w : Shared r)
      → (IsSilent (conn_key ip) w
          → ((allow_conn r ip now w).1 ≡ (allow_conn_local ip now w.tables).1)
            × ((allow_conn r ip now w).0.tables ≡ (allow_conn_local ip now w.tables).0))
        × (IsSilent (msg_key ip) w
            → ((allow_msg r ip now w).1 ≡ (allow_msg_local ip now w.tables).1)
              × ((allow_msg r ip now w).0.tables ≡ (allow_msg_local ip now w.tables).0))
  unfolding allow_conn allow_msg
  degraded_is_local ip now w = (λ h. ground arith, λ h. ground arith)

  -- A connection that Redis failed to count is counted by the process, and its end is not: the
  -- counter stays one up.
  released_stays_counted :
      (ip : String) (now : ℕ) (w : Shared r) (s : Store)
      → Inv w.tables
      → w.rdb ≡ some s
      → (incr (conn_key ip) s).1 ≡ none
      → counted now ip w.tables < max_conn_per_ip
      → at ip (release_conn r ip (allow_conn r ip now w).0).tables.ip_conn
        ≡ counted now ip w.tables + 1
  unfolding allow_conn release_conn
  released_stays_counted ip now w s v e f h =
      ground (
        arith,
        (allow_conn_decides ip now w.tables v).0,
        (allow_conn_decides ip now w.tables v).1 ip,
      )

  module _ (c : Counting r) where
    open c use {value, incr_counts, expire_keeps}

    bump_counts :
        (key : String) (s : Store) (n : ℕ)
        → value key s ≡ pos n
        → ((bump r key s).1 ≡ some (pos (n + 1))) × (value key (bump r key s).0 ≡ pos (n + 1))
    unfolding bump
    bump_counts key s n h =
        ground (arith, incr_counts key s n h, expire_keeps key key minute (incr key s).0)

    allow_msg_counts :
        (ip : String) (now n : ℕ) (w : Shared r) (s : Store)
        → w.rdb ≡ some s
        → value (msg_key ip) s ≡ pos n
        → ((allow_msg r ip now w).1 ≡ ltb n max_msg_per_minute)
          × ((allow_msg r ip now w).0.rdb ≡ some (bump r (msg_key ip) s).0)
    unfolding allow_msg
    allow_msg_counts ip now n w s e h = ground (arith, (bump_counts (msg_key ip) s n h).0)

    passed_from :
        (ip : String) (times : List ℕ) (w : Shared r) (s : Store) (n : ℕ)
        → w.rdb ≡ some s
        → value (msg_key ip) s ≡ pos n
        → passed r ip times w + min n max_msg_per_minute ≡ min (n + length times) max_msg_per_minute
    unfolding passed
    passed_from ip [] w s n e h = omega arith
    passed_from ip (now ∷ times) w s n e h = ground (
      arith,
      allow_msg_counts ip now n w s e h,
      (bump_counts (msg_key ip) s n h).1,
      passed_from ip times (allow_msg r ip now w).0 (bump r (msg_key ip) s).0 (n + 1),
    )

    -- While Redis answers and the key does not expire, the first hundred frames to an IP pass and
    -- no later one.
    redis_window_cap :
        (ip : String) (times : List ℕ) (w : Shared r) (s : Store)
        → w.rdb ≡ some s
        → value (msg_key ip) s ≡ pos 0
        → passed r ip times w ≡ min (length times) max_msg_per_minute
    redis_window_cap ip times w s e h = omega (arith, passed_from ip times w s 0 e h)
