-- ===== src/Realtime/Limiter/Shared.antt =====
-- The limiter's public methods: Redis first, and the tables of this process where Redis is absent or
-- fails. Redis is a parameter.
pub mod Degraded
use Prim.Native.String
use Prim.Native.Nat.{min}
use api_ops.Common.Int.{ℤ, pos, negsuc, leb_ℤ}
use api_ops.Common.{
  ℕ, zero, suc, ◌+◌, ◌*◌, ◌≤◌, ◌<◌, ◌≡◌, refl, Bool, true, false, Option, none, some, List, [], ◌∷◌,
  String, leb, ltb, ◌==◌, if◌then◌else◌, arith, ◌∙◌,
}
use api_ops.Realtime.Limiter.{
  Limiter, minute, allow_conn_local, allow_msg_local, release_conn_local, max_conn_per_ip,
  max_msg_per_minute,
}

-- `incr` and `decr` give the value after the step, or nothing when the call fails; `expire` sets a
-- key's time to live, in nanoseconds.
pub record Redis : Type 1 where
  pub Store : Type 0
  pub incr : String → Store → Store × Option ℤ
  pub decr : String → Store → Store × Option ℤ
  pub expire : String → ℕ → Store → Store

abbrev pub conn_key : String → String
conn_key ip = String.◌++◌ "upstream:ops:ws:conn:" ip

abbrev pub msg_key : String → String
msg_key ip = String.◌++◌ "upstream:ops:ws:msg:" ip

abbrev is_one : ℤ → Bool
is_one (pos n) = n == 1
is_one (negsuc n) = false

-- The limiter beside `dal.RDB`, which is nil without Redis.
module _ (r : Redis) where
  open r use {Store, incr, decr, expire}

  pub record Shared : Type 0 where
    pub tables : Limiter
    pub rdb : Option Store

  -- `INCR`, then a time to live if the key is new: the store, and the count if Redis answers.
  unfoldable pub bump : String → Store → Store × Option ℤ
  bump key s =
      let (s', reply) = incr key s in
      elim reply [
        | none ↦ (s', none)
        | some n ↦ (if is_one n then expire key minute s' else s', some n)
      ]

  -- What the three methods have in common: the table's answer where Redis gives none.
  or_local : (Limiter → Limiter × Bool) → ℕ → Shared → Option Store → Option ℤ → Shared × Bool
  or_local local limit w rdb (some n) = (record w { rdb = rdb }, leb_ℤ n (pos limit))
  or_local local limit w rdb none =
      let (l, answer) = local w.tables in (record { tables = l; rdb = rdb }, answer)

  limited : String → ℕ → (Limiter → Limiter × Bool) → Shared → Shared × Bool
  unfolding bump or_local
  limited key limit local w = elim w.rdb [
    | none ↦ or_local local limit w none none
    | some s ↦ let (s', reply) = bump key s in or_local local limit w (some s') reply
  ]

  unfoldable pub allow_conn : String → ℕ → Shared → Shared × Bool
  unfolding limited
  allow_conn ip now = limited (conn_key ip) max_conn_per_ip (allow_conn_local ip now)

  unfoldable pub allow_msg : String → ℕ → Shared → Shared × Bool
  unfolding limited
  allow_msg ip now = limited (msg_key ip) max_msg_per_minute (allow_msg_local ip now)

  unfoldable pub release_conn : String → Shared → Shared
  release_conn ip w = elim w.rdb [
    | none ↦ record w { tables = release_conn_local ip w.tables }
    | some s ↦ record w { rdb = some (decr (conn_key ip) s).0 }
  ]

  -- A Redis that answers: counters count, and a time to live changes no value.
  pub record Counting : Type 0 where
    pub value : String → Store → ℤ
    pub incr_counts :
        (k : String) (s : Store) (n : ℕ)
        → value k s ≡ pos n
        → ((incr k s).1 ≡ some (pos (n + 1))) × (value k (incr k s).0 ≡ pos (n + 1))
    pub expire_keeps : (k j : String) (t : ℕ) (s : Store) → value k (expire j t s) ≡ value k s

  -- `n` frames to one IP: how many are let through.
  unfoldable pub passed : String → List ℕ → Shared → ℕ
  passed ip [] w = 0
  passed ip (now ∷ times) w =
      let (w', pass) = allow_msg ip now w in (if pass then 1 else 0) + passed ip times w'
