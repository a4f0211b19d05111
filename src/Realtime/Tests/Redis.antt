-- ===== src/Realtime/Tests/Redis.antt =====
-- The limiter before a Redis that counts and before one that fails.
use api_ops.Common.{ℕ, ◌+◌, ◌≡◌, refl, none, some, String, String_discrete, ite, arith, Option}
use api_ops.Common.Int.{ℤ, pos}
use api_ops.Realtime.Limiter.Traces.{start}
use api_ops.Realtime.Limiter.Shared.{Redis, Shared, Counting}

-- Counters that start at 0.
abbrev counters : Redis
counters = record {
  Store = String → ℕ;
  incr = λ k s. (λ j. ite (String_discrete j k) (s k + 1) (s j), some (pos (s k + 1)));
  decr = λ k s. (s, none);
  expire = λ k t s. s;
}

counters_count :
    (k : String) (s : String → ℕ) (n : ℕ)
    → ◌≡◌ {A = ℤ} (pos (s k)) (pos n)
    → (◌≡◌ {A = Option ℤ} (some (pos (s k + 1))) (some (pos (n + 1))))
      × (◌≡◌ {A = ℤ} (pos (ite (String_discrete k k) (s k + 1) (s k))) (pos (n + 1)))
counters_count k s n h = ground arith

abbrev counting : Counting counters
counting = record {
  value = λ k s. pos (s k);
  incr_counts = counters_count;
  expire_keeps = λ k j t s. refl;
}

abbrev with_redis : Shared counters
with_redis = record { tables = start.limiter; rdb = some (λ _. 0) }

-- A Redis that answers nothing.
abbrev broken : Redis
broken = record {
  Store = Unit {0};
  incr = λ k s. (s, none);
  decr = λ k s. (s, none);
  expire = λ k t s. s;
}

abbrev without_answer : Shared broken
without_answer = record { tables = start.limiter; rdb = some tt }
