-- ===== src/Billing/Upstream/Grouping.antt =====
-- Sums over the groups of rows, for any key and any counters.
use api_ops.Common.{
  ℕ, ◌≡◌, Option, none, some, List, [], ◌∷◌, lookup, insert, if_pos, if_neg, ◌<◌, arith, group,
}
use api_ops.Billing.Upstream.Amounts.{add64, two_64}

-- A value of a group, 0 where there is no group.
abbrev pub weigh_found : {V : Type 0} → (V → ℕ) → Option V → ℕ
weigh_found weigh none = 0
weigh_found weigh (some v) = weigh v

-- The sum over the groups, and over the rows, on int64.
abbrev pub sum_groups : {K V : Type 0} → (V → ℕ) → List (K × V) → ℕ
sum_groups weigh [] = 0
sum_groups weigh ((k, v) ∷ m) = add64 (weigh v) (sum_groups weigh m)

abbrev pub sum_rows : {R : Type 0} → (R → ℕ) → List R → ℕ
sum_rows amount [] = 0
sum_rows amount (r ∷ rs) = add64 (amount r) (sum_rows amount rs)

module _ {R K V : Type 0} (dec : Discrete K) (key : R → K) (step : R → Option V → V) where
  module _ (weigh : V → ℕ) (amount : R → ℕ) where
    sum_groups-lt : (m : List (K × V)) → sum_groups weigh m < two_64
    sum_groups-lt [] = omega arith
    sum_groups-lt ((k, v) ∷ m) = omega arith

    sum-insert :
        (k : K) (v : V) (m : List (K × V))
        → add64 (sum_groups weigh (insert dec k v m)) (weigh_found weigh (lookup dec k m))
          ≡ add64 (sum_groups weigh m) (weigh v)
    unfolding insert lookup
    sum-insert k v [] = omega arith
    sum-insert k v ((j, w) ∷ m) = elim (dec k j) [
      | yes p ↦ rw (if_pos _ p) (rw (if_pos _ p) (omega arith))
      | no p ↦ rw (if_neg _ p) (rw (if_neg _ p) (omega (arith, sum-insert k v m)))
    ]

    pub sum-group :
        ((r : R) (o : Option V) → weigh (step r o) ≡ add64 (weigh_found weigh o) (amount r))
        → (rs : List R) (m : List (K × V))
        → sum_groups weigh (group dec key step rs m)
          ≡ add64 (sum_groups weigh m) (sum_rows amount rs)
    sum-group h [] m = omega (arith, sum_groups-lt m)
    sum-group h (r ∷ rs) m =
        let o = lookup dec (key r) m in
        omega (
          arith,
          sum-group h rs (insert dec (key r) (step r o) m),
          sum-insert (key r) (step r o) m,
          h r o,
        )
