-- ===== src/Common/Grouping.antt =====
-- Rows grouped by a key into a Go map, and the SQL that the repositories share: WHERE, GROUP BY and
-- ON CONFLICT DO UPDATE.
use mathlib.Core.Path.{◌≡◌, refl, ◌∙◌, ap, sym}
use mathlib.Core.Logic.{ite, if_pos, if_neg}
use mathlib.Core.Bool.{Bool, ◌&&◌}
use mathlib.Core.Option.{Option, none, some}
use mathlib.Core.List.{List, [], ◌∷◌, ◌++◌, lookup, append_assoc}
use Prim.Native.Nat.{ℕ, ◌+◌}
use native.Mathlib.Omega.{arith}
use api_ops.Common.Tests.{if◌then◌else◌}
use api_ops.Common.Maps.{insert, lookup-insert, KeysDistinct, insert-KeysDistinct}

module _ {R K V : Type 0} (dec : Discrete K) (key : R → K) (step : R → Option V → V) where
  -- The loop: each row updates the group of its key.
  abbrev pub group : List R → List (K × V) → List (K × V)
  group [] m = m
  group (r ∷ rs) m = group rs (insert dec (key r) (step r (lookup dec (key r) m)) m)

  -- The rows with the key, in their order.
  abbrev pub rows_of : K → List R → List R
  rows_of k [] = []
  rows_of k (r ∷ rs) = let rest = rows_of k rs in ite (dec k (key r)) (r ∷ rest) rest

  -- What rows make of a group one after the other; no rows leave no group.
  abbrev pub fold_rows : List R → Option V → Option V
  fold_rows [] o = o
  fold_rows (r ∷ rs) o = fold_rows rs (some (step r o))

  pub lookup-group :
      (k : K) (rs : List R) (m : List (K × V))
      → lookup dec k (group rs m) ≡ fold_rows (rows_of k rs) (lookup dec k m)
  lookup-group k [] m = refl
  lookup-group k (r ∷ rs) m =
      let m' = insert dec (key r) (step r (lookup dec (key r) m)) m in
      ground
        (arith, lookup-group k rs m', lookup-insert dec (key r) k (step r (lookup dec (key r) m)) m)

  pub group-KeysDistinct :
      (rs : List R) (m : List (K × V)) → KeysDistinct dec m → KeysDistinct dec (group rs m)
  group-KeysDistinct [] m h = h
  group-KeysDistinct (r ∷ rs) m h =
      group-KeysDistinct rs _ (insert-KeysDistinct dec (key r) (step r (lookup dec (key r) m)) m h)

-- WHERE
abbrev pub select : {R : Type 0} → (R → Bool) → List R → List R
select p [] = []
select p (r ∷ rs) = let rest = select p rs in if p r then r ∷ rest else rest

pub select-select :
    {R : Type 0} (p q : R → Bool) (rs : List R)
    → select p (select q rs) ≡ select (λ r. q r && p r) rs
select-select p q [] = refl
select-select p q (r ∷ rs) = ground (arith, select-select p q rs)

-- SUM over the rows; COUNT(*) sums ones.
abbrev pub total : {R : Type 0} → (R → ℕ) → List R → ℕ
total f [] = 0
total f (r ∷ rs) = f r + total f rs

abbrev pub append_row : {R : Type 0} → R → Option (List R) → List R
append_row r none = r ∷ []
append_row r (some rs) = rs ++ r ∷ []

-- No group where no row has the key.
abbrev pub some_rows : {R : Type 0} → List R → Option (List R)
some_rows [] = none
some_rows (r ∷ rs) = some (r ∷ rs)

module _ {R K : Type 0} (dec : Discrete K) (key : R → K) where
  -- GROUP BY, with the rows of each group in their order.
  abbrev pub group_by : List R → List (K × List R)
  group_by rs = group dec key append_row rs []

  fold_some :
      (rs qs : List R) → fold_rows {V = List R} dec key append_row rs (some qs) ≡ some (qs ++ rs)
  fold_some [] qs = ap some (sym (append-nil qs))
    where
      append-nil : (xs : List R) → xs ++ [] ≡ xs
      append-nil [] = refl
      append-nil (x ∷ xs) = ap (λ ys. x ∷ ys) (append-nil xs)
  fold_some (r ∷ rs) qs = fold_some rs (qs ++ r ∷ []) ∙ ap some (append_assoc qs (r ∷ []) rs)

  fold_none : (rs : List R) → fold_rows {V = List R} dec key append_row rs none ≡ some_rows rs
  fold_none [] = refl
  fold_none (r ∷ rs) = fold_some rs (r ∷ [])

  pub lookup-group_by :
      (k : K) (rs : List R)
      → lookup dec k (group_by rs) ≡ some_rows (rows_of {V = List R} dec key append_row k rs)
  unfolding lookup
  lookup-group_by k rs =
      lookup-group dec key append_row k rs []
      ∙ fold_none (rows_of {V = List R} dec key append_row k rs)

  pub group_by-KeysDistinct : (rs : List R) → KeysDistinct dec (group_by rs)
  group_by-KeysDistinct rs = group-KeysDistinct dec key append_row rs [] tt

abbrev pub or_else : {V : Type 0} → Option V → Option V → Option V
or_else none o = o
or_else (some v) o = some v

module _ {K V : Type 0} (dec : Discrete K) where
  -- INSERT ... ON CONFLICT DO UPDATE of rows with their keys.
  abbrev pub upsert : List (K × V) → List (K × V) → List (K × V)
  upsert [] table = table
  upsert ((k, v) ∷ rows) table = upsert rows (insert dec k v table)

  pub lookup-upsert :
      (k : K) (rows table : List (K × V))
      → KeysDistinct dec rows
      → lookup dec k (upsert rows table) ≡ or_else (lookup dec k rows) (lookup dec k table)
  unfolding lookup
  lookup-upsert k [] table h = refl
  lookup-upsert k ((j, v) ∷ rows) table h = elim (dec k j) [
    | yes p ↦
        let e : lookup dec k rows ≡ none = rw p h.0 in
        rw (if_pos _ p) (
          ground (
            arith,
            e,
            p,
            lookup-upsert k rows (insert dec j v table) h.1,
            lookup-insert dec j k v table,
          ))
    | no p ↦ rw (if_neg _ p) (
        ground
          (arith, lookup-upsert k rows (insert dec j v table) h.1, lookup-insert dec j k v table))
  ]

  pub upsert-KeysDistinct :
      (rows table : List (K × V)) → KeysDistinct dec table → KeysDistinct dec (upsert rows table)
  upsert-KeysDistinct [] table h = h
  upsert-KeysDistinct ((k, v) ∷ rows) table h =
      upsert-KeysDistinct rows _ (insert-KeysDistinct dec k v table h)
