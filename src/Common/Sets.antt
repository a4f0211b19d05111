-- ===== src/Common/Sets.antt =====
-- Go sets, `map[K]bool`, as lists without duplicates behind a Boolean membership test.
use mathlib.Core.Path.{◌≡◌, refl}
use mathlib.Core.Logic.{ite}
use mathlib.Core.Bool.{Bool, true, false, ◌||◌}
use mathlib.Core.List.{List, [], ◌∷◌, ◌++◌}
use native.Mathlib.Omega.{arith}
use api_ops.Common.Tests.{if◌then◌else◌}

module _ {K : Type 0} (dec : Discrete K) where
  unfoldable pub has : K → List K → Bool
  has k [] = false
  has k (j ∷ s) = ite (dec k j) true (has k s)

  unfoldable pub add : K → List K → List K
  unfolding has
  add k s = if has k s then s else k ∷ s

  -- `delete(s, k)`
  unfoldable pub remove : K → List K → List K
  remove k [] = []
  remove k (j ∷ s) = let rest = remove k s in ite (dec k j) rest (j ∷ rest)

  pub has-add : (k j : K) (s : List K) → has j (add k s) ≡ ite (dec j k) true (has j s)
  unfolding has add
  has-add k j [] = refl
  has-add k j (i ∷ s) = ground arith

  pub has-remove : (k j : K) (s : List K) → has j (remove k s) ≡ ite (dec j k) false (has j s)
  unfolding has remove
  has-remove k j [] = ground arith
  has-remove k j (i ∷ s) = ground (arith, has-remove k j s)

  -- The list behind a Go set holds no key twice.
  abbrev pub Distinct : List K → Type 0
  Distinct [] = Unit
  Distinct (k ∷ s) = (has k s ≡ false) × Distinct s

  pub add-Distinct : (k : K) (s : List K) → Distinct s → Distinct (add k s)
  unfolding add
  add-Distinct k s h = ground arith

  pub remove-Distinct : (k : K) (s : List K) → Distinct s → Distinct (remove k s)
  unfolding remove has
  remove-Distinct k [] h = tt
  remove-Distinct k (i ∷ s) h = ground (arith, remove-Distinct k s h.1, has-remove k i s)

  pub has-append : (k : K) (s t : List K) → has k (s ++ t) ≡ (has k s || has k t)
  unfolding has
  has-append k [] t = refl
  has-append k (j ∷ s) t = ground (arith, has-append k s t)

  pub snoc-Distinct : (k : K) (s : List K) → has k s ≡ false → Distinct s → Distinct (s ++ k ∷ [])
  unfolding has
  snoc-Distinct k [] h d = (refl, tt)
  snoc-Distinct k (j ∷ s) h d = ground (arith, has-append j s (k ∷ []), snoc-Distinct k s)
