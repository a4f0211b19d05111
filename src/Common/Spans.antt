-- ===== src/Common/Spans.antt =====
-- The longest prefix of a list that passes a test, and what is left.
use mathlib.Core.Path.{◌≡◌, refl, ap}
use mathlib.Core.Bool.{Bool, true, false}
use mathlib.Core.List.{List, [], ◌∷◌, ◌++◌}
use api_ops.Common.Tests.{if◌then◌else◌, Bool-cases}
use api_ops.Common.Lists.{All}
use mathlib.Core.Logic.{inl, inr}

module _ {ℓ} {A : Type ℓ} where
  abbrev pub take_while : (A → Bool) → List A → List A
  take_while test [] = []
  take_while test (x ∷ xs) = if test x then x ∷ take_while test xs else []

  abbrev pub drop_while : (A → Bool) → List A → List A
  drop_while test [] = []
  drop_while test (x ∷ xs) = if test x then drop_while test xs else x ∷ xs

  -- Each element passes the test.
  abbrev pub Pass : (A → Bool) → List A → Type 0
  Pass test xs = All (λ x. test x ≡ true) xs

  -- The list does not begin with an element that passes the test.
  abbrev pub Stops : (A → Bool) → List A → Type 0
  Stops test [] = Unit
  Stops test (x ∷ xs) = test x ≡ false

  pub take_while-append-drop_while :
      (test : A → Bool) (xs : List A) → take_while test xs ++ drop_while test xs ≡ xs
  take_while-append-drop_while test [] = refl
  take_while-append-drop_while test (x ∷ xs) = elim (Bool-cases (test x)) [
    | inl e ↦ rw e (ap (λ r. x ∷ r) (take_while-append-drop_while test xs))
    | inr e ↦ rw e
  ]

  pub take_while-Pass : (test : A → Bool) (xs : List A) → Pass test (take_while test xs)
  take_while-Pass test [] = tt
  take_while-Pass test (x ∷ xs) = elim (Bool-cases (test x)) [
    | inl e ↦ rw e (e, take_while-Pass test xs)
    | inr e ↦ rw e tt
  ]

  pub take_while-stop :
      (test : A → Bool) (xs rest : List A)
      → Pass test xs
      → Stops test rest
      → take_while test (xs ++ rest) ≡ xs
  take_while-stop test [] [] h s = refl
  take_while-stop test [] (y ∷ rest) h s = rw s
  take_while-stop test (x ∷ xs) rest h s =
      rw h.0 (ap (λ r. x ∷ r) (take_while-stop test xs rest h.1 s))

  pub drop_while-stop :
      (test : A → Bool) (xs rest : List A)
      → Pass test xs
      → Stops test rest
      → drop_while test (xs ++ rest) ≡ rest
  drop_while-stop test [] [] h s = refl
  drop_while-stop test [] (y ∷ rest) h s = rw s
  drop_while-stop test (x ∷ xs) rest h s = rw h.0 (drop_while-stop test xs rest h.1 s)
