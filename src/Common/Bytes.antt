-- ===== src/Common/Bytes.antt =====
-- Searching and trimming texts as lists of bytes.
use Prim.Native.Nat.{ℕ}
use mathlib.Core.Path.{◌≡◌}
use mathlib.Core.Bool.{Bool, ◌||◌}
use mathlib.Core.Option.{Option, none, some}
use mathlib.Core.List.{List, [], ◌∷◌, ◌++◌}
use mathlib.Core.Logic.{inl, inr}
use native.Mathlib.Omega.{arith}
use api_ops.Common.Tests.{◌==◌, if◌then◌else◌, Option-cases}
use api_ops.Common.Spans.{drop_while}

-- What is left of the text behind the prefix.
unfoldable pub strip : List ℕ → List ℕ → Option (List ℕ)
strip [] text = some text
strip (c ∷ cs) [] = none
strip (c ∷ cs) (d ∷ text) = if c == d then strip cs text else none

-- A byte more in front of what stands before.
ahead : ℕ → Option (List ℕ × List ℕ) → Option (List ℕ × List ℕ)
ahead c none = none
ahead c (some p) = some (c ∷ p.0, p.1)

-- strings.Index of a text that is not empty: what stands before its first occurrence, and behind it.
unfoldable pub split_first : List ℕ → List ℕ → Option (List ℕ × List ℕ)
unfolding ahead
split_first sub [] = none
split_first sub (c ∷ s) =
    let later = split_first sub s in
    elim (strip sub (c ∷ s)) [ some rest ↦ some ([], rest) | none ↦ ahead c later ]

-- White space among the bytes: tab to carriage return, and the space.
unfoldable pub is_white : ℕ → Bool
is_white c = c == 9 || c == 10 || c == 11 || c == 12 || c == 13 || c == 32

unfoldable pub trim_right : List ℕ → List ℕ
unfolding is_white
trim_right [] = []
trim_right (c ∷ s) = elim (trim_right s) [
  | [] ↦ if is_white c then [] else c ∷ []
  | d ∷ t ↦ c ∷ d ∷ t
]

-- strings.TrimSpace.
unfoldable pub trim_space : List ℕ → List ℕ
trim_space s = trim_right (drop_while is_white s)

pub strip_sound : (sub text rest : List ℕ) → strip sub text ≡ some rest → text ≡ sub ++ rest
unfolding strip
strip_sound [] text rest h = ground arith
strip_sound (c ∷ cs) [] rest h = cc h
strip_sound (c ∷ cs) (d ∷ text) rest h = ground (arith, strip_sound cs text rest)

pub split_first_sound :
    (sub s before rest : List ℕ)
    → split_first sub s ≡ some (before, rest)
    → s ≡ before ++ (sub ++ rest)
unfolding split_first
split_first_sound sub [] before rest h = cc h
split_first_sound sub (c ∷ s) before rest h = elim (Option-cases (strip sub (c ∷ s))) [
  | inr (r, e) ↦ ground (arith, strip_sound sub (c ∷ s) r e)
  | inl e ↦ elim (Option-cases (split_first sub s)) [
    | inl n ↦ ground arith
    | inr (p, q) ↦ ground (arith, split_first_sound sub s p.0 p.1 q)
  ]
]
