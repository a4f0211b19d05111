-- ===== src/Monitor/Conditions/Tests.antt =====
-- Conditions of the built-in rules, read with whole numbers and tenths as in "5.0": runs and witnesses.
use api_ops.Common.{
  ℕ, ◌+◌, ◌-◌, ◌*◌, ◌≡◌, refl, true, false, ◌&&◌, Option, none, some, List, [], ◌∷◌, ◌++◌, codes,
  leb, ltb, ◌==◌, arith, split_first, strip, trim_space, trim_right,
}
use api_ops.Monitor.Conditions.{
  Numbers, at_least, at_most, equals, above, below, all_ops, Threshold, threshold, parse_threshold,
  try_ops, with_value, number_part, hit,
}
use api_ops.Monitor.Conditions.Reading.{FirstOp, found, absent, RejectsSpaces}

-- The digits of a text in their order, without its points; nothing where another byte stands in it.
digits : ℕ → List ℕ → Option ℕ
digits n [] = some n
digits n (c ∷ s) = elim (leb b'0' c && leb c b'9') [
  | true ↦ digits (n * 10 + (c - b'0')) s
  | false ↦ elim (c == b'.') [ true ↦ digits n s | false ↦ none ]
]

abbrev pointless : Numbers
pointless = record { Float = ℕ; parse_float = digits 0; lt = ltb; le = leb; eq = λ a b. a == b }

digits_space : (n : ℕ) (v w : List ℕ) → digits n (v ++ b' ' ∷ w) ≡ none
unfolding digits
digits_space n [] w = refl
digits_space n (c ∷ v) w =
    ground (arith, digits_space (n * 10 + (c - b'0')) v w, digits_space n v w)

pointless_rejects : RejectsSpaces pointless
pointless_rejects = record { rejects = digits_space 0 }

abbrev balance_low : List ℕ
balance_low = codes "balance<5.0"

abbrev high_error_rate : List ℕ
high_error_rate = codes "error_rate>0.20 window=5m duration=10m"

abbrev below_five : Threshold pointless
below_five = record { metric = codes "balance"; op = below; value = 50 }

balance_is_read : parse_threshold pointless balance_low ≡ threshold below_five
unfolding parse_threshold try_ops with_value number_part split_first strip trim_space trim_right
    digits
balance_is_read = refl

multiplier :
    parse_threshold pointless (codes "p95>baseline*1.5")
    ≡ threshold (record { metric = codes "p95"; op = above; value = 15 })
unfolding parse_threshold try_ops with_value number_part split_first strip trim_space trim_right
    digits
multiplier = refl

hits_at_forty : hit pointless below_five 40 ≡ true
unfolding hit
hits_at_forty = refl

first_of_error_rate :
    FirstOp high_error_rate all_ops above (codes "error_rate") (codes "0.20 window=5m duration=10m")
unfolding split_first strip
first_of_error_rate = absent _ at_least above _ _ refl (
    absent _ at_most above _ _ refl (
      absent _ equals above _ _ refl
        (found _ above b'e' (codes "rror_rate") (codes "0.20 window=5m duration=10m") refl)))
