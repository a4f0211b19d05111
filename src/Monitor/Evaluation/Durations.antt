-- ===== src/Monitor/Evaluation/Durations.antt =====
-- extractDuration of internal/monitor/alert_engine.go, on bytes.
use api_ops.Common.Int.{ℤ, pos, negsuc}
use api_ops.Common.{
  ℕ, zero, suc, ◌+◌, ◌-◌, ◌*◌, ◌/◌, ◌%◌, Bool, not, ◌&&◌, ◌||◌, Option, none, some, List, [], ◌∷◌,
  ◌++◌, codes, leb, ltb, ◌==◌, if◌then◌else◌, split_first, take_while,
}

-- 2 ^ 63 and 2 ^ 64.
abbrev two_63 : ℕ
two_63 = 9223372036854775808

abbrev two_64 : ℕ
two_64 = 18446744073709551616

-- The digits of a number, behind the number read so far.
unfoldable pub digits_value : ℕ → List ℕ → Option ℕ
digits_value acc [] = some acc
digits_value acc (c ∷ s) =
    let rest = digits_value (acc * 10 + (c - b'0')) s in
    if leb b'0' c && leb c b'9' then rest else none

unfoldable pub number_of : List ℕ → Option ℕ
number_of [] = none
number_of (c ∷ s) = digits_value 0 (c ∷ s)

abbrev at_most : ℕ → Option ℕ → Option ℕ
at_most bound none = none
at_most bound (some n) = if leb n bound then some n else none

abbrev negated : Option ℕ → Option ℤ
negated none = none
negated (some zero) = some (pos zero)
negated (some (suc n)) = some (negsuc n)

abbrev positive : Option ℕ → Option ℤ
positive none = none
positive (some n) = some (pos n)

-- strconv.Atoi: nothing for what is no number or out of the range of int64.
unfoldable pub atoi : List ℕ → Option ℤ
unfolding number_of
atoi [] = none
atoi (c ∷ s) =
    if c == b'-'
    then negated (at_most two_63 (number_of s))
    else (if c == b'+'
        then positive (at_most (two_63 - 1) (number_of s))
        else positive (at_most (two_63 - 1) (number_of (c ∷ s))))

-- The residue as an int64.
unfoldable pub signed : ℕ → ℤ
signed m = if ltb m two_63 then pos m else negsuc (two_64 - 1 - m)

-- The product of an int64 with a positive factor.
unfoldable pub times : ℤ → ℕ → ℤ
unfolding signed
times (pos n) k = signed (n * k % two_64)
times (negsuc n) k = signed ((two_64 - suc n * k % two_64) % two_64)

-- All bytes but the last, and the last.
unfoldable pub split_last : List ℕ → Option (List ℕ × ℕ)
split_last [] = none
split_last (c ∷ []) = some ([], c)
split_last (c ∷ d ∷ s) = elim (split_last (d ∷ s)) [ none ↦ none | some p ↦ some (c ∷ p.0, p.1) ]

abbrev pub unit_nanos : ℕ → ℕ
unit_nanos unit =
    if unit == b's'
    then 1000000000
    else (if unit == b'm' then 60000000000 else (if unit == b'h' then 3600000000000 else 0))

unfoldable pub in_unit : Option ℤ → ℕ → ℤ
unfolding times
in_unit none unit = pos 0
in_unit (some n) unit = times n (unit_nanos unit)

-- The value without its last byte is the number; a single byte is no duration.
unfoldable pub value_nanos : Option (List ℕ × ℕ) → ℤ
unfolding in_unit
value_nanos none = pos 0
value_nanos (some (s, unit)) = in_unit (atoi s) unit

abbrev pub is_text : ℕ → Bool
is_text c = not (c == b' ' || c == 9)

-- In nanoseconds, as an int64.
unfoldable pub extract_duration : List ℕ → List ℕ → ℤ
unfolding value_nanos
extract_duration cond key = elim (split_first (key ++ codes "=") cond) [
  | none ↦ pos 0
  | some p ↦ value_nanos (split_last (take_while is_text p.1))
]

-- In whole seconds, 0 for what is negative.
unfoldable pub seconds : ℤ → ℕ
seconds (pos n) = n / 1000000000
seconds (negsuc n) = 0

-- What the suppression takes.
unfoldable pub duration_of : List ℕ → ℕ
duration_of cond = seconds (extract_duration cond (codes "duration"))
