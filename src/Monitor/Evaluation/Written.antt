-- ===== src/Monitor/Evaluation/Written.antt =====
-- What a duration that is written into a condition is read as.
use api_ops.Common.Int.{pos}
use api_ops.Common.{
  ◌≡◌, refl, ◌∙◌, ap, ◌⊎◌, inl, inr, ℕ, ◌+◌, ◌-◌, ◌*◌, ◌%◌, ◌<◌, true, some, List, [], ◌∷◌, ◌++◌,
  codes, split_first, take_while-stop, Pass, Stops, arith,
}
use api_ops.Audit.Numbers.Printing.{is_digit, value}
use api_ops.Monitor.Evaluation.Durations.{
  digits_value, number_of, atoi, signed, times, split_last, unit_nanos, in_unit, value_nanos,
  is_text, extract_duration,
}

digits_are_value :
    (acc : ℕ) (ds : List ℕ) → Pass is_digit ds → digits_value acc ds ≡ some (value acc ds)
unfolding digits_value
digits_are_value acc [] h = refl
digits_are_value acc (c ∷ ds) (h, hs) =
    ground (arith, digits_are_value (acc * 10 + (c - b'0')) ds hs)

atoi_reads :
    (c : ℕ) (ds : List ℕ)
    → Pass is_digit (c ∷ ds)
    → value 0 (c ∷ ds) < 9223372036854775808
    → atoi (c ∷ ds) ≡ some (pos (value 0 (c ∷ ds)))
unfolding atoi number_of
atoi_reads c ds h small = ground (arith, digits_are_value 0 (c ∷ ds) h, h.0)

split_last-snoc : (s : List ℕ) (c : ℕ) → split_last (s ++ c ∷ []) ≡ some (s, c)
unfolding split_last
split_last-snoc [] c = refl
split_last-snoc (a ∷ []) c = refl
split_last-snoc (a ∷ b ∷ s) c = ground (arith, split_last-snoc (b ∷ s) c)

digits-text :
    (ds : List ℕ) (unit : ℕ)
    → Pass is_digit ds
    → is_text unit ≡ true
    → Pass is_text (ds ++ unit ∷ [])
digits-text [] unit h t = (t, tt)
digits-text (c ∷ ds) unit (h, hs) t = (ground arith, digits-text ds unit hs t)

-- The unit of a duration is one of three letters.
unit_cases :
    (unit : ℕ)
    → 0 < unit_nanos unit
    → (unit_nanos unit ≡ 1000000000)
      ⊎ ((unit_nanos unit ≡ 60000000000) ⊎ (unit_nanos unit ≡ 3600000000000))
unit_cases unit h = ground arith

unit_is_text : (unit : ℕ) → 0 < unit_nanos unit → is_text unit ≡ true
unit_is_text unit h = ground arith

units_small :
    (n k : ℕ)
    → (k ≡ 1000000000) ⊎ ((k ≡ 60000000000) ⊎ (k ≡ 3600000000000))
    → n * k < 9223372036854775808
    → n < 9223372036854775808
units_small n k (inl e) h = omega (arith, ap (λ j. n * j) e)
units_small n k (inr (inl e)) h = omega (arith, ap (λ j. n * j) e)
units_small n k (inr (inr e)) h = omega (arith, ap (λ j. n * j) e)

times_small : (n k : ℕ) → n * k < 9223372036854775808 → times (pos n) k ≡ pos (n * k)
unfolding times signed
times_small n k h = let r : n * k % 18446744073709551616 ≡ n * k = omega arith in ground (arith, r)

value_read :
    (c : ℕ) (ds : List ℕ) (unit : ℕ)
    → Pass is_digit (c ∷ ds)
    → 0 < unit_nanos unit
    → value 0 (c ∷ ds) * unit_nanos unit < 9223372036854775808
    → value_nanos (some (c ∷ ds, unit)) ≡ pos (value 0 (c ∷ ds) * unit_nanos unit)
unfolding value_nanos in_unit
value_read c ds unit h known small =
    let n = value 0 (c ∷ ds) in
    let below = units_small n (unit_nanos unit) (unit_cases unit known) small in
    ap (λ o. in_unit o unit) (atoi_reads c ds h below) ∙ times_small n (unit_nanos unit) small

-- The text behind a key, which is the first of its kind in the condition, is read as a duration: digits and
-- one of the units s, m and h, up to the end, a space or a tab, stand for the number of the digits in that
-- unit, as long as it is in the range of an int64 of nanoseconds.
pub written_duration_is_read :
    (cond key before ds rest : List ℕ) (c unit : ℕ)
    → split_first (key ++ codes "=") cond ≡ some (before, (c ∷ ds ++ unit ∷ []) ++ rest)
    → Pass is_digit (c ∷ ds)
    → Stops is_text rest
    → 0 < unit_nanos unit
    → value 0 (c ∷ ds) * unit_nanos unit < 9223372036854775808
    → extract_duration cond key ≡ pos (value 0 (c ∷ ds) * unit_nanos unit)
unfolding extract_duration
written_duration_is_read cond key before ds rest c unit found h stop known small =
    let text = digits-text (c ∷ ds) unit h (unit_is_text unit known) in
    rw (found, extract_duration)
      (ap (λ t. value_nanos (split_last t))
          (take_while-stop is_text (c ∷ ds ++ unit ∷ []) rest text stop)
        ∙ ap value_nanos (split_last-snoc (c ∷ ds) unit)
        ∙ value_read c ds unit h known small)
