-- ===== src/Discount/Range.antt =====
-- The range of a discount, and the clamp of a corrected one.
use api_ops.Common.{ℕ, ◌≡◌, ◌⊎◌, inl, inr, refl, true, false, some, List, arith, Bool-cases}
use api_ops.Discount.Floats.{Floats, IsOrdered}
use api_ops.Discount.Pattern.{Match, number_text}
use api_ops.Discount.Leftmost.{IsLeftmost}
use api_ops.Discount.Parse.{parse_discount, scale, normalize_discount}
use api_ops.Discount.Answers.{Reads, leftmost_is_read, recognized_sound, unrecognized_is_one}

module _ (fl : Floats) (o : IsOrdered fl) where
  open fl use {Float, parse_float, of_nat, lt, div}

  scale_pos : (v : Float) → lt (of_nat 0) v ≡ true → lt (of_nat 0) (scale fl v) ≡ true
  unfolding scale
  scale_pos v h = elim (Bool-cases (lt (of_nat 10) v)) [
    | inl e ↦ rw e (
        o.lt_of_lt_of_le _ (div (of_nat 10) (of_nat 100)) _ o.ten_hundredths_pos
          (o.hundredths_mono _ _ (o.asymmetric _ _ e)))
    | inr n ↦ elim (Bool-cases (lt (of_nat 1) v)) [
      | inl e ↦
          rw (n, e)
            (o.lt_of_lt_of_le _ (div (of_nat 1) (of_nat 10)) _ o.tenth_pos
              (o.tenths_mono _ _ (o.asymmetric _ _ e)))
      | inr e ↦ rw (n, e) h
    ]
  ]

  scale_le_one : (v : Float) → lt (of_nat 100) v ≡ false → lt (of_nat 1) (scale fl v) ≡ false
  unfolding scale
  scale_le_one v h = elim (Bool-cases (lt (of_nat 10) v)) [
    | inl e ↦ rw e (rw (o.hundred_hundredths) at (o.hundredths_mono v (of_nat 100) h))
    | inr n ↦ elim (Bool-cases (lt (of_nat 1) v)) [
      | inl e ↦ rw (n, e) (rw (o.ten_tenths) at (o.tenths_mono v (of_nat 10) n))
      | inr e ↦ rw (n, e) e
    ]
  ]

  -- Every discount that a name gives is positive, and it is at most one unless the number in the name
  -- is above a hundred.
  pub discount_range :
      (name : List ℕ)
      → (lt (of_nat 0) (parse_discount fl name).auto_discount ≡ true)
        × ((lt (of_nat 1) (parse_discount fl name).auto_discount ≡ false)
            ⊎ ((r : Reads fl name) × (lt (of_nat 100) r.2 ≡ true)))
  discount_range name = elim (Bool-cases (parse_discount fl name).recognized) [
    | inl e ↦
        let (m, before, v, l, p, q) = recognized_sound fl name e in
        rw (leftmost_is_read fl name before m v l p q) (
          scale_pos v q,
          elim (Bool-cases (lt (of_nat 100) v)) [
            | inl big ↦ inr ((m, before, v, l, p, q), big)
            | inr small ↦ inl (scale_le_one v small)
          ],
        )
    | inr e ↦ rw (unrecognized_is_one fl name e) (o.zero_lt_one, inl (o.irreflexive (of_nat 1)))
  ]

  -- A name whose leftmost match carries a number of 101 or more gets a discount above one: such
  -- numbers are not refused.
  above_hundred_exceeds_one :
      (name before : List ℕ) (m : Match) (v : Float)
      → IsLeftmost m before name
      → parse_float (number_text m) ≡ some v
      → lt v (of_nat 101) ≡ false
      → ((parse_discount fl name).recognized ≡ true)
        × (lt (of_nat 1) (parse_discount fl name).auto_discount ≡ true)
  unfolding scale
  above_hundred_exceeds_one name before m v l p h =
      let ten : lt (of_nat 10) v ≡ true =
        o.lt_of_lt_of_le _ (of_nat 101) _ o.ten_lt_hundred_one h in
      let one : lt (of_nat 1) v ≡ true =
        o.lt_of_lt_of_le _ (of_nat 10) _ o.one_lt_ten (o.asymmetric _ _ ten) in
      let pos : lt (of_nat 0) v ≡ true =
        o.lt_of_lt_of_le _ (of_nat 1) _ o.zero_lt_one (o.asymmetric _ _ one) in
      rw (leftmost_is_read fl name before m v l p pos) (
        refl,
        rw (ten, scale)
            (o.lt_of_lt_of_le _ (div (of_nat 101) (of_nat 100)) _ o.one_lt_hundred_one_hundredths
              (o.hundredths_mono _ _ h)),
      )

  normalize_clamps :
      (x : Float)
      → (lt (normalize_discount fl x) (of_nat 0) ≡ false)
        × (lt (of_nat 1) (normalize_discount fl x) ≡ false)
        × ((normalize_discount fl x ≡ x) ⊎ (lt x (of_nat 0) ≡ true) ⊎ (lt (of_nat 1) x ≡ true))
        × (normalize_discount fl (normalize_discount fl x) ≡ normalize_discount fl x)
  unfolding normalize_discount
  normalize_clamps x = ground (
    arith,
    o.irreflexive (of_nat 0),
    o.irreflexive (of_nat 1),
    o.asymmetric (of_nat 0) (of_nat 1),
    o.zero_lt_one,
  )
