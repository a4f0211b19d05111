-- ===== src/Billing/Upstream/Answers.antt =====
-- When a statement is made, and when it says that a discount is missing.
use api_ops.Common.{
  ℕ, ◌≡◌, ◌⊎◌, ◌↔◌, inl, inr, refl, ap, true, false, none, some, List, [], ◌∷◌, ◌++◌, String,
  ℕ_discrete, lookup, arith, Bool-cases, Option-cases,
}
use api_ops.Billing.Upstream.Amounts.{Amounts}
use api_ops.Billing.Upstream.Statements.{
  LogRow, Mapping, Statement, Discounts, statement, unmatched_row, lacks_discount, empty_statement,
  add_row, add_rows, conclude, load_discounts, calc_upstream_statement,
}
use api_ops.Billing.Upstream.Groups.{rows_read, calc_is}

module _ (am : Amounts) where
  open am use {Float, zero_amount, le}

  -- The channel of the row has no discount, or none above 0.
  abbrev pub LacksDiscount : Discounts am → LogRow → Type 0
  LacksDiscount ds row =
      (lookup ℕ_discrete row.channel_id ds ≡ none)
      ⊎ ((d : Float) × (lookup ℕ_discrete row.channel_id ds ≡ some d) × (le d zero_amount ≡ true))

  unmatched-LacksDiscount :
      (ds : Discounts am) (row : LogRow) → unmatched_row am ds row ≡ true → LacksDiscount ds row
  unfolding unmatched_row
  unmatched-LacksDiscount ds row h = elim (Option-cases (lookup ℕ_discrete row.channel_id ds)) [
    | inl e ↦ inl e
    | inr (d, e) ↦ inr (d, e, unfold lacks_discount in (rw e at h))
  ]

  LacksDiscount-unmatched :
      (ds : Discounts am) (row : LogRow) → LacksDiscount ds row → unmatched_row am ds row ≡ true
  unfolding unmatched_row lacks_discount
  LacksDiscount-unmatched ds row (inl e) = rw (e, lacks_discount) refl
  LacksDiscount-unmatched ds row (inr (d, e, p)) = rw (e, lacks_discount) p

  -- A row stands among the rows.
  abbrev pub Among : LogRow → List LogRow → Type 0
  Among row rows = (before : List LogRow) × (after : List LogRow) × (rows ≡ before ++ row ∷ after)

  flag_kept :
      (ds : Discounts am) (rows : List LogRow) (st : Statement am)
      → st.unmatched ≡ true
      → (add_rows am ds rows st).unmatched ≡ true
  unfolding add_rows add_row
  flag_kept ds [] st h = h
  flag_kept ds (row ∷ rows) st h = flag_kept ds rows (add_row am ds row st) (rw h refl)

  flag_sound :
      (ds : Discounts am) (rows : List LogRow) (st : Statement am)
      → st.unmatched ≡ false
      → (add_rows am ds rows st).unmatched ≡ true
      → (row : LogRow) × Among row rows × LacksDiscount ds row
  unfolding add_rows add_row
  flag_sound ds [] st n h = cc (n, h)
  flag_sound ds (row ∷ rows) st n h = elim (Bool-cases (unmatched_row am ds row)) [
    | inl e ↦ (row, ([], rows, refl), unmatched-LacksDiscount ds row e)
    | inr e ↦
        let (r, (before, after, p), l) = flag_sound ds rows (add_row am ds row st) (rw n e) h in
        (r, (row ∷ before, after, ap (λ x. row ∷ x) p), l)
  ]

  flag_complete :
      (ds : Discounts am) (row : LogRow) (before after : List LogRow) (st : Statement am)
      → LacksDiscount ds row
      → (add_rows am ds (before ++ row ∷ after) st).unmatched ≡ true
  unfolding add_rows add_row
  flag_complete ds row [] after st h =
      flag_kept ds after (add_row am ds row st)
        (rw (LacksDiscount-unmatched ds row h) (ground arith))
  flag_complete ds row (b ∷ before) after st h =
      flag_complete ds row before after (add_row am ds b st) h

  -- A statement says that a discount is missing exactly when the channel of one of its rows has no
  -- discount or one that is not positive.
  pub unmatched_iff :
      (vendor : String) (first last : ℕ) (ms again : List (Mapping am)) (logs : List LogRow)
      (st : Statement am)
      → calc_upstream_statement am true vendor first last (some ms) (some again) (some logs)
        ≡ statement st
      → (st.unmatched ≡ true) ↔ (
          (row : LogRow) × Among row (rows_read am vendor first last ms logs)
          × LacksDiscount (load_discounts am again []) row)
  unfolding conclude empty_statement
  unmatched_iff vendor first last ms again logs st h =
      let ds = load_discounts am again [] in
      let rows = rows_read am vendor first last ms logs in
      let e = calc_is am vendor first last ms again logs st h in
      (
        λ u. flag_sound ds rows (empty_statement am) refl (rw e at u),
        λ x. rw e (rw x.1.2 (flag_complete ds x.0 x.1.0 x.1.1 (empty_statement am) x.2)),
      )
