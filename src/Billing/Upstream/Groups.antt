-- ===== src/Billing/Upstream/Groups.antt =====
-- The three groupings of a statement: what each group holds, and that they count the same rows.
use mathlib.Core.Path.{subst}
use api_ops.Common.{
  ℕ, ◌≡◌, refl, sym, true, Option, none, some, List, [], ◌∷◌, String, String_discrete, ℕ_discrete,
  lookup, KeysDistinct,
}
use api_ops.Billing.Upstream.Amounts.{Amounts}
use api_ops.Billing.Upstream.Statements.{
  LogRow, Mapping, Totals, Statement, Discounts, statement, count_row, model_of, day_of, found,
  found_channel, empty_statement, add_row, add_rows, conclude, load_discounts, channels_of,
  select_rows, with_rows, with_discounts, with_channels, calc_upstream_statement,
}
use api_ops.Common.{group, rows_of, fold_rows, lookup-group, group-KeysDistinct}

module _ (am : Amounts) where
  open am use {Float}

  abbrev pub step : Discounts am → LogRow → Option (Totals am) → Totals am
  step ds row o = count_row am ds row (found am o)

  -- A group of a channel keeps the name that its first row has.
  abbrev pub step_channel : Discounts am → LogRow → Option (String × Totals am) → String × Totals am
  step_channel ds row o =
      ((found_channel am row o).0, count_row am ds row (found_channel am row o).1)

  abbrev pub channel_of : LogRow → ℕ
  channel_of row = row.channel_id

  pub add_rows_dates :
      (ds : Discounts am) (rows : List LogRow) (st : Statement am)
      → (add_rows am ds rows st).by_date
        ≡ group String_discrete (day_of am) (step ds) rows st.by_date
  unfolding add_rows add_row
  add_rows_dates ds [] st = refl
  add_rows_dates ds (row ∷ rows) st = add_rows_dates ds rows (add_row am ds row st)

  pub add_rows_channels :
      (ds : Discounts am) (rows : List LogRow) (st : Statement am)
      → (add_rows am ds rows st).by_channel
        ≡ group ℕ_discrete channel_of (step_channel ds) rows st.by_channel
  unfolding add_rows add_row
  add_rows_channels ds [] st = refl
  add_rows_channels ds (row ∷ rows) st = add_rows_channels ds rows (add_row am ds row st)

  pub add_rows_models :
      (ds : Discounts am) (rows : List LogRow) (st : Statement am)
      → (add_rows am ds rows st).by_model
        ≡ group String_discrete (model_of am) (step ds) rows st.by_model
  unfolding add_rows add_row
  add_rows_models ds [] st = refl
  add_rows_models ds (row ∷ rows) st = add_rows_models ds rows (add_row am ds row st)

  -- The statement over rows, before its profit.
  abbrev pub summed : Discounts am → List LogRow → Statement am
  summed ds rows = add_rows am ds rows (empty_statement am)

  -- The three groupings against the rows that they are made of.
  abbrev pub GroupsExact : Discounts am → List LogRow → Statement am → String → ℕ → String → Type 0
  GroupsExact ds rows st date channel model =
      (lookup String_discrete date st.by_date
        ≡ fold_rows String_discrete (day_of am) (step ds)
            (rows_of String_discrete (day_of am) (step ds) date rows) none)
      × (lookup ℕ_discrete channel st.by_channel
          ≡ fold_rows ℕ_discrete channel_of (step_channel ds)
              (rows_of ℕ_discrete channel_of (step_channel ds) channel rows) none)
      × (lookup String_discrete model st.by_model
          ≡ fold_rows String_discrete (model_of am) (step ds)
              (rows_of String_discrete (model_of am) (step ds) model rows) none)
      × KeysDistinct String_discrete st.by_date
      × KeysDistinct ℕ_discrete st.by_channel
      × KeysDistinct String_discrete st.by_model

  groups_exact :
      (ds : Discounts am) (rows : List LogRow) (date : String) (channel : ℕ) (model : String)
      → GroupsExact ds rows (conclude am (summed ds rows)) date channel model
  unfolding conclude empty_statement lookup
  groups_exact ds rows date channel model =
      let e = empty_statement am in
      rw (add_rows_dates ds rows e) (
        rw (add_rows_channels ds rows e) (
          rw (add_rows_models ds rows e) (
            lookup-group String_discrete (day_of am) (step ds) date rows [],
            lookup-group ℕ_discrete channel_of (step_channel ds) channel rows [],
            lookup-group String_discrete (model_of am) (step ds) model rows [],
            group-KeysDistinct String_discrete (day_of am) (step ds) rows [] tt,
            group-KeysDistinct ℕ_discrete channel_of (step_channel ds) rows [] tt,
            group-KeysDistinct String_discrete (model_of am) (step ds) rows [] tt,
          )))

  -- The rows and discounts that a statement is made of.
  abbrev pub rows_read : String → ℕ → ℕ → List (Mapping am) → List LogRow → List LogRow
  rows_read vendor first last ms logs = select_rows am (channels_of am vendor ms) first last logs

  with_channels_is :
      (ids : List ℕ) (first last : ℕ) (again : List (Mapping am)) (logs : List LogRow)
      (st : Statement am)
      → with_channels am ids first last (some again) (some logs) ≡ statement st
      → st ≡ conclude am (summed (load_discounts am again []) (select_rows am ids first last logs))
  unfolding with_channels with_discounts with_rows
  with_channels_is [] first last again logs st h = cc h
  with_channels_is (c ∷ ids) first last again logs st h = cc h

  pub calc_is :
      (vendor : String) (first last : ℕ) (ms again : List (Mapping am)) (logs : List LogRow)
      (st : Statement am)
      → calc_upstream_statement am true vendor first last (some ms) (some again) (some logs)
        ≡ statement st
      → st ≡ conclude am (summed (load_discounts am again []) (rows_read vendor first last ms logs))
  unfolding calc_upstream_statement
  calc_is vendor first last ms again logs st h =
      with_channels_is (channels_of am vendor ms) first last again logs st h

  -- Each grouping of a vendor's statement has, for every day, channel and model, the group that the rows
  -- read for the vendor with that key make in their order, starting from nothing, and none where there
  -- is no such row; no key stands twice.
  pub statement_groups :
      (vendor : String) (first last : ℕ) (ms again : List (Mapping am)) (logs : List LogRow)
      (st : Statement am) (date : String) (channel : ℕ) (model : String)
      → calc_upstream_statement am true vendor first last (some ms) (some again) (some logs)
        ≡ statement st
      → GroupsExact
          (load_discounts am again [])
          (rows_read vendor first last ms logs)
          st
          date
          channel
          model
  statement_groups vendor first last ms again logs st date channel model h =
      subst
        (λ st.
          GroupsExact (load_discounts am again []) (rows_read vendor first last ms logs) st date
            channel model)
        (sym (calc_is vendor first last ms again logs st h)) (groups_exact _ _ date channel model)
