-- ===== src/Billing/Cached/Rows.antt =====
-- The table ops_upstream_summary_5min and what internal/dal/cache_upstream_summary.go does with it.
use mathlib.Core.HLevel.{×_discrete}
use api_ops.Common.{
  ℕ, ◌+◌, ◌-◌, ◌*◌, ◌/◌, Bool, true, false, ◌&&◌, Option, none, some, List, [], ◌∷◌, String,
  String_discrete, ℕ_discrete, ite, leb, ltb, ◌==◌, if◌then◌else◌, length, select, upsert,
}
use api_ops.Billing.Upstream.Amounts.{Amounts}

abbrev pub current_month : String
current_month = "current-month"

abbrev pub last_month : String
last_month = "last-month"

-- (vendor_code, period_label, ts_bucket)
abbrev pub RowKey : Type 0
RowKey = String × (String × ℕ)

abbrev pub row_key_discrete : Discrete RowKey
row_key_discrete = ×_discrete String_discrete (×_discrete String_discrete ℕ_discrete)

-- The start of the five minutes.
unfoldable pub compute_upstream_bucket : ℕ → ℕ
compute_upstream_bucket now = now / 300 * 300

module _ (am : Amounts) where
  open am use {Float}

  pub record UpstreamSummary : Type 0 where
    pub vendor_code : String
    pub period_label : String
    pub period_start : ℕ
    pub period_end : ℕ
    pub request_count : ℕ
    pub revenue : Float
    pub cost : Float
    pub profit : Float
    pub ts_bucket : ℕ

  abbrev pub Table : Type 0
  Table = List (RowKey × UpstreamSummary)

  abbrev pub row_keyed : List UpstreamSummary → Table
  row_keyed [] = []
  row_keyed (r ∷ rows) = ((r.vendor_code, (r.period_label, r.ts_bucket)), r) ∷ row_keyed rows

  unfoldable pub upsert_upstream_summary : List UpstreamSummary → Table → Table
  upsert_upstream_summary rows table = upsert row_key_discrete (row_keyed rows) table

  -- The row with the latest bucket; by the unique index there is one at most.
  unfoldable pub newest : Table → Option UpstreamSummary
  newest [] = none
  newest ((k, r) ∷ rows) = elim (newest rows) [
    | none ↦ some r
    | some q ↦ if ltb r.ts_bucket q.ts_bucket then some q else some r
  ]

  abbrev is_text : String → String → Bool
  is_text a b = ite (String_discrete a b) true false

  -- The rows of the vendor and the period whose bucket is at most `max_age` old.
  unfoldable pub fresh_rows : String → String → ℕ → ℕ → Table → Table
  fresh_rows vendor label max_age now table =
      select
        (λ (e : RowKey × UpstreamSummary).
          is_text vendor e.0.0 && is_text label e.0.1.0 && leb now (e.0.1.1 + max_age))
        table

  all_ages : String → String → Table → Table
  all_ages vendor label table =
      select (λ (e : RowKey × UpstreamSummary). is_text vendor e.0.0 && is_text label e.0.1.0) table

  -- No bound on the age where `max_age` is 0; an error of the query counts as no row.
  unfoldable pub get_latest_upstream_summary :
      Bool → String → String → ℕ → ℕ → Table → Option UpstreamSummary
  unfolding all_ages
  get_latest_upstream_summary works vendor label max_age now table =
      if is_text vendor ""
      then none
      else (if is_text label ""
          then none
          else (if works
              then (if max_age == 0
                  then newest (all_ages vendor label table)
                  else newest (fresh_rows vendor label max_age now table))
              else none))

  -- The entry of the map of maps for a vendor and a period; `reads` says whether the row of a vendor
  -- and a period could be read again. `max_age` is not 0.
  unfoldable pub listed_summary :
      (String → String → Bool) → ℕ → ℕ → Table → String → String → Option UpstreamSummary
  listed_summary reads max_age now table vendor label =
      if reads vendor label then newest (fresh_rows vendor label max_age now table) else none

  -- With the number of rows; at least the default of 30 days where `days` is 0.
  unfoldable pub prune_old_upstream_summary : ℕ → ℕ → Table → ℕ × Table
  prune_old_upstream_summary days now table =
      let kept =
        select
          (λ (e : RowKey × UpstreamSummary).
            leb now (e.0.1.1 + (if days == 0 then 30 else days) * 86400))
          table in
      (length table - length kept, kept)
