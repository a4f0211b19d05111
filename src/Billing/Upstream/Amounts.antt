-- ===== src/Billing/Upstream/Amounts.antt =====
-- What the statement uses of other code, and the arithmetic on single amounts.
use api_ops.Common.{ℕ, ◌+◌, ◌%◌, Bool, ◌||◌, String, if◌then◌else◌, leb, ◌==◌}

abbrev pub two_64 : ℕ
two_64 = 18446744073709551616

abbrev pub two_63 : ℕ
two_63 = 9223372036854775808

-- a + b on int64.
abbrev pub add64 : ℕ → ℕ → ℕ
add64 a b = (a + b) % two_64

-- n <= 0 on int64.
unfoldable pub nonpos64 : ℕ → Bool
nonpos64 n = n == 0 || leb two_63 n

-- The two fields of OtherFields that the statement reads.
pub record OtherFields (Float : Type 0) : Type 0 where
  pub group_ratio : Float
  pub cache_tokens : ℕ

-- `of_int64` is the conversion, `quota_per_usd` the constant 500000.0; `decode` is json.Unmarshal into
-- OtherFields, what it has set when it fails included; `day` is the UTC date of a Unix time.
pub record Amounts : Type 1 where
  pub Float : Type 0
  pub zero_amount : Float
  pub one_amount : Float
  pub quota_per_usd : Float
  pub of_int64 : ℕ → Float
  pub le : Float → Float → Bool
  pub lt : Float → Float → Bool
  pub add : Float → Float → Float
  pub sub : Float → Float → Float
  pub mul : Float → Float → Float
  pub div : Float → Float → Float
  pub decode : String → OtherFields Float
  pub day : ℕ → String

module _ (am : Amounts) where
  open am use {Float, zero_amount, one_amount, quota_per_usd, of_int64, le, lt, sub, mul, div}

  unfoldable pub revenue_of : ℕ → Float
  revenue_of quota = div (of_int64 quota) quota_per_usd

  -- CalcLogCost.
  unfoldable pub calc_log_cost : ℕ → Float → Float → Float
  unfolding nonpos64 revenue_of
  calc_log_cost quota group_ratio channel_discount =
      if nonpos64 quota || le channel_discount zero_amount
      then zero_amount
      else let ratio = if le group_ratio zero_amount then one_amount else group_ratio in
        mul (div (revenue_of quota) ratio) channel_discount

  -- CalcProfitMargin.
  unfoldable pub calc_profit_margin : Float → Float → Float
  calc_profit_margin revenue cost =
      if le cost zero_amount then zero_amount else div (sub revenue cost) cost
