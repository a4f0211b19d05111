-- ===== src/Monitor/Conditions.antt =====
-- The conditions of rules: parseThreshold and hit, on bytes. float64 with
-- strconv.ParseFloat and its comparisons is the record `Numbers`.
pub mod Reading
mod Tests
use Prim.Native.String
use api_ops.Common.{
  ℕ, zero, suc, ◌+◌, ◌-◌, ◌*◌, ◌/◌, Bool, true, false, not, ◌&&◌, ◌||◌, Option, none, some, List,
  [], ◌∷◌, ◌++◌, codes, leb, ltb, ◌==◌, if◌then◌else◌, strip, split_first, trim_space,
}

pub record Numbers : Type 1 where
  pub Float : Type 0
  pub parse_float : List ℕ → Option Float
  pub lt : Float → Float → Bool
  pub le : Float → Float → Bool
  pub eq : Float → Float → Bool

-- The operators, in the order in which the loop tries them.
pub data Op : Type 0 where
  at_least : Op
  at_most : Op
  equals : Op
  above : Op
  below : Op

abbrev pub op_text : Op → List ℕ
op_text at_least = codes ">="
op_text at_most = codes "<="
op_text equals = codes "=="
op_text above = codes ">"
op_text below = codes "<"

abbrev pub all_ops : List Op
all_ops = at_least ∷ at_most ∷ equals ∷ above ∷ below ∷ []

is_nil : List ℕ → Bool
is_nil [] = true
is_nil (c ∷ s) = false

module _ (nu : Numbers) where
  open nu use {Float, parse_float, lt, le, eq}

  pub record Threshold : Type 0 where
    pub metric : List ℕ
    pub op : Op
    pub value : Float

  pub data Parsed : Type 0 where
    threshold : Threshold → Parsed
    bad_multiplier : Parsed
    bad_value : Parsed
    no_operator : Parsed

  -- The text that ParseFloat gets: behind "baseline*" where the value begins so.
  unfoldable pub number_part : List ℕ → List ℕ
  number_part v = elim (strip (codes "baseline*") v) [ some m ↦ m | none ↦ v ]

  unfoldable pub refused : List ℕ → Parsed
  refused v = elim (strip (codes "baseline*") v) [ some m ↦ bad_multiplier | none ↦ bad_value ]

  -- The value behind an operator.
  unfoldable pub with_value : List ℕ → Op → List ℕ → Parsed
  with_value metric op v = elim (parse_float (number_part v)) [
    | none ↦ refused v
    | some x ↦ threshold (record { metric = metric; op = op; value = x })
  ]

  -- The loop over the operators; one at the very beginning does not count.
  unfoldable pub try_ops : List Op → List ℕ → Parsed
  unfolding is_nil
  try_ops [] cond = no_operator
  try_ops (op ∷ ops) cond =
      let next = try_ops ops cond in
      elim (split_first (op_text op) cond) [
        | none ↦ next
        | some p ↦ if is_nil p.0 then next else with_value (trim_space p.0) op (trim_space p.1)
      ]

  unfoldable pub parse_threshold : List ℕ → Parsed
  parse_threshold cond = try_ops all_ops cond

  hit_op : Op → Float → Float → Bool
  hit_op at_least actual v = le v actual
  hit_op at_most actual v = le actual v
  hit_op equals actual v = eq actual v
  hit_op above actual v = lt v actual
  hit_op below actual v = lt actual v

  unfoldable pub hit : Threshold → Float → Bool
  unfolding hit_op
  hit t actual = hit_op t.op actual t.value
