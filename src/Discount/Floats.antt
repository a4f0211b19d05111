-- ===== src/Discount/Floats.antt =====
-- What the discounts use of float64: strconv.ParseFloat on the code points of a decimal (`none` for its
-- error), the order and the division.
use api_ops.Common.{ℕ, ◌≡◌, Bool, true, false, Option, List}

pub record Floats : Type 1 where
  pub Float : Type 0
  pub parse_float : List ℕ → Option Float
  pub of_nat : ℕ → Float
  pub lt : Float → Float → Bool
  pub div : Float → Float → Float

-- The numbers of a run compared: no NaN among them, rounding of a quotient keeps the order, and a
-- few exact quotients.
pub record IsOrdered (fl : Floats) : Type 0 where
  pub irreflexive : (a : fl.Float) → fl.lt a a ≡ false
  pub asymmetric : (a b : fl.Float) → fl.lt a b ≡ true → fl.lt b a ≡ false
  pub lt_of_lt_of_le : (a b c : fl.Float) → fl.lt a b ≡ true → fl.lt c b ≡ false → fl.lt a c ≡ true
  pub lt_of_le_of_lt : (a b c : fl.Float) → fl.lt b a ≡ false → fl.lt b c ≡ true → fl.lt a c ≡ true
  pub tenths_mono :
      (a b : fl.Float)
      → fl.lt b a ≡ false
      → fl.lt (fl.div b (fl.of_nat 10)) (fl.div a (fl.of_nat 10)) ≡ false
  pub hundredths_mono :
      (a b : fl.Float)
      → fl.lt b a ≡ false
      → fl.lt (fl.div b (fl.of_nat 100)) (fl.div a (fl.of_nat 100)) ≡ false
  pub zero_lt_one : fl.lt (fl.of_nat 0) (fl.of_nat 1) ≡ true
  pub one_lt_ten : fl.lt (fl.of_nat 1) (fl.of_nat 10) ≡ true
  pub tenth_pos : fl.lt (fl.of_nat 0) (fl.div (fl.of_nat 1) (fl.of_nat 10)) ≡ true
  pub ten_hundredths_pos : fl.lt (fl.of_nat 0) (fl.div (fl.of_nat 10) (fl.of_nat 100)) ≡ true
  pub ten_tenths : fl.div (fl.of_nat 10) (fl.of_nat 10) ≡ fl.of_nat 1
  pub hundred_hundredths : fl.div (fl.of_nat 100) (fl.of_nat 100) ≡ fl.of_nat 1
  pub ten_lt_hundred_one : fl.lt (fl.of_nat 10) (fl.of_nat 101) ≡ true
  pub one_lt_hundred_one_hundredths :
      fl.lt (fl.of_nat 1) (fl.div (fl.of_nat 101) (fl.of_nat 100)) ≡ true
