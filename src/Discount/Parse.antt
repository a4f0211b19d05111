-- ===== src/Discount/Parse.antt =====
-- ParseDiscountFromName and NormalizeDiscount.
use api_ops.Common.{ℕ, Bool, true, false, Option, none, some, List, [], ◌∷◌, if◌then◌else◌}
use api_ops.Discount.Floats.{Floats}
use api_ops.Discount.Pattern.{Match, number_text, match_text, find_submatch}

module _ (fl : Floats) where
  open fl use {Float, parse_float, of_nat, lt, div}

  pub record ParseResult : Type 0 where
    pub auto_discount : Float
    pub recognized : Bool
    pub matched : List ℕ

  unfoldable pub unrecognized : List ℕ → ParseResult
  unrecognized text = record { auto_discount = of_nat 1; recognized = false; matched = text }

  -- The three cases of the switch.
  unfoldable pub scale : Float → Float
  scale val =
      if lt (of_nat 10) val
      then div val (of_nat 100)
      else if lt (of_nat 1) val
      then div val (of_nat 10)
      else val

  -- What is made of a match, given the outcome of ParseFloat, which gives no NaN for such a text: so
  -- val <= 0 is the negation of 0 < val.
  unfoldable pub of_match : Match → Option Float → ParseResult
  unfolding unrecognized scale match_text
  of_match m none = unrecognized (match_text m)
  of_match m (some val) =
      if lt (of_nat 0) val
      then record { auto_discount = scale val; recognized = true; matched = match_text m }
      else unrecognized (match_text m)

  unfoldable pub parse_discount : List ℕ → ParseResult
  unfolding unrecognized of_match number_text find_submatch
  parse_discount [] = unrecognized []
  parse_discount (c ∷ name) = elim (find_submatch (c ∷ name)) [
    | none ↦ unrecognized []
    | some m ↦ of_match m (parse_float (number_text m))
  ]

  unfoldable pub normalize_discount : Float → Float
  normalize_discount input =
      if lt input (of_nat 0) then of_nat 0 else if lt (of_nat 1) input then of_nat 1 else input
