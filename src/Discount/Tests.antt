-- ===== src/Discount/Tests.antt =====
-- Names of channels read with numbers in millionths: runs and witnesses.
use api_ops.Common.{
  ℕ, ◌+◌, ◌-◌, ◌*◌, ◌/◌, ◌≡◌, ◌⊎◌, refl, true, false, some, List, [], ◌∷◌, ◌++◌, arith, ltb, codes,
  ◌==◌, ◌↔◌,
}
use api_ops.Discount.Floats.{Floats, IsOrdered}
use api_ops.Discount.Pattern.{zhe, Match, number_text, match_text, find_submatch}
use api_ops.Discount.Leftmost.{found-IsLeftmost}
use api_ops.Discount.Parse.{parse_discount}
use api_ops.Discount.Answers.{Reads, Scaled, leftmost-Scaled, recognized_iff}
use api_ops.Discount.Range.{discount_range}

-- The digits behind the point, the first worth `unit` millionths.
millionths : ℕ → List ℕ → ℕ
millionths unit [] = 0
millionths unit (c ∷ s) = (c - b'0') * unit + millionths (unit / 10) s

decimal : ℕ → List ℕ → ℕ
decimal n [] = n * 1000000
decimal n (c ∷ s) = elim (c == b'.') [
  | true ↦ n * 1000000 + millionths 100000 s
  | false ↦ decimal (n * 10 + (c - b'0')) s
]

abbrev six_digits : Floats
six_digits = record {
  Float = ℕ;
  parse_float = λ s. some (decimal 0 s);
  of_nat = λ n. n * 1000000;
  lt = ltb;
  div = λ a b. a * 1000000 / b;
}

six_digits_ordered : IsOrdered six_digits
six_digits_ordered = record {
  irreflexive = λ a. ground arith;
  asymmetric = λ a b h. ground arith;
  lt_of_lt_of_le = λ a b c h k. ground arith;
  lt_of_le_of_lt = λ a b c h k. ground arith;
  tenths_mono = λ a b h. ground arith;
  hundredths_mono = λ a b h. ground arith;
  zero_lt_one = refl;
  one_lt_ten = refl;
  tenth_pos = refl;
  ten_hundredths_pos = refl;
  ten_tenths = refl;
  hundred_hundredths = refl;
  ten_lt_hundred_one = refl;
  one_lt_hundred_one_hundredths = refl;
}

-- "aws-42折-b", "a7-0.72 折" and "x150折".
abbrev forty_two : List ℕ
forty_two = codes "aws-42" ++ (zhe ∷ codes "-b")

abbrev with_space : List ℕ
with_space = codes "a7-0.72 " ++ zhe ∷ []

abbrev too_big : List ℕ
too_big = codes "x150" ++ zhe ∷ []

abbrev price : List ℕ → ℕ
price name = (parse_discount six_digits name).auto_discount

price_42 : price forty_two ≡ 420000
unfolding parse_discount decimal
price_42 = refl

price-with_space : price with_space ≡ 720000
unfolding parse_discount decimal millionths
price-with_space = refl

price_5 : price (codes "ez-5" ++ zhe ∷ []) ≡ 500000
unfolding parse_discount decimal
price_5 = refl

no_discount : (parse_discount six_digits (codes "channel-18")).recognized ≡ false
unfolding parse_discount
no_discount = refl

abbrev match_42 : Match
match_42 = record { whole = codes "42"; fraction = []; spaces = [] }

abbrev match_150 : Match
match_150 = record { whole = codes "150"; fraction = []; spaces = [] }

found_42 : find_submatch forty_two ≡ some match_42
unfolding find_submatch
found_42 = refl

found_150 : find_submatch too_big ≡ some match_150
unfolding find_submatch
found_150 = refl

leftmost-Scaled_example :
    ((parse_discount six_digits forty_two).recognized ≡ true)
    × ((parse_discount six_digits forty_two).matched ≡ match_text match_42)
    × Scaled six_digits 42000000 (parse_discount six_digits forty_two).auto_discount
unfolding decimal number_text
leftmost-Scaled_example =
    leftmost-Scaled six_digits forty_two (found-IsLeftmost forty_two match_42 found_42).0 match_42
      42000000 (found-IsLeftmost forty_two match_42 found_42).1 refl refl

recognized_iff_example :
    ((parse_discount six_digits with_space).recognized ≡ true) ↔ Reads six_digits with_space
recognized_iff_example = recognized_iff six_digits with_space

discount_range_example :
    (ltb 0 (price forty_two) ≡ true)
    × ((ltb 1000000 (price forty_two) ≡ false)
        ⊎ ((r : Reads six_digits forty_two) × (ltb 100000000 r.2 ≡ true)))
discount_range_example = discount_range six_digits six_digits_ordered forty_two
