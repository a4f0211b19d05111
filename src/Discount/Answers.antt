-- ===== src/Discount/Answers.antt =====
-- What ParseDiscountFromName and NormalizeDiscount answer.
use api_ops.Common.{
  ℕ, ◌≡◌, ◌↔◌, ◌⊎◌, inl, inr, refl, ◌∙◌, true, false, Option, none, some, List, [], ◌∷◌, arith,
  Option-cases,
}
use api_ops.Discount.Floats.{Floats}
use api_ops.Discount.Pattern.{Match, match_text, number_text, find_submatch}
use api_ops.Discount.Leftmost.{IsLeftmost, found-IsLeftmost, find_submatch-IsLeftmost}
use api_ops.Discount.Parse.{parse_discount, scale, of_match}

parse_of_find :
    (fl : Floats) (name : List ℕ) (m : Match)
    → find_submatch name ≡ some m
    → parse_discount fl name ≡ of_match fl m (fl.parse_float (number_text m))
unfolding parse_discount
parse_of_find fl [] m e = unfold find_submatch in cc e
parse_of_find fl (c ∷ name) m e = rw (e, parse_discount)

pub leftmost_is_read :
    (fl : Floats) (name before : List ℕ) (m : Match) (v : fl.Float)
    → IsLeftmost m before name
    → fl.parse_float (number_text m) ≡ some v
    → fl.lt (fl.of_nat 0) v ≡ true
    → parse_discount fl name
      ≡ record { auto_discount = scale fl v; recognized = true; matched = match_text m }
unfolding of_match
leftmost_is_read fl name before m v l p h =
    parse_of_find fl name m (find_submatch-IsLeftmost name before m l)
    ∙ rw (p, of_match) (rw h refl)

-- A number above 10 counts hundredths, one above 1 tenths, and any other is the discount itself.
abbrev pub Scaled : (fl : Floats) → fl.Float → fl.Float → Type 0
Scaled fl v discount =
    ((fl.lt (fl.of_nat 10) v ≡ true) × (discount ≡ fl.div v (fl.of_nat 100)))
    ⊎ (((fl.lt (fl.of_nat 10) v ≡ false)
          × (fl.lt (fl.of_nat 1) v ≡ true)
          × (discount ≡ fl.div v (fl.of_nat 10)))
        ⊎ ((fl.lt (fl.of_nat 10) v ≡ false) × (fl.lt (fl.of_nat 1) v ≡ false) × (discount ≡ v)))

scale-Scaled : (fl : Floats) (v : fl.Float) → Scaled fl v (scale fl v)
unfolding scale
scale-Scaled fl v = ground arith

-- In any name, where the leftmost match of the expression carries a positive number that ParseFloat takes,
-- the discount is recognised, with the text of the match; it is the number over 100 where the number is
-- above 10, the number over 10 where it is above 1 and not above 10, and otherwise the number itself.
pub leftmost-Scaled :
    (fl : Floats) (name before : List ℕ) (m : Match) (v : fl.Float)
    → IsLeftmost m before name
    → fl.parse_float (number_text m) ≡ some v
    → fl.lt (fl.of_nat 0) v ≡ true
    → ((parse_discount fl name).recognized ≡ true)
      × ((parse_discount fl name).matched ≡ match_text m)
      × Scaled fl v (parse_discount fl name).auto_discount
leftmost-Scaled fl name before m v l p h =
    rw (leftmost_is_read fl name before m v l p h) (refl, refl, scale-Scaled fl v)

abbrev pub Reads : (fl : Floats) → List ℕ → Type 0
Reads fl name =
    (m : Match) × (before : List ℕ) × (v : fl.Float) × IsLeftmost m before name
    × (fl.parse_float (number_text m) ≡ some v)
    × (fl.lt (fl.of_nat 0) v ≡ true)

of_match-recognized :
    (fl : Floats) (m : Match) (o : Option fl.Float)
    → (of_match fl m o).recognized ≡ true
    → (v : fl.Float) × (o ≡ some v) × (fl.lt (fl.of_nat 0) v ≡ true)
unfolding of_match
of_match-recognized fl m none h = cc h
of_match-recognized fl m (some v) h = (v, refl, ground arith)

found_none :
    (fl : Floats) (name : List ℕ)
    → find_submatch name ≡ none
    → (parse_discount fl name).recognized ≡ false
unfolding parse_discount
found_none fl [] e = refl
found_none fl (c ∷ name) e = rw (e, parse_discount)

pub recognized_sound :
    (fl : Floats) (name : List ℕ) → (parse_discount fl name).recognized ≡ true → Reads fl name
recognized_sound fl name h = elim (Option-cases (find_submatch name)) [
  | inl e ↦ cc (found_none fl name e, h)
  | inr (m, e) ↦
      let (before, l) = found-IsLeftmost name m e in
      let (v, p, q) =
        of_match-recognized fl m (fl.parse_float (number_text m))
          (rw (← parse_of_find fl name m e) h) in
      (m, before, v, l, p, q)
]

-- A name is recognised exactly when its leftmost match of the expression carries a number that
-- ParseFloat takes and that is positive.
pub recognized_iff :
    (fl : Floats) (name : List ℕ) → ((parse_discount fl name).recognized ≡ true) ↔ Reads fl name
recognized_iff fl name =
    (recognized_sound fl name, λ r. rw (leftmost_is_read fl name r.1 r.0 r.2 r.3 r.4 r.5) refl)

of_match-one :
    (fl : Floats) (m : Match) (o : Option fl.Float)
    → (of_match fl m o).recognized ≡ false
    → (of_match fl m o).auto_discount ≡ fl.of_nat 1
unfolding of_match
of_match-one fl m none h = refl
of_match-one fl m (some v) h = ground arith

parse-one :
    (fl : Floats) (name : List ℕ)
    → find_submatch name ≡ none
    → (parse_discount fl name).auto_discount ≡ fl.of_nat 1
unfolding parse_discount
parse-one fl [] e = refl
parse-one fl (c ∷ name) e = rw (e, parse_discount)

-- What is not recognised has the discount 1.
pub unrecognized_is_one :
    (fl : Floats) (name : List ℕ)
    → (parse_discount fl name).recognized ≡ false
    → (parse_discount fl name).auto_discount ≡ fl.of_nat 1
unrecognized_is_one fl name h = elim (Option-cases (find_submatch name)) [
  | inl e ↦ parse-one fl name e
  | inr (m, e) ↦
      rw (parse_of_find fl name m e) (of_match-one fl m _ (rw (parse_of_find fl name m e) at h))
]
