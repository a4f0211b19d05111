-- ===== src/Discount/Pattern.antt =====
-- `discountPattern`, the regular expression (\d+(?:\.\d+)?)\s*折: what matches at a place, and the
-- leftmost match of a name.
use api_ops.Common.{
  ℕ, Bool, true, false, not, ◌&&◌, ◌||◌, Option, none, some, List, [], ◌∷◌, ◌++◌, leb, ◌==◌,
  if◌then◌else◌, take_while, drop_while,
}

-- The code point of 折.
abbrev pub zhe : ℕ
zhe = 25240

unfoldable pub is_digit : ℕ → Bool
is_digit c = leb b'0' c && leb c b'9'

-- \s: tab, line feed, form feed, carriage return, space.
unfoldable pub is_space : ℕ → Bool
is_space c = c == 9 || c == 10 || c == 12 || c == 13 || c == 32

-- A match in its parts; no fraction is the empty list.
pub record Match : Type 0 where
  pub whole : List ℕ
  pub fraction : List ℕ
  pub spaces : List ℕ

abbrev pub fraction_text : List ℕ → List ℕ
fraction_text [] = []
fraction_text (d ∷ ds) = b'.' ∷ d ∷ ds

-- The group of the expression, matches[1].
unfoldable pub number_text : Match → List ℕ
number_text m = m.whole ++ fraction_text m.fraction

-- matches[0].
unfoldable pub match_text : Match → List ℕ
match_text m = m.whole ++ (fraction_text m.fraction ++ (m.spaces ++ zhe ∷ []))

-- (?:\.\d+)? in front of the list: the digits of the fraction, and what is left.
unfoldable pub fraction_of : List ℕ → List ℕ
fraction_of [] = []
fraction_of (c ∷ s) = if c == b'.' then take_while is_digit s else []

is_nil : List ℕ → Bool
is_nil [] = true
is_nil (c ∷ s) = false

unfoldable pub skip_fraction : List ℕ → List ℕ
unfolding is_nil
skip_fraction [] = []
skip_fraction (c ∷ s) =
    if c == b'.' && not (is_nil (take_while is_digit s)) then drop_while is_digit s else c ∷ s

unfoldable pub begins_zhe : List ℕ → Bool
begins_zhe [] = false
begins_zhe (c ∷ s) = c == zhe

-- The match that begins at the head of the list.
unfoldable pub match_at : List ℕ → Option Match
unfolding is_nil is_digit is_space begins_zhe fraction_of skip_fraction
match_at s =
    let rest = drop_while is_digit s in
    let tail = skip_fraction rest in
    if not (is_nil (take_while is_digit s)) && begins_zhe (drop_while is_space tail)
    then some (record {
      whole = take_while is_digit s;
      fraction = fraction_of rest;
      spaces = take_while is_space tail;
    })
    else none

-- FindStringSubmatch: the leftmost place where the expression matches.
unfoldable pub find_submatch : List ℕ → Option Match
unfolding match_at
find_submatch [] = none
find_submatch (c ∷ s) = elim (match_at (c ∷ s)) [ none ↦ find_submatch s | some m ↦ some m ]
