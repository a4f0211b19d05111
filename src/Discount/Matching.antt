-- ===== src/Discount/Matching.antt =====
-- The matcher against the regular expression: the parts of a match, and which match is found.
use mathlib.Core.List.{append_assoc}
use mathlib.Core.Path.{subst}
use api_ops.Common.{
  ℕ, ◌≡◌, ◌≢◌, refl, sym, ap, ◌∙◌, true, false, some, List, [], ◌∷◌, ◌++◌, ◌==◌, arith, Bool-cases,
  inl, inr, Pass, Stops, take_while, drop_while, take_while-stop, drop_while-stop,
  take_while-append-drop_while, take_while-Pass,
}
use api_ops.Discount.Pattern.{
  zhe, is_digit, is_space, Match, match_text, fraction_text, fraction_of, skip_fraction, begins_zhe,
  match_at,
}

-- What the expression says of the parts: \d+, the digits of (?:\.\d+)?, and \s*.
pub record IsMatch (m : Match) : Type 0 where
  pub whole_digits : Pass is_digit m.whole
  pub some_whole : m.whole ≢ []
  pub fraction_digits : Pass is_digit m.fraction
  pub white : Pass is_space m.spaces

not_digit_of_space : (c : ℕ) → is_space c ≡ true → is_digit c ≡ false
unfolding is_space is_digit
not_digit_of_space c h = ground arith

Stops-tail : (ws post : List ℕ) → Pass is_space ws → Stops is_digit (ws ++ zhe ∷ post)
unfolding is_digit
Stops-tail [] post h = refl
Stops-tail (w ∷ ws) post h = not_digit_of_space w h.0

Stops-fraction :
    (ds ws post : List ℕ)
    → Pass is_space ws
    → Stops is_digit (fraction_text ds ++ (ws ++ zhe ∷ post))
unfolding is_digit
Stops-fraction [] ws post h = Stops-tail ws post h
Stops-fraction (d ∷ ds) ws post h = refl

fraction_of_tail : (ws post : List ℕ) → Pass is_space ws → fraction_of (ws ++ zhe ∷ post) ≡ []
unfolding fraction_of is_space
fraction_of_tail [] post h = refl
fraction_of_tail (w ∷ ws) post h = ground (arith, h.0)

fraction_of_lem :
    (ds ws post : List ℕ)
    → Pass is_digit ds
    → Pass is_space ws
    → fraction_of (fraction_text ds ++ (ws ++ zhe ∷ post)) ≡ ds
unfolding fraction_of
fraction_of_lem [] ws post h k = fraction_of_tail ws post k
fraction_of_lem (d ∷ ds) ws post h k =
    take_while-stop is_digit (d ∷ ds) (ws ++ zhe ∷ post) h (Stops-tail ws post k)

skip_tail :
    (ws post : List ℕ) → Pass is_space ws → skip_fraction (ws ++ zhe ∷ post) ≡ ws ++ zhe ∷ post
unfolding skip_fraction is_space
skip_tail [] post h = refl
skip_tail (w ∷ ws) post h = ground (arith, h.0)

skip_fraction_lem :
    (ds ws post : List ℕ)
    → Pass is_digit ds
    → Pass is_space ws
    → skip_fraction (fraction_text ds ++ (ws ++ zhe ∷ post)) ≡ ws ++ zhe ∷ post
unfolding skip_fraction
skip_fraction_lem [] ws post h k = skip_tail ws post k
skip_fraction_lem (d ∷ ds) ws post h k =
    rw (take_while-stop is_digit (d ∷ ds) (ws ++ zhe ∷ post) h (Stops-tail ws post k))
      (drop_while-stop is_digit (d ∷ ds) (ws ++ zhe ∷ post) h (Stops-tail ws post k))

pub text_flat :
    (ds fs ws post : List ℕ)
    → (ds ++ (fs ++ (ws ++ zhe ∷ []))) ++ post ≡ ds ++ (fs ++ (ws ++ zhe ∷ post))
text_flat ds fs ws post = simp append_assoc

-- The matcher finds every text of the expression, whatever follows it.
pub match_at_complete :
    (m : Match) (post : List ℕ) → IsMatch m → match_at (match_text m ++ post) ≡ some m
unfolding match_text match_at
match_at_complete m post h =
    let r = fraction_text m.fraction ++ (m.spaces ++ zhe ∷ post) in
    let stops = Stops-fraction m.fraction m.spaces post h.white in
    let white_stops : Stops is_space (zhe ∷ post) = unfold is_space in refl in
    rw (text_flat m.whole (fraction_text m.fraction) m.spaces post) rw
      (take_while-stop is_digit m.whole r h.whole_digits stops) rw
      (drop_while-stop is_digit m.whole r h.whole_digits stops) rw
      (fraction_of_lem m.fraction m.spaces post h.fraction_digits h.white) rw
      (skip_fraction_lem m.fraction m.spaces post h.fraction_digits h.white) rw
      (take_while-stop is_space m.spaces (zhe ∷ post) h.white white_stops) rw
      (drop_while-stop is_space m.spaces (zhe ∷ post) h.white white_stops)
      (ground (arith, h.some_whole))

fraction_of-Pass : (r : List ℕ) → Pass is_digit (fraction_of r)
unfolding fraction_of
fraction_of-Pass [] = tt
fraction_of-Pass (c ∷ s) = elim (Bool-cases (c == b'.')) [
  | inl e ↦ rw e (take_while-Pass is_digit s)
  | inr e ↦ rw e tt
]

-- With `ds` the digits behind the point.
fraction_split_at :
    (s ds : List ℕ)
    → take_while is_digit s ≡ ds
    → fraction_text (fraction_of (b'.' ∷ s)) ++ skip_fraction (b'.' ∷ s) ≡ b'.' ∷ s
unfolding fraction_of skip_fraction
fraction_split_at s [] e = rw e
fraction_split_at s (d ∷ ds) e = rw e (
    ap (λ r. b'.' ∷ r)
      (ap (λ r. r ++ drop_while is_digit s) (sym e) ∙ take_while-append-drop_while is_digit s))

fraction_split : (r : List ℕ) → fraction_text (fraction_of r) ++ skip_fraction r ≡ r
unfolding fraction_of skip_fraction
fraction_split [] = refl
fraction_split (c ∷ s) = elim (Bool-cases (c == b'.')) [
  | inl e ↦
      let p : c ≡ b'.' = ground arith in rw p (fraction_split_at s (take_while is_digit s) refl)
  | inr e ↦ rw e
]

begins_zhe_lem : (t : List ℕ) → begins_zhe t ≡ true → (post : List ℕ) × (t ≡ zhe ∷ post)
unfolding begins_zhe
begins_zhe_lem [] h = cc
begins_zhe_lem (c ∷ s) h = (s, ground arith)

-- What the matcher finds is a text of the expression, at the head of the list.
pub match_at_sound :
    (s : List ℕ) (m : Match)
    → match_at s ≡ some m
    → IsMatch m × (post : List ℕ) × (s ≡ match_text m ++ post)
unfolding match_at match_text
match_at_sound s m h =
    let r = drop_while is_digit s in
    let t = skip_fraction r in
    let z : begins_zhe (drop_while is_space t) ≡ true = ground arith in
    let (post, e) = begins_zhe_lem (drop_while is_space t) z in
    let ds = take_while is_digit s in
    let fs = fraction_of r in
    let ws = take_while is_space t in
    let found : Match = record { whole = ds; fraction = fs; spaces = ws } in
    let same : found ≡ m = ground arith in
    let parts : IsMatch found = record {
      whole_digits = take_while-Pass is_digit s;
      some_whole = λ n. ground arith;
      fraction_digits = fraction_of-Pass r;
      white = take_while-Pass is_space t;
    } in
    let text : ds ++ (fraction_text fs ++ (ws ++ zhe ∷ post)) ≡ s =
      ap (λ x. ds ++ (fraction_text fs ++ (ws ++ x))) (sym e)
      ∙ ap (λ x. ds ++ (fraction_text fs ++ x)) (take_while-append-drop_while is_space t)
      ∙ ap (λ x. ds ++ x) (fraction_split r)
      ∙ take_while-append-drop_while is_digit s in
    subst (λ m. IsMatch m × (post : List ℕ) × (s ≡ match_text m ++ post)) same
      (parts, post, sym (text_flat ds (fraction_text fs) ws post ∙ text))
