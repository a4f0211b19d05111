-- ===== src/Discount/Leftmost.antt =====
-- Which match of `discountPattern` FindStringSubmatch takes.
use api_ops.Common.{
  ℕ, ◌≤◌, ◌≡◌, ◌≢◌, refl, ap, ◌∙◌, none, some, List, [], ◌∷◌, ◌++◌, arith, Option-cases, inl, inr,
  length,
}
use api_ops.Discount.Pattern.{zhe, Match, match_text, fraction_text, match_at, find_submatch}
use api_ops.Discount.Matching.{IsMatch, match_at_complete, match_at_sound, text_flat}

-- A match of the expression in a name, behind `before`.
pub record Occurs (m : Match) (before name : List ℕ) : Type 0 where
  pub is_match : IsMatch m
  pub after : List ℕ
  pub place : name ≡ before ++ (match_text m ++ after)

-- No match in the name begins further left.
abbrev pub IsLeftmost : Match → List ℕ → List ℕ → Type 0
IsLeftmost m before name =
    Occurs m before name
    × ((m' : Match) (before' : List ℕ) → Occurs m' before' name → length before ≤ length before')

match_at-Occurs : (m : Match) (c : ℕ) (s : List ℕ) → Occurs m [] (c ∷ s) → match_at (c ∷ s) ≡ some m
match_at-Occurs m c s o = rw o.place (match_at_complete m o.after o.is_match)

Occurs-tail :
    (m : Match) (b c : ℕ) (before s : List ℕ) → Occurs m (b ∷ before) (c ∷ s) → Occurs m before s
Occurs-tail m b c before s o = record { is_match = o.is_match; after = o.after; place = cc o.place }

ne_nil : (ds rest : List ℕ) → ds ≢ [] → [] ≡ ds ++ rest → ⊥
ne_nil [] rest h e = h refl
ne_nil (d ∷ ds) rest h e = cc e

not_in_nil : (m : Match) (before : List ℕ) → Occurs m before [] → ⊥
unfolding match_text
not_in_nil m [] o =
    ne_nil m.whole (fraction_text m.fraction ++ (m.spaces ++ zhe ∷ o.after)) o.is_match.some_whole
      (o.place ∙ text_flat m.whole (fraction_text m.fraction) m.spaces o.after)
not_in_nil m (b ∷ before) o = cc o.place

-- A name in which nothing is found has no match.
pub find_none :
    (name : List ℕ)
    → find_submatch name ≡ none
    → (m : Match) (before : List ℕ) → Occurs m before name
    → ⊥
unfolding find_submatch
find_none [] h m before o = not_in_nil m before o
find_none (c ∷ s) h m [] o = ground (arith, match_at-Occurs m c s o)
find_none (c ∷ s) h m (b ∷ before) o = elim (Option-cases (match_at (c ∷ s))) [
  | inl e ↦ find_none s (ground arith) m before (Occurs-tail m b c before s o)
  | inr (n, e) ↦ ground arith
]

least-tail :
    (c : ℕ) (s before : List ℕ)
    → match_at (c ∷ s) ≡ none
    → ((m : Match) (b : List ℕ) → Occurs m b s → length before ≤ length b)
    → (m : Match) (b : List ℕ) → Occurs m b (c ∷ s)
    → length (c ∷ before) ≤ length b
least-tail c s before e least m [] o = ground (arith, match_at-Occurs m c s o)
least-tail c s before e least m (b ∷ bs) o = omega (arith, least m bs (Occurs-tail m b c bs s o))

-- What is found is a match, and the leftmost.
pub found-IsLeftmost :
    (name : List ℕ) (m : Match)
    → find_submatch name ≡ some m
    → (before : List ℕ) × IsLeftmost m before name
unfolding find_submatch
found-IsLeftmost [] m h = cc h
found-IsLeftmost (c ∷ s) m h = elim (Option-cases (match_at (c ∷ s))) [
  | inl e ↦
      let (before, (o, least)) = found-IsLeftmost s m (ground arith) in
      (
        c ∷ before,
        (
          record { is_match = o.is_match; after = o.after; place = ap (λ r. c ∷ r) o.place },
          least-tail c s before e least,
        ),
      )
  | inr (n, e) ↦
      let (p, after, q) = match_at_sound (c ∷ s) m (ground arith) in
      ([], (record { is_match = p; after = after; place = q }, λ m' b o. omega arith))
]

Occurs-unique :
    (m n : Match) (b d name : List ℕ)
    → Occurs m b name
    → Occurs n d name
    → length b ≡ length d
    → m ≡ n
Occurs-unique m n b d [] o p e = absurd (not_in_nil m b o)
Occurs-unique m n [] [] (c ∷ s) o p e =
    ground (arith, match_at-Occurs m c s o, match_at-Occurs n c s p)
Occurs-unique m n [] (y ∷ d) (c ∷ s) o p e = absurd (omega arith)
Occurs-unique m n (x ∷ b) [] (c ∷ s) o p e = absurd (omega arith)
Occurs-unique m n (x ∷ b) (y ∷ d) (c ∷ s) o p e =
    Occurs-unique m n b d s (Occurs-tail m x c b s o) (Occurs-tail n y c d s p) (omega arith)

-- The leftmost match is found.
pub find_submatch-IsLeftmost :
    (name before : List ℕ) (m : Match) → IsLeftmost m before name → find_submatch name ≡ some m
find_submatch-IsLeftmost name before m h = elim (Option-cases (find_submatch name)) [
  | inl e ↦ absurd (find_none name e m before h.0)
  | inr (n, e) ↦
      let (b, (o, least)) = found-IsLeftmost name n e in
      let same : m ≡ n =
        Occurs-unique m n before b name h.0 o (omega (arith, h.1 n b o, least m before h.0)) in
      rw same e
]
