-- ===== src/Audit/Paths/Segments.antt =====
-- The segments of a path, the resource's number among them, and what an action is made of.
use api_ops.Common.{
  ℕ, ◌≡◌, inl, inr, refl, ap, ◌∙◌, true, false, List, [], ◌∷◌, ◌++◌, ◌==◌, arith, map, codes,
  Bool-cases, if◌then◌else◌, All,
}
use api_ops.Audit.Paths.{
  trim_prefix, split, join, segments, derive_action, resource_type, is_number, first_number,
  resource_id, to_lower,
}

join-cons :
    (sep c : ℕ) (seg : List ℕ) (more : List (List ℕ))
    → join sep (c ∷ seg) more ≡ c ∷ join sep seg more
unfolding join
join-cons sep c seg [] = refl
join-cons sep c seg (next ∷ more) = refl

-- Splitting at a byte and joining with it gives the text back.
join-split : (sep : ℕ) (s : List ℕ) → join sep (split sep s).0 (split sep s).1 ≡ s
unfolding split join
join-split sep [] = refl
join-split sep (c ∷ s) = elim (Bool-cases (c == sep)) [
  | inl e ↦ let p : c ≡ sep = ground arith in rw e (rw p (ap (λ r. sep ∷ r) (join-split sep s)))
  | inr e ↦
      rw e (join-cons sep c (split sep s).0 (split sep s).1 ∙ ap (λ r. c ∷ r) (join-split sep s))
]

abbrev pub Lacks : ℕ → List ℕ → Type 0
Lacks sep seg = All (λ c. (c == sep) ≡ false) seg

-- No segment has the separator.
split-Lacks : (sep : ℕ) (s : List ℕ) → Lacks sep (split sep s).0 × All (Lacks sep) (split sep s).1
unfolding split
split-Lacks sep [] = (tt, tt)
split-Lacks sep (c ∷ s) =
    let ih = split-Lacks sep s in
    elim (Bool-cases (c == sep)) [ inl e ↦ rw e (tt, ih) | inr e ↦ rw e ((e, ih.0), ih.1) ]

-- What the loop over the segments gives: the first number among them, or the empty text.
pub data FirstNumber : List (List ℕ) → List ℕ → Type 0 where
  absent : FirstNumber [] []
  here : (seg : List ℕ) (more : List (List ℕ)) → is_number seg ≡ true → FirstNumber (seg ∷ more) seg
  later :
      (seg id : List ℕ) (more : List (List ℕ))
      → is_number seg ≡ false
      → FirstNumber more id
      → FirstNumber (seg ∷ more) id

first_number_lem : (segs : List (List ℕ)) → FirstNumber segs (first_number segs)
unfolding first_number
first_number_lem [] = absent
first_number_lem (seg ∷ more) = elim (Bool-cases (is_number seg)) [
  | inl e ↦ rw e (here seg more e)
  | inr e ↦ rw e (later seg (first_number more) more e (first_number_lem more))
]

-- A path behind its prefix /api/ is cut into its segments: joined by slashes they give it back, none
-- has a slash, the resource type is the first of them, and the resource's number is the first of them
-- that consists of digits, or empty where there is none.
resource_of_path :
    (path : List ℕ)
    → (seg : List ℕ) × (more : List (List ℕ)) × (join b'/' seg more
        ≡ trim_prefix path (codes "/api/"))
      × Lacks b'/' seg
      × All (Lacks b'/') more
      × (resource_type path ≡ seg)
      × FirstNumber (seg ∷ more) (resource_id path)
unfolding segments resource_type resource_id
resource_of_path path =
    let p = trim_prefix path (codes "/api/") in
    let l = split-Lacks b'/' p in
    (
      (split b'/' p).0,
      (split b'/' p).1,
      join-split b'/' p,
      l.0,
      l.1,
      refl,
      first_number_lem ((split b'/' p).0 ∷ (split b'/' p).1),
    )

abbrev pub dotted : ℕ → ℕ
dotted c = if c == b'/' then b'.' else c

join-split-dotted : (s : List ℕ) → join b'.' (split b'/' s).0 (split b'/' s).1 ≡ map dotted s
unfolding split join
join-split-dotted [] = refl
join-split-dotted (c ∷ s) = elim (Bool-cases (c == b'/')) [
  | inl e ↦ rw e (ap (λ r. b'.' ∷ r) (join-split-dotted s))
  | inr e ↦
      rw e
        (join-cons b'.' c (split b'/' s).0 (split b'/' s).1 ∙ ap (λ r. c ∷ r) (join-split-dotted s))
]

-- The action of a request is its method in lower case, a space, and the route behind /api/ with each
-- slash written as a point; a request without a route counts as the route "(unknown)".
action_of_route :
    (method route : List ℕ)
    → (derive_action method [] ≡ map to_lower method ++ b' ' ∷ codes "(unknown)")
      × ((c : ℕ)
          → derive_action method (c ∷ route)
            ≡ map to_lower method ++ b' ' ∷ map dotted (trim_prefix (c ∷ route) (codes "/api/")))
unfolding derive_action segments
action_of_route method route = (
  refl,
  λ c.
      ap (λ r. map to_lower method ++ b' ' ∷ r)
        (join-split-dotted (trim_prefix (c ∷ route) (codes "/api/"))),
)
