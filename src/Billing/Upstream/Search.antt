-- ===== src/Billing/Upstream/Search.antt =====
-- The search in a text against its description.
use api_ops.Common.{
  ℕ, zero, suc, ◌+◌, ◌≤◌, ◌<◌, ◌≡◌, ◌⊎◌, ◌↔◌, inl, inr, refl, sym, ap, ◌∙◌, true, false, List, [],
  ◌∷◌, ◌++◌, arith, length, length-append, take, drop, leb, Bool-cases, ℕ_discrete,
}
use api_ops.Billing.Upstream.Models.{
  same_bytes, search_from, contains_one, contains_substring, to_lower_ascii,
  is_image_generation_model, keywords,
}

same_bytes_eq : (s t : List ℕ) → same_bytes s t ≡ true → s ≡ t
unfolding same_bytes
same_bytes_eq [] [] h = refl
same_bytes_eq [] (d ∷ t) h = cc h
same_bytes_eq (c ∷ s) [] h = cc h
same_bytes_eq (c ∷ s) (d ∷ t) h = ground (arith, same_bytes_eq s t)

same_bytes_refl : (s : List ℕ) → same_bytes s s ≡ true
unfolding same_bytes
same_bytes_refl [] = refl
same_bytes_refl (c ∷ s) = ground (arith, same_bytes_refl s)

-- The text stands somewhere in the other.
abbrev pub Contains : List ℕ → List ℕ → Type 0
Contains s sub = (before : List ℕ) × (after : List ℕ) × (s ≡ before ++ (sub ++ after))

take-append-drop : (n : ℕ) (s : List ℕ) → take n s ++ drop n s ≡ s
take-append-drop zero s = refl
take-append-drop (suc n) [] = refl
take-append-drop (suc n) (c ∷ s) = ap (λ r. c ∷ r) (take-append-drop n s)

take-length : (s t : List ℕ) → take (length s) (s ++ t) ≡ s
take-length [] t = refl
take-length (c ∷ s) t = ap (λ r. c ∷ r) (take-length s t)

drop-length : (s t : List ℕ) → drop (length s) (s ++ t) ≡ t
drop-length [] t = refl
drop-length (c ∷ s) t = drop-length s t

search_here :
    (fuel i : ℕ) (s sub : List ℕ)
    → leb (i + length sub) (length s) ≡ true
    → same_bytes (take (length sub) (drop i s)) sub ≡ true
    → search_from (suc fuel) i s sub ≡ true
unfolding search_from
search_here fuel i s sub e m = rw (e, search_from) (rw m refl)

search_on :
    (fuel i : ℕ) (s sub : List ℕ)
    → leb (i + length sub) (length s) ≡ true
    → same_bytes (take (length sub) (drop i s)) sub ≡ false
    → search_from (suc fuel) i s sub ≡ search_from fuel (i + 1) s sub
unfolding search_from
search_on fuel i s sub e m = rw (e, search_from) (rw m refl)

search_sound : (fuel i : ℕ) (s sub : List ℕ) → search_from fuel i s sub ≡ true → Contains s sub
unfolding search_from
search_sound zero i s sub h = cc h
search_sound (suc fuel) i s sub h = elim (Bool-cases (leb (i + length sub) (length s))) [
  | inr e ↦ cc (rw (e, search_from) at h)
  | inl e ↦ elim (Bool-cases (same_bytes (take (length sub) (drop i s)) sub)) [
    | inl m ↦
        let p = same_bytes_eq (take (length sub) (drop i s)) sub m in
        (
          take i s,
          drop (length sub) (drop i s),
          sym (
              ap (λ r. take i s ++ (r ++ drop (length sub) (drop i s))) (sym p)
              ∙ ap (λ r. take i s ++ r) (take-append-drop (length sub) (drop i s))
              ∙ take-append-drop i s),
        )
    | inr m ↦ search_sound fuel (i + 1) s sub (sym (search_on fuel i s sub e m) ∙ h)
  ]
]

-- The place is `i` rounds ahead, or nearer.
search_complete :
    (fuel i : ℕ) (before sub after : List ℕ)
    → i ≤ length before
    → length before < fuel + i
    → search_from fuel i (before ++ (sub ++ after)) sub ≡ true
search_complete zero i before sub after h k = absurd (omega arith)
search_complete (suc fuel) i before sub after h k =
    let s = before ++ (sub ++ after) in
    let long : length s ≡ length before + (length sub + length after) =
      omega (arith, length-append before (sub ++ after), length-append sub after) in
    let fits : leb (i + length sub) (length s) ≡ true = ground (arith, long) in
    elim (Bool-cases (same_bytes (take (length sub) (drop i s)) sub)) [
      | inl m ↦ search_here fuel i s sub fits m
      | inr m ↦ elim (ℕ_discrete i (length before)) [
        | yes e ↦
            let here : take (length sub) (drop i s) ≡ sub = rw e (
              ap (take (length sub)) (drop-length before (sub ++ after)) ∙ take-length sub after) in
            cc (rw here at m, same_bytes_refl sub)
        | no n ↦
            search_on fuel i s sub fits m
            ∙ search_complete fuel (i + 1) before sub after (omega arith) (omega arith)
      ]
    ]

contains_substring-Contains : (s sub : List ℕ) → contains_substring s sub ≡ true → Contains s sub
unfolding contains_substring
contains_substring-Contains s [] h = ([], s, refl)
contains_substring-Contains s (c ∷ sub) h = search_sound (length s + 1) 0 s (c ∷ sub) (ground arith)

contains_substring_at :
    (before sub after : List ℕ) → contains_substring (before ++ (sub ++ after)) sub ≡ true
unfolding contains_substring
contains_substring_at before [] after = refl
contains_substring_at before (c ∷ sub) after =
    let s = before ++ (c ∷ (sub ++ after)) in
    let long : length s ≡ length before + suc (length sub + length after) =
      omega (arith, length-append before (c ∷ (sub ++ after)), length-append sub after) in
    ground (
      arith,
      long,
      search_complete (length s + 1) 0 before (c ∷ sub) after (omega arith) (omega (arith, long)),
    )

contains_substring_iff : (s sub : List ℕ) → (contains_substring s sub ≡ true) ↔ Contains s sub
contains_substring_iff s sub =
    (contains_substring-Contains s sub, λ c. rw c.2 (contains_substring_at c.0 sub c.1))

-- Some keyword stands in the text.
abbrev pub ContainsOne : List ℕ → List (List ℕ) → Type 0
ContainsOne s [] = ⊥
ContainsOne s (k ∷ ks) = Contains s k ⊎ ContainsOne s ks

one_sound : (s : List ℕ) (ks : List (List ℕ)) → contains_one s ks ≡ true → ContainsOne s ks
unfolding contains_one
one_sound s [] h = cc h
one_sound s (k ∷ ks) h = elim (Bool-cases (contains_substring s k)) [
  | inl e ↦ inl ((contains_substring_iff s k).0 e)
  | inr e ↦ inr (one_sound s ks (rw e at h))
]

one_complete : (s : List ℕ) (ks : List (List ℕ)) → ContainsOne s ks → contains_one s ks ≡ true
unfolding contains_one
one_complete s [] c = elim c [ ]
one_complete s (k ∷ ks) (inl c) = rw ((contains_substring_iff s k).1 c) refl
one_complete s (k ∷ ks) (inr c) =
    let rest = one_complete s ks c in
    elim (Bool-cases (contains_substring s k)) [ inl e ↦ rw e refl | inr e ↦ rw e rest ]

-- A model counts as one that generates images exactly when its name, in lower case, contains one of
-- the five keywords.
pub image_model_iff :
    (name : List ℕ)
    → (is_image_generation_model name ≡ true) ↔ ContainsOne (to_lower_ascii name) keywords
unfolding is_image_generation_model to_lower_ascii contains_one contains_substring
image_model_iff [] = (λ h. cc h, λ c. one_complete [] keywords c)
image_model_iff (c ∷ name) = (
  one_sound (to_lower_ascii (c ∷ name)) keywords,
  one_complete (to_lower_ascii (c ∷ name)) keywords,
)
