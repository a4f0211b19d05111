-- ===== src/Billing/Upstream/Models.antt =====
-- IsImageGenerationModel with its own search in a text, on bytes.
use api_ops.Common.{
  ℕ, zero, suc, ◌+◌, Bool, true, false, ◌&&◌, ◌||◌, List, [], ◌∷◌, codes, length, leb, ltb, ◌==◌,
  if◌then◌else◌, map, drop, take,
}

unfoldable pub to_lower_ascii : List ℕ → List ℕ
to_lower_ascii s = map (λ c. if leb b'A' c && leb c b'Z' then c + 32 else c) s

unfoldable pub same_bytes : List ℕ → List ℕ → Bool
same_bytes [] [] = true
same_bytes [] (d ∷ t) = false
same_bytes (c ∷ s) [] = false
same_bytes (c ∷ s) (d ∷ t) = c == d && same_bytes s t

-- The loop from the index `i`, on fuel: it goes on while i + len(sub) <= len(s).
unfoldable pub search_from : ℕ → ℕ → List ℕ → List ℕ → Bool
unfolding same_bytes
search_from zero i s sub = false
search_from (suc fuel) i s sub = elim (leb (i + length sub) (length s)) [
  | false ↦ false
  | true ↦ elim (same_bytes (take (length sub) (drop i s)) sub) [
    | true ↦ true
    | false ↦ search_from fuel (i + 1) s sub
  ]
]

unfoldable pub contains_substring : List ℕ → List ℕ → Bool
contains_substring s sub =
    if length sub == 0
    then true
    else if ltb (length s) (length sub)
    then false
    else search_from (length s + 1) 0 s sub

unfoldable pub contains_one : List ℕ → List (List ℕ) → Bool
contains_one s [] = false
contains_one s (k ∷ ks) = contains_substring s k || contains_one s ks

abbrev pub keywords : List (List ℕ)
keywords = codes "image" ∷ codes "sora" ∷ codes "midjourney" ∷ codes "mj-" ∷ codes "dalle" ∷ []

unfoldable pub is_image_generation_model : List ℕ → Bool
is_image_generation_model [] = false
is_image_generation_model (c ∷ name) = contains_one (to_lower_ascii (c ∷ name)) keywords
