-- ===== src/Audit/Paths.antt =====
-- Names taken from the path of a request: deriveAction, resourceTypeFromPath, resourceIDFromPath.
pub mod Segments
use Prim.Native.String
use api_ops.Common.{
  strip, ℕ, ◌+◌, Bool, true, false, ◌&&◌, Option, none, some, List, [], ◌∷◌, ◌++◌, leb, ◌==◌, map,
  if◌then◌else◌, codes,
}

-- strings.TrimPrefix.
unfoldable pub trim_prefix : List ℕ → List ℕ → List ℕ
unfolding strip
trim_prefix text prefix = elim (strip prefix text) [ none ↦ text | some rest ↦ rest ]

-- strings.Split at one byte: there is always a segment.
unfoldable pub split : ℕ → List ℕ → List ℕ × List (List ℕ)
split sep [] = ([], [])
split sep (c ∷ s) =
    let (seg, more) = split sep s in if c == sep then ([], seg ∷ more) else (c ∷ seg, more)

-- strings.Join of a first and more segments.
unfoldable pub join : ℕ → List ℕ → List (List ℕ) → List ℕ
join sep seg [] = seg
join sep seg (next ∷ more) = seg ++ sep ∷ join sep next more

-- strings.ToLower on ASCII: the methods are such.
unfoldable pub to_lower : ℕ → ℕ
to_lower c = if leb b'A' c && leb c b'Z' then c + 32 else c

unfoldable pub segments : List ℕ → List ℕ × List (List ℕ)
unfolding trim_prefix split
segments path = split b'/' (trim_prefix path (codes "/api/"))

unfoldable pub derive_action : List ℕ → List ℕ → List ℕ
unfolding segments to_lower join
derive_action method [] =
    let (seg, more) = segments (codes "(unknown)") in
    map to_lower method ++ b' ' ∷ join b'.' seg more
derive_action method (c ∷ route) =
    let (seg, more) = segments (c ∷ route) in map to_lower method ++ b' ' ∷ join b'.' seg more

unfoldable pub resource_type : List ℕ → List ℕ
unfolding segments
resource_type path = (segments path).0

digits_only : List ℕ → Bool
digits_only [] = true
digits_only (c ∷ s) = leb b'0' c && leb c b'9' && digits_only s

unfoldable pub is_number : List ℕ → Bool
unfolding digits_only
is_number [] = false
is_number (c ∷ s) = digits_only (c ∷ s)

-- The loop over the segments.
unfoldable pub first_number : List (List ℕ) → List ℕ
unfolding is_number
first_number [] = []
first_number (seg ∷ more) = if is_number seg then seg else first_number more

unfoldable pub resource_id : List ℕ → List ℕ
unfolding segments first_number
resource_id path = let (seg, more) = segments path in first_number (seg ∷ more)
