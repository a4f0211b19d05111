-- ===== src/Audit/Numbers.antt =====
-- The logger's own printing of numbers: _itoa with its buffer of twenty bytes, and toString.
pub mod Printing
pub mod RoundTrip
use Prim.Native.String
use api_ops.Common.Int.{ℤ, pos, negsuc, ltb_ℤ}
use api_ops.Common.{
  ℕ, zero, suc, ◌+◌, ◌-◌, ◌*◌, ◌/◌, ◌%◌, ◌^◌, Bool, true, false, Option, none, some, List, [], ◌∷◌,
  ◌++◌, ltb, ◌==◌, if◌then◌else◌, codes,
}

-- 2 ^ 63.
abbrev pub two_63 : ℕ
two_63 = 9223372036854775808

-- -i on an int64: the least one stays itself.
unfoldable pub neg : ℤ → ℤ
neg (pos zero) = pos zero
neg (pos (suc n)) = negsuc n
neg (negsuc n) = if suc n == two_63 then negsuc n else pos (suc n)

-- The buffer: how many bytes are free in front, and the bytes written behind them.
pub record Buffer : Type 0 where
  pub free : ℕ
  pub written : List ℕ

-- pos--; buf[pos] = b. Nothing: the index is out of range.
unfoldable pub put : ℕ → Buffer → Option Buffer
put b buf =
    if buf.free == 0 then none else some (record { free = buf.free - 1; written = b ∷ buf.written })

-- The loop `for i > 0`, on fuel; nothing where it panics or the fuel is used up.
unfoldable pub put_digits : ℕ → ℕ → Buffer → Option Buffer
unfolding put
put_digits zero i buf = none
put_digits (suc fuel) i buf = elim (ltb 0 i) [
  | false ↦ some buf
  | true ↦ elim (put (b'0' + i % 10) buf) [
    | none ↦ none
    | some buf' ↦ put_digits fuel (i / 10) buf'
  ]
]

-- The loop runs on what is positive.
unfoldable pub positive : ℤ → ℕ
positive (pos n) = n
positive (negsuc n) = 0

-- An int64 has at most nineteen digits, one round for each, and one to end.
abbrev pub rounds : ℕ
rounds = 20

unfoldable pub end_text : Bool → Option Buffer → Option (List ℕ)
unfolding put
end_text minus none = none
end_text false (some buf) = some buf.written
end_text true (some buf) = elim (put b'-' buf) [ none ↦ none | some buf' ↦ some buf'.written ]

unfoldable pub itoa : ℤ → Option (List ℕ)
unfolding neg positive
itoa (pos zero) = some (codes "0")
itoa (pos (suc n)) = end_text false (put_digits rounds (suc n) (record { free = 20; written = [] }))
itoa (negsuc n) =
    end_text true
      (put_digits rounds (positive (neg (negsuc n))) (record { free = 20; written = [] }))

-- The dynamic values that toString tells apart.
pub data Value : Type 0 where
  text : List ℕ → Value
  int : ℤ → Value
  int64 : ℤ → Value
  uint64 : ℕ → Value
  bool : Bool → Value
  other : Value

-- int64(x) on a uint64.
unfoldable pub to_int64 : ℕ → ℤ
to_int64 n = if ltb n two_63 then pos n else negsuc (2 * two_63 - 1 - n)

unfoldable pub to_string : Value → Option (List ℕ)
unfolding itoa to_int64
to_string (text s) = some s
to_string (int i) = itoa i
to_string (int64 i) = itoa i
to_string (uint64 n) = itoa (to_int64 n)
to_string (bool true) = some (codes "true")
to_string (bool false) = some (codes "false")
to_string other = some (codes "<unsupported>")

-- formatExtra over the entries in the order in which the range over the map gives them.
unfoldable pub join_extra : List (List ℕ × Value) → Option (List ℕ)
unfolding to_string
join_extra [] = some []
join_extra ((k, v) ∷ more) = elim (to_string v) [
  | none ↦ none
  | some s ↦ elim (join_extra more) [
    | none ↦ none
    | some rest ↦ some (k ++ (b'=' ∷ (s ++ (b',' ∷ b' ' ∷ rest))))
  ]
]

unfoldable pub format_extra : List (List ℕ × Value) → Option (List ℕ)
unfolding join_extra
format_extra [] = some []
format_extra (e ∷ more) = elim (join_extra (e ∷ more)) [
  | none ↦ none
  | some s ↦ some (codes " | extra: " ++ s)
]
