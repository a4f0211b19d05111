-- ===== src/Audit/Numbers/RoundTrip.antt =====
-- Reading back what _itoa prints, and what it prints of a large uint64.
use api_ops.Common.Int.{ℤ, pos, negsuc, pos_part, neg_part}
use api_ops.Common.{
  ℕ, zero, suc, ◌-◌, ◌*◌, ◌≤◌, ◌<◌, ◌≡◌, refl, ap, ◌∙◌, true, false, some, List, [], ◌∷◌, ◌==◌, ltb,
  if◌then◌else◌, arith, length, Pass,
}
use mathlib.Core.List.{append-nil}
use api_ops.Audit.Numbers.{
  two_63, Buffer, put_digits, rounds, end_text, itoa, to_int64, to_string, uint64,
}
use api_ops.Audit.Numbers.Printing.{is_digit, value, Written, put_digits_lem}

abbrev minus_of : ℕ → ℤ
minus_of zero = pos 0
minus_of (suc n) = negsuc n

-- The integer that a text stands for: a minus in front, or digits alone.
abbrev pub int_of : List ℕ → ℤ
int_of [] = pos 0
int_of (c ∷ s) = if c == b'-' then minus_of (value 0 s) else pos (value 0 (c ∷ s))

int_of_digits : (ds : List ℕ) → Pass is_digit ds → int_of ds ≡ pos (value 0 ds)
int_of_digits [] h = refl
int_of_digits (c ∷ ds) h =
    let no_minus : (c == b'-') ≡ false = ground (arith, h.0) in rw no_minus refl

abbrev empty : Buffer
empty = record { free = 20; written = [] }

-- The digits of a magnitude that an int64 has.
magnitude :
    (n : ℕ)
    → n ≤ two_63
    → (after : Buffer) × (put_digits rounds n empty ≡ some after) × Written n 19 empty after
magnitude n h = put_digits_lem rounds n 19 empty (omega arith) (omega arith) (omega arith)

end_digits : (buf : Buffer) (ds : List ℕ) → buf.written ≡ ds → end_text false (some buf) ≡ some ds
unfolding end_text
end_digits buf ds h = ap some h

end_minus :
    (buf : Buffer) (ds : List ℕ)
    → buf.written ≡ ds
    → 0 < buf.free
    → end_text true (some buf) ≡ some (b'-' ∷ ds)
unfolding end_text
end_minus buf ds h k = ground arith

-- A negative number is printed as a minus and the digits of its magnitude.
minus_printed :
    (n : ℕ)
    → suc n < two_63
    → (ds : List ℕ) × (itoa (negsuc n) ≡ some (b'-' ∷ ds))
      × Pass is_digit ds
      × (value 0 ds ≡ suc n)
      × (length ds ≤ 19)
unfolding itoa
minus_printed n h =
    let (after, e, w) = magnitude (suc n) (omega arith) in
    let inside : (suc n == two_63) ≡ false = ground arith in
    (
      w.digits,
      rw (inside, itoa)
          (rw e (
            end_minus after w.digits (w.in_front ∙ append-nil w.digits)
              (omega (arith, w.taken, w.short)))),
      w.are_digits,
      w.reads,
      w.short,
    )

-- Every int64 but the least is printed, within the buffer of twenty bytes, and reads back as itself.
pub itoa_reads_back :
    (i : ℤ)
    → pos_part i < two_63
    → neg_part i < two_63
    → (s : List ℕ) × (itoa i ≡ some s) × (int_of s ≡ i) × (length s ≤ 20)
unfolding itoa
itoa_reads_back (pos zero) p n = (b'0' ∷ [], refl, refl, omega arith)
itoa_reads_back (pos (suc k)) p n =
    let (after, e, w) = magnitude (suc k) (omega arith) in
    (
      w.digits,
      rw e (end_digits after w.digits (w.in_front ∙ append-nil w.digits)),
      int_of_digits w.digits w.are_digits ∙ ap pos w.reads,
      omega (arith, w.short),
    )
itoa_reads_back (negsuc k) p n =
    let (ds, e, d, v, l) = minus_printed k n in (b'-' ∷ ds, e, rw v refl, omega (arith, l))

-- A uint64 above 2 ^ 63 is printed with a minus in front, as the number that it is below 2 ^ 64.
large_uint64_is_negative :
    (n : ℕ)
    → two_63 < n
    → n < 2 * two_63
    → (ds : List ℕ) × (to_string (uint64 n) ≡ some (b'-' ∷ ds))
      × Pass is_digit ds
      × (value 0 ds ≡ 2 * two_63 - n)
unfolding to_string to_int64
large_uint64_is_negative n h k =
    let large : ltb n two_63 ≡ false = ground arith in
    let (ds, e, d, v, l) = minus_printed (2 * two_63 - 1 - n) (omega arith) in
    (ds, rw large e, d, omega (arith, v))
