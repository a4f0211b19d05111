-- ===== src/Audit/Numbers/Printing.antt =====
-- Printing a number with the logger's _itoa and reading it back.
use mathlib.Core.List.{append_assoc}
use api_ops.Common.{
  ℕ, zero, suc, ◌+◌, ◌-◌, ◌*◌, ◌/◌, ◌%◌, ◌≤◌, ◌<◌, ◌≡◌, inl, inr, refl, sym, ◌∙◌, Bool, true, false,
  ◌&&◌, some, List, [], ◌∷◌, ◌++◌, ltb, leb, ◌==◌, arith, length, length-append, Pass, Bool-cases,
}
use api_ops.Audit.Numbers.{Buffer, put, put_digits}

abbrev pub is_digit : ℕ → Bool
is_digit c = leb b'0' c && leb c b'9'

-- The number that digits stand for, behind the one read so far.
abbrev pub value : ℕ → List ℕ → ℕ
value acc [] = acc
value acc (c ∷ s) = value (acc * 10 + (c - b'0')) s

abbrev pub pow10 : ℕ → ℕ
pow10 zero = 1
pow10 (suc k) = 10 * pow10 k

pub value-snoc :
    (acc : ℕ) (ds : List ℕ) (d : ℕ) → value acc (ds ++ d ∷ []) ≡ value acc ds * 10 + (d - b'0')
value-snoc acc [] d = refl
value-snoc acc (c ∷ ds) d = value-snoc (acc * 10 + (c - b'0')) ds d

Pass-snoc :
    (ds : List ℕ) (d : ℕ) → Pass is_digit ds → is_digit d ≡ true → Pass is_digit (ds ++ d ∷ [])
Pass-snoc [] d h k = (k, tt)
Pass-snoc (c ∷ ds) d h k = (h.0, Pass-snoc ds d h.1 k)

-- The first digit is not a zero.
abbrev pub Leads : List ℕ → Type 0
Leads [] = Unit
Leads (d ∷ ds) = (d == b'0') ≡ false

Leads-snoc :
    (ds : List ℕ) (d i : ℕ)
    → Leads ds
    → value 0 ds ≡ i / 10
    → 0 < i
    → d ≡ b'0' + i % 10
    → Leads (ds ++ d ∷ [])
Leads-snoc [] d i h v p e = ground arith
Leads-snoc (c ∷ ds) d i h v p e = h

-- What the loop has written of `i`, in at most `k` bytes.
pub record Written (i k : ℕ) (buf after : Buffer) : Type 0 where
  pub digits : List ℕ
  pub are_digits : Pass is_digit digits
  pub leads : Leads digits
  pub reads : value 0 digits ≡ i
  pub short : length digits ≤ k
  pub in_front : after.written ≡ digits ++ buf.written
  pub taken : after.free + length digits ≡ buf.free

digit_put : ℕ → Buffer → Buffer
digit_put i buf = record { free = buf.free - 1; written = (b'0' + i % 10) ∷ buf.written }

put_digits_step :
    (fuel i : ℕ) (buf : Buffer)
    → 0 < i
    → 0 < buf.free
    → put_digits (suc fuel) i buf ≡ put_digits fuel (i / 10) (digit_put i buf)
unfolding put_digits put digit_put
put_digits_step fuel i buf h k =
    let full : (buf.free == 0) ≡ false = ground arith in
    let more : ltb 0 i ≡ true = ground arith in rw (more, put_digits) (rw (full, put) refl)

put_digits_end :
    (fuel i k : ℕ) (buf : Buffer)
    → i ≡ 0
    → (after : Buffer) × (put_digits (suc fuel) i buf ≡ some after) × Written i k buf after
unfolding put_digits
put_digits_end fuel i k buf e = rw e (
  buf,
  refl,
  record {
    digits = [];
    are_digits = tt;
    leads = tt;
    reads = refl;
    short = omega arith;
    in_front = refl;
    taken = omega arith;
  },
)

Written-snoc :
    (i k : ℕ) (buf after : Buffer)
    → 0 < i
    → 0 < buf.free
    → Written (i / 10) k (digit_put i buf) after
    → Written i (suc k) buf after
unfolding digit_put
Written-snoc i k buf after h f w = record {
  digits = w.digits ++ (b'0' + i % 10) ∷ [];
  are_digits = Pass-snoc w.digits (b'0' + i % 10) w.are_digits (ground arith);
  leads = Leads-snoc w.digits (b'0' + i % 10) i w.leads w.reads h refl;
  reads = value-snoc 0 w.digits (b'0' + i % 10) ∙ omega (arith, w.reads);
  short = omega (arith, w.short, length-append w.digits ((b'0' + i % 10) ∷ []));
  in_front = w.in_front ∙ sym (append_assoc w.digits ((b'0' + i % 10) ∷ []) buf.written);
  taken = omega (arith, w.taken, length-append w.digits ((b'0' + i % 10) ∷ []));
}

-- With room for `k` digits and fuel for them, the loop writes the digits of a number below 10 ^ k.
pub put_digits_lem :
    (fuel i k : ℕ) (buf : Buffer)
    → i < pow10 k
    → k ≤ buf.free
    → k < fuel
    → (after : Buffer) × (put_digits fuel i buf ≡ some after) × Written i k buf after
put_digits_lem zero i k buf b f h = absurd (omega arith)
put_digits_lem (suc fuel) i zero buf b f h = put_digits_end fuel i 0 buf (omega arith)
put_digits_lem (suc fuel) i (suc k) buf b f h = elim (Bool-cases (ltb 0 i)) [
  | inl e ↦
      let (after, r, w) =
        put_digits_lem fuel (i / 10) k (digit_put i buf) (omega arith)
          (unfold digit_put in omega arith) (omega arith) in
      (
        after,
        put_digits_step fuel i buf (ground arith) (omega arith) ∙ r,
        Written-snoc i k buf after (ground arith) (omega arith) w,
      )
  | inr e ↦ put_digits_end fuel i (suc k) buf (ground arith)
]
