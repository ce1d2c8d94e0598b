-- ===== src/Prelude/Narrow.antt =====
-- The bit operations on 64-bit integers that fit 32 bits, against those on 32-bit integers.
use Prim.Native.Nat.{bit_and, bit_or, bit_xor}
use quirrel.Prelude.{ℕ, ◌+◌, ◌-◌, ◌*◌, ◌^◌, ◌<◌, ◌≡◌, refl, Bool, true, false, arith}
use quirrel.Prelude.Int.{ℤ, pos, negsuc}
use quirrel.Prelude.Words.{to_word, from_word, Fits}
use quirrel.Prelude.Bits.{
  IsDigitwise, and_IsDigitwise, or_IsDigitwise, xor_IsDigitwise, fields, result-lt,
}

-- The bits from 31 up of a 32-bit and of a 64-bit word, by the sign.
abbrev bit : Bool → ℕ
bit false = 0
bit true = 1

abbrev ones : Bool → ℕ
ones false = 0
ones true = 2 ^ 33 - 1

record IsSplit (z : ℤ) : Type 0 where
  sign : Bool
  low : ℕ
  low-lt : low < 2 ^ 31
  word32 : to_word 32 z ≡ bit sign * 2 ^ 31 + low
  word64 : to_word 64 z ≡ ones sign * 2 ^ 31 + low

split : (z : ℤ) → Fits 32 z → IsSplit z
unfolding to_word
split (pos n) h = record {
  sign = false;
  low = n;
  low-lt = omega arith;
  word32 = omega arith;
  word64 = omega arith;
}
split (negsuc n) h = record {
  sign = true;
  low = 2 ^ 31 - 1 - n;
  low-lt = omega arith;
  word32 = omega arith;
  word64 = omega arith;
}

from_word_signs :
    (t : Bool) (m : ℕ)
    → m < 2 ^ 31
    → from_word 64 (ones t * 2 ^ 31 + m) ≡ from_word 32 (bit t * 2 ^ 31 + m)
unfolding from_word
from_word_signs false m h = ground arith
from_word_signs true m h = ground arith

module _ {op : ℕ → ℕ → ℕ} (d : IsDigitwise op) (on : Bool → Bool → Bool)
    (bits : (t u : Bool) → op (bit t) (bit u) ≡ bit (on t u))
    (many : (t u : Bool) → op (ones t) (ones u) ≡ ones (on t u)) where
  narrow :
      (a b : ℤ)
      → Fits 32 a
      → Fits 32 b
      → from_word 64 (op (to_word 64 a) (to_word 64 b))
        ≡ from_word 32 (op (to_word 32 a) (to_word 32 b))
  narrow a b p q =
      let s = split a p in
      let t = split b q in
      rw (s.word64, t.word64, s.word32, t.word32)
        (rw
          (
            fields d 31 (ones s.sign) (ones t.sign) s.low t.low s.low-lt t.low-lt,
            fields d 31 (bit s.sign) (bit t.sign) s.low t.low s.low-lt t.low-lt,
            bits s.sign t.sign,
            many s.sign t.sign,
          )
          (from_word_signs (on s.sign t.sign) (op s.low t.low)
            (result-lt d 31 s.low t.low s.low-lt t.low-lt)))

abbrev and_sign : Bool → Bool → Bool
and_sign true u = u
and_sign false u = false

abbrev or_sign : Bool → Bool → Bool
or_sign true u = true
or_sign false u = u

abbrev xor_sign : Bool → Bool → Bool
xor_sign true true = false
xor_sign true false = true
xor_sign false u = u

-- The statement for one operation.
abbrev pub IsNarrow : (ℕ → ℕ → ℕ) → Type 0
IsNarrow op =
    (a b : ℤ)
    → Fits 32 a
    → Fits 32 b
    → from_word 64 (op (to_word 64 a) (to_word 64 b))
      ≡ from_word 32 (op (to_word 32 a) (to_word 32 b))

pub bit_and-IsNarrow : IsNarrow bit_and
bit_and-IsNarrow = narrow and_IsDigitwise and_sign bits many
  where
    bits : (t u : Bool) → bit_and (bit t) (bit u) ≡ bit (and_sign t u)
    bits true true = refl
    bits true false = refl
    bits false true = refl
    bits false false = refl

    many : (t u : Bool) → bit_and (ones t) (ones u) ≡ ones (and_sign t u)
    many true true = refl
    many true false = refl
    many false true = refl
    many false false = refl

pub bit_or-IsNarrow : IsNarrow bit_or
bit_or-IsNarrow = narrow or_IsDigitwise or_sign bits many
  where
    bits : (t u : Bool) → bit_or (bit t) (bit u) ≡ bit (or_sign t u)
    bits true true = refl
    bits true false = refl
    bits false true = refl
    bits false false = refl

    many : (t u : Bool) → bit_or (ones t) (ones u) ≡ ones (or_sign t u)
    many true true = refl
    many true false = refl
    many false true = refl
    many false false = refl

pub bit_xor-IsNarrow : IsNarrow bit_xor
bit_xor-IsNarrow = narrow xor_IsDigitwise xor_sign bits many
  where
    bits : (t u : Bool) → bit_xor (bit t) (bit u) ≡ bit (xor_sign t u)
    bits true true = refl
    bits true false = refl
    bits false true = refl
    bits false false = refl

    many : (t u : Bool) → bit_xor (ones t) (ones u) ≡ ones (xor_sign t u)
    many true true = refl
    many true false = refl
    many false true = refl
    many false false = refl
