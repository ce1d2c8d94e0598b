-- ===== src/Prelude/Words.antt =====
-- Machine words: signed integers of 8, 16, 32 and 64 bits and their bit patterns.
use quirrel.Prelude.{ℕ, ◌-◌, ◌*◌, ◌%◌, ◌^◌, ◌<◌, ◌≡◌, arith, ltb, if◌then◌else◌}
use quirrel.Prelude.Int.{ℤ, pos, negsuc, ◌≤ℤ◌}

-- The widths that the format uses.
pub data IsWidth : ℕ → Type 0 where
  one : IsWidth 1
  two : IsWidth 2
  four : IsWidth 4
  eight : IsWidth 8

-- `static_cast` of an integer to a word of `w` bits, and the integer that such a word stands for.
unfoldable pub to_word : ℕ → ℤ → ℕ
to_word w (pos n) = n % 2 ^ w
to_word w (negsuc n) = 2 ^ w - 1 - n % 2 ^ w

unfoldable pub from_word : ℕ → ℕ → ℤ
from_word w x = if ltb x (2 ^ (w - 1)) then pos x else negsuc (2 ^ w - 1 - x)

-- An integer that fits `w` bits, as a statement for `omega`.
abbrev pub Fits : ℕ → ℤ → Type 0
Fits w z = (negsuc (2 ^ (w - 1) - 1) ≤ℤ z) × (z ≤ℤ pos (2 ^ (w - 1) - 1))

pub from_word-to_word :
    {n : ℕ} (w : IsWidth n) (z : ℤ) → Fits (8 * n) z → from_word (8 * n) (to_word (8 * n) z) ≡ z
unfolding from_word to_word
from_word-to_word one (pos z) h = ground arith
from_word-to_word one (negsuc z) h = ground arith
from_word-to_word two (pos z) h = ground arith
from_word-to_word two (negsuc z) h = ground arith
from_word-to_word four (pos z) h = ground arith
from_word-to_word four (negsuc z) h = ground arith
from_word-to_word eight (pos z) h = ground arith
from_word-to_word eight (negsuc z) h = ground arith

pub to_word-lt : {n : ℕ} (w : IsWidth n) (z : ℤ) → to_word (8 * n) z < 256 ^ n
unfolding to_word
to_word-lt one (pos z) = omega arith
to_word-lt one (negsuc z) = omega arith
to_word-lt two (pos z) = omega arith
to_word-lt two (negsuc z) = omega arith
to_word-lt four (pos z) = omega arith
to_word-lt four (negsuc z) = omega arith
to_word-lt eight (pos z) = omega arith
to_word-lt eight (negsuc z) = omega arith

-- The two's complement value of an SQInteger result.
unfoldable pub wrap : ℤ → ℤ
unfolding to_word from_word
wrap z = from_word 64 (to_word 64 z)

pub wrap-eq : (z : ℤ) → Fits 64 z → wrap z ≡ z
unfolding wrap
wrap-eq z h = from_word-to_word eight z h
