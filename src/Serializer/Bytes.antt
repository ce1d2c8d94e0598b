-- ===== src/Serializer/Bytes.antt =====
-- The little-endian image of the fixed-width integers that `stream->Write` and `stream->Read` copy.
use quirrel.Prelude.{ℕ, zero, suc, ◌+◌, ◌*◌, ◌/◌, ◌%◌, ◌^◌, ◌<◌, ◌≡◌, refl, List, [], ◌∷◌}
use quirrel.Prelude.{arith, length, ap}
use quirrel.Prelude.Words.{IsWidth, one, two, four, eight}

unfoldable pub le_bytes : ℕ → ℕ → List ℕ
le_bytes zero x = []
le_bytes (suc n) x = (x % 256) ∷ le_bytes n (x / 256)

unfoldable pub of_le_bytes : List ℕ → ℕ
of_le_bytes [] = 0
of_le_bytes (b ∷ bs) = b + 256 * of_le_bytes bs

pub length-le_bytes : (n x : ℕ) → length (le_bytes n x) ≡ n
unfolding le_bytes
length-le_bytes zero x = refl
length-le_bytes (suc n) x = ap suc (length-le_bytes n (x / 256))

pub of_le_bytes-le_bytes :
    {n : ℕ} (w : IsWidth n) (x : ℕ) → x < 256 ^ n → of_le_bytes (le_bytes n x) ≡ x
unfolding le_bytes of_le_bytes
of_le_bytes-le_bytes one x h = omega arith
of_le_bytes-le_bytes two x h = omega arith
of_le_bytes-le_bytes four x h = omega arith
of_le_bytes-le_bytes eight x h = omega arith
