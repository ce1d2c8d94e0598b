-- ===== src/Vm/Shift.antt =====
-- internal/sq_safe_shift.h at 64 bits, on bit patterns.
use Prim.Native.Nat.{bit_and, bit_or, bit_xor}
use quirrel.Prelude.{ℕ, ◌+◌, ◌-◌, ◌*◌, ◌/◌, ◌%◌, ◌^◌, Bool, true, false, leb}
use quirrel.Prelude.Int.{ℤ, pos, ltb_ℤ}
use quirrel.Prelude.Words.{to_word, from_word}

-- `~x` and `~x + 1u`.
abbrev pub bit_not : ℕ → ℕ
bit_not x = 2 ^ 64 - 1 - x

abbrev pub minus : ℕ → ℕ
minus x = (bit_not x + 1) % 2 ^ 64

abbrev pub of_bool : Bool → ℕ
of_bool true = 1
of_bool false = 0

-- `uy >> 63`, its mask, and `(uy ^ neg_mask) + neg`: the sign and the size of the shift.
abbrev pub sign_of : ℕ → ℕ
sign_of uy = uy / 2 ^ 63

abbrev pub amount : ℕ → ℕ
amount uy = (bit_xor uy (minus (sign_of uy)) + sign_of uy) % 2 ^ 64

abbrev pub masked : ℕ → ℕ
masked sh = bit_and sh 63

abbrev pub shl : ℕ → ℕ → ℕ
shl ux sh = ux * 2 ^ masked sh % 2 ^ 64

abbrev pub shr : ℕ → ℕ → ℕ
shr ux sh = ux / 2 ^ masked sh

abbrev pub overflow_of : ℕ → ℕ
overflow_of sh = minus (of_bool (leb 64 sh))

-- `~SQUnsignedInteger(x < 0) + 1u`, and the top bits that an arithmetic shift fills.
abbrev pub sign_mask : ℤ → ℕ
sign_mask x = minus (of_bool (ltb_ℤ x (pos 0)))

abbrev pub sign_extension : ℤ → ℕ → ℕ
sign_extension x sh = bit_xor (sign_mask x) (shr (sign_mask x) sh)

-- `(a & ~mask) | (b & mask)`
abbrev pub select : ℕ → ℕ → ℕ → ℕ
select mask a b = bit_or (bit_and a (bit_not mask)) (bit_and b mask)

unfoldable pub sq_safe_shift_left : ℤ → ℤ → ℤ
unfolding to_word from_word
sq_safe_shift_left x y =
    let ux = to_word 64 x in
    let uy = to_word 64 y in
    let neg_mask = minus (sign_of uy) in
    let sh = amount uy in
    let overflow = overflow_of sh in
    let r = bit_or (shr ux sh) (sign_extension x sh) in
    let res = select neg_mask (shl ux sh) r in
    let fill = bit_and (bit_and (sign_mask x) neg_mask) overflow in
    from_word 64 (bit_or (bit_and res (bit_not overflow)) fill)

unfoldable pub sq_safe_shift_right : ℤ → ℤ → ℤ
unfolding to_word from_word
sq_safe_shift_right x y =
    let ux = to_word 64 x in
    let uy = to_word 64 y in
    let neg_mask = minus (sign_of uy) in
    let sh = amount uy in
    let overflow = overflow_of sh in
    let r = bit_or (shr ux sh) (sign_extension x sh) in
    let dir = select neg_mask r (shl ux sh) in
    let fill = bit_and (sign_mask x) overflow in
    from_word 64 (bit_or (bit_and dir (bit_not overflow)) fill)

unfoldable pub sq_safe_unsigned_shift_right : ℤ → ℤ → ℤ
unfolding to_word from_word
sq_safe_unsigned_shift_right x y =
    let ux = to_word 64 x in
    let uy = to_word 64 y in
    let neg_mask = minus (sign_of uy) in
    let sh = amount uy in
    let overflow = overflow_of sh in
    let res = select neg_mask (shr ux sh) (shl ux sh) in
    from_word 64 (bit_and res (bit_not overflow))
