-- ===== src/Classes/Index.antt =====
-- squirrel/sqclass.h: the integer under which the member table of a class keeps a member, two bits for
-- its kind and 22 for its place in the vector of that kind.
use Prim.Native.Nat.{bit_and, bit_or, bit_or-bitwise}
use quirrel.Prelude.{
  ℕ, zero, suc, ◌+◌, ◌-◌, ◌*◌, ◌/◌, ◌%◌, ◌^◌, ◌<◌, ◌≡◌, refl, ap, ◌∙◌, Bool, true, false, ◌==◌,
  arith,
}
use quirrel.Prelude.Bits.{and_IsDigitwise, or_IsDigitwise, fields, bit_and-le}
use native.Mathlib.Nat.{pow-suc}

abbrev pub member_type_field : ℕ
member_type_field = 1 * 2 ^ 22

abbrev pub member_type_method : ℕ
member_type_method = 2 * 2 ^ 22

abbrev pub member_type_native_field : ℕ
member_type_native_field = 3 * 2 ^ 22

abbrev pub member_kind_mask : ℕ
member_kind_mask = 3 * 2 ^ 22

abbrev pub member_max_count : ℕ
member_max_count = 2 ^ 22 - 1

-- `_isfieldi`, `_isnativefieldi` and `_member_idxi`
unfoldable pub is_fieldi : ℕ → Bool
is_fieldi o = bit_and o member_kind_mask == member_type_field

unfoldable pub is_nativefieldi : ℕ → Bool
is_nativefieldi o = bit_and o member_kind_mask == member_type_native_field

unfoldable pub member_idxi : ℕ → ℕ
member_idxi o = bit_and o member_max_count

-- `_make_method_idx`, `_make_field_idx` and `_make_native_field_idx`
unfoldable pub make_method_idx : ℕ → ℕ
make_method_idx i = bit_or member_type_method i

unfoldable pub make_field_idx : ℕ → ℕ
make_field_idx i = bit_or member_type_field i

unfoldable pub make_native_field_idx : ℕ → ℕ
make_native_field_idx i = bit_or member_type_native_field i

bit_or-zero : (i : ℕ) → bit_or 0 i ≡ i
bit_or-zero i = simp bit_or-bitwise refl

bit_and_zero : (i : ℕ) → bit_and i 0 ≡ 0
bit_and_zero i = omega (arith, bit_and-le i 0)

bit_and_one : (i : ℕ) → i < 2 → bit_and i 1 ≡ i
bit_and_one zero h = refl
bit_and_one (suc zero) h = refl
bit_and_one (suc (suc i)) h = absurd (omega arith)

-- The low bits of a number that has no others.
pub bit_and_ones : (k i : ℕ) → i < 2 ^ k → bit_and i (2 ^ k - 1) ≡ i
bit_and_ones zero i h = omega (arith, bit_and_zero i)
bit_and_ones (suc k) i h =
    let number : i ≡ i / 2 * 2 ^ 1 + i % 2 = omega arith in
    let mask : 2 ^ suc k - 1 ≡ (2 ^ k - 1) * 2 ^ 1 + 1 = omega (arith, pow-suc 2 k, pow-pos k) in
    ap (λ (n : ℕ). bit_and n (2 ^ suc k - 1)) number
    ∙ ap (bit_and (i / 2 * 2 ^ 1 + i % 2)) mask
    ∙ fields and_IsDigitwise 1 (i / 2) (2 ^ k - 1) (i % 2) 1 (omega arith) (omega arith)
    ∙ omega (
      arith,
      bit_and_ones k (i / 2) (omega (arith, pow-suc 2 k)),
      bit_and_one (i % 2) (omega arith),
    )
  where
    pow-pos : (n : ℕ) → 0 < 2 ^ n
    pow-pos zero = omega arith
    pow-pos (suc n) = omega (arith, pow-suc 2 n, pow-pos n)

-- The two fields of a member's number.
joined :
    (kind i : ℕ) → i < 2 ^ 22 → bit_or kind 0 ≡ kind → bit_or (kind * 2 ^ 22) i ≡ kind * 2 ^ 22 + i
joined kind i h whole =
    ap (λ (n : ℕ). bit_or n i) {x = kind * 2 ^ 22} {y = kind * 2 ^ 22 + 0} (omega arith)
    ∙ ap (bit_or (kind * 2 ^ 22 + 0)) {x = i} {y = 0 * 2 ^ 22 + i} (omega arith)
    ∙ fields or_IsDigitwise 22 kind 0 0 i (omega arith) h
    ∙ omega (arith, bit_or-zero i, whole)

kind_of :
    (kind i : ℕ)
    → i < 2 ^ 22
    → bit_or kind 0 ≡ kind
    → bit_and (bit_or (kind * 2 ^ 22) i) member_kind_mask ≡ bit_and kind 3 * 2 ^ 22
kind_of kind i h whole =
    ap (λ (n : ℕ). bit_and n member_kind_mask) (joined kind i h whole)
    ∙ fields and_IsDigitwise 22 kind 3 i 0 h (omega arith)
    ∙ omega (arith, bit_and_zero i)

place_of :
    (kind i : ℕ)
    → i < 2 ^ 22
    → bit_or kind 0 ≡ kind
    → bit_and (bit_or (kind * 2 ^ 22) i) member_max_count ≡ i
place_of kind i h whole =
    ap (λ (n : ℕ). bit_and n member_max_count) (joined kind i h whole)
    ∙ fields and_IsDigitwise 22 kind 0 i (2 ^ 22 - 1) h (omega arith)
    ∙ omega (arith, bit_and_zero kind, bit_and_ones 22 i h)

-- What the tests and `_member_idxi` read from a number that was made for a place below 2²².
module _ (i : ℕ) (small : i < 2 ^ 22) where
  pub field_kind : is_fieldi (make_field_idx i) ≡ true
  unfolding is_fieldi make_field_idx
  field_kind = rw (kind_of 1 i small refl) refl

  pub field_place : member_idxi (make_field_idx i) ≡ i
  unfolding member_idxi make_field_idx
  field_place = place_of 1 i small refl

  pub method_kind :
      (is_fieldi (make_method_idx i) ≡ false) × (is_nativefieldi (make_method_idx i) ≡ false)
  unfolding is_fieldi is_nativefieldi make_method_idx
  method_kind = (rw (kind_of 2 i small refl) refl, rw (kind_of 2 i small refl) refl)

  pub method_place : member_idxi (make_method_idx i) ≡ i
  unfolding member_idxi make_method_idx
  method_place = place_of 2 i small refl

  pub native_kind :
      (is_fieldi (make_native_field_idx i) ≡ false)
      × (is_nativefieldi (make_native_field_idx i) ≡ true)
  unfolding is_fieldi is_nativefieldi make_native_field_idx
  native_kind = (rw (kind_of 3 i small refl) refl, rw (kind_of 3 i small refl) refl)

  pub native_place : member_idxi (make_native_field_idx i) ≡ i
  unfolding member_idxi make_native_field_idx
  native_place = place_of 3 i small refl
