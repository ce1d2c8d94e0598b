-- ===== src/Prelude/Bits.antt =====
-- Laws of the bit operations at variables: one binary digit, and two fields side by side.
use Prim.Native.Nat.{
  differ, min, max, digits, bitwise, bit_and, bit_or, bit_xor, bit_and-bitwise, bit_or-bitwise,
  bit_xor-bitwise,
}
use native.Mathlib.Nat.{pow-suc}
use quirrel.Prelude.{
  ℕ, zero, suc, ◌+◌, ◌-◌, ◌*◌, ◌/◌, ◌%◌, ◌^◌, ◌≤◌, ◌<◌, ◌≡◌, refl, ap, ◌∙◌, arith,
}

-- A result of the native recursion on digits does not hang on fuel to spare.
module _ (rest : ℕ → ℕ) (on : ℕ → ℕ → ℕ) where
  spare_unit : (fuel x y : ℕ) → x ≤ fuel → digits rest on (suc fuel) x y ≡ digits rest on fuel x y
  spare_unit zero zero y fits = refl
  spare_unit zero (suc x) y fits = absurd (omega arith)
  spare_unit (suc fuel) zero y fits = refl
  spare_unit (suc fuel) (suc x) y fits = rw (spare_unit fuel (suc x / 2) (y / 2) (omega arith)) refl

  spare_fuel :
      (more fuel all x y : ℕ)
      → all ≡ fuel + more
      → x ≤ fuel
      → digits rest on all x y ≡ digits rest on fuel x y
  spare_fuel zero fuel all x y total fits =
      ap (λ (units : ℕ). digits rest on units x y) (omega arith)
  spare_fuel (suc more) fuel zero x y total fits = absurd (omega arith)
  spare_fuel (suc more) fuel (suc all) x y total fits =
      spare_unit all x y (omega arith) ∙ spare_fuel more fuel all x y (omega arith) fits

  lowest_digit :
      (x y : ℕ)
      → (rest y ≡ rest (y / 2) * 2 + on 0 (y % 2))
      → bitwise rest on x y ≡ bitwise rest on (x / 2) (y / 2) * 2 + on (x % 2) (y % 2)
  lowest_digit zero y start = start
  lowest_digit (suc x) y start =
      let enough =
        spare_fuel (x - suc x / 2) (suc x / 2) x (suc x / 2) (y / 2) (omega arith) (omega arith) in
      ap (λ (high : ℕ). high * 2 + on (suc x % 2) (y % 2)) enough

-- An operation that works digit by digit.
pub record IsDigitwise (op : ℕ → ℕ → ℕ) : Type 0 where
  pub digit : ℕ → ℕ → ℕ
  pub step : (a b : ℕ) → op a b ≡ op (a / 2) (b / 2) * 2 + digit (a % 2) (b % 2)
  pub digit-lt : (a b : ℕ) → a < 2 → b < 2 → digit a b < 2
  pub zeros : op 0 0 ≡ 0

pub and_IsDigitwise : IsDigitwise bit_and
and_IsDigitwise = record {
  digit = min;
  step = λ a b. simp bit_and-bitwise (lowest_digit (λ y. 0) min a b (omega arith));
  digit-lt = λ a b p q. omega arith;
  zeros = refl;
}

pub or_IsDigitwise : IsDigitwise bit_or
or_IsDigitwise = record {
  digit = max;
  step = λ a b. simp bit_or-bitwise (lowest_digit (λ y. y) max a b (omega arith));
  digit-lt = λ a b p q. omega arith;
  zeros = refl;
}

differ-lt : (a b : ℕ) → a < 2 → b < 2 → differ a b < 2
differ-lt zero zero p q = omega arith
differ-lt zero (suc zero) p q = omega arith
differ-lt zero (suc (suc b)) p q = absurd (omega arith)
differ-lt (suc zero) zero p q = omega arith
differ-lt (suc zero) (suc zero) p q = omega arith
differ-lt (suc zero) (suc (suc b)) p q = absurd (omega arith)
differ-lt (suc (suc a)) b p q = absurd (omega arith)

pub xor_IsDigitwise : IsDigitwise bit_xor
xor_IsDigitwise = record {
  digit = differ;
  step = λ a b. simp bit_xor-bitwise (lowest_digit (λ y. y) differ a b (omega arith));
  digit-lt = differ-lt;
  zeros = refl;
}

module _ {op : ℕ → ℕ → ℕ} (d : IsDigitwise op) where
  double_field : (width high : ℕ) → high * 2 ^ suc width ≡ high * 2 ^ width * 2
  double_field width high = omega (arith, ap (λ (size : ℕ). high * size) (pow-suc 2 width))

  -- The low `k` bits and the bits above them do not meet.
  pub fields :
      (k a b r s : ℕ)
      → r < 2 ^ k
      → s < 2 ^ k
      → op (a * 2 ^ k + r) (b * 2 ^ k + s) ≡ op a b * 2 ^ k + op r s
  fields zero a b r s p q =
      let r-zero : r ≡ 0 = omega arith in
      let s-zero : s ≡ 0 = omega arith in rw (r-zero, s-zero, d.zeros) (simp (one, plus_zero) refl)
    where
      one : (n : ℕ) → n * 2 ^ 0 ≡ n
      one n = omega arith

      plus_zero : (n : ℕ) → n + 0 ≡ n
      plus_zero n = omega arith
  fields (suc k) a b r s p q =
      let half =
        fields k a b (r / 2) (s / 2) (omega (arith, pow-suc 2 k)) (omega (arith, pow-suc 2 k)) in
      d.step (a * 2 ^ suc k + r) (b * 2 ^ suc k + s)
      ∙ rw (upper a r, upper b s, lower a r, lower b s, half)
          (omega (arith, d.step r s, double_field k (op a b)))
    where
      upper : (n t : ℕ) → (n * 2 ^ suc k + t) / 2 ≡ n * 2 ^ k + t / 2
      upper n t = omega (arith, double_field k n)

      lower : (n t : ℕ) → (n * 2 ^ suc k + t) % 2 ≡ t % 2
      lower n t = omega (arith, double_field k n)

  pub result-lt : (k r s : ℕ) → r < 2 ^ k → s < 2 ^ k → op r s < 2 ^ k
  result-lt zero r s p q =
      let r-zero : r ≡ 0 = omega arith in
      let s-zero : s ≡ 0 = omega arith in rw (r-zero, s-zero, d.zeros) (omega arith)
  result-lt (suc k) r s p q =
      let half =
        result-lt k (r / 2) (s / 2) (omega (arith, pow-suc 2 k)) (omega (arith, pow-suc 2 k)) in
      let low = d.digit-lt (r % 2) (s % 2) (omega arith) (omega arith) in
      omega (arith, d.step r s, pow-suc 2 k)

-- The binary digits that two numbers have in common are not more than those of the second.
digits-le : (n a b : ℕ) → digits (λ b. zero) min n a b ≤ b
digits-le zero a b = omega arith
digits-le (suc n) zero b = omega arith
digits-le (suc n) (suc a) b = omega (arith, digits-le n (suc a / 2) (b / 2))

pub bit_and-le : (a b : ℕ) → bit_and a b ≤ b
bit_and-le a b = simp bit_and-bitwise (digits-le a a b)
