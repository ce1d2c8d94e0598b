-- ===== src/Table/Sizes.antt =====
-- The sizes that `Rehash` of squirrel/sqtable.cpp takes.
use native.Mathlib.Nat.{pow-suc}
use quirrel.Prelude.{
  ℕ, zero, suc, ◌+◌, ◌*◌, ◌/◌, ◌^◌, ◌≤◌, ◌<◌, ◌≡◌, ◌⊎◌, inl, inr, Bool, true, ltb, arith,
  Bool-cases, ltb→lt,
}
use quirrel.Prelude.{some, Option-cases}
use quirrel.Table.Slots.{floor_log2, rehash_size}
use quirrel.Table.Valid.{IsPower}

floor_log2-lt : (f n : ℕ) → n ≤ f → n < 2 ^ (floor_log2 f n + 1)
unfolding floor_log2
floor_log2-lt zero n h = omega arith
floor_log2-lt (suc f) n h = elim (Bool-cases (ltb 1 n)) [
  | inl t ↦ rw t (
      ground (
        arith,
        ltb→lt 1 n t,
        floor_log2-lt f (n / 2) (omega (arith, ltb→lt 1 n t)),
        pow-suc 2 (floor_log2 f (n / 2) + 1),
      ))
  | inr t ↦ rw t (ground arith)
]

-- A size that `Rehash` takes is above every number of keys that is at most the old size and at most one
-- more than the count: it leaves a node free, also for the key that filled the table.
pub rehash_size-lt :
    (force : Bool) (old n m u : ℕ)
    → rehash_size force old n ≡ some m
    → u ≤ old
    → u ≤ n + 1
    → 0 < old
    → u < m
unfolding rehash_size
rehash_size-lt force old n m u e h h' pos = ground (arith, floor_log2-lt old old)

rehash_size-cases :
    (force : Bool) (old n m : ℕ)
    → rehash_size force old n ≡ some m
    → (m ≡ old * 2) ⊎ (((m ≡ old / 2) × (1 < old)) ⊎ (m ≡ 2 ^ (floor_log2 old old + 1)))
unfolding rehash_size
rehash_size-cases force old n m e = ground arith

half-IsPower : (old d : ℕ) → 1 < old → old ≡ 2 ^ d → IsPower (old / 2)
half-IsPower old zero more e = absurd (omega arith)
half-IsPower old (suc d) more e = (d, omega (arith, pow-suc 2 d))

-- The sizes are powers of two.
pub rehash_size-IsPower :
    (force : Bool) (old n m : ℕ) → rehash_size force old n ≡ some m → IsPower old → IsPower m
rehash_size-IsPower force old n m e (d, h) = elim (rehash_size-cases force old n m e) [
  | inl double ↦ (suc d, omega (arith, pow-suc 2 d))
  | inr (inl (half, more)) ↦ rw half (half-IsPower old d more h)
  | inr (inr power) ↦ (_, power)
]

pub rehash_size-forced : (old n : ℕ) → (m : ℕ) × (rehash_size true old n ≡ some m)
unfolding rehash_size
rehash_size-forced old n = elim (Option-cases (rehash_size true old n)) [
  | inl e ↦ absurd (ground arith)
  | inr (m, e) ↦ (m, e)
]
