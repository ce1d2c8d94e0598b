-- ===== src/Table/Create.antt =====
-- The constructor of squirrel/sqtable.cpp.
use native.Mathlib.Nat.{pow-suc}
use quirrel.Prelude.{
  ℕ, zero, suc, ◌+◌, ◌*◌, ◌≤◌, ◌<◌, ◌^◌, ◌≡◌, refl, ap, ◌∙◌, ◌⊎◌, inl, inr, ltb, arith, Bool-cases,
}
use quirrel.Prelude.{none}
use quirrel.Table.Nodes.{KeyOps, get}
use quirrel.Table.Slots.{create, pow2_size}
use quirrel.Table.Valid.{IsPower, IsValid, get-eq}
use quirrel.Table.Rehash.{alloc_nodes-IsValid, empty-Means}

pub le-pow : (j : ℕ) → j < 2 ^ j
le-pow zero = omega arith
le-pow (suc j) = omega (arith, le-pow j, pow-suc 2 j)

pub le_mul : (a p : ℕ) → 0 < p → a ≤ a * p
le_mul a zero h = absurd (omega arith)
le_mul a (suc p) h = omega arith

-- The doubling does not pass the power of two `size * 2 ^ d` that is not below `n`.
pow2_size-bounded :
    (f n size d most : ℕ) → n ≤ most → size * 2 ^ d ≡ most → pow2_size f n size ≤ most
unfolding pow2_size
pow2_size-bounded zero n size d most h e =
    omega (arith, e, le_mul size (2 ^ d) (omega (arith, le-pow d)))
pow2_size-bounded (suc f) n size zero most h e = elim (Bool-cases (ltb size n)) [
  | inl t ↦ absurd (ground arith)
  | inr t ↦ ground arith
]
pow2_size-bounded (suc f) n size (suc d) most h e =
    let twice : size * 2 * 2 ^ d ≡ size * 2 ^ suc d =
      omega (arith, ap (λ (p : ℕ). size * p) (pow-suc 2 d)) in
    let rest = pow2_size-bounded f n (size * 2) d most h (twice ∙ e) in
    let kept : size ≤ most =
      omega (arith, e, le_mul size (2 ^ suc d) (omega (arith, le-pow (suc d)))) in
    ground arith

-- The doubling stops at the first power of two that is not below `n`.
pow2_size-le :
    (f n size : ℕ)
    → n ≤ size + f
    → 0 < size
    → (n ≤ pow2_size f n size)
      × ((pow2_size f n size ≡ size) ⊎ (pow2_size f n size < n * 2))
      × (size ≤ pow2_size f n size)
unfolding pow2_size
pow2_size-le zero n size h pos = ground arith
pow2_size-le (suc f) n size h pos =
    let (le, near, more) = pow2_size-le f n (size * 2) (omega arith) (omega arith) in ground arith

pow2_size-IsPower : (f n size : ℕ) → IsPower size → IsPower (pow2_size f n size)
unfolding pow2_size
pow2_size-IsPower zero n size power = power
pow2_size-IsPower (suc f) n size (e, h) =
    let (d, power) = pow2_size-IsPower f n (size * 2) (suc e, omega (arith, pow-suc 2 e)) in
    elim (Bool-cases (ltb size n)) [ inl t ↦ (d, rw t power) | inr t ↦ (e, rw t h) ]

module _ {K V : Type 0} (ops : KeyOps K) (null : V) where
  -- For up to 2 ^ 32 nodes, as many as `_numofnodes_minus_one` can name, the constructor makes a valid
  -- table without keys. Its size, a power of two, is not below the number asked for, is 1 or less than twice
  -- that number, and is at most 2 ^ 32: neither the doubling nor the cast to 32 bits loses anything.
  pub create-get :
      (n : ℕ)
      → n ≤ 2 ^ 32
      → let t = create ops null n in
        IsValid ops t
        × ((j : K) → get ops j t ≡ none)
        × (n ≤ t.size)
        × ((t.size ≡ 1) ⊎ (t.size < n * 2))
        × (t.size ≤ 2 ^ 32)
  unfolding create
  create-get n few =
      let (le, near, pos) = pow2_size-le n n 1 (omega arith) (omega arith) in
      let valid =
        alloc_nodes-IsValid ops null (create ops null n) (pow2_size n n 1) (omega arith)
          (pow2_size-IsPower n n 1 (0, refl)) in
      (
        valid,
        get-eq ops (create ops null n) valid.chained (λ j. none) (empty-Means K null),
        le,
        near,
        pow2_size-bounded n n 1 32 (2 ^ 32) few (omega arith),
      )
