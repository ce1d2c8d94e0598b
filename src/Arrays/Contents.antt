-- ===== src/Arrays/Contents.antt =====
-- What the operations of sqvector (squirrel/squtils.h) do to the elements.
use quirrel.Prelude.{
  ℕ, zero, suc, ◌+◌, ◌-◌, ◌≤◌, ◌<◌, ◌≡◌, refl, ◌∙◌, Bool, true, false, ◌&&◌, ◌==◌, ltb, leb,
  if◌then◌else◌, arith, Bool-cases, ltb→lt, inl, inr,
}
use quirrel.Arrays.Vector.{
  Vector, write, fill_cells, shift_up, reallocate, resize_to, push_back, insert_cell,
  shrink_if_needed,
}

module _ {A : Type 0} where
  -- The elements fit in the block.
  abbrev pub IsValid : Vector A → Type 0
  IsValid v = v.size ≤ v.allocated

  -- `v` has `n` elements, which `f` gives, and they fit.
  pub record Has (v : Vector A) (n : ℕ) (f : ℕ → A) : Type 0 where
    pub valid : IsValid v
    pub count : v.size ≡ n
    pub elements : (i : ℕ) → i < n → v.vals i ≡ f i

  fill_cells-Has :
      (n : ℕ) (a : A) (v : Vector A)
      → v.size + n ≤ v.allocated
      → Has (fill_cells n a v) (v.size + n) (λ i. if ltb i v.size then v.vals i else a)
  unfolding fill_cells
  fill_cells-Has zero a v h = record {
    valid = omega arith;
    count = omega arith;
    elements = λ i l. ground arith;
  }
  fill_cells-Has (suc n) a v h =
      let rest =
        fill_cells-Has n a (record v { vals = write v.vals v.size a; size = v.size + 1 })
          (omega arith) in
      record {
        valid = rest.valid;
        count = omega (arith, rest.count);
        elements = λ i l. ground (arith, rest.elements i);
      }

  -- The loop moves the cells from `idx` up to `i` by one.
  shift_up-eq :
      (i idx : ℕ) (vals : ℕ → A) (j : ℕ)
      → shift_up i idx vals j ≡ (if ltb idx j && leb j i then vals (j - 1) else vals j)
  unfolding shift_up
  shift_up-eq zero idx vals j = ground arith
  shift_up-eq (suc i) idx vals j = elim (Bool-cases (ltb idx (suc i))) [
    | inl t ↦ rw t (shift_up-eq i idx (write vals (suc i) (vals i)) j ∙ ground arith)
    | inr t ↦ rw t (ground arith)
  ]

  itself-Has : (v : Vector A) → IsValid v → Has v v.size v.vals
  itself-Has v valid = record { valid = valid; count = refl; elements = λ i l. refl }

  pub either-Has :
      (b : Bool) (v w : Vector A) {n : ℕ} {f : ℕ → A}
      → Has v n f
      → Has w n f
      → Has (if b then v else w) n f
  either-Has true v w p q = p
  either-Has false v w p q = q

module _ {A : Type 0} (fresh : ℕ → A) where
  reallocate-Has :
      (n : ℕ) (v : Vector A) → IsValid v → v.size ≤ n → Has (reallocate fresh n v) v.size v.vals
  unfolding reallocate
  reallocate-Has n v valid h = record {
    valid = ground arith;
    count = refl;
    elements = λ i l. ground arith;
  }

  pub shrink_if_needed-Has :
      (v : Vector A) → IsValid v → Has (shrink_if_needed fresh v) v.size v.vals
  unfolding shrink_if_needed
  shrink_if_needed-Has v valid =
      either-Has _ _ v
        (either-Has _ _ v (reallocate-Has v.size v valid (omega arith)) (itself-Has v valid))
        (itself-Has v valid)

  pub resize_to-Has :
      (n : ℕ) (a : A) (v : Vector A)
      → IsValid v
      → Has (resize_to fresh n a v) n (λ i. if ltb i v.size then v.vals i else a)
  unfolding resize_to reallocate
  resize_to-Has n a v valid = elim (Bool-cases (ltb v.size n)) [
    | inl grows ↦ elim (Bool-cases (ltb v.allocated n)) [
      | inl t ↦
          let w = reallocate-Has n v valid (ground arith) in
          let filled = fill_cells-Has (n - v.size) a (reallocate fresh n v) (ground arith) in
          rw (t, grows)
            (record {
              valid = filled.valid;
              count = omega (arith, filled.count, ltb→lt v.size n grows);
              elements = λ i l. ground (arith, filled.elements i, w.elements i);
            })
      | inr t ↦
          let filled = fill_cells-Has (n - v.size) a v (ground arith) in
          rw (t, grows)
            (record {
              valid = filled.valid;
              count = omega (arith, filled.count, ltb→lt v.size n grows);
              elements = λ i l. ground (arith, filled.elements i);
            })
    ]
    | inr stays ↦ elim (Bool-cases (ltb v.allocated n)) [
      | inl t ↦ absurd (ground arith)
      | inr t ↦
          rw (t, stays)
            (record { valid = ground arith; count = refl; elements = λ i l. ground arith })
    ]
  ]

  -- `push_back`, which `Append` calls, puts an element behind the others, in memory that is allocated.
  pub push_back-Has :
      (a : A) (v : Vector A)
      → IsValid v
      → Has (push_back fresh a v) (v.size + 1) (λ i. if ltb i v.size then v.vals i else a)
  unfolding push_back reallocate
  push_back-Has a v valid = record {
    valid = ground arith;
    count = ground arith;
    elements = λ i l. ground arith;
  }

  pub insert_cell-Has :
      (null : A) (idx : ℕ) (a : A) (v : Vector A)
      → IsValid v
      → idx ≤ v.size
      → Has
          (insert_cell fresh null idx a v)
          (v.size + 1)
          (λ i. if i == idx then a else if ltb i idx then v.vals i else v.vals (i - 1))
  unfolding insert_cell
  insert_cell-Has null idx a v valid h =
      let w = resize_to-Has (v.size + 1) null v valid in
      record {
        valid = w.valid;
        count = w.count;
        elements = λ i l. ground (
          arith,
          shift_up-eq ((resize_to fresh (v.size + 1) null v).size - 1) idx
              (resize_to fresh (v.size + 1) null v).vals i,
          w.count,
          w.elements i,
          w.elements (i - 1),
        );
      }
