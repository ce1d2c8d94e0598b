-- ===== src/Arrays/Operations.antt =====
-- What the operations of an SQArray (squirrel/sqarray.h) do to its elements, and when they refuse.
use quirrel.Prelude.{
  ℕ, ◌+◌, ◌-◌, ◌≤◌, ◌<◌, ◌≡◌, refl, ◌∙◌, Bool, true, false, ◌==◌, ltb, leb, if◌then◌else◌, arith,
  Bool-cases, ◌⊎◌, inl, inr,
}
use quirrel.Prelude.{none, some}
use quirrel.Prelude.Int.{ℤ, pos, negsuc}
use quirrel.Arrays.Vector.{
  Vector, write, remove_cell, resize_to, shrink_if_needed, insert_at, remove_at, resize_array,
  pop_back, pop, get_at, set_at,
}
use quirrel.Arrays.Contents.{
  IsValid, Has, either-Has, shrink_if_needed-Has, resize_to-Has, insert_cell-Has,
}

module _ {A : Type 0} (fresh : ℕ → A) where
  -- Shrinking keeps what is there.
  shrunk-Has : (v : Vector A) {n : ℕ} {f : ℕ → A} → Has v n f → Has (shrink_if_needed fresh v) n f
  shrunk-Has v h =
      let s = shrink_if_needed-Has fresh v h.valid in
      record {
        valid = s.valid;
        count = s.count ∙ h.count;
        elements = λ i l. s.elements i (omega (arith, h.count)) ∙ h.elements i l;
      }

  remove_cell-Has :
      (idx : ℕ) (v : Vector A)
      → IsValid v
      → idx < v.size
      → Has (remove_cell idx v) (v.size - 1) (λ i. if ltb i idx then v.vals i else v.vals (i + 1))
  unfolding remove_cell
  remove_cell-Has idx v valid h = record {
    valid = omega arith;
    count = refl;
    elements = λ i l. ground arith;
  }

  -- `Insert` refuses an index that is negative or behind the end and changes nothing. At any other it
  -- puts the element there, the elements from there on one place further, in memory that is allocated.
  pub insert_at-Has :
      (null : A) (i : ℤ) (a : A) (v : Vector A)
      → IsValid v
      → ((insert_at fresh null i a v ≡ (v, false)) × ((n : ℕ) → i ≡ pos n → v.size < n))
        ⊎ ((idx : ℕ) × (v' : Vector A) × (i ≡ pos idx)
            × (idx ≤ v.size)
            × (insert_at fresh null i a v ≡ (v', true))
            × Has v'
                (v.size + 1)
                (λ j. if j == idx then a else if ltb j idx then v.vals j else v.vals (j - 1)))
  unfolding insert_at
  insert_at-Has null (negsuc m) a v valid = inl (refl, λ n e. absurd (cc))
  insert_at-Has null (pos idx) a v valid = elim (Bool-cases (ltb v.size idx)) [
    | inl t ↦ inl (rw t refl, λ n e. ground arith)
    | inr t ↦ inr (
      idx,
      _,
      refl,
      ground arith,
      rw t refl,
      insert_cell-Has fresh null idx a v valid (ground arith),
    )
  ]

  -- `Remove` refuses an index that is negative or not below the size and changes nothing. At any other
  -- it takes the element out, those behind it one place back, whether it shrinks the memory or not.
  pub remove_at-Has :
      (i : ℤ) (shrink : Bool) (v : Vector A)
      → IsValid v
      → ((remove_at fresh i shrink v ≡ (v, false)) × ((n : ℕ) → i ≡ pos n → v.size ≤ n))
        ⊎ ((idx : ℕ) × (v' : Vector A) × (i ≡ pos idx)
            × (idx < v.size)
            × (remove_at fresh i shrink v ≡ (v', true))
            × Has v' (v.size - 1) (λ j. if ltb j idx then v.vals j else v.vals (j + 1)))
  unfolding remove_at
  remove_at-Has (negsuc m) shrink v valid = inl (refl, λ n e. absurd (cc))
  remove_at-Has (pos idx) shrink v valid = elim (Bool-cases (leb v.size idx)) [
    | inl t ↦ inl (rw t refl, λ n e. ground arith)
    | inr t ↦
        let removed = remove_cell-Has idx v valid (ground arith) in
        inr (
          idx,
          _,
          refl,
          ground arith,
          rw t refl,
          either-Has shrink _ _ (shrunk-Has (remove_cell idx v) removed) removed,
        )
  ]

  -- `Resize` comes to the size named, with the old elements first and the filling behind them, in
  -- memory that is allocated, whether it shrinks the memory or not.
  pub resize_array-Has :
      (n : ℕ) (a : A) (shrink : Bool) (v : Vector A)
      → IsValid v
      → Has (resize_array fresh n a shrink v) n (λ i. if ltb i v.size then v.vals i else a)
  unfolding resize_array
  resize_array-Has n a shrink v valid =
      let resized = resize_to-Has fresh n a v valid in
      either-Has shrink _ _ (shrunk-Has (resize_to fresh n a v) resized) resized

  -- `Pop` of an array that is not empty takes its last element and keeps the others, also where it
  -- shrinks the memory.
  pub pop-Has : (v : Vector A) → IsValid v → 0 < v.size → Has (pop fresh v) (v.size - 1) v.vals
  unfolding pop
  pop-Has v valid h =
      shrunk-Has (pop_back v) (record { valid = omega arith; count = refl; elements = λ i l. refl })

module _ {A : Type 0} where
  -- `Set` refuses the indices at which `Get` finds nothing, and changes nothing then. At any other it
  -- puts the value there and keeps the other elements.
  pub set_at-Has :
      (i : ℤ) (a : A) (v : Vector A)
      → IsValid v
      → ((get_at i v ≡ none) × (set_at i a v ≡ (v, false)))
        ⊎ ((n : ℕ) × (v' : Vector A) × (i ≡ pos n)
            × (get_at i v ≡ some (v.vals n))
            × (set_at i a v ≡ (v', true))
            × Has v' v.size (λ j. if j == n then a else v.vals j))
  unfolding get_at set_at
  set_at-Has (negsuc m) a v valid = inl (refl, refl)
  set_at-Has (pos n) a v valid = elim (Bool-cases (ltb n v.size)) [
    | inl t ↦ inr (
      n,
      record v { vals = write v.vals n a },
      refl,
      rw t refl,
      rw t refl,
      record { valid = valid; count = refl; elements = λ j l. ground arith },
    )
    | inr t ↦ inl (rw t refl, rw t refl)
  ]
