-- ===== src/Tests/Vectors.antt =====
-- squirrel/squtils.h and squirrel/sqarray.h on small arrays of numbers.
use quirrel.Prelude.{
  ℕ, ◌+◌, ◌-◌, ◌*◌, ◌≤◌, ◌<◌, ◌≡◌, ◌⊎◌, ◌==◌, ltb, if◌then◌else◌, true, false, refl, arith, some,
}
use quirrel.Prelude.Int.{pos}
use quirrel.Arrays.Vector.{
  Vector, insert_at, insert_cell, resize_to, reallocate, shift_up, fill_cells, remove_at, get_at,
  set_at,
}
use quirrel.Arrays.Contents.{Has}
use quirrel.Arrays.Operations.{insert_at-Has, remove_at-Has}

-- What new memory holds.
abbrev garbage : ℕ → ℕ
garbage i = 99

-- 0, 10, 20, 30, with no memory to spare.
abbrev tens : Vector ℕ
tens = record { vals = λ i. i * 10; size = 4; allocated = 4 }

-- 0, 10 in memory for sixteen.
abbrev roomy : Vector ℕ
roomy = record { vals = λ i. i * 10; size = 2; allocated = 16 }

inserted_15 : get_at (pos 2) (insert_at garbage 0 (pos 2) 15 tens).0 ≡ some 15
unfolding insert_at insert_cell resize_to reallocate shift_up fill_cells get_at
inserted_15 = refl

moved_20 : get_at (pos 3) (insert_at garbage 0 (pos 2) 15 tens).0 ≡ some 20
unfolding insert_at insert_cell resize_to reallocate shift_up fill_cells get_at
moved_20 = refl

set_25 : get_at (pos 2) (set_at (pos 2) 25 tens).0 ≡ some 25
unfolding get_at set_at
set_25 = refl

insert_at-Has_example :
    ((insert_at garbage 0 (pos 2) 15 tens ≡ (tens, false)) × ((n : ℕ) → pos 2 ≡ pos n → 4 < n))
    ⊎ ((idx : ℕ) × (v' : Vector ℕ) × (pos 2 ≡ pos idx)
        × (idx ≤ 4)
        × (insert_at garbage 0 (pos 2) 15 tens ≡ (v', true))
        × Has v'
            (4 + 1)
            (λ j. if j == idx then 15 else if ltb j idx then tens.vals j else tens.vals (j - 1)))
insert_at-Has_example = insert_at-Has garbage 0 (pos 2) 15 tens (omega arith)

remove_at-Has_example :
    ((remove_at garbage (pos 0) true roomy ≡ (roomy, false)) × ((n : ℕ) → pos 0 ≡ pos n → 2 ≤ n))
    ⊎ ((idx : ℕ) × (v' : Vector ℕ) × (pos 0 ≡ pos idx)
        × (idx < 2)
        × (remove_at garbage (pos 0) true roomy ≡ (v', true))
        × Has v' (2 - 1) (λ j. if ltb j idx then roomy.vals j else roomy.vals (j + 1)))
remove_at-Has_example = remove_at-Has garbage (pos 0) true roomy (omega arith)
