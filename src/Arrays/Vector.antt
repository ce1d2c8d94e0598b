-- ===== src/Arrays/Vector.antt =====
-- squirrel/squtils.h: sqvector, a growing block of memory; and squirrel/sqarray.h: the operations of an
-- SQArray on it.
use quirrel.Prelude.{
  ℕ, zero, suc, ◌+◌, ◌-◌, ◌*◌, ◌/◌, Bool, true, false, ◌&&◌, ◌==◌, ltb, leb, if◌then◌else◌,
}
use quirrel.Prelude.{Option, none, some}
use quirrel.Prelude.Int.{ℤ, pos, negsuc}

-- `vals` has the cells of the block, of which the first `size` are elements.
pub record Vector (A : Type 0) : Type 0 where
  pub vals : ℕ → A
  pub size : ℕ
  pub allocated : ℕ

module _ {A : Type 0} where
  -- `_vals[i] = a`
  abbrev pub write : (ℕ → A) → ℕ → A → ℕ → A
  write vals i a j = if i == j then a else vals j

  -- `while(_size < newsize)`, `n` times.
  unfoldable pub fill_cells : ℕ → A → Vector A → Vector A
  fill_cells zero a v = v
  fill_cells (suc n) a v =
      fill_cells n a (record v { vals = write v.vals v.size a; size = v.size + 1 })

  -- The loop of `insert`, down from cell `i`.
  unfoldable pub shift_up : ℕ → ℕ → (ℕ → A) → ℕ → A
  shift_up zero idx vals = vals
  shift_up (suc i) idx vals =
      let moved = shift_up i idx (write vals (suc i) (vals i)) in
      if ltb idx (suc i) then moved else vals

  -- `pop_back`
  abbrev pub pop_back : Vector A → Vector A
  pop_back v = record v { size = v.size - 1 }

  -- `remove`, with its memmove.
  unfoldable pub remove_cell : ℕ → Vector A → Vector A
  remove_cell idx v = record v {
    vals = λ i. if leb idx i && ltb i (v.size - 1) then v.vals (i + 1) else v.vals i;
    size = v.size - 1;
  }

-- `fresh` is what memory holds that SQ_REALLOC adds.
module _ {A : Type 0} (fresh : ℕ → A) where
  -- `_realloc`
  unfoldable pub reallocate : ℕ → Vector A → Vector A
  reallocate newsize v =
      let room = if newsize == 0 then 4 else newsize in
      record v {
        vals = λ i. if ltb i v.allocated && ltb i room then v.vals i else fresh i;
        allocated = room;
      }

  -- `resize`
  unfoldable pub resize_to : ℕ → A → Vector A → Vector A
  resize_to newsize a v =
      let w = if ltb v.allocated newsize then reallocate newsize v else v in
      if ltb w.size newsize then fill_cells (newsize - w.size) a w else record w { size = newsize }

  -- `push_back`, and `Append`
  unfoldable pub push_back : A → Vector A → Vector A
  push_back a v =
      let w = if leb v.allocated v.size then reallocate (v.size * 2) v else v in
      record w { vals = write w.vals w.size a; size = w.size + 1 }

  -- `insert`, where `null` is what `T()` makes.
  unfoldable pub insert_cell : A → ℕ → A → Vector A → Vector A
  insert_cell null idx a v =
      let w = resize_to (v.size + 1) null v in
      record w { vals = write (shift_up (w.size - 1) idx w.vals) idx a }

  -- `shrinktofit`
  abbrev pub shrink_to_fit : Vector A → Vector A
  shrink_to_fit v = if ltb 4 v.size then reallocate v.size v else v

  -- `ShrinkIfNeeded`
  unfoldable pub shrink_if_needed : Vector A → Vector A
  shrink_if_needed v = if leb v.size (v.allocated / 4) then shrink_to_fit v else v

  -- `Insert`
  unfoldable pub insert_at : A → ℤ → A → Vector A → Vector A × Bool
  insert_at null (negsuc n) a v = (v, false)
  insert_at null (pos idx) a v =
      if ltb v.size idx then (v, false) else (insert_cell null idx a v, true)

  -- `Remove`
  unfoldable pub remove_at : ℤ → Bool → Vector A → Vector A × Bool
  remove_at (negsuc n) shrink v = (v, false)
  remove_at (pos idx) shrink v =
      if leb v.size idx
      then (v, false)
      else ((if shrink then shrink_if_needed (remove_cell idx v) else remove_cell idx v), true)

  -- `Resize`
  unfoldable pub resize_array : ℕ → A → Bool → Vector A → Vector A
  resize_array n a shrink v = if shrink then shrink_if_needed (resize_to n a v) else resize_to n a v

  -- `Pop`
  unfoldable pub pop : Vector A → Vector A
  pop v = shrink_if_needed (pop_back v)

module _ {A : Type 0} where
  -- `Get`
  unfoldable pub get_at : ℤ → Vector A → Option A
  get_at (negsuc n) v = none
  get_at (pos i) v = if ltb i v.size then some (v.vals i) else none

  -- `Set`
  unfoldable pub set_at : ℤ → A → Vector A → Vector A × Bool
  set_at (negsuc n) a v = (v, false)
  set_at (pos i) a v =
      if ltb i v.size then (record v { vals = write v.vals i a }, true) else (v, false)
