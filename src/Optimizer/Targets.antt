-- ===== src/Optimizer/Targets.antt =====
-- Jumps through `SQOptimizer::cutRange` of squirrel/compiler/optimizer.cpp.
use quirrel.Prelude.{
  ℕ, zero, suc, ◌+◌, ◌-◌, ◌≤◌, ◌<◌, ◌≡◌, refl, ap, subst, ◌∙◌, List, [], ◌∷◌, ◌++◌, Bool, false,
  ◌⊎◌, inl, inr, some,
}
use quirrel.Prelude.{take, drop, get_elem?, length, arith}
use quirrel.Optimizer.Cut.{
  Jump, FuncState, map, any, inside, is_unsafe_jump_range, cut_jump, cut_range,
}

suc_add : (c k : ℕ) → suc (c + k) ≡ suc c + k
suc_add c k = omega arith

suc_sub_add : (j t n : ℕ) → suc (j - t + n) ≡ suc j - suc t + suc n
suc_sub_add j t n = omega arith

any-false :
    {B : Type 0} (p : B → Bool) (xs : List B) (i : ℕ) (x : B)
    → any p xs ≡ false
    → get_elem? xs i ≡ some x
    → p x ≡ false
any-false p [] i x h e = absurd (cc)
any-false p (y ∷ ys) zero x h e = ground arith
any-false p (y ∷ ys) (suc i) x h e = any-false p ys i x (ground arith) e

get_elem?-map :
    {B C : Type 0} (f : B → C) (xs : List B) (i : ℕ) (x : B)
    → get_elem? xs i ≡ some x
    → get_elem? (map f xs) i ≡ some (f x)
get_elem?-map f [] i x e = absurd (cc)
get_elem?-map f (y ∷ ys) zero x e = ground arith
get_elem?-map f (y ∷ ys) (suc i) x e = get_elem?-map f ys i x e

-- Where the number `n` is after a cut of `count` instructions at `first` that spares it.
data IsMoved (first count n m : ℕ) : Type 0 where
  before : n < first → m ≡ n → IsMoved first count n m
  behind : first + count ≤ n → m ≡ n - count → IsMoved first count n m

cut_jump-IsMoved :
    (first count : ℕ) (j : Jump)
    → 0 < count
    → (j.jump_to < first) ⊎ (first + count ≤ j.jump_to)
    → IsMoved first count j.jump_to (cut_jump first count j).jump_to
unfolding cut_jump
cut_jump-IsMoved first count j h (inl k) = before k (ground arith)
cut_jump-IsMoved first count j h (inr k) = behind k (ground arith)

cut_jump-IsMoved_place :
    (first count : ℕ) (j : Jump)
    → 0 < count
    → (j.instruction_index < first) ⊎ (first + count ≤ j.instruction_index)
    → IsMoved first count j.instruction_index (cut_jump first count j).instruction_index
unfolding cut_jump
cut_jump-IsMoved_place first count j h (inl k) = before k (ground arith)
cut_jump-IsMoved_place first count j h (inr k) = behind k (ground arith)

module _ {A : Type 0} where
  get_elem?-cut_before :
      (xs ys : List A) (t k : ℕ)
      → k < t
      → t ≤ length xs
      → get_elem? (take t xs ++ ys) k ≡ get_elem? xs k
  get_elem?-cut_before xs ys zero k h le = absurd (omega arith)
  get_elem?-cut_before [] ys (suc t) k h le = absurd (omega arith)
  get_elem?-cut_before (x ∷ xs) ys (suc t) zero h le = refl
  get_elem?-cut_before (x ∷ xs) ys (suc t) (suc k) h le =
      get_elem?-cut_before xs ys t k (omega arith) (omega arith)

  get_elem?-drop : (xs : List A) (c k : ℕ) → get_elem? (drop c xs) k ≡ get_elem? xs (c + k)
  get_elem?-drop xs zero k = ap (get_elem? xs) (omega arith)
  get_elem?-drop [] (suc c) k = refl
  get_elem?-drop (x ∷ xs) (suc c) k =
      subst (λ n. get_elem? (drop c xs) k ≡ get_elem? (x ∷ xs) n) (suc_add c k)
        (get_elem?-drop xs c k)

  get_elem?-cut_after :
      (xs : List A) (t n j : ℕ)
      → t ≤ n
      → t ≤ length xs
      → t ≤ j
      → get_elem? (take t xs ++ drop n xs) j ≡ get_elem? xs (j - t + n)
  get_elem?-cut_after xs zero n j h le k = get_elem?-drop xs n j ∙ ap (get_elem? xs) (omega arith)
  get_elem?-cut_after xs (suc t) zero j h le k = absurd (omega arith)
  get_elem?-cut_after [] (suc t) (suc n) j h le k = absurd (omega arith)
  get_elem?-cut_after (x ∷ xs) (suc t) (suc n) zero h le k = absurd (omega arith)
  get_elem?-cut_after (x ∷ xs) (suc t) (suc n) (suc j) h le k =
      subst (λ m. get_elem? (take t xs ++ drop n xs) j ≡ get_elem? (x ∷ xs) m) (suc_sub_add j t n)
        (get_elem?-cut_after xs t n j (omega arith) (omega arith) (omega arith))

  -- A jump with its target and its own place, in the code it belongs to.
  pub record SameEnds (code : List A) (j : Jump) (cut : List A) (moved : Jump) : Type 0 where
    pub same_target : get_elem? cut moved.jump_to ≡ get_elem? code j.jump_to
    pub same_place : get_elem? cut moved.instruction_index ≡ get_elem? code j.instruction_index

  get_elem?-cut :
      (xs : List A) (first count n m : ℕ)
      → first + count ≤ length xs
      → IsMoved first count n m
      → get_elem? (take first xs ++ drop (first + count) xs) m ≡ get_elem? xs n
  get_elem?-cut xs first count n m le (before h e) =
      rw e (get_elem?-cut_before xs (drop (first + count) xs) first n h (omega arith))
  get_elem?-cut xs first count n m le (behind h e) =
      get_elem?-cut_after xs first (first + count) m (omega arith) (omega arith) (omega arith)
      ∙ ap (get_elem? xs) (omega arith)

  -- After a cut that leaves the first instruction of a range of the code into which no jump leads, every jump
  -- still leads to the instruction it led to, and every jump that does not stand in what was cut is
  -- still where its instruction is.
  pub cut_range-SameEnds :
      (start old_count new_count i : ℕ) (j : Jump) (fs : FuncState A)
      → 0 < new_count
      → new_count < old_count
      → start + old_count ≤ length fs.instructions
      → is_unsafe_jump_range start old_count fs ≡ false
      → get_elem? fs.jumps i ≡ some j
      → (j.instruction_index < start + new_count) ⊎ (start + old_count ≤ j.instruction_index)
      → (moved : Jump) × (get_elem? (cut_range start old_count new_count fs).jumps i ≡ some moved)
        × SameEnds fs.instructions j (cut_range start old_count new_count fs).instructions moved
  unfolding is_unsafe_jump_range cut_range
  cut_range-SameEnds start old_count new_count i j fs left fewer fits safe e place = (
    cut_jump (start + new_count) (old_count - new_count) j,
    get_elem?-map (cut_jump (start + new_count) (old_count - new_count)) fs.jumps i j e,
    record {
      same_target =
          get_elem?-cut fs.instructions (start + new_count) (old_count - new_count) _ _
            (omega arith)
            (cut_jump-IsMoved _ _ j (omega arith) (spared (any-false _ fs.jumps i j safe e)));
      same_place =
          get_elem?-cut fs.instructions (start + new_count) (old_count - new_count) _ _
            (omega arith)
            (cut_jump-IsMoved_place _ _ j (omega arith)
              (elim place [ inl h ↦ inl h | inr h ↦ inr (omega arith) ]));
    },
  )
    where
      spared :
          inside start old_count j.jump_to ≡ false
          → (j.jump_to < start + new_count)
            ⊎ (start + new_count + (old_count - new_count) ≤ j.jump_to)
      spared h = ground arith
