-- ===== src/Optimizer/Removal.antt =====
-- squirrel/compiler/optimizer.cpp: what `SQOptimizer::optimizeConstFolding` does with the two loads of
-- a window that it folds: where the result goes and what is cut.
use quirrel.Prelude.{
  ℕ, ◌+◌, ◌<◌, ◌≡◌, refl, List, [], ◌∷◌, Bool, true, false, not, ◌&&◌, ◌||◌, arith,
}
use quirrel.Prelude.{if◌then◌else◌}
use quirrel.Optimizer.Cut.{
  Jump, FuncState, any, inside, is_unsafe_jump_range, is_local_var_instructions,
  is_local_var_register,
}

-- The arguments of a call of `cutRange`.
pub record Cut : Type 0 where
  pub start : ℕ
  pub old_count : ℕ
  pub new_count : ℕ

module _ {A : Type 0} where
  -- The first choice of `removeLoadAVar` and `removeLoadBVar`, by the variables whose ranges start
  -- in the window.
  unfoldable pub removable : ℕ → FuncState A → Bool × Bool
  removable i fs =
      if not (is_local_var_instructions i 3 fs)
      then (true, true)
      else if not (is_local_var_instructions i 2 fs)
      then (true, false)
      else if not (is_local_var_instructions (i + 1) 2 fs)
      then (false, true)
      else (false, false)

  -- `removeLoadAVar` and `removeLoadBVar` for the registers `a` and `b` of the loads.
  unfoldable pub removals : ℕ → ℕ → ℕ → FuncState A → Bool × Bool
  removals i a b fs =
      let remove_a = (removable i fs).0 && not (is_local_var_register a i fs) in
      let remove_b = (removable i fs).1 && not (is_local_var_register b (i + 1) fs) in
      (if remove_a && not remove_b then false else remove_a, remove_b)

-- `targetInst`
unfoldable pub target_inst : ℕ → Bool × Bool → ℕ
target_inst i removed = if removed.0 then i else if removed.1 then i + 1 else i + 2

unfoldable pub window_cuts : ℕ → Bool × Bool → List Cut
window_cuts i removed =
    if removed.0 || removed.1
    then if removed.0 && removed.1
      then record { start = i; old_count = 3; new_count = 1 } ∷ []
      else if removed.0
      then record { start = i; old_count = 1; new_count = 0 }
        ∷ record { start = i + 1; old_count = 2; new_count = 1 }
        ∷ []
      else record { start = i + 1; old_count = 2; new_count = 1 } ∷ []
    else []

narrower :
    (i : ℕ) (jumps : List Jump)
    → any (λ j. inside i 3 j.jump_to) jumps ≡ false
    → any (λ j. inside (i + 1) 2 j.jump_to) jumps ≡ false
narrower i [] h = refl
narrower i (j ∷ js) h = ground (arith, narrower i js)

module _ {A : Type 0} where
  -- A cut of the end of the window at `i` that leaves the instruction written to `target`, and into
  -- which no jump leads.
  pub record IsSafe (i target : ℕ) (fs : FuncState A) (c : Cut) : Type 0 where
    pub left : 0 < c.new_count
    pub fewer : c.new_count < c.old_count
    pub to_end : c.start + c.old_count ≡ i + 3
    pub kept : c.start ≡ target
    pub safe : is_unsafe_jump_range c.start c.old_count fs ≡ false

  -- At most one cut, which IsSafe.
  pub data AreSafe (i target : ℕ) (fs : FuncState A) : List Cut → Type 0 where
    no_cut : target ≡ i + 2 → AreSafe i target fs []
    one_cut : (c : Cut) → IsSafe i target fs c → AreSafe i target fs (c ∷ [])

  AreSafe-removed :
      (i : ℕ) (fs : FuncState A) (remove_a remove_b : Bool)
      → is_unsafe_jump_range i 3 fs ≡ false
      → let removed : Bool × Bool =
          (if remove_a && not remove_b then false else remove_a, remove_b) in
        AreSafe i (target_inst i removed) fs (window_cuts i removed)
  unfolding window_cuts target_inst is_unsafe_jump_range
  AreSafe-removed i fs true true safe =
      one_cut _ (record {
        left = omega arith;
        fewer = omega arith;
        to_end = refl;
        kept = refl;
        safe = safe;
      })
  AreSafe-removed i fs false true safe = one_cut _ (record {
    left = omega arith;
    fewer = omega arith;
    to_end = omega arith;
    kept = refl;
    safe = narrower i fs.jumps safe;
  })
  AreSafe-removed i fs true false safe = no_cut refl
  AreSafe-removed i fs false false safe = no_cut refl

  -- Where no jump leads into a window of three, folding it makes at most one cut. The cut leaves the
  -- instruction that the result was written to, reaches to the window's end, and removes no
  -- instruction that a jump leads to; without a cut the result replaces the operation.
  pub window_cuts-AreSafe :
      (i a b : ℕ) (fs : FuncState A)
      → is_unsafe_jump_range i 3 fs ≡ false
      → AreSafe i (target_inst i (removals i a b fs)) fs (window_cuts i (removals i a b fs))
  unfolding removals
  window_cuts-AreSafe i a b fs safe =
      AreSafe-removed i fs ((removable i fs).0 && not (is_local_var_register a i fs))
        ((removable i fs).1 && not (is_local_var_register b (i + 1) fs)) safe
