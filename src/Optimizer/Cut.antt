-- ===== src/Optimizer/Cut.antt =====
-- squirrel/compiler/optimizer.cpp: the ranges that may be folded, and `SQOptimizer::cutRange`, which
-- removes instructions and moves what points behind them.
use quirrel.Prelude.{ℕ, ◌+◌, ◌-◌, ◌%◌, ◌^◌, List, [], ◌∷◌, ◌++◌, Bool, true, false, not, ◌&&◌, ◌||◌}
use quirrel.Prelude.{ltb, leb, ◌==◌, if◌then◌else◌, take, drop}
use Prim.Native.Nat.{max}

pub data JumpArg : Type 0 where
  jump_arg1 jump_arg0 jump_arg_plus_23 jump_arg_minus_23 : JumpArg

pub record Jump : Type 0 where
  pub original_instruction_index : ℕ
  pub instruction_index : ℕ
  pub original_jump_to : ℕ
  pub jump_to : ℕ
  pub modified : Bool
  pub jump_arg : JumpArg

-- `_pos` is the register. `_end_op` of a variable still in scope is UINT32_MINUS_ONE.
pub record LocalVarInfo : Type 0 where
  pub start_op : ℕ
  pub end_op : ℕ
  pub pos : ℕ

abbrev pub uint32_minus_one : ℕ
uint32_minus_one = 2 ^ 32 - 1

-- What the optimizer reads and writes of a function. `A` is the type of instructions. A line info is
-- its `_op`.
pub record FuncState (A : Type 0) : Type 0 where
  pub instructions : List A
  pub jumps : List Jump
  pub local_var_infos : List LocalVarInfo
  pub line_infos : List ℕ

abbrev pub map : {A B : Type 0} → (A → B) → List A → List B
map f [] = []
map f (x ∷ xs) = f x ∷ map f xs

abbrev pub any : {A : Type 0} → (A → Bool) → List A → Bool
any p [] = false
any p (x ∷ xs) = p x || any p xs

-- Strictly behind the start of the range.
abbrev pub inside : ℕ → ℕ → ℕ → Bool
inside start count at = ltb start at && ltb at (start + count)

module _ {A : Type 0} where
  unfoldable pub is_unsafe_jump_range : ℕ → ℕ → FuncState A → Bool
  is_unsafe_jump_range start count fs = any (λ j. inside start count j.jump_to) fs.jumps

  unfoldable pub is_local_var_instructions : ℕ → ℕ → FuncState A → Bool
  is_local_var_instructions start count fs =
      any (λ v. inside start count v.start_op) fs.local_var_infos

  unfoldable pub is_unsafe_range : ℕ → ℕ → FuncState A → Bool
  is_unsafe_range start count fs =
      is_unsafe_jump_range start count fs || is_local_var_instructions start count fs

  unfoldable pub is_local_var_register : ℕ → ℕ → FuncState A → Bool
  is_local_var_register reg at fs =
      any
        (λ v.
          v.pos == reg && leb v.start_op at && (v.end_op == uint32_minus_one || ltb at v.end_op))
        fs.local_var_infos

-- The numbers of a jump behind a cut of `count` instructions at `start`.
unfoldable pub cut_jump : ℕ → ℕ → Jump → Jump
cut_jump start count j =
    let retargeted =
      if leb (start + 1) j.jump_to
      then record j { jump_to = j.jump_to - count; modified = true }
      else j in
    if leb start j.instruction_index
    then record retargeted { instruction_index = j.instruction_index - count; modified = true }
    else retargeted

-- `_start_op` and `_end_op` are 32-bit and unsigned. An end before the start is that of a variable
-- without a range.
unfoldable pub cut_start : ℕ → ℕ → LocalVarInfo → LocalVarInfo
cut_start start count v =
    let early = (v.start_op + 2 ^ 32 - count - 1) % 2 ^ 32 in
    let end_op =
      if ltb v.end_op v.start_op then (if ltb start early then 0 else early) else v.end_op in
    if ltb start v.start_op then record v { start_op = v.start_op - count; end_op = end_op } else v

unfoldable pub cut_end : ℕ → ℕ → LocalVarInfo → LocalVarInfo
cut_end start count v =
    if leb start v.end_op && not (v.end_op == uint32_minus_one)
    then record v { end_op = max (v.end_op - count) (start - 1) }
    else v

unfoldable pub cut_line : ℕ → ℕ → ℕ → ℕ
cut_line start count op = if ltb start op then op - count else op

module _ {A : Type 0} where
  -- `new_count` instructions are left of the `old_count` at `start`.
  unfoldable pub cut_range : ℕ → ℕ → ℕ → FuncState A → FuncState A
  cut_range start old_count new_count fs =
      let first = start + new_count in
      let count = old_count - new_count in
      record {
        instructions = take first fs.instructions ++ drop (first + count) fs.instructions;
        jumps = map (cut_jump first count) fs.jumps;
        local_var_infos =
            map (λ v. cut_end first count (cut_start first count v)) fs.local_var_infos;
        line_infos = map (cut_line first count) fs.line_infos;
      }
