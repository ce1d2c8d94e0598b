-- ===== src/Tests/Code.antt =====
-- squirrel/compiler/optimizer.cpp on small pieces of code.
use quirrel.Prelude.{ℕ, ◌≡◌, ◌≢◌, refl, [], ◌∷◌, false, some, inr, ok, arith, get_elem?, ◌>>=◌}
use quirrel.Prelude.Int.{pos, negsuc, ◌+ℤ◌, ◌/ℤ◌}
use quirrel.Vm.Object.{null}
use quirrel.Vm.Arith.{div}
use quirrel.Tests.Machine.{toy}
use quirrel.Optimizer.Code.{
  Instruction, Registers, load_int, arith as arith_instruction, add_i, execute,
}
use quirrel.Optimizer.Fold.{
  int_constant, fold_window, fold_add_i, fold_arith, fold_int, operands, load_of,
}
use quirrel.Optimizer.Window.{AgreeBut, fold_window-kept, fold_window-alone, fold_add_i_lem}
use quirrel.Optimizer.Cut.{Jump, FuncState, is_unsafe_jump_range, cut_range, jump_arg1}
use quirrel.Optimizer.Targets.{SameEnds, cut_range-SameEnds}
use quirrel.Optimizer.Removal.{AreSafe, target_inst, removals, window_cuts, window_cuts-AreSafe}

abbrev empty_frame : Registers toy
empty_frame r = null

-- -7 / 2 from registers 5 and 6 into 5.
abbrev quotient : Instruction toy
quotient = arith_instruction div 5 6 5

quotient_folds :
    fold_window toy 5 (int_constant (negsuc 6)) 6 (int_constant (pos 2)) quotient
    ≡ some (load_int 5 (negsuc 2))
unfolding fold_window operands fold_arith fold_int ◌/ℤ◌
quotient_folds = refl

fold_window-kept_example :
    (execute toy (load_of toy 5 (int_constant (negsuc 6))) empty_frame >>= λ s.
    execute toy (load_of toy 6 (int_constant (pos 2))) s >>= execute toy quotient)
    ≡ (execute toy (load_of toy 5 (int_constant (negsuc 6))) empty_frame >>= λ s.
        execute toy (load_of toy 6 (int_constant (pos 2))) s
        >>= execute toy (load_int 5 (negsuc 2)))
fold_window-kept_example =
    fold_window-kept toy 5 (int_constant (negsuc 6)) 6 (int_constant (pos 2)) quotient
      (load_int 5 (negsuc 2)) empty_frame (ground arith) (ground arith) quotient_folds

fold_window-alone_example :
    (s : Registers toy) × (t : Registers toy) × ((execute toy
          (load_of toy 5 (int_constant (negsuc 6)))
          empty_frame
        >>= λ s. execute toy (load_of toy 6 (int_constant (pos 2))) s >>= execute toy quotient)
      ≡ ok s)
    × (execute toy (load_int 5 (negsuc 2)) empty_frame ≡ ok t)
    × (s 5 ≡ t 5)
    × AgreeBut toy 5 6 s t
fold_window-alone_example =
    fold_window-alone toy 5 (int_constant (negsuc 6)) 6 (int_constant (pos 2)) quotient
      (load_int 5 (negsuc 2)) empty_frame (ground arith) (ground arith) quotient_folds

sum_folds :
    fold_add_i toy 3 (int_constant (pos 40)) (add_i 4 (pos 2) 3) ≡ some (load_int 4 (pos 42))
unfolding fold_add_i ◌+ℤ◌
sum_folds = refl

fold_add_i_example :
    (s : Registers toy) × (t : Registers toy) × ((execute toy
          (load_of toy 3 (int_constant (pos 40)))
          empty_frame
        >>= execute toy (add_i 4 (pos 2) 3))
      ≡ ok s)
    × ((execute toy (load_of toy 3 (int_constant (pos 40))) empty_frame
          >>= execute toy (load_int 4 (pos 42)))
        ≡ ok s)
    × (execute toy (load_int 4 (pos 42)) empty_frame ≡ ok t)
    × (s 4 ≡ t 4)
    × ((r : ℕ) → r ≢ 3 → s r ≡ t r)
fold_add_i_example =
    fold_add_i_lem toy 3 (int_constant (pos 40)) (add_i 4 (pos 2) 3) (load_int 4 (pos 42))
      empty_frame (ground arith) (ground arith) sum_folds

-- Seven instructions, named by numbers: a window at 1, and a jump at 5 that leads to 4.
abbrev back : Jump
back = record {
  original_instruction_index = 5;
  instruction_index = 5;
  original_jump_to = 4;
  jump_to = 4;
  modified = false;
  jump_arg = jump_arg1;
}

abbrev code : FuncState ℕ
code = record {
  instructions = 10 ∷ 11 ∷ 12 ∷ 13 ∷ 14 ∷ 15 ∷ 16 ∷ [];
  jumps = back ∷ [];
  local_var_infos = record { start_op = 2; end_op = 6; pos = 9 } ∷ [];
  line_infos = 0 ∷ 4 ∷ [];
}

code_safe : is_unsafe_jump_range 1 3 code ≡ false
unfolding is_unsafe_jump_range
code_safe = refl

cut_range-SameEnds_example :
    (moved : Jump) × (get_elem? (cut_range 1 3 1 code).jumps 0 ≡ some moved)
    × SameEnds code.instructions back (cut_range 1 3 1 code).instructions moved
cut_range-SameEnds_example =
    cut_range-SameEnds 1 3 1 0 back code (omega arith) (omega arith) (omega arith) code_safe refl
      (inr (omega arith))

window_cuts-AreSafe_example :
    AreSafe 1 (target_inst 1 (removals 1 5 6 code)) code (window_cuts 1 (removals 1 5 6 code))
window_cuts-AreSafe_example = window_cuts-AreSafe 1 5 6 code code_safe
