-- ===== src/Tests/Machine.antt =====
-- squirrel/sqvm.cpp with a toy float unit.
use quirrel.Prelude.{◌≡◌, ◌↔◌, refl, [], Bool, true, not, ◌&&◌, ok, none, arith}
use quirrel.Prelude.Int.{ℤ, pos, negsuc, ◌+ℤ◌, ◌-ℤ◌, ◌*ℤ◌, ◌/ℤ◌, ◌%ℤ◌, eq_ℤ, ltb_ℤ}
use quirrel.Vm.Object.{Env, integer, float}
use quirrel.Vm.Arith.{div, arith_op, arith_nozero}
use quirrel.Vm.Compare.{cmp_3w, obj_cmp, cmp_op_res, cmp_op_res_f, is_equal}
use quirrel.Vm.Laws.{IsIeee, arith_nozero-arith_op, cmp_op_res_f-eq-cmp_op_res, is_equal-obj_cmp}

-- Floats are integers, but for one that stands for NaN.
abbrev nan : ℤ
nan = pos 0x7FC00000

abbrev toy_eq : ℤ → ℤ → Bool
toy_eq a b = eq_ℤ a b && not (eq_ℤ a nan)

abbrev toy_lt : ℤ → ℤ → Bool
toy_lt a b = ltb_ℤ a b && not (eq_ℤ a nan) && not (eq_ℤ b nan)

abbrev pub toy : Env
toy = record {
  Float = ℤ;
  raw_eq = eq_ℤ;
  feq = toy_eq;
  flt = toy_lt;
  fadd = λ a b. a +ℤ b;
  fsub = λ a b. a -ℤ b;
  fmul = λ a b. a *ℤ b;
  fdiv = λ a b. a /ℤ b;
  fmod = λ a b. a %ℤ b;
  fneg = λ a. pos 0 -ℤ a;
  of_int = λ a. a;
  strcmp = λ a b. pos 1;
  print_float = λ a. [];
  print_integer = λ a. [];
  print_reference = λ k p. [];
  metamethod = λ m k p. none;
}

toy-IsIeee : IsIeee toy
toy-IsIeee = record { equal_not_less = λ a b h. ground arith; same_bits = λ a b h k. ground arith }

arith_nozero-arith_op_example :
    (arith_nozero toy (integer (negsuc 6)) (integer (pos 2)) ≡ ok (integer (negsuc 2)))
    ↔ (arith_op toy div (integer (negsuc 6)) (integer (pos 2)) ≡ ok (integer (negsuc 2)))
arith_nozero-arith_op_example =
    arith_nozero-arith_op toy (integer (negsuc 6)) (integer (pos 2)) (integer (negsuc 2))

cmp_op_res_f-eq-cmp_op_res_example :
    cmp_op_res_f toy cmp_3w (float nan) (pos 4) ≡ cmp_op_res toy cmp_3w (float nan) (float (pos 4))
cmp_op_res_f-eq-cmp_op_res_example =
    cmp_op_res_f-eq-cmp_op_res toy cmp_3w (float nan) (pos 4) toy-IsIeee refl

three_equal : is_equal toy (integer (pos 3)) (float (pos 3)) ≡ true
unfolding is_equal
three_equal = refl

is_equal-obj_cmp_example : obj_cmp toy (integer (pos 3)) (float (pos 3)) ≡ ok (pos 0)
is_equal-obj_cmp_example =
    is_equal-obj_cmp toy (integer (pos 3)) (float (pos 3)) toy-IsIeee three_equal
