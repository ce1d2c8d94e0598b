-- ===== src/Optimizer/Fold.antt =====
-- The arithmetic of `SQOptimizer::optimizeConstFolding` in squirrel/compiler/optimizer.cpp.
use Prim.Native.Nat.{bit_and, bit_or, bit_xor}
use quirrel.Prelude.{ℕ, ◌-◌, ◌^◌, Bool, not, ◌&&◌, ◌||◌, ◌==◌, if◌then◌else◌, Option, some, none}
use quirrel.Prelude.Int.{ℤ, pos, negsuc, ◌+ℤ◌, ◌-ℤ◌, ◌*ℤ◌, ◌/ℤ◌, ◌%ℤ◌, ltb_ℤ}
use quirrel.Prelude.Words.{to_word, from_word}
use quirrel.Vm.Shift.{sq_safe_shift_left}
use quirrel.Vm.Object.{Env, integer}
use quirrel.Vm.Arith.{
  ArithOp, BitOp, add, sub, mul, div, modulo, bw_and, bw_or, bw_xor, bw_shift_left, bw_shift_right,
  bw_unsigned_shift_right,
}
use quirrel.Optimizer.Code.{Instruction, load_int, load_float, load, arith, bitw, add_i}

-- `rv < -1 || rv > 0`
abbrev pub divides_safely : ℤ → Bool
divides_safely rv = ltb_ℤ rv (negsuc 0) || ltb_ℤ (pos 0) rv

-- Two integer constants. The operands are 32-bit, and sums and products are taken at 64 bits.
unfoldable pub fold_int : ArithOp → ℤ → ℤ → Option ℤ
fold_int add lv rv = some (lv +ℤ rv)
fold_int sub lv rv = some (lv -ℤ rv)
fold_int mul lv rv = some (lv *ℤ rv)
fold_int div lv rv = if divides_safely rv then some (lv /ℤ rv) else none
fold_int modulo lv rv = if divides_safely rv then some (lv %ℤ rv) else none

unfoldable pub fold_bits : BitOp → ℤ → ℤ → Option ℤ
fold_bits bw_and lv rv = some (from_word 32 (bit_and (to_word 32 lv) (to_word 32 rv)))
fold_bits bw_or lv rv = some (from_word 32 (bit_or (to_word 32 lv) (to_word 32 rv)))
fold_bits bw_xor lv rv = some (from_word 32 (bit_xor (to_word 32 lv) (to_word 32 rv)))
fold_bits bw_shift_left lv rv = some (sq_safe_shift_left lv rv)
fold_bits bw_shift_right lv rv = none
fold_bits bw_unsigned_shift_right lv rv = none

module _ (env : Env) where
  -- What a load puts into its register.
  pub data Constant : Type 0 where
    int_constant : ℤ → Constant
    float_constant : env.Float → Constant

  abbrev pub as_float : Constant → env.Float
  as_float (int_constant z) = env.of_int z
  as_float (float_constant f) = f

  unfoldable pub fold_float : ArithOp → env.Float → env.Float → Option env.Float
  fold_float add lv rv = some (env.fadd lv rv)
  fold_float sub lv rv = some (env.fsub lv rv)
  fold_float mul lv rv = some (env.fmul lv rv)
  fold_float div lv rv = if env.feq rv (env.of_int (pos 0)) then none else some (env.fdiv lv rv)
  fold_float modulo lv rv = none

  abbrev fits_int32 : ℤ → Bool
  fits_int32 z = not (ltb_ℤ z (negsuc (2 ^ 31 - 1)) || ltb_ℤ (pos (2 ^ 31 - 1)) z)

  -- `_OP_LOADINT`, or `_OP_LOAD` of a numeric constant if the result is wider than 32 bits.
  abbrev pub integer_result : ℕ → Option ℤ → Option (Instruction env)
  integer_result t none = none
  integer_result t (some z) = some (if fits_int32 z then load_int t z else load t (integer z))

  abbrev pub float_result : ℕ → Option env.Float → Option (Instruction env)
  float_result t none = none
  float_result t (some f) = some (load_float t f)

  -- The instruction that replaces the operation, given the left and the right constant.
  unfoldable pub fold_arith : ArithOp → ℕ → Constant → Constant → Option (Instruction env)
  fold_arith op t (int_constant lv) (int_constant rv) = integer_result t (fold_int op lv rv)
  fold_arith op t lv rv = float_result t (fold_float op (as_float lv) (as_float rv))

  unfoldable pub fold_bitw : BitOp → ℕ → Constant → Constant → Option (Instruction env)
  fold_bitw op t (int_constant lv) (int_constant rv) = integer_result t (fold_bits op lv rv)
  fold_bitw op t lv rv = none

  unfoldable pub load_of : ℕ → Constant → Instruction env
  load_of r (int_constant z) = load_int r z
  load_of r (float_constant f) = load_float r f

  -- Registers `a` and `b` of the two loads against the operands `_arg1` and `_arg2`: the constants
  -- in the order left, right. `reversed` is the order of the source.
  unfoldable pub operands : ℕ → Constant → ℕ → Constant → ℕ → ℕ → Option (Constant × Constant)
  operands a ca b cb arg1 arg2 =
      if a == b
      then none
      else if b == arg2 && a == arg1
      then some (cb, ca)
      else if b == arg1 && a == arg2
      then some (ca, cb)
      else none

  abbrev with_operands :
      Option (Constant × Constant)
      → (Constant → Constant → Option (Instruction env))
      → Option (Instruction env)
  with_operands none make = none
  with_operands (some (l, r)) make = make l r

  -- The window `loadA`, `loadB`, `operation`: what is written in place of `operation`.
  unfoldable pub fold_window :
      ℕ → Constant → ℕ → Constant → Instruction env → Option (Instruction env)
  fold_window a ca b cb (arith op t arg1 arg2) =
      with_operands (operands a ca b cb arg1 arg2) (fold_arith op t)
  fold_window a ca b cb (bitw op t arg1 arg2) =
      with_operands (operands a ca b cb arg1 arg2) (fold_bitw op t)
  fold_window a ca b cb _ = none

  -- The window `loadA`, `_OP_ADDI`.
  unfoldable pub fold_add_i : ℕ → Constant → Instruction env → Option (Instruction env)
  fold_add_i a (int_constant lv) (add_i t rv arg2) =
      if a == arg2 then integer_result t (some (lv +ℤ rv)) else none
  fold_add_i a (float_constant lv) (add_i t rv arg2) =
      if a == arg2 then float_result t (some (env.fadd lv (env.of_int rv))) else none
  fold_add_i a ca _ = none
