-- ===== src/Optimizer/Folded.antt =====
-- A folded operation of squirrel/compiler/optimizer.cpp against the opcode.
use quirrel.Prelude.{ℕ, suc, ◌*◌, ◌^◌, ◌≤◌, ◌≡◌, refl, arith, Option, some, none, Result, ok}
use quirrel.Prelude.Int.{ℤ, pos, negsuc, ◌+ℤ◌, ◌-ℤ◌, ◌*ℤ◌, +ℤ_parts, -ℤ_parts}
use quirrel.Prelude.Words.{Fits, wrap-eq}
use quirrel.Prelude.Narrow.{bit_and-IsNarrow, bit_or-IsNarrow, bit_xor-IsNarrow}
use quirrel.Vm.Object.{Env, VmError, integer, float}
use quirrel.Vm.Arith.{
  ArithOp, BitOp, Object, add, sub, mul, div, modulo, bw_and, bw_or, bw_xor, bw_shift_left,
  bw_shift_right, bw_unsigned_shift_right, arith_macro, arith_nozero, arith_op, integer_arith,
  float_arith, bitwise, bw_op,
}
use quirrel.Optimizer.Code.{Instruction, Registers, put, operate, execute}
use quirrel.Optimizer.Fold.{
  fold_int, fold_bits, Constant, int_constant, float_constant, as_float, fold_float, integer_result,
  float_result, fold_arith, fold_bitw,
}

pub add-Fits : (a b : ℤ) → Fits 32 a → Fits 32 b → Fits 64 (a +ℤ b)
add-Fits a b p q = omega (arith, +ℤ_parts a b, p.0, p.1, q.0, q.1)

product : (a b : ℕ) → a ≤ 2 ^ 31 → b ≤ 2 ^ 31 → a * b ≤ 2 ^ 62
product a b p q = grind arith

mul-Fits : (a b : ℤ) → Fits 32 a → Fits 32 b → Fits 64 (a *ℤ b)
unfolding ◌*ℤ◌
mul-Fits (pos a) (pos b) p q = ground (arith, product a b)
mul-Fits (pos a) (negsuc b) p q = ground (arith, product a (suc b))
mul-Fits (negsuc a) (pos b) p q = ground (arith, product (suc a) b)
mul-Fits (negsuc a) (negsuc b) p q = ground (arith, product (suc a) (suc b))

sub-Fits : (a b : ℤ) → Fits 32 a → Fits 32 b → Fits 64 (a -ℤ b)
sub-Fits a b p q = omega (arith, -ℤ_parts a b, p.0, p.1, q.0, q.1)

-- Two folded integers: the value is the one that the opcode computes.
module _ (env : Env) where
  -- What a load of the constant puts into its register.
  abbrev pub object_of : Constant env → Object env
  object_of (int_constant z) = integer z
  object_of (float_constant f) = float f

  -- `_arg1` of a load is an SQInt32.
  abbrev pub IsInt32 : Constant env → Type 0
  IsInt32 (int_constant z) = Fits 32 z
  IsInt32 (float_constant f) = Unit

  -- One of the two is a float.
  abbrev IsMixed : Constant env → Constant env → Type 0
  IsMixed (int_constant _) (int_constant _) = ⊥
  IsMixed _ _ = Unit

  fold_int-operate :
      (op : ArithOp) (lv rv : ℤ) {z : ℤ}
      → Fits 32 lv
      → Fits 32 rv
      → fold_int op lv rv ≡ some z
      → operate env op (integer lv) (integer rv) ≡ ok (integer z)
  unfolding fold_int operate arith_macro arith_nozero arith_op integer_arith
  fold_int-operate add lv rv p q h = ground (arith, wrap-eq (lv +ℤ rv) (add-Fits lv rv p q))
  fold_int-operate sub lv rv p q h = ground (arith, wrap-eq (lv -ℤ rv) (sub-Fits lv rv p q))
  fold_int-operate mul lv rv p q h = ground (arith, wrap-eq (lv *ℤ rv) (mul-Fits lv rv p q))
  fold_int-operate div lv rv p q h = ground arith
  fold_int-operate modulo lv rv p q h = ground arith

  fold_bits-bw_op :
      (op : BitOp) (lv rv : ℤ) {z : ℤ}
      → Fits 32 lv
      → Fits 32 rv
      → fold_bits op lv rv ≡ some z
      → bw_op env op (integer lv) (integer rv) ≡ ok (integer z)
  unfolding fold_bits bw_op bitwise
  fold_bits-bw_op bw_and lv rv p q h = ground (arith, bit_and-IsNarrow lv rv p q)
  fold_bits-bw_op bw_or lv rv p q h = ground (arith, bit_or-IsNarrow lv rv p q)
  fold_bits-bw_op bw_xor lv rv p q h = ground (arith, bit_xor-IsNarrow lv rv p q)
  fold_bits-bw_op bw_shift_left lv rv p q h = ground arith
  fold_bits-bw_op bw_shift_right lv rv p q h = ground arith
  fold_bits-bw_op bw_unsigned_shift_right lv rv p q h = ground arith

  fold_float-operate :
      (op : ArithOp) (l r : Constant env) {f : env.Float}
      → IsMixed l r
      → fold_float env op (as_float env l) (as_float env r) ≡ some f
      → operate env op (object_of l) (object_of r) ≡ ok (float f)
  unfolding fold_float operate arith_macro arith_nozero arith_op float_arith
  fold_float-operate op l r m h = ground arith

  -- `i` puts the value of `result` into register `t`, whatever the registers hold.
  pub record Folds (t : ℕ) (i : Instruction env) (result : Result VmError (Object env))
      : Type 0 where
    pub value : Object env
    pub returns : result ≡ ok value
    pub writes : (regs : Registers env) → execute env i regs ≡ ok (put env regs t value)

  pub integer_result-Folds :
      (t : ℕ) (o : Option ℤ) (i : Instruction env) (result : Result VmError (Object env))
      → ((z : ℤ) → o ≡ some z → result ≡ ok (integer z))
      → integer_result env t o ≡ some i
      → Folds t i result
  unfolding execute
  integer_result-Folds t none i result h e = absurd (cc)
  integer_result-Folds t (some z) i result h e = record {
    value = integer z;
    returns = h z refl;
    writes = λ regs. ground arith;
  }

  pub float_result-Folds :
      (t : ℕ) (o : Option env.Float) (i : Instruction env) (result : Result VmError (Object env))
      → ((f : env.Float) → o ≡ some f → result ≡ ok (float f))
      → float_result env t o ≡ some i
      → Folds t i result
  unfolding execute
  float_result-Folds t none i result h e = absurd (cc)
  float_result-Folds t (some f) i result h e = record {
    value = float f;
    returns = h f refl;
    writes = λ regs. ground arith;
  }

  pub fold_arith-Folds :
      (op : ArithOp) (t : ℕ) (l r : Constant env) (i : Instruction env)
      → IsInt32 l
      → IsInt32 r
      → fold_arith env op t l r ≡ some i
      → Folds t i (operate env op (object_of l) (object_of r))
  unfolding fold_arith
  fold_arith-Folds op t (int_constant a) (int_constant b) i p q e =
      integer_result-Folds t (fold_int op a b) i _ (λ z h. fold_int-operate op a b p q h) e
  fold_arith-Folds op t (int_constant a) (float_constant b) i p q e =
      float_result-Folds t _ i _
        (λ f h. fold_float-operate op (int_constant a) (float_constant b) tt h) e
  fold_arith-Folds op t (float_constant a) (int_constant b) i p q e =
      float_result-Folds t _ i _
        (λ f h. fold_float-operate op (float_constant a) (int_constant b) tt h) e
  fold_arith-Folds op t (float_constant a) (float_constant b) i p q e =
      float_result-Folds t _ i _
        (λ f h. fold_float-operate op (float_constant a) (float_constant b) tt h) e

  pub fold_bitw-Folds :
      (op : BitOp) (t : ℕ) (l r : Constant env) (i : Instruction env)
      → IsInt32 l
      → IsInt32 r
      → fold_bitw env op t l r ≡ some i
      → Folds t i (bw_op env op (object_of l) (object_of r))
  unfolding fold_bitw
  fold_bitw-Folds op t (int_constant a) (int_constant b) i p q e =
      integer_result-Folds t (fold_bits op a b) i _ (λ z h. fold_bits-bw_op op a b p q h) e
  fold_bitw-Folds op t (int_constant a) (float_constant b) i p q e = absurd (cc)
  fold_bitw-Folds op t (float_constant a) r i p q e = absurd (cc)
