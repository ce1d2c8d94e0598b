-- ===== src/Vm/Laws.antt =====
-- The fast paths of squirrel/sqvm.cpp against the general operations, and comparison against
-- equality.
use quirrel.Prelude.{true, false, ◌≡◌, ◌↔◌, refl, arith, ok}
use quirrel.Prelude.Int.{ℤ, pos}
use quirrel.Vm.Object.{Env, null, bool, integer, float, string, reference}
use quirrel.Vm.Arith.{
  ArithOp, Object, div, integer_arith, float_arith, arith_op, arith_macro, arith_nozero,
}
use quirrel.Vm.Compare.{
  CmpOp, obj_cmp, obj_cmp_i, obj_cmp_f, cmp_op_res, cmp_op_res_i, cmp_op_res_f, is_equal,
}

-- What IEEE comparison gives: equal numbers are not ordered, and a number that is not NaN equals
-- one with the same bits.
pub record IsIeee (env : Env) : Type 0 where
  pub equal_not_less : (a b : env.Float) → env.feq a b ≡ true → env.flt a b ≡ false
  pub same_bits :
      (a b : env.Float) → env.raw_eq a b ≡ true → env.feq b b ≡ true → env.feq a b ≡ true

module _ (env : Env) where
  -- The opcodes for `+`, `-` and `*` compute what ARITH_OP does, on all operands.
  pub arith_macro-eq-arith_op :
      (op : ArithOp) (a b : Object env) → arith_macro env op a b ≡ arith_op env op a b
  unfolding arith_macro arith_op integer_arith
  arith_macro-eq-arith_op op a b = ground arith

  -- The opcode for `/` has a result exactly when ARITH_OP does, and then the same one.
  pub arith_nozero-arith_op :
      (a b r : Object env) → (arith_nozero env a b ≡ ok r) ↔ (arith_op env div a b ≡ ok r)
  unfolding arith_nozero arith_op integer_arith float_arith
  arith_nozero-arith_op a b r = (ground arith, ground arith)

  -- The comparison with an integer constant is the general comparison with that integer.
  pub cmp_op_res_i-eq-cmp_op_res :
      (op : CmpOp) (a : Object env) (b : ℤ)
      → cmp_op_res_i env op a b ≡ cmp_op_res env op a (integer b)
  unfolding cmp_op_res_i cmp_op_res obj_cmp_i obj_cmp
  cmp_op_res_i-eq-cmp_op_res op null b = refl
  cmp_op_res_i-eq-cmp_op_res op (bool x) b = refl
  cmp_op_res_i-eq-cmp_op_res op (integer x) b = refl
  cmp_op_res_i-eq-cmp_op_res op (float x) b = refl
  cmp_op_res_i-eq-cmp_op_res op (string x) b = refl
  cmp_op_res_i-eq-cmp_op_res op (reference k p) b = refl

  -- With comparison as in IEEE 754, the comparison with a float constant that is not NaN is the
  -- general comparison with that float.
  pub cmp_op_res_f-eq-cmp_op_res :
      (op : CmpOp) (a : Object env) (b : env.Float)
      → IsIeee env
      → env.feq b b ≡ true
      → cmp_op_res_f env op a b ≡ cmp_op_res env op a (float b)
  unfolding cmp_op_res_f cmp_op_res obj_cmp_f obj_cmp
  cmp_op_res_f-eq-cmp_op_res op null b h n = refl
  cmp_op_res_f-eq-cmp_op_res op (bool x) b h n = refl
  cmp_op_res_f-eq-cmp_op_res op (integer x) b h n = refl
  cmp_op_res_f-eq-cmp_op_res op (float x) b h n =
      ground (arith, h.equal_not_less x b, h.same_bits x b)
  cmp_op_res_f-eq-cmp_op_res op (string x) b h n = refl
  cmp_op_res_f-eq-cmp_op_res op (reference k p) b h n = refl

  -- With comparison as in IEEE 754, objects that `==` finds equal compare as 0, so that no
  -- order holds strictly between them.
  pub is_equal-obj_cmp :
      (a b : Object env) → IsIeee env → is_equal env a b ≡ true → obj_cmp env a b ≡ ok (pos 0)
  unfolding is_equal obj_cmp
  is_equal-obj_cmp (float x) (float y) h e = ground (arith, h.equal_not_less x y)
  is_equal-obj_cmp (reference k p) (reference j q) h e = ground arith
  is_equal-obj_cmp a b h e = ground arith
