-- ===== src/Vm/Compare.antt =====
-- Comparison of squirrel/sqvm.cpp: ObjCmp and its variants for constants, and CMP_OP.
use quirrel.Prelude.{[], ◌∷◌, Bool, true, false, not, ◌&&◌, ◌==◌, if◌then◌else◌}
use quirrel.Prelude.{some, none, Result, ok, err, ◌>>=◌}
use quirrel.Prelude.Int.{ℤ, pos, negsuc, eq_ℤ, ltb_ℤ, leb_ℤ}
use quirrel.Prelude.Words.{to_word, from_word}
use quirrel.Vm.Object.{
  Env, VmError, null, bool, integer, float, string, reference, mt_cmp, compare_error, kind_bit,
  cmp_not_integer,
}
use quirrel.Vm.Arith.{Object, get_meta_method}
use quirrel.Serializer.Value.{bytes_eq}

pub data CmpOp : Type 0 where
  cmp_g cmp_ge cmp_l cmp_le cmp_3w : CmpOp

abbrev minus_one : ℤ
minus_one = negsuc 0

-- `(a < b) ? -1 : 1`, for values that are not equal.
abbrev order : Bool → ℤ
order less = if less then minus_one else pos 1

abbrev bool_lt : Bool → Bool → Bool
bool_lt a b = not a && b

abbrev bool_eq : Bool → Bool → Bool
bool_eq true b = b
bool_eq false b = not b

module _ (env : Env) where
  -- What `_cmp` returned: an integer, or an error.
  abbrev cmp_result : Object env → Result VmError ℤ
  cmp_result (integer z) = ok z
  cmp_result _ = err cmp_not_integer

  -- An integer against a float, as floats.
  abbrev cmp_floats : env.Float → env.Float → ℤ
  cmp_floats a b = if env.feq a b then pos 0 else if env.flt a b then minus_one else pos 1

  unfoldable pub obj_cmp : Object env → Object env → Result VmError ℤ
  obj_cmp null null = ok (pos 0)
  obj_cmp (string a) (string b) = ok (if bytes_eq a b then pos 0 else env.strcmp a b)
  obj_cmp (integer a) (integer b) = ok (if eq_ℤ a b then pos 0 else order (ltb_ℤ a b))
  obj_cmp (bool a) (bool b) = ok (if bool_eq a b then pos 0 else order (bool_lt a b))
  obj_cmp (float a) (float b) = ok (
      if env.raw_eq a b
      then pos 0
      else if env.flt a b
      then minus_one
      else if env.feq a b
      then pos 0
      else pos 1)
  obj_cmp (reference k p) (reference j q) =
      if kind_bit k == kind_bit j
      then if p == q then ok (pos 0) else elim (get_meta_method env mt_cmp (reference k p)) [
        | none ↦ err compare_error
        | some closure ↦ closure (reference k p ∷ reference j q ∷ []) >>= cmp_result
      ]
      else err compare_error
  obj_cmp (integer a) (float b) = ok (cmp_floats (env.of_int a) b)
  obj_cmp (float a) (integer b) = ok (cmp_floats a (env.of_int b))
  obj_cmp null b = ok minus_one
  obj_cmp a null = ok (pos 1)
  obj_cmp a b = err compare_error

  unfoldable pub obj_cmp_i : Object env → ℤ → Result VmError ℤ
  obj_cmp_i (integer a) b = ok (if eq_ℤ a b then pos 0 else order (ltb_ℤ a b))
  obj_cmp_i (float a) b = ok (cmp_floats a (env.of_int b))
  obj_cmp_i null b = ok minus_one
  obj_cmp_i a b = err compare_error

  unfoldable pub obj_cmp_f : Object env → env.Float → Result VmError ℤ
  obj_cmp_f (float a) b = ok (cmp_floats a b)
  obj_cmp_f (integer a) b = ok (cmp_floats (env.of_int a) b)
  obj_cmp_f null b = ok minus_one
  obj_cmp_f a b = err compare_error

  -- The test of a comparison's sign; for CMP_3W the number, narrowed to `int`.
  unfoldable pub test : CmpOp → ℤ → ℤ
  test cmp_g r = if ltb_ℤ (pos 0) r then pos 1 else pos 0
  test cmp_ge r = if leb_ℤ (pos 0) r then pos 1 else pos 0
  test cmp_l r = if ltb_ℤ r (pos 0) then pos 1 else pos 0
  test cmp_le r = if leb_ℤ r (pos 0) then pos 1 else pos 0
  test cmp_3w r = from_word 32 (to_word 32 r)

  unfoldable pub cmp_op_res_i : CmpOp → Object env → ℤ → Result VmError ℤ
  cmp_op_res_i op o b = obj_cmp_i o b >>= λ r. ok (test op r)

  unfoldable pub cmp_op_res_f : CmpOp → Object env → env.Float → Result VmError ℤ
  cmp_op_res_f op o b = obj_cmp_f o b >>= λ r. ok (test op r)

  unfoldable pub cmp_op_res : CmpOp → Object env → Object env → Result VmError ℤ
  cmp_op_res op a b = obj_cmp a b >>= λ r. ok (test op r)

  -- The result is a bool, but an integer for CMP_3W.
  abbrev boxed : CmpOp → ℤ → Object env
  boxed cmp_3w r = integer r
  boxed op r = bool (eq_ℤ (test op r) (pos 1))

  unfoldable pub cmp_op : CmpOp → Object env → Object env → Result VmError (Object env)
  cmp_op op a b = obj_cmp a b >>= λ r. ok (boxed op r)

  -- `IsEqual`
  unfoldable pub is_equal : Object env → Object env → Bool
  is_equal null null = true
  is_equal (bool a) (bool b) = bool_eq a b
  is_equal (integer a) (integer b) = eq_ℤ a b
  is_equal (float a) (float b) = env.feq a b
  is_equal (string a) (string b) = bytes_eq a b
  is_equal (reference k p) (reference j q) = kind_bit k == kind_bit j && p == q
  is_equal (integer a) (float b) = env.feq (env.of_int a) b
  is_equal (float a) (integer b) = env.feq a (env.of_int b)
  is_equal a b = false

  -- `IsFalse`: the raw value is 0, or the float equals 0.0. A reference is never the null pointer.
  unfoldable pub is_false : Object env → Bool
  is_false null = true
  is_false (bool b) = not b
  is_false (integer z) = eq_ℤ z (pos 0)
  is_false (float f) = env.feq f (env.of_int (pos 0))
  is_false (string s) = false
  is_false (reference k p) = p == 0
