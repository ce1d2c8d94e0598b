-- ===== src/Types/Numbers.antt =====
-- The masks that squirrel/compiler/typeinference.cpp gives to arithmetic, against the arithmetic of
-- squirrel/sqvm.cpp.
use quirrel.Prelude.{ℕ, ◌≡◌, refl, sym, ◌>>=◌, ◌⊎◌, inl, inr, true, ok, arith}
use quirrel.Prelude.Int.{ℤ}
use quirrel.Vm.Object.{
  table, user_data, class_instance, array, closure, native_closure, generator, user_pointer, thread,
  func_proto, class, weak_ref, outer, Env, Kind, Obj, null, bool, integer, float, string, reference,
  kind_bit, type_bit,
}
use quirrel.Vm.Arith.{ArithOp, Object, arith_op, float_arith, integer_arith}
use quirrel.Types.Masks.{unknown, number, rt_integer, rt_float, complement, has, arithmetic_mask}

-- A type that is no number.
abbrev IsOther : ℕ → Type 0
IsOther mask = has mask (complement number) ≡ true

outside_left : (lm rm : ℕ) → IsOther lm → arithmetic_mask lm rm ≡ unknown
unfolding arithmetic_mask
outside_left lm rm h = ground arith

outside_right : (lm rm : ℕ) → IsOther rm → arithmetic_mask lm rm ≡ unknown
unfolding arithmetic_mask
outside_right lm rm h = ground arith

kind_bit-IsOther : (k : Kind) → IsOther (kind_bit k)
kind_bit-IsOther table = refl
kind_bit-IsOther user_data = refl
kind_bit-IsOther class_instance = refl
kind_bit-IsOther array = refl
kind_bit-IsOther closure = refl
kind_bit-IsOther native_closure = refl
kind_bit-IsOther generator = refl
kind_bit-IsOther user_pointer = refl
kind_bit-IsOther thread = refl
kind_bit-IsOther func_proto = refl
kind_bit-IsOther class = refl
kind_bit-IsOther weak_ref = refl
kind_bit-IsOther outer = refl

-- A number by its type, or an object of another type.
data NumberView {F : Type 0} : Obj F → Type 0 where
  whole : (z : ℤ) → NumberView (integer z)
  real : (f : F) → NumberView (float f)
  other_type : {o : Obj F} → IsOther (type_bit o) → NumberView o

classify : {F : Type 0} (o : Obj F) → NumberView o
classify (integer z) = whole z
classify (float f) = real f
classify null = other_type {o = null} refl
classify (bool b) = other_type {o = bool b} refl
classify (string s) = other_type {o = string s} refl
classify (reference k p) = other_type {o = reference k p} (kind_bit-IsOther k)

module _ (env : Env) where
  pub integers-integer :
      (op : ArithOp) (a b : ℤ) {r : Object env}
      → arith_op env op (integer a) (integer b) ≡ ok r
      → type_bit r ≡ rt_integer
  unfolding arith_op integer_arith
  integers-integer op a b h = ground arith

  -- Where a float takes part, both operands go through `float_arith`.
  pub floats-float :
      (op : ArithOp) (x y : env.Float) {r : Object env}
      → (float_arith env op x y >>= λ f. ok (float f)) ≡ ok r
      → type_bit r ≡ rt_float
  unfolding float_arith
  floats-float op x y h = ground arith

  -- On operands of which the exact types are known, the mask of `*`, `/`, `-` and `%` says nothing,
  -- or it is that of the type that the VM's result has.
  pub arithmetic_mask-arith_op :
      (op : ArithOp) (a b r : Object env)
      → arith_op env op a b ≡ ok r
      → (arithmetic_mask (type_bit a) (type_bit b) ≡ unknown)
        ⊎ (arithmetic_mask (type_bit a) (type_bit b) ≡ type_bit r)
  unfolding arithmetic_mask arith_op
  arithmetic_mask-arith_op op a b r h = go (classify a) (classify b) h
    where
      go :
          {a b : Object env}
          → NumberView a
          → NumberView b
          → arith_op env op a b ≡ ok r
          → (arithmetic_mask (type_bit a) (type_bit b) ≡ unknown)
            ⊎ (arithmetic_mask (type_bit a) (type_bit b) ≡ type_bit r)
      go {b} (other_type h) s e = inl (outside_left _ (type_bit b) h)
      go {a} s (other_type h) e = inl (outside_right (type_bit a) _ h)
      go (whole x) (whole y) e = inr (sym (integers-integer op x y e))
      go (whole x) (real y) e = inr (sym (floats-float op (env.of_int x) y e))
      go (real x) (whole y) e = inr (sym (floats-float op x (env.of_int y) e))
      go (real x) (real y) e = inr (sym (floats-float op x y e))
