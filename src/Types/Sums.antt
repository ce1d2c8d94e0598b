-- ===== src/Types/Sums.antt =====
-- The mask that squirrel/compiler/typeinference.cpp gives to `+`, against ARITH_OP of
-- squirrel/sqvm.cpp.
use quirrel.Prelude.{ℕ, List, ◌≡◌, refl, sym, ◌∙◌, ◌⊎◌, inl, inr, true, false, ok, ◌==◌, arith}
use quirrel.Prelude.Int.{ℤ}
use quirrel.Vm.Object.{
  table, user_data, class_instance, array, closure, native_closure, generator, user_pointer, thread,
  func_proto, class, weak_ref, outer, Env, Kind, Obj, null, bool, integer, float, string, reference,
  kind_bit, type_bit,
}
use quirrel.Vm.Arith.{add, Object, arith_op, arith_other, string_cat}
use quirrel.Types.Masks.{
  unknown, number, rt_integer, rt_float, rt_string, complement, has, sum_mask,
}
use quirrel.Types.Numbers.{integers-integer, floats-float}

-- A type that is neither a number nor a string.
abbrev IsOther : ℕ → Type 0
IsOther mask = (has mask (complement number) ≡ true) × ((mask == rt_string) ≡ false)

other_left : (lm rm : ℕ) → IsOther lm → (rm == rt_string) ≡ false → sum_mask lm rm ≡ unknown
unfolding sum_mask
other_left lm rm h k = ground arith

other_right : (lm rm : ℕ) → IsOther rm → (lm == rt_string) ≡ false → sum_mask lm rm ≡ unknown
unfolding sum_mask
other_right lm rm h k = ground arith

text_left : (rm : ℕ) → (sum_mask rt_string rm ≡ unknown) ⊎ (sum_mask rt_string rm ≡ rt_string)
unfolding sum_mask
text_left rm = ground arith

text_right : (lm : ℕ) → (sum_mask lm rt_string ≡ unknown) ⊎ (sum_mask lm rt_string ≡ rt_string)
unfolding sum_mask
text_right lm = ground arith

kind_bit-IsOther : (k : Kind) → IsOther (kind_bit k)
kind_bit-IsOther table = (refl, refl)
kind_bit-IsOther user_data = (refl, refl)
kind_bit-IsOther class_instance = (refl, refl)
kind_bit-IsOther array = (refl, refl)
kind_bit-IsOther closure = (refl, refl)
kind_bit-IsOther native_closure = (refl, refl)
kind_bit-IsOther generator = (refl, refl)
kind_bit-IsOther user_pointer = (refl, refl)
kind_bit-IsOther thread = (refl, refl)
kind_bit-IsOther func_proto = (refl, refl)
kind_bit-IsOther class = (refl, refl)
kind_bit-IsOther weak_ref = (refl, refl)
kind_bit-IsOther outer = (refl, refl)

data SummandView {F : Type 0} : Obj F → Type 0 where
  whole : (z : ℤ) → SummandView (integer z)
  real : (f : F) → SummandView (float f)
  text : (s : List ℕ) → SummandView (string s)
  opaque : {o : Obj F} → IsOther (type_bit o) → SummandView o

view : {F : Type 0} (o : Obj F) → SummandView o
view (integer z) = whole z
view (float f) = real f
view (string s) = text s
view null = opaque {o = null} (refl, refl)
view (bool b) = opaque {o = bool b} (refl, refl)
view (reference k p) = opaque {o = reference k p} (kind_bit-IsOther k)

module _ (env : Env) where
  string_cat-string :
      (a b : Object env) {r : Object env} → string_cat env a b ≡ ok r → type_bit r ≡ rt_string
  unfolding string_cat
  string_cat-string a b h = ground arith

  string_left :
      (s : List ℕ) (b : Object env) → arith_op env add (string s) b ≡ string_cat env (string s) b
  unfolding arith_op arith_other
  string_left s b = refl

  string_right :
      (a : Object env) (s : List ℕ) → arith_op env add a (string s) ≡ string_cat env a (string s)
  unfolding arith_op arith_other
  string_right null s = refl
  string_right (bool x) s = refl
  string_right (integer x) s = refl
  string_right (float x) s = refl
  string_right (string x) s = refl
  string_right (reference k p) s = refl

  -- On operands of which the exact types are known, the mask of `+` says nothing, or it is that of
  -- the type that the VM's result has.
  pub sum_mask-arith_op :
      (a b r : Object env)
      → arith_op env add a b ≡ ok r
      → (sum_mask (type_bit a) (type_bit b) ≡ unknown)
        ⊎ (sum_mask (type_bit a) (type_bit b) ≡ type_bit r)
  unfolding sum_mask arith_op
  sum_mask-arith_op a b r h = go (view a) (view b) h
    where
      known :
          {mask : ℕ}
          → (mask ≡ unknown) ⊎ (mask ≡ rt_string)
          → type_bit r ≡ rt_string
          → (mask ≡ unknown) ⊎ (mask ≡ type_bit r)
      known (inl e) k = inl e
      known (inr e) k = inr (e ∙ sym k)

      go :
          {a b : Object env}
          → SummandView a
          → SummandView b
          → arith_op env add a b ≡ ok r
          → (sum_mask (type_bit a) (type_bit b) ≡ unknown)
            ⊎ (sum_mask (type_bit a) (type_bit b) ≡ type_bit r)
      go {b} (text s) t e =
          known (text_left (type_bit b))
            (string_cat-string (string s) b (sym (string_left s b) ∙ e))
      go {a} t (text s) e =
          known (text_right (type_bit a))
            (string_cat-string a (string s) (sym (string_right a s) ∙ e))
      go {a} (opaque h) (whole y) e = inl (other_left (type_bit a) rt_integer h refl)
      go {a} (opaque h) (real y) e = inl (other_left (type_bit a) rt_float h refl)
      go {a} {b} (opaque h) (opaque k) e = inl (other_left (type_bit a) (type_bit b) h k.1)
      go {b} (whole x) (opaque h) e = inl (other_right rt_integer (type_bit b) h refl)
      go {b} (real x) (opaque h) e = inl (other_right rt_float (type_bit b) h refl)
      go (whole x) (whole y) e = inr (sym (integers-integer env add x y e))
      go (whole x) (real y) e = inr (sym (floats-float env add (env.of_int x) y e))
      go (real x) (whole y) e = inr (sym (floats-float env add x (env.of_int y) e))
      go (real x) (real y) e = inr (sym (floats-float env add x y e))
