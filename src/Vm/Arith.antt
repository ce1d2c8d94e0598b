-- ===== src/Vm/Arith.antt =====
-- Arithmetic of squirrel/sqvm.cpp: the macros of the opcodes, ARITH_OP, BW_OP, NEG_OP and StringCat.
use Prim.Native.Nat.{bit_and, bit_or, bit_xor}
use quirrel.Prelude.{ℕ, ◌-◌, ◌^◌, List, [], ◌∷◌, ◌++◌, Bool, true, false, ◌&&◌, ◌||◌, if◌then◌else◌}
use quirrel.Prelude.{Option, some, none, Result, ok, err, ◌>>=◌}
use quirrel.Prelude.Int.{ℤ, pos, negsuc, ◌+ℤ◌, ◌-ℤ◌, ◌*ℤ◌, ◌/ℤ◌, ◌%ℤ◌, eq_ℤ}
use quirrel.Prelude.Words.{to_word, from_word, wrap}
use quirrel.Vm.Shift.{sq_safe_shift_left, sq_safe_shift_right, sq_safe_unsigned_shift_right}
use quirrel.Vm.Object.{
  Env, Obj, MetaMethod, VmError, null, bool, integer, float, string, reference, is_delegable,
  mt_add, mt_sub, mt_mul, mt_div, mt_modulo, mt_unm, mt_tostring, integer_division_by_zero,
  integer_modulo_by_zero, float_division_by_zero, float_modulo_by_zero, integer_overflow,
  division_by_zero, arith_on, bitwise_on, negate_on,
}

pub data ArithOp : Type 0 where
  add sub mul div modulo : ArithOp

pub data BitOp : Type 0 where
  bw_and bw_or bw_xor bw_shift_left bw_shift_right bw_unsigned_shift_right : BitOp

-- MIN_SQ_INTEGER
abbrev pub min_integer : ℤ
min_integer = negsuc (2 ^ 63 - 1)

-- A signed overflow, undefined in C++, wraps here, as it does in the builds.
unfoldable pub integer_arith : ArithOp → ℤ → ℤ → Result VmError ℤ
integer_arith add a b = ok (wrap (a +ℤ b))
integer_arith sub a b = ok (wrap (a -ℤ b))
integer_arith mul a b = ok (wrap (a *ℤ b))
integer_arith div a b =
    if eq_ℤ b (pos 0)
    then err integer_division_by_zero
    else if eq_ℤ b (negsuc 0) && eq_ℤ a min_integer
    then err integer_overflow
    else ok (a /ℤ b)
integer_arith modulo a b =
    if eq_ℤ b (pos 0)
    then err integer_modulo_by_zero
    else if eq_ℤ b (negsuc 0)
    then ok (pos 0)
    else ok (a %ℤ b)

unfoldable pub bitwise : BitOp → ℤ → ℤ → ℤ
bitwise bw_and a b = from_word 64 (bit_and (to_word 64 a) (to_word 64 b))
bitwise bw_or a b = from_word 64 (bit_or (to_word 64 a) (to_word 64 b))
bitwise bw_xor a b = from_word 64 (bit_xor (to_word 64 a) (to_word 64 b))
bitwise bw_shift_left a b = sq_safe_shift_left a b
bitwise bw_shift_right a b = sq_safe_shift_right a b
bitwise bw_unsigned_shift_right a b = sq_safe_unsigned_shift_right a b

abbrev pub arith_method : ArithOp → MetaMethod
arith_method add = mt_add
arith_method sub = mt_sub
arith_method mul = mt_mul
arith_method div = mt_div
arith_method modulo = mt_modulo

module _ (env : Env) where
  abbrev pub Object : Type 0
  Object = Obj env.Float

  unfoldable pub float_arith : ArithOp → env.Float → env.Float → Result VmError env.Float
  float_arith add a b = ok (env.fadd a b)
  float_arith sub a b = ok (env.fsub a b)
  float_arith mul a b = ok (env.fmul a b)
  float_arith div a b =
      if env.feq b (env.of_int (pos 0)) then err float_division_by_zero else ok (env.fdiv a b)
  float_arith modulo a b =
      if env.feq b (env.of_int (pos 0)) then err float_modulo_by_zero else ok (env.fmod a b)

  -- The delegate's closure for a metamethod, where the object can have a delegate.
  unfoldable pub get_meta_method :
      MetaMethod → Object → Option (List Object → Result VmError Object)
  get_meta_method mm (reference k p) = if is_delegable k then env.metamethod mm k p else none
  get_meta_method mm _ = none

  unfoldable pub arith_meta_method : ArithOp → Object → Object → Result VmError Object
  arith_meta_method op a b = elim (get_meta_method (arith_method op) a) [
    | none ↦ err arith_on
    | some closure ↦ closure (a ∷ b ∷ [])
  ]

  abbrev true_text : List ℕ
  true_text = b't' ∷ b'r' ∷ b'u' ∷ b'e' ∷ []

  abbrev false_text : List ℕ
  false_text = b'f' ∷ b'a' ∷ b'l' ∷ b's' ∷ b'e' ∷ []

  abbrev null_text : List ℕ
  null_text = b'n' ∷ b'u' ∷ b'l' ∷ b'l' ∷ []

  -- What a `_tostring` metamethod returned: a result that is no string falls through.
  abbrev string_or : List ℕ → Object → List ℕ
  string_or default (string s) = s
  string_or default _ = default

  unfoldable pub to_string : Object → Result VmError (List ℕ)
  to_string (string s) = ok s
  to_string (float f) = ok (env.print_float f)
  to_string (integer i) = ok (env.print_integer i)
  to_string (bool b) = ok (if b then true_text else false_text)
  to_string null = ok null_text
  to_string (reference k p) = elim (get_meta_method mt_tostring (reference k p)) [
    | none ↦ ok (env.print_reference k p)
    | some closure ↦ do
      res ← closure (reference k p ∷ [])
      ok (string_or (env.print_reference k p) res)
  ]

  unfoldable pub string_cat : Object → Object → Result VmError Object
  string_cat str obj = do a ← to_string str; b ← to_string obj; ok (string (a ++ b))

  abbrev pub is_string : Object → Bool
  is_string (string s) = true
  is_string _ = false

  abbrev is_add : ArithOp → Bool
  is_add add = true
  is_add _ = false

  -- The `default:` of ARITH_OP.
  unfoldable pub arith_other : ArithOp → Object → Object → Result VmError Object
  arith_other op a b =
      if is_add op && (is_string a || is_string b) then string_cat a b else arith_meta_method op a b

  abbrev to_integer : Result VmError ℤ → Result VmError Object
  to_integer r = r >>= λ z. ok (integer z)

  abbrev to_float : Result VmError env.Float → Result VmError Object
  to_float r = r >>= λ f. ok (float f)

  -- OT_NULL is 0, so that the types of null and a number, joined, are the number's: null counts as its
  -- own raw value, which is the integer 0 and the float 0.
  unfoldable pub arith_op : ArithOp → Object → Object → Result VmError Object
  arith_op op (integer a) (integer b) = to_integer (integer_arith op a b)
  arith_op op (integer a) (float b) = to_float (float_arith op (env.of_int a) b)
  arith_op op (float a) (integer b) = to_float (float_arith op a (env.of_int b))
  arith_op op (float a) (float b) = to_float (float_arith op a b)
  arith_op op null (integer b) = to_integer (integer_arith op (pos 0) b)
  arith_op op (integer a) null = to_integer (integer_arith op a (pos 0))
  arith_op op null (float b) = to_float (float_arith op (env.of_int (pos 0)) b)
  arith_op op (float a) null = to_float (float_arith op a (env.of_int (pos 0)))
  arith_op op a b = arith_other op a b

  unfoldable pub bw_op : BitOp → Object → Object → Result VmError Object
  bw_op op (integer a) (integer b) = ok (integer (bitwise op a b))
  bw_op op null (integer b) = ok (integer (bitwise op (pos 0) b))
  bw_op op (integer a) null = ok (integer (bitwise op a (pos 0)))
  bw_op op a b = err bitwise_on

  unfoldable pub neg_op : Object → Result VmError Object
  neg_op (integer a) = ok (integer (wrap (pos 0 -ℤ a)))
  neg_op (float a) = ok (float (env.fneg a))
  neg_op o = elim (get_meta_method mt_unm o) [
    | none ↦ err negate_on
    | some closure ↦ closure (o ∷ [])
  ]

  -- The integers that `_ARITH_` gives for `+`, `-` and `*`; its other operators go to ARITH_OP.
  abbrev pub macro_integers : ArithOp → ℤ → ℤ → Result VmError Object
  macro_integers add a b = ok (integer (wrap (a +ℤ b)))
  macro_integers sub a b = ok (integer (wrap (a -ℤ b)))
  macro_integers mul a b = ok (integer (wrap (a *ℤ b)))
  macro_integers div a b = arith_op div (integer a) (integer b)
  macro_integers modulo a b = arith_op modulo (integer a) (integer b)

  -- `_ARITH_`: the opcodes for `+`, `-` and `*`, with ARITH_OP for operands that are not numbers.
  unfoldable pub arith_macro : ArithOp → Object → Object → Result VmError Object
  arith_macro op (integer a) (integer b) = macro_integers op a b
  arith_macro op null (integer b) = macro_integers op (pos 0) b
  arith_macro op (integer a) null = macro_integers op a (pos 0)
  arith_macro op (integer a) (float b) = to_float (float_arith op (env.of_int a) b)
  arith_macro op (float a) (integer b) = to_float (float_arith op a (env.of_int b))
  arith_macro op (float a) (float b) = to_float (float_arith op a b)
  arith_macro op null (float b) = to_float (float_arith op (env.of_int (pos 0)) b)
  arith_macro op (float a) null = to_float (float_arith op a (env.of_int (pos 0)))
  arith_macro op a b = arith_op op a b

  -- The two cases of `_ARITH_NOZERO`.
  abbrev pub nozero_integers : ℤ → ℤ → Result VmError Object
  nozero_integers a b =
      if eq_ℤ b (pos 0)
      then err division_by_zero
      else if eq_ℤ b (negsuc 0) && eq_ℤ a min_integer
      then err integer_overflow
      else ok (integer (a /ℤ b))

  abbrev pub nozero_floats : env.Float → env.Float → Result VmError Object
  nozero_floats a b =
      if env.feq b (env.of_int (pos 0))
      then err float_division_by_zero
      else ok (float (env.fdiv a b))

  -- `_ARITH_NOZERO`: the opcode for `/`.
  unfoldable pub arith_nozero : Object → Object → Result VmError Object
  arith_nozero (integer a) (integer b) = nozero_integers a b
  arith_nozero null (integer b) = nozero_integers (pos 0) b
  arith_nozero (integer a) null = nozero_integers a (pos 0)
  arith_nozero (integer a) (float b) = nozero_floats (env.of_int a) b
  arith_nozero (float a) (integer b) = nozero_floats a (env.of_int b)
  arith_nozero (float a) (float b) = nozero_floats a b
  arith_nozero null (float b) = nozero_floats (env.of_int (pos 0)) b
  arith_nozero (float a) null = nozero_floats a (env.of_int (pos 0))
  arith_nozero a b = arith_op div a b
