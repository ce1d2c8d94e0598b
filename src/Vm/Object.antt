-- ===== src/Vm/Object.antt =====
-- SQObjectPtr of squirrel/sqobject.h and include/squirrel.h, and what the VM takes from outside:
-- the float unit, the C library, and the scripts that metamethods run.
use quirrel.Prelude.{ℕ, List, Bool, true, false, Option, Result}
use quirrel.Prelude.Int.{ℤ}

-- The types that are references with an address, SQObjectType without the scalars and strings.
pub data Kind : Type 0 where
  table user_data class_instance array closure native_closure generator user_pointer thread : Kind
  func_proto class weak_ref outer : Kind

-- A string is interned, so it is its bytes.
pub data Obj (F : Type 0) : Type 0 where
  null : Obj F
  bool : Bool → Obj F
  integer : ℤ → Obj F
  float : F → Obj F
  string : List ℕ → Obj F
  reference : Kind → ℕ → Obj F

pub data MetaMethod : Type 0 where
  mt_add mt_sub mt_mul mt_div mt_modulo mt_unm mt_cmp mt_tostring : MetaMethod

-- What Raise_Error is called with, and an error that a script raised.
pub data VmError : Type 0 where
  integer_division_by_zero integer_modulo_by_zero float_division_by_zero : VmError
  float_modulo_by_zero integer_overflow division_by_zero : VmError
  arith_on bitwise_on negate_on compare_error cmp_not_integer bitwise_failed script_error : VmError

-- `metamethod` is the effect of CallMetaMethod on a delegate's closure, as a value or an error; its
-- effect on the heap is not modelled. It is none where the object has no delegate or no such method.
pub record Env : Type 1 where
  pub Float : Type 0
  pub raw_eq : Float → Float → Bool
  pub feq : Float → Float → Bool
  pub flt : Float → Float → Bool
  pub fadd : Float → Float → Float
  pub fsub : Float → Float → Float
  pub fmul : Float → Float → Float
  pub fdiv : Float → Float → Float
  pub fmod : Float → Float → Float
  pub fneg : Float → Float
  pub of_int : ℤ → Float
  pub strcmp : List ℕ → List ℕ → ℤ
  pub print_float : Float → List ℕ
  pub print_integer : ℤ → List ℕ
  pub print_reference : Kind → ℕ → List ℕ
  pub metamethod : MetaMethod → Kind → ℕ → Option (List (Obj Float) → Result VmError (Obj Float))

-- `is_delegable`
unfoldable pub is_delegable : Kind → Bool
is_delegable table = true
is_delegable user_data = true
is_delegable class_instance = true
is_delegable _ = false

-- `_RT_…`: the type's bit in a type mask, for the references.
abbrev pub kind_bit : Kind → ℕ
kind_bit table = 0x20
kind_bit array = 0x40
kind_bit user_data = 0x80
kind_bit closure = 0x100
kind_bit native_closure = 0x200
kind_bit generator = 0x400
kind_bit user_pointer = 0x800
kind_bit thread = 0x1000
kind_bit func_proto = 0x2000
kind_bit class = 0x4000
kind_bit class_instance = 0x8000
kind_bit weak_ref = 0x10000
kind_bit outer = 0x20000

-- `_RT_…` for every object.
abbrev pub type_bit : {F : Type 0} → Obj F → ℕ
type_bit null = 0x1
type_bit (integer z) = 0x2
type_bit (float f) = 0x4
type_bit (bool b) = 0x8
type_bit (string s) = 0x10
type_bit (reference k p) = kind_bit k
