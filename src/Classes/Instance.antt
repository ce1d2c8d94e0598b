-- ===== src/Classes/Instance.antt =====
-- squirrel/sqclass.h: reading and writing the members of an SQInstance, those in its userdata included.
use quirrel.Prelude.{
  ℕ, zero, suc, ◌+◌, ◌*◌, ◌/◌, ◌%◌, ◌^◌, ◌<◌, Bool, true, false, not, ◌==◌, ltb, if◌then◌else◌,
  Option, none, some, length, set,
}
use quirrel.Prelude.Int.{ℤ, pos, negsuc}
use quirrel.Prelude.Words.{to_word, from_word}
use quirrel.Vm.Object.{Obj}
use quirrel.Vm.Object.{integer, float}
use quirrel.Classes.Index.{is_fieldi, is_nativefieldi, member_idxi}
use quirrel.Classes.Members.{Members}
use quirrel.Classes.Class.{
  ObjectPtr, Class, NativeField, Outcome, done, refused, fault, read, map_done, real_val, plain,
  closure, native_closure, weak_ref,
}
use quirrel.Classes.Store.{Instance}

-- The float unit: the bits of a `float` and of a `double`, from an SQFloat and from an integer, and the
-- conversions of C.
pub record FloatUnit (F : Type 0) : Type 0 where
  pub float32_bits : F → ℕ
  pub of_float32_bits : ℕ → F
  pub float64_bits : F → ℕ
  pub of_float64_bits : ℕ → F
  pub float32_of_integer : ℤ → ℕ
  pub float64_of_integer : ℤ → ℕ
  pub to_int32 : F → ℤ
  pub to_int64 : F → ℤ
  pub float32_bits-lt : (f : F) → float32_bits f < 2 ^ 32
  pub float64_bits-lt : (f : F) → float64_bits f < 2 ^ 64
  pub float32_of_integer-lt : (z : ℤ) → float32_of_integer z < 2 ^ 32
  pub float64_of_integer-lt : (z : ℤ) → float64_of_integer z < 2 ^ 64

-- The number in `n` bytes at `p`, lowest first, and writing one there.
unfoldable pub load_cell : ℕ → ℕ → (ℕ → ℕ) → ℕ
load_cell zero p ud = 0
load_cell (suc n) p ud = ud p + 256 * load_cell n (p + 1) ud

unfoldable pub store_cell : ℕ → ℕ → ℕ → (ℕ → ℕ) → ℕ → ℕ
store_cell zero p x ud j = ud j
store_cell (suc n) p x ud j = if p == j then x % 256 else store_cell n (p + 1) (x / 256) ud j

-- The SQNFT_… constants.
pub data NativeType : Type 0 where
  float32 float64 int32 int64 bool other : NativeType

unfoldable pub native_type : ℕ → NativeType
native_type zero = float32
native_type (suc zero) = float64
native_type (suc (suc zero)) = int32
native_type (suc (suc (suc zero))) = int64
native_type (suc (suc (suc (suc zero)))) = bool
native_type (suc (suc (suc (suc (suc t))))) = other

abbrev pub is_other : NativeType → Bool
is_other other = true
is_other _ = false

abbrev pub bytes_of : NativeType → ℕ
bytes_of float32 = 4
bytes_of float64 = 8
bytes_of int32 = 4
bytes_of int64 = 8
bytes_of bool = 1
bytes_of other = 0

pub data SlotStatus : Type 0 where
  slot_status_ok slot_status_no_match slot_status_error : SlotStatus

abbrev pub status_of : Bool → SlotStatus
status_of true = slot_status_ok
status_of false = slot_status_error

abbrev pub truth : Bool → ℕ
truth true = 1
truth false = 0

abbrev pub is_zero : ℤ → Bool
is_zero (pos n) = n == 0
is_zero (negsuc n) = false

module _ {F : Type 0} (u : FloatUnit F) where
  -- The bits that SetNativeField writes for a value, or none where it refuses the value's type.
  unfoldable pub native_bits : NativeType → Obj F → Option ℕ
  native_bits float32 (Obj.float f) = some (u.float32_bits f)
  native_bits float32 (Obj.integer z) = some (u.float32_of_integer z)
  native_bits float64 (Obj.float f) = some (u.float64_bits f)
  native_bits float64 (Obj.integer z) = some (u.float64_of_integer z)
  native_bits int32 (Obj.integer z) = some (to_word 32 z)
  native_bits int32 (Obj.float f) = some (to_word 32 (u.to_int32 f))
  native_bits int64 (Obj.integer z) = some (to_word 64 z)
  native_bits int64 (Obj.float f) = some (to_word 64 (u.to_int64 f))
  native_bits bool (Obj.bool b) = some (truth b)
  native_bits bool (Obj.integer z) = some (truth (not (is_zero z)))
  native_bits t o = none

  -- SetNativeField on the userdata; a type out of the range writes nothing and succeeds.
  unfoldable pub set_native_field : NativeField → ObjectPtr F → (ℕ → ℕ) → (ℕ → ℕ) × Bool
  set_native_field d v ud =
      let bits : Option ℕ = elim v [
        | plain o ↦ native_bits (native_type d.type_of) o
        | closure f b ↦ none
        | native_closure f ↦ none
        | weak_ref w ↦ none
      ] in
      elim bits [
        | some x ↦ (store_cell (bytes_of (native_type d.type_of)) d.offset x ud, true)
        | none ↦ (ud, is_other (native_type d.type_of))
      ]

  -- GetNativeField; a type out of the range leaves what the result held.
  unfoldable pub get_native_field : NativeField → ObjectPtr F → (ℕ → ℕ) → ObjectPtr F
  get_native_field d old ud = elim (native_type d.type_of) [
    | float32 ↦ plain (float (u.of_float32_bits (load_cell 4 d.offset ud)))
    | float64 ↦ plain (float (u.of_float64_bits (load_cell 8 d.offset ud)))
    | int32 ↦ plain (integer (from_word 32 (load_cell 4 d.offset ud)))
    | int64 ↦ plain (integer (from_word 64 (load_cell 8 d.offset ud)))
    | bool ↦ plain (Obj.bool (not (ud d.offset == 0)))
    | other ↦ old
  ]

module _ {K F : Type 0} {m : Members K} (u : FloatUnit F) where
  -- `GetMember`, from an instance of the class `c`; `old` is what the result holds before.
  unfoldable pub get_member : ℕ → ObjectPtr F → Instance F → Class m F → Outcome (ObjectPtr F)
  get_member idx old inst c =
      if is_fieldi idx
      then map_done real_val (read inst.values (member_idxi idx))
      else if is_nativefieldi idx
      then map_done (λ d. get_native_field u d old inst.ud) (read c.native_fields (member_idxi idx))
      else read c.methods (member_idxi idx)

  -- `Get` of an instance: the result holds the member's number when GetMember runs.
  unfoldable pub instance_get : K → Instance F → Class m F → Outcome (ObjectPtr F)
  instance_get k inst c = elim (m.get k c.members) [
    | none ↦ refused
    | some i ↦ get_member i (plain (integer (pos i))) inst c
  ]

  abbrev pub set_member_native :
      ℕ → ObjectPtr F → Instance F → Class m F → Outcome (Instance F × SlotStatus)
  set_member_native i v inst c =
      map_done
        (λ d. (
          record inst { ud = (set_native_field u d v inst.ud).0 },
          status_of (set_native_field u d v inst.ud).1,
        ))
        (read c.native_fields i)

  -- `Set` of an instance, with SetMemberField.
  unfoldable pub instance_set :
      K → ObjectPtr F → Instance F → Class m F → Outcome (Instance F × SlotStatus)
  instance_set k v inst c = elim (m.get k c.members) [
    | none ↦ done (inst, slot_status_no_match)
    | some i ↦
        if is_fieldi i
        then if ltb (member_idxi i) (length inst.values)
          then done (record inst { values = set inst.values (member_idxi i) v }, slot_status_ok)
          else fault
        else if is_nativefieldi i
        then set_member_native (member_idxi i) v inst c
        else done (inst, slot_status_no_match)
  ]
