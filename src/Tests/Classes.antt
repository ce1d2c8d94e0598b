-- ===== src/Tests/Classes.antt =====
-- squirrel/sqclass.h and squirrel/sqclass.cpp with numbers for names, in the program's hash table.
use quirrel.Prelude.{
  ℕ, ◌+◌, ◌%◌, ◌^◌, ◌≤◌, ◌<◌, ◌≡◌, refl, ◌↔◌, ◌⊎◌, inl, inr, Bool, true, false, ◌==◌, ==_iff, none,
  some, arith, if◌then◌else◌, Bool-cases, [], ◌∷◌,
}
use quirrel.Prelude.Int.{ℤ, pos, negsuc}
use quirrel.Prelude.Words.{to_word, from_word, to_word-lt, four, eight}
use quirrel.Table.Nodes.{KeyOps, get, get_from, place, open_below}
use quirrel.Table.Slots
use quirrel.Vm.Object.{Obj}
use quirrel.Vm.Object.{null, integer}
use quirrel.Classes.Index.{member_max_count}
use quirrel.Classes.Members.{Members}
use quirrel.Classes.Tables.{table_members}
use quirrel.Classes.Class.{
  Class, NativeField, SharedState, done, refused, plain, closure, is_locked, new_root, inherit,
  new_slot, add_field, add_method, register_native_field, set_class_ud_size, size_of_type,
  add_native, static_slot, add_slot,
}
use quirrel.Classes.Sound.{IsSound, IsInside}
use quirrel.Classes.Carried.{new_root-IsSound, inherit-get}
use quirrel.Classes.Writing.{IsWritten, new_field-IsSound, IsFree}
use quirrel.Classes.Slots.{new_slot-IsWritten}
use quirrel.Classes.UdSize.{IsResized, resized-IsSoundFor, set_class_ud_size-register_native_field}
use quirrel.Classes.Register.{IsRegistered, register_native_field-cases}
use quirrel.Classes.Store.{Store, Call, Instance, with_hint, lock, create_class, instance_of}
use quirrel.Classes.Locks.{IsScript, Locks, lock-Locks, Depth, IsLockedUp, AllSound}
use quirrel.Classes.Lineage.{Ancestor, instance_of-Ancestor, IsMade, IsFresh, create_class-IsMade}
use quirrel.Classes.Layout.{SameLayout, new_slot-SameLayout}
use quirrel.Classes.Instance.{
  FloatUnit, native_type, set_native_field, get_native_field, instance_set,
}
use quirrel.Classes.Cells.{narrowed_value}
use quirrel.Classes.NativeFields.{set_native_field-get}
use quirrel.Classes.Accesses.{IsAssigned}
use quirrel.Classes.Sets.{instance_set-IsAssigned}

abbrev name_ops : KeyOps ℕ
name_ops = record {
  hash = λ k. k;
  same = λ a b. a == b;
  same_iff = ==_iff;
  string_address = λ k. none;
}

abbrev names : Members ℕ
names = table_members name_ops

-- Name 0 is the constructor's, and 99 that of the metamethod `_lock`.
abbrev shared : SharedState ℕ
shared = record {
  constructor_str = 0;
  metamethod_idx_by_name = λ k. if k == 99 then some 16 else none;
}

abbrev root : Class names ℤ
root = new_root

root-IsSound : IsSound {K = ℕ} {F = ℤ} {m = names} root
root-IsSound = new_root-IsSound 0

root_free : IsFree {K = ℕ} {F = ℤ} {m = names} root root-IsSound 1 (plain (integer (pos 7)))
unfolding new_root
root_free i e = let g = names.get-create 1 in absurd (cc)

-- A class with one field, of name 1.
abbrev point : Class names ℤ
point = add_field 1 (plain (integer (pos 7))) root

point-IsSound : IsSound {K = ℕ} {F = ℤ} {m = names} point
unfolding new_root Slots.create
point-IsSound =
    new_field-IsSound root root-IsSound 1 (plain (integer (pos 7))) root_free (omega arith)

new_slot-IsWritten_example :
    IsWritten shared 2
      (closure 30 none)
      false
      point
      (new_slot shared 2 (closure 30 none) false point)
new_slot-IsWritten_example = new_slot-IsWritten shared 2 (closure 30 none) false point point-IsSound

-- Sixteen bytes of userdata, and none of it used.
abbrev roomy : Class names ℤ
roomy = record point { ud_size = 16 }

roomy-IsSound : IsSound {K = ℕ} {F = ℤ} {m = names} roomy
unfolding new_root
roomy-IsSound = record {
  owners = point-IsSound.owners;
  sound =
      resized-IsSoundFor 16 point point-IsSound.owners point-IsSound.sound (λ j d e. absurd (cc));
}

-- An int32 at offset 8.
abbrev count_field : NativeField
count_field = record { offset = 8; type_of = 2 }

register_native_field-cases_example :
    ((register_native_field 5 count_field roomy ≡ refused)
      × ((is_locked {F = ℤ} {m = names} roomy ≡ true)
          ⊎ ¬ IsInside (16 % 2 ^ 32) count_field
          ⊎ (member_max_count ≤ names.count_used roomy.members)
          ⊎ ((i : ℕ) × (names.get 5 roomy.members ≡ some i))))
    ⊎ ((c' : Class names ℤ) × (register_native_field 5 count_field roomy ≡ done c')
        × IsRegistered 5 count_field roomy c')
register_native_field-cases_example = register_native_field-cases 5 count_field roomy roomy-IsSound

counted_registered :
    register_native_field 5 count_field roomy ≡ done (add_native 5 count_field roomy)
unfolding register_native_field new_root Slots.create Slots.pow2_size get get_from Slots.new_slot
    Slots.insert place open_below Slots.rehash Slots.rehash_size Slots.reinsert Slots.floor_log2
counted_registered = refl

-- Eight bytes are too few.
set_class_ud_size-register_native_field_example :
    ((r : Class names ℤ) × (set_class_ud_size 8 (add_native 5 count_field roomy) ≡ done r)
      × IsResized 8 count_field (add_native 5 count_field roomy) r)
    × (set_class_ud_size 8 (with_hint 0x5000 (add_native 5 count_field roomy)) ≡ refused)
set_class_ud_size-register_native_field_example =
    set_class_ud_size-register_native_field 8 0x5000 5 count_field roomy
      (add_native 5 count_field roomy) roomy-IsSound counted_registered (omega arith) (omega arith)

-- Floats are integers here, with no digits behind the point.
abbrev toy_floats : FloatUnit ℤ
toy_floats = record {
  float32_bits = to_word 32;
  of_float32_bits = from_word 32;
  float64_bits = to_word 64;
  of_float64_bits = from_word 64;
  float32_of_integer = to_word 32;
  float64_of_integer = to_word 64;
  to_int32 = λ z. z;
  to_int64 = λ z. z;
  float32_bits-lt = λ z. omega (arith, to_word-lt four z);
  float64_bits-lt = λ z. omega (arith, to_word-lt eight z);
  float32_of_integer-lt = λ z. omega (arith, to_word-lt four z);
  float64_of_integer-lt = λ z. omega (arith, to_word-lt eight z);
}

abbrev zeros : ℕ → ℕ
zeros j = 0

set_native_field-get_example :
    ((set_native_field toy_floats count_field (plain (integer (negsuc 4))) zeros ≡ (zeros, false))
      × (narrowed_value toy_floats (native_type 2) (plain (integer (negsuc 4))) ≡ none))
    ⊎ ((ud' : ℕ → ℕ) × (o : Obj ℤ) × (set_native_field toy_floats count_field
            (plain (integer (negsuc 4)))
            zeros
          ≡ (ud', true))
        × (narrowed_value toy_floats (native_type 2) (plain (integer (negsuc 4))) ≡ some o)
        × (get_native_field toy_floats count_field (plain null) ud' ≡ plain o)
        × ((j : ℕ) → (j < 8) ⊎ (8 + size_of_type 2 ≤ j) → ud' j ≡ zeros j))
set_native_field-get_example =
    set_native_field-get toy_floats count_field (plain (integer (negsuc 4))) (plain null) zeros
      (omega arith)

-- The instance of `point`.
abbrev origin : Instance ℤ
origin = record { class_of = 0x1000; values = plain (integer (pos 7)) ∷ []; ud = zeros }

instance_set-IsAssigned_example :
    IsAssigned toy_floats point 1
      (plain (integer (pos 8)))
      origin
      (instance_set toy_floats 1 (plain (integer (pos 8))) origin point)
unfolding new_root
instance_set-IsAssigned_example =
    instance_set-IsAssigned toy_floats point point-IsSound.owners point-IsSound.sound origin refl 1
      (plain (integer (pos 8)))

-- A locked class gets a method.
abbrev locked_root : Class names ℤ
locked_root = record root { locked_type_id = 16 }

locked_root_method :
    new_slot shared 2 (closure 30 none) false locked_root
    ≡ done (add_method shared 2 (closure 30 none) locked_root)
unfolding new_slot add_slot static_slot new_root Slots.create Slots.pow2_size get get_from
locked_root_method = refl

new_slot-SameLayout_example :
    SameLayout locked_root (add_method shared 2 (closure 30 none) locked_root)
new_slot-SameLayout_example =
    new_slot-SameLayout shared 2 (closure 30 none) false locked_root
      (add_method shared 2 (closure 30 none) locked_root) refl locked_root_method

-- A class without members at 0x1000, and one at 0x2000 that inherits from it.
abbrev store : Store names ℤ
store a = if a == 0x2000 then inherit 0x1000 root else root

store-Depth : Depth {K = ℕ} {F = ℤ} {m = names} 2 store 0x2000
unfolding inherit new_root
store-Depth = (omega arith, omega arith, λ b e. (ground arith, ground arith, λ d p. ground arith))

-- No script does anything.
abbrev idle : Call names ℤ
idle v a s = (s, true)

idle-IsScript : IsScript {K = ℕ} {F = ℤ} {m = names} idle
idle-IsScript = record {
  grows = λ v a s b. (refl, λ h. h);
  locked_up = λ v a s h. h;
  all_sound = λ v a s h. h;
}

store-IsLockedUp : IsLockedUp {K = ℕ} {F = ℤ} {m = names} store
unfolding inherit new_root
store-IsLockedUp a b e h = elim (Bool-cases (a == 0x2000)) [
  | inl t ↦ absurd (ground arith)
  | inr t ↦ absurd (ground arith)
]

store-AllSound : AllSound {K = ℕ} {F = ℤ} {m = names} store
store-AllSound a = elim (Bool-cases (a == 0x2000)) [
  | inl t ↦ rw t (inherit-get 0x1000 root root-IsSound).0
  | inr t ↦ rw t root-IsSound
]

lock-Locks_example :
    (t : Store names ℤ) × (success : Bool) × (lock idle 2 0x2000 store ≡ some (t, success))
    × Locks 0x2000 store t success
lock-Locks_example =
    lock-Locks idle idle-IsScript 2 0x2000 store store-Depth store-IsLockedUp store-AllSound

instance_of-Ancestor_example :
    (r : Bool) × (instance_of 2 store (some 0x2000) 0x1000 ≡ some r)
    × ((r ≡ true) ↔ Ancestor store 0x1000 0x2000)
instance_of-Ancestor_example = instance_of-Ancestor 2 store 0x2000 0x1000 store-Depth

store-IsFresh : IsFresh {K = ℕ} {F = ℤ} {m = names} 0x3000 store
unfolding inherit new_root
store-IsFresh a e = elim (Bool-cases (a == 0x2000)) [ inl t ↦ ground arith | inr t ↦ ground arith ]

create_class-IsMade_example :
    IsMade store 0x3000 0x2000 (create_class idle 2 0x3000 (some 0x2000) store)
create_class-IsMade_example =
    create_class-IsMade idle idle-IsScript 2 store store-IsLockedUp store-AllSound 0x3000 0x2000
      store-Depth store-IsFresh
