-- ===== src/Serializer/Valid.antt =====
-- Which values of sqstdlib/sqstdserialization.cpp come back as they were written.
use quirrel.Prelude.{ℕ, ◌+◌, ◌^◌, ◌<◌, ◌≡◌, ◌≢◌, refl, Bool, false, ◌||◌, arith, length}
use Prim.Native.Nat.{max}
use quirrel.Prelude.Words.{Fits}
use quirrel.Serializer.Value.{
  Value, Items, Fields, null, bool, integer, float, string, array, table, class_instance, other,
  nil, cons, end, field, key_eq, new_slot, count_items, count_used, max_object_size,
}

unfoldable pub has_key : Value → Fields → Bool
has_key k end = false
has_key k (field j u fs) = key_eq j k || has_key k fs

-- Integers fit SQInteger, floats are single-width words other than -0.0, strings and containers
-- are below the reader's limit, no key of a table is repeated, and every part is of a type that the
-- format has.
unfoldable mutual
  pub IsValid : Value → Type 0
  IsValid null = Unit
  IsValid (bool b) = Unit
  IsValid (integer z) = Fits 64 z
  IsValid (float bits) = (bits < 2 ^ 32) × (bits ≢ 0x80000000)
  IsValid (string s) = length s < max_object_size
  IsValid (array vs) = (count_items vs < max_object_size) × AreValid vs
  IsValid (table fs) = (count_used fs < max_object_size) × AreValidFields end fs
  IsValid class_instance = ⊥
  IsValid other = ⊥

  pub AreValid : Items → Type 0
  AreValid nil = Unit
  AreValid (cons v vs) = IsValid v × AreValid vs

  pub AreValidFields : Fields → Fields → Type 0
  AreValidFields slots end = Unit
  AreValidFields slots (field k v fs) =
      (has_key k slots ≡ false) × IsValid k × IsValid v × AreValidFields (new_slot k v slots) fs

-- How deep arrays and tables stand inside one another.
unfoldable mutual
  pub nesting : Value → ℕ
  nesting (array vs) = nesting_items vs + 1
  nesting (table fs) = nesting_fields fs + 1
  nesting _ = 0

  pub nesting_items : Items → ℕ
  nesting_items nil = 0
  nesting_items (cons v vs) = max (nesting v) (nesting_items vs)

  pub nesting_fields : Fields → ℕ
  nesting_fields end = 0
  nesting_fields (field k v fs) = max (max (nesting k) (nesting v)) (nesting_fields fs)

-- How many strings a value holds.
unfoldable mutual
  pub strings : Value → ℕ
  strings (string s) = 1
  strings (array vs) = strings_items vs
  strings (table fs) = strings_fields fs
  strings _ = 0

  pub strings_items : Items → ℕ
  strings_items nil = 0
  strings_items (cons v vs) = strings v + strings_items vs

  pub strings_fields : Fields → ℕ
  strings_fields end = 0
  strings_fields (field k v fs) = strings k + strings v + strings_fields fs

-- `fs` behind the slots that are there.
unfoldable pub append_fields : Fields → Fields → Fields
append_fields end fs = fs
append_fields (field k v slots) fs = field k v (append_fields slots fs)

-- A key that is not there yet takes the next slot.
pub append_fields-new_slot :
    (k v : Value) (slots fs : Fields)
    → has_key k slots ≡ false
    → append_fields (new_slot k v slots) fs ≡ append_fields slots (field k v fs)
unfolding append_fields new_slot has_key
append_fields-new_slot k v end fs h = refl
append_fields-new_slot k v (field j u slots) fs h =
    ground (arith, append_fields-new_slot k v slots fs)

pub append_fields-end : (slots : Fields) → append_fields slots end ≡ slots
unfolding append_fields
append_fields-end end = refl
append_fields-end (field k v slots) = rw (append_fields-end slots)
