-- ===== src/Tests/Stream.antt =====
-- sqstdlib/sqstdserialization.cpp and sqstdlib/sqstdblobimpl.h on small inputs.
use quirrel.Prelude.{ℕ, ◌≤◌, ◌≡◌, refl, List, [], ◌∷◌, ◌++◌, true, ok, arith}
use quirrel.Prelude.Int.{pos, negsuc}
use quirrel.Serializer.Value.{
  Value, null, bool, integer, float, string, array, table, nil, cons, end, field, max_nesting,
  new_slot, count_items, count_used,
}
use quirrel.Serializer.Write.{
  serialize, serialize_object, serialize_items, write, enter, leave, size_bytes, serialize_string,
  find_string, remember_string, new_string_bytes, string_index_bytes,
}
use quirrel.Serializer.Bytes.{le_bytes}
use quirrel.Serializer.Read.{deserialize}
use quirrel.Serializer.Valid.{
  IsValid, AreValid, AreValidFields, nesting, nesting_items, nesting_fields, strings, strings_items,
  strings_fields, has_key,
}
use quirrel.Serializer.RoundTrip.{deserialize-serialize}
use quirrel.Serializer.Total.{IsOutcome, deserialize-IsOutcome}
use quirrel.Serializer.Refusals.{serialize-refuses, IsSupported}
use quirrel.Blob.{Blob, Origin, seek_set, seek_cur, read, seek}
use quirrel.Blob as Stream
use quirrel.Blob.Laws as Laws
use quirrel.Blob.Reads.{HasRead, read-HasRead, HasMoved, seek-HasMoved, place}

abbrev name : List ℕ
name = b'h' ∷ b'p' ∷ []

-- { hp = [300, -2, 1.5, "hp"], [true] = null }
abbrev monster : Value
monster = table (
    field (string name)
      (array (
        cons (integer (pos 300))
          (cons (integer (negsuc 1)) (cons (float 0x3FC00000) (cons (string name) nil)))))
      (field (bool true) null end))

monster-IsValid : IsValid monster
unfolding IsValid AreValid AreValidFields has_key new_slot count_items count_used
monster-IsValid = ground arith

deserialize-serialize_example :
    (bytes : List ℕ) × (serialize monster ≡ ok bytes)
    × (deserialize (λ x. x) (bytes ++ 7 ∷ []) ≡ ok (monster, 7 ∷ []))
unfolding nesting nesting_items nesting_fields strings strings_items strings_fields
deserialize-serialize_example =
    deserialize-serialize (λ x. x) monster (7 ∷ []) monster-IsValid (omega arith) (omega arith)

-- A table whose second key is cut off.
abbrev cut_off : List ℕ
cut_off = 0xEA ∷ 0x61 ∷ 2 ∷ 0x41 ∷ 1 ∷ b'a' ∷ 1 ∷ []

deserialize-IsOutcome_example : IsOutcome cut_off (deserialize (λ x. x) cut_off)
deserialize-IsOutcome_example = deserialize-IsOutcome (λ x. x) cut_off

abbrev pair : Value
pair = array (cons (string name) (cons (string name) nil))

pair_bytes : serialize pair ≡ ok (0xEA ∷ 0x51 ∷ 2 ∷ 0x41 ∷ 2 ∷ b'h' ∷ b'p' ∷ 0x44 ∷ 0 ∷ 0xFA ∷ [])
unfolding serialize serialize_object serialize_items write enter leave size_bytes serialize_string
    find_string remember_string new_string_bytes string_index_bytes le_bytes count_items
pair_bytes = refl

serialize-refuses_example : (nesting pair ≤ max_nesting) × IsSupported pair
serialize-refuses_example = serialize-refuses pair pair_bytes

-- Four bytes with room for five, at the third.
abbrev blob : Blob
blob = record { size = 4; allocated = 5; ptr = 2; buf = 1 ∷ 2 ∷ 3 ∷ 4 ∷ 0 ∷ [] }

blob-IsValid : Laws.IsValid blob
blob-IsValid = record { buffer = refl; sized = omega arith; placed = omega arith }

write-Wrote_example :
    Laws.Wrote (7 ∷ 8 ∷ 9 ∷ 10 ∷ []) blob (Stream.write (7 ∷ 8 ∷ 9 ∷ 10 ∷ []) blob)
write-Wrote_example = Laws.write-Wrote (7 ∷ 8 ∷ 9 ∷ 10 ∷ []) blob blob-IsValid

read-HasRead_example : HasRead 3 blob (read 3 blob)
read-HasRead_example = read-HasRead 3 blob blob-IsValid

seek-HasMoved_example :
    HasMoved (place (negsuc 1) seek_cur blob) blob (seek (negsuc 1) seek_cur blob)
seek-HasMoved_example = seek-HasMoved (negsuc 1) seek_cur blob
