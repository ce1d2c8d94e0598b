-- ===== src/Serializer/Value.antt =====
-- The values that sqstdlib/sqstdserialization.cpp writes and reads, and the state it keeps.
-- A float is the bit pattern of an IEEE single (`SQFloat` without SQUSEDOUBLE), a string its bytes,
-- a table its occupied nodes in node order.
use quirrel.Prelude.{ℕ, suc, ◌*◌, List, [], ◌∷◌, Bool, true, false, ◌&&◌, ◌==◌}
use quirrel.Prelude.{if◌then◌else◌}
use quirrel.Prelude.Int.{ℤ, eq_ℤ}

-- `instance` is an object of a script class, `other` any type with no branch of its own.
mutual
  pub data Value : Type 0 where
    null : Value
    bool : Bool → Value
    integer : ℤ → Value
    float : ℕ → Value
    string : List ℕ → Value
    array : Items → Value
    table : Fields → Value
    class_instance : Value
    other : Value

  pub data Items : Type 0 where
    nil : Items
    cons : Value → Items → Items

  pub data Fields : Type 0 where
    end : Fields
    field : Value → Value → Fields → Fields

-- `errorString`, and the errors that `serialize` and `deserialize` throw themselves.
pub data Failure : Type 0 where
  max_depth unsupported_class unsupported_type : Failure
  unexpected_end invalid_integer invalid_float invalid_string invalid_array invalid_table : Failure
  string_too_large array_too_large table_too_large string_index_out_of_bounds : Failure
  classes_not_set class_index_out_of_bounds unsupported_object : Failure
  invalid_start_marker invalid_end_marker out_of_fuel : Failure

abbrev pub bytes_eq : List ℕ → List ℕ → Bool
bytes_eq [] [] = true
bytes_eq (x ∷ xs) (y ∷ ys) = x == y && bytes_eq xs ys
bytes_eq _ _ = false

-- `SQTable::_Get`: the types and the raw values agree. Strings are interned, so theirs agree when
-- their bytes do; an array or table that was just read is a new object, equal to no other.
abbrev pub key_eq : Value → Value → Bool
key_eq null null = true
key_eq (bool true) (bool b) = b
key_eq (bool false) (bool true) = false
key_eq (bool false) (bool false) = true
key_eq (integer a) (integer b) = eq_ℤ a b
key_eq (float a) (float b) = a == b
key_eq (string a) (string b) = bytes_eq a b
key_eq _ _ = false

-- `sq_rawset` on a table, `SQTable::NewSlot`: the slot of an equal key is overwritten.
unfoldable pub new_slot : Value → Value → Fields → Fields
new_slot k v end = field k v end
new_slot k v (field j u fs) = if key_eq j k then field j v fs else field j u (new_slot k v fs)

unfoldable pub count_items : Items → ℕ
count_items nil = 0
count_items (cons v vs) = suc (count_items vs)

unfoldable pub count_used : Fields → ℕ
count_used end = 0
count_used (field k v fs) = suc (count_used fs)

-- The writer: the bytes written so far and the fields of `SQStreamSerializer` that writing uses.
pub record Writer : Type 0 where
  pub output : List ℕ
  pub string_table : List (List ℕ × ℕ)
  pub string_counter : ℕ
  pub depth : ℕ

-- The reader: the bytes not yet read, and the strings read so far.
pub record Reader : Type 0 where
  pub input : List ℕ
  pub string_list : List (List ℕ)

abbrev pub start_marker : ℕ
start_marker = 0xEA

abbrev pub end_marker : ℕ
end_marker = 0xFA

abbrev pub max_nesting : ℕ
max_nesting = 200

-- SQ_DESER_MAX_OBJECT_SIZE
abbrev pub max_object_size : ℕ
max_object_size = 80 * 1024 * 1024
