-- ===== src/Serializer/Write.antt =====
-- `SQStreamSerializer::serializeObject` and `serialize`. Successive `stream->Write` calls of one
-- branch are one list of bytes.
use quirrel.Prelude.{ℕ, ◌+◌, ◌-◌, ◌^◌, List, [], ◌∷◌, ◌++◌, Bool, ◌&&◌, ◌||◌, ◌==◌}
use quirrel.Prelude.{ltb, leb, if◌then◌else◌, Option, none, some, length, Result, ok, err, ◌>>=◌}
use quirrel.Prelude.Int.{ℤ, pos, negsuc, ◌+ℤ◌, pos_part, leb_ℤ}
use quirrel.Prelude.Words.{to_word}
use quirrel.Serializer.Bytes.{le_bytes}
use quirrel.Serializer.Value.{
  Value, Items, Fields, Failure, Writer, null, bool, integer, float, string, array, table,
  class_instance, other, nil, cons, end, field, max_depth, unsupported_class, unsupported_type,
  bytes_eq, count_items, count_used, start_marker, end_marker, max_nesting,
}

unfoldable pub write : List ℕ → Writer → Writer
write bytes w = record w { output = w.output ++ bytes }

-- `iv >= lo && iv <= hi`
abbrev pub between : ℤ → ℤ → ℤ → Bool
between lo hi z = leb_ℤ lo z && leb_ℤ z hi

unfoldable pub integer_bytes : ℤ → List ℕ
integer_bytes z =
    if between (negsuc 0) (pos 2) z
    then (0x20 + pos_part (z +ℤ pos 1)) ∷ []
    else if between (negsuc 127) (pos 127) z
    then (0x20 + 4) ∷ le_bytes 1 (to_word 8 z)
    else if between (negsuc (2 ^ 15 - 1)) (pos (2 ^ 15 - 1)) z
    then (0x20 + 5) ∷ le_bytes 2 (to_word 16 z)
    else if between (negsuc (2 ^ 31 - 1)) (pos (2 ^ 31 - 1)) z
    then (0x20 + 6) ∷ le_bytes 4 (to_word 32 z)
    else (0x20 + 7) ∷ le_bytes 8 (to_word 64 z)

-- The floats with a code of their own: -1.0, -0.5, 0.0, 0.5, 1.0 and 2.0. The test of the code is
-- `==` on floats, under which 0.0 and -0.0 are equal.
unfoldable pub float_bytes : ℕ → List ℕ
float_bytes bits =
    if bits == 0xBF800000
    then 0x30 ∷ []
    else if bits == 0xBF000000
    then (0x30 + 1) ∷ []
    else if bits == 0 || bits == 0x80000000
    then (0x30 + 2) ∷ []
    else if bits == 0x3F000000
    then (0x30 + 3) ∷ []
    else if bits == 0x3F800000
    then (0x30 + 4) ∷ []
    else if bits == 0x40000000
    then (0x30 + 5) ∷ []
    else (0x30 + 6) ∷ le_bytes 4 bits

-- `stringTable.find(str)`
unfoldable pub find_string : List ℕ → List (List ℕ × ℕ) → Option ℕ
find_string s [] = none
find_string s ((t, i) ∷ m) = if bytes_eq t s then some i else find_string s m

-- The header and the bytes of a string that is new.
unfoldable pub new_string_bytes : List ℕ → List ℕ
new_string_bytes s =
    let len = length s in
    if leb len 255
    then (0x40 + 1) ∷ le_bytes 1 len ++ s
    else if leb len 65535
    then (0x40 + 2) ∷ le_bytes 2 len ++ s
    else (0x40 + 3) ∷ le_bytes 4 len ++ s

-- A string that was written before is a reference.
unfoldable pub string_index_bytes : ℕ → List ℕ
string_index_bytes index =
    if leb index 255
    then (0x40 + 4) ∷ le_bytes 1 index
    else if leb index 65535
    then (0x40 + 5) ∷ le_bytes 2 index
    else (0x40 + 6) ∷ le_bytes 4 index

unfoldable pub remember_string : List ℕ → Writer → Writer
remember_string s w = record w {
  string_table = (s, w.string_counter) ∷ w.string_table;
  string_counter = w.string_counter + 1;
}

unfoldable pub serialize_string : List ℕ → Writer → Writer
serialize_string [] w = write (0x40 ∷ []) w
serialize_string (b ∷ bs) w =
    let s = b ∷ bs in
    elim (find_string s w.string_table) [
      | none ↦ remember_string s (write (new_string_bytes s) w)
      | some index ↦ write (string_index_bytes index) w
    ]

-- The header of an array (`tag` 0x50) or a table (0x60).
unfoldable pub size_bytes : ℕ → ℕ → List ℕ
size_bytes tag size =
    if size == 0
    then tag ∷ []
    else if leb size 255
    then (tag + 1) ∷ le_bytes 1 size
    else (tag + 2) ∷ le_bytes 4 size

-- `depth++` and the test behind it.
unfoldable pub enter : Writer → Result Failure Writer
enter w =
    if ltb max_nesting (w.depth + 1) then err max_depth else ok (record w { depth = w.depth + 1 })

unfoldable pub leave : Writer → Writer
leave w = record w { depth = w.depth - 1 }

unfoldable mutual
  pub serialize_object : Value → Writer → Result Failure Writer
  serialize_object null w = ok (write (1 ∷ []) w)
  serialize_object (bool b) w = ok (write ((0x10 + (if b then 1 else 0)) ∷ []) w)
  serialize_object (integer z) w = ok (write (integer_bytes z) w)
  serialize_object (float bits) w = ok (write (float_bytes bits) w)
  serialize_object (string s) w = ok (serialize_string s w)
  serialize_object (array vs) w = do
    inside ← enter w
    done ← serialize_items vs (write (size_bytes 0x50 (count_items vs)) inside)
    ok (leave done)
  serialize_object (table fs) w = do
    inside ← enter w
    done ← serialize_fields fs (write (size_bytes 0x60 (count_used fs)) inside)
    ok (leave done)
  serialize_object class_instance w = do inside ← enter w; err unsupported_class
  serialize_object other w = err unsupported_type

  pub serialize_items : Items → Writer → Result Failure Writer
  serialize_items nil w = ok w
  serialize_items (cons v vs) w = do next ← serialize_object v w; serialize_items vs next

  pub serialize_fields : Fields → Writer → Result Failure Writer
  serialize_fields end w = ok w
  serialize_fields (field k v fs) w = do
    keyed ← serialize_object k w
    next ← serialize_object v keyed
    serialize_fields fs next

-- The state that `serialize` sets up.
abbrev pub fresh_writer : Writer
fresh_writer = record { output = []; string_table = []; string_counter = 0; depth = 0 }

-- What the stream holds when `serialize` returns SQ_OK, or the error that it throws.
unfoldable pub serialize : Value → Result Failure (List ℕ)
serialize v = do
  done ← serialize_object v (write (start_marker ∷ []) fresh_writer)
  ok (write (end_marker ∷ []) done).output
