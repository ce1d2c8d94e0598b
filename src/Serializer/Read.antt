-- ===== src/Serializer/Read.antt =====
-- `SQStreamSerializer::deserializeObject` and `deserialize`. The value that the code pushes on the
-- VM's stack is returned. The type tag is the high half of the first byte, `v` its low half.
use quirrel.Prelude.{ℕ, zero, suc, ◌+◌, ◌*◌, ◌/◌, ◌%◌, List, [], ◌∷◌, ◌++◌, not}
use quirrel.Prelude.{◌==◌, ltb, if◌then◌else◌, none, some, length, get_elem?, take, drop}
use quirrel.Prelude.{Result, ok, err, ◌>>=◌, ◌>>◌, require}
use quirrel.Prelude.Int.{pos, negsuc}
use quirrel.Prelude.Words.{from_word}
use quirrel.Serializer.Bytes.{of_le_bytes}
use quirrel.Serializer.Value.{
  Value, Items, Fields, Failure, Reader, null, bool, integer, float, string, array, table, nil,
  cons, end, unexpected_end, invalid_integer, invalid_float, invalid_string, invalid_array,
  invalid_table, string_too_large, array_too_large, table_too_large, string_index_out_of_bounds,
  classes_not_set, class_index_out_of_bounds, unsupported_object, invalid_start_marker,
  invalid_end_marker, out_of_fuel, new_slot, start_marker, end_marker, max_object_size,
}

abbrev pub Run {ℓ} : Type ℓ → Type ℓ
Run A = Result Failure (A × Reader)

-- `if (stream->Read(p, n) != n) return unexpectedEndOfData();`
unfoldable pub read : ℕ → Reader → Run (List ℕ)
read n r =
    if ltb (length r.input) n
    then err unexpected_end
    else ok (take n r.input, record r { input = drop n r.input })

unfoldable pub read_word : ℕ → Reader → Run ℕ
read_word n r = do (bytes, rest) ← read n r; ok (of_le_bytes bytes, rest)

abbrev pub read_integer_of : ℕ → Reader → Run Value
read_integer_of n r = do (word, rest) ← read_word n r; ok (integer (from_word (8 * n) word), rest)

unfoldable pub read_integer : ℕ → Reader → Run Value
read_integer v r =
    if v == 0
    then ok (integer (negsuc 0), r)
    else if v == 1
    then ok (integer (pos 0), r)
    else if v == 2
    then ok (integer (pos 1), r)
    else if v == 3
    then ok (integer (pos 2), r)
    else if v == 4
    then read_integer_of 1 r
    else if v == 5
    then read_integer_of 2 r
    else if v == 6
    then read_integer_of 4 r
    else if v == 7
    then read_integer_of 8 r
    else err invalid_integer

-- `static_cast<SQFloat>` of a double, which a build with single floats applies to code 7.
module _ (single_of_double : ℕ → ℕ) where
  unfoldable pub read_float : ℕ → Reader → Run Value
  read_float v r =
      if v == 0
      then ok (float 0xBF800000, r)
      else if v == 1
      then ok (float 0xBF000000, r)
      else if v == 2
      then ok (float 0, r)
      else if v == 3
      then ok (float 0x3F000000, r)
      else if v == 4
      then ok (float 0x3F800000, r)
      else if v == 5
      then ok (float 0x40000000, r)
      else if v == 6
      then (read_word 4 r >>= λ (bits, rest). ok (float bits, rest))
      else if v == 7
      then (read_word 8 r >>= λ (bits, rest). ok (float (single_of_double bits), rest))
      else err invalid_float

-- The length of a string that is written out.
unfoldable pub string_length : ℕ → Reader → Run ℕ
string_length v r =
    if v == 1 then read_word 1 r else if v == 2 then read_word 2 r else read_word 4 r

unfoldable pub read_new_string : ℕ → Reader → Run Value
read_new_string v r = do
  (len, after) ← string_length v r
  require (ltb len max_object_size) string_too_large
  (bytes, rest) ← read len after
  ok (string bytes, record rest { string_list = rest.string_list ++ bytes ∷ [] })

unfoldable pub string_index : ℕ → Reader → Run ℕ
string_index v r =
    if v == 4
    then read_word 1 r
    else if v == 5
    then read_word 2 r
    else if v == 6
    then read_word 4 r
    else err invalid_string

unfoldable pub read_string_index : ℕ → Reader → Run Value
read_string_index v r = do
  (index, rest) ← string_index v r
  elim (get_elem? rest.string_list index) [
    | none ↦ err string_index_out_of_bounds
    | some bytes ↦ ok (string bytes, rest)
  ]

unfoldable pub read_string : ℕ → Reader → Run Value
read_string v r =
    if v == 0
    then ok (string [], r)
    else if ltb v 4
    then read_new_string v r
    else read_string_index v r

-- The size of an array or a table.
unfoldable pub read_size : Failure → Failure → ℕ → Reader → Run ℕ
read_size invalid too_large v r = if v == 0 then ok (0, r) else do
  (size, rest) ← (if v == 1 then read_word 1 r else if v == 2 then read_word 4 r else err invalid)
  require (ltb size max_object_size) too_large
  ok (size, rest)

-- With `availableClasses` null a new class is refused behind its name, and `classList` is empty.
unfoldable pub read_instance : ℕ → Reader → Run Value
read_instance v r =
    if v == 15
    then (do (len, after) ← read_word 1 r; (name, rest) ← read len after; err classes_not_set)
    else (read_word 1 r >>= λ (rest_of_index, rest). err class_index_out_of_bounds)

-- What a call leaves of the input is no structural part of it, so each call costs a unit of fuel.
module _ (single_of_double : ℕ → ℕ) where
  unfoldable mutual
    pub deserialize_object : ℕ → Reader → Run Value
    deserialize_object zero r = err out_of_fuel
    deserialize_object (suc f) r = do
      (t, rest) ← read_word 1 r
      let v = t % 16
      let tag = t / 16
      let in_array = do
        (size, inside) ← read_size invalid_array array_too_large v rest
        (vs, after) ← read_items f size inside
        ok (array vs, after)
      let in_table = do
        (size, inside) ← read_size invalid_table table_too_large v rest
        (fs, after) ← read_fields f size end inside
        ok (table fs, after)
      if tag == 0
          then ok (null, rest)
          else if tag == 1
          then ok (bool (not (v == 0)), rest)
          else if tag == 2
          then read_integer v rest
          else if tag == 3
          then read_float single_of_double v rest
          else if tag == 4
          then read_string v rest
          else if tag == 5
          then in_array
          else if tag == 6
          then in_table
          else if tag == 7
          then read_instance v rest
          else err unsupported_object

    pub read_items : ℕ → ℕ → Reader → Run Items
    read_items zero n r = err out_of_fuel
    read_items (suc f) zero r = ok (nil, r)
    read_items (suc f) (suc n) r = do
      (v, rest) ← deserialize_object f r
      (vs, after) ← read_items f n rest
      ok (cons v vs, after)

    -- `slots` is the table built so far.
    pub read_fields : ℕ → ℕ → Fields → Reader → Run Fields
    read_fields zero n slots r = err out_of_fuel
    read_fields (suc f) zero slots r = ok (slots, r)
    read_fields (suc f) (suc n) slots r = do
      (k, keyed) ← deserialize_object f r
      (v, rest) ← deserialize_object f keyed
      read_fields f n (new_slot k v slots) rest

  -- `deserialize`, from the first byte of the stream; the bytes behind the end marker stay unread.
  unfoldable pub deserialize : List ℕ → Result Failure (Value × List ℕ)
  deserialize bytes = do
    (first, body) ← read_word 1 (record { input = bytes; string_list = [] })
    require (first == start_marker) invalid_start_marker
    (v, after) ← deserialize_object (2 * length bytes + 2) body
    (last, rest) ← read_word 1 after
    require (last == end_marker) invalid_end_marker
    ok (v, rest.input)
