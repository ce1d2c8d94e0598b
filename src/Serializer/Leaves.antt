-- ===== src/Serializer/Leaves.antt =====
-- Reading what sqstdlib/sqstdserialization.cpp wrote for a null, bool, integer, float, string or size.
use quirrel.Prelude.{ℕ, zero, suc, ◌-◌, ◌*◌, ◌^◌, ◌<◌, ◌≡◌, ◌≢◌, List, [], ◌∷◌, ◌++◌, arith}
use quirrel.Prelude.{leb, Bool-cases, inl, inr, length, ok, ◌>>=◌, append_assoc}
use quirrel.Prelude.{length-append, take-length-append, drop-length-append, false, get_elem?, some}
use quirrel.Prelude.Int.{ℤ, pos, negsuc, ◌+ℤ◌}
use quirrel.Prelude.Words.{
  IsWidth, one, two, four, eight, to_word, from_word, Fits, from_word-to_word, to_word-lt,
}
use quirrel.Serializer.Bytes.{le_bytes, of_le_bytes, length-le_bytes, of_le_bytes-le_bytes}
use quirrel.Serializer.Value.{
  Value, Reader, integer, float, string, array, table, end, max_object_size,
}
use quirrel.Serializer.Write.{
  between, integer_bytes, float_bytes, new_string_bytes, string_index_bytes, size_bytes,
}
use quirrel.Serializer.Read.{
  read, read_word, read_integer, read_float, string_length, read_new_string, string_index,
  read_string_index, read_string, read_size, deserialize_object, read_items, read_fields,
}

abbrev pub at : List ℕ → List (List ℕ) → Reader
at input strings = record { input = input; string_list = strings }

module _ (strings : List (List ℕ)) where
  pub read-append :
      (xs rest : List ℕ) → read (length xs) (at (xs ++ rest) strings) ≡ ok (xs, at rest strings)
  unfolding read
  read-append xs rest =
      ground (arith, length-append xs rest, take-length-append xs rest, drop-length-append xs rest)

  pub read_word-cons :
      (h : ℕ) (rest : List ℕ) → read_word 1 (at (h ∷ rest) strings) ≡ ok (h, at rest strings)
  unfolding read_word of_le_bytes
  read_word-cons h rest = rw (read-append (h ∷ []) rest) (ground arith)

  pub read_word-le_bytes :
      {n : ℕ} (w : IsWidth n) (x : ℕ) (rest : List ℕ)
      → x < 256 ^ n
      → read_word n (at (le_bytes n x ++ rest) strings) ≡ ok (x, at rest strings)
  unfolding read_word
  read_word-le_bytes {n} w x rest h = rw (reads, ◌>>=◌, of_le_bytes-le_bytes w x h)
    where
      reads : read n (at (le_bytes n x ++ rest) strings) ≡ ok (le_bytes n x, at rest strings)
      reads = rw (length-le_bytes n x) at (read-append (le_bytes n x) rest)

module _ (g : ℕ → ℕ) (strings : List (List ℕ)) (f : ℕ) (rest : List ℕ) where
  abbrev Reads : List ℕ → Value → Type 0
  Reads bytes v =
      deserialize_object g (suc f) (at (bytes ++ rest) strings) ≡ ok (v, at rest strings)

  word :
      {n : ℕ} (w : IsWidth n) (z : ℤ)
      → Fits (8 * n) z
      → (read_word n (at (le_bytes n (to_word (8 * n) z) ++ rest) strings)
          ≡ ok (to_word (8 * n) z, at rest strings))
        × (from_word (8 * n) (to_word (8 * n) z) ≡ z)
  word w z h =
      (read_word-le_bytes strings w (to_word _ z) rest (to_word-lt w z), from_word-to_word w z h)

  -- A header with a code of the format, at a numeral.
  header : (h : ℕ) (xs : List ℕ) → read_word 1 (at (h ∷ xs) strings) ≡ ok (h, at xs strings)
  header h xs = read_word-cons strings h xs

  wide :
      (z : ℤ)
      → Fits 64 z
      → between (negsuc 0) (pos 2) z ≡ false
      → Reads (integer_bytes z) (integer z)
  unfolding integer_bytes deserialize_object read_integer
  wide z h e = elim (Bool-cases (between (negsuc 127) (pos 127) z)) [
    | inl p ↦ rw (e, p, header, (word one z (ground arith)).0, (word one z (ground arith)).1)
    | inr p ↦ elim (Bool-cases (between (negsuc (2 ^ 15 - 1)) (pos (2 ^ 15 - 1)) z)) [
      | inl q ↦ rw (e, p, q, header, (word two z (ground arith)).0, (word two z (ground arith)).1)
      | inr q ↦ elim (Bool-cases (between (negsuc (2 ^ 31 - 1)) (pos (2 ^ 31 - 1)) z)) [
        | inl r ↦
            rw (e, p, q, r, header, (word four z (ground arith)).0, (word four z (ground arith)).1)
        | inr r ↦ rw (e, p, q, r, header, (word eight z h).0, (word eight z h).1)
      ]
    ]
  ]

  pub integer_bytes-Reads : (z : ℤ) → Fits 64 z → Reads (integer_bytes z) (integer z)
  unfolding integer_bytes deserialize_object read_integer ◌+ℤ◌
  integer_bytes-Reads (pos zero) h = rw header
  integer_bytes-Reads (pos (suc zero)) h = rw header
  integer_bytes-Reads (pos (suc (suc zero))) h = rw header
  integer_bytes-Reads (negsuc zero) h = rw header
  integer_bytes-Reads (pos (suc (suc (suc n)))) h = wide _ h (ground arith)
  integer_bytes-Reads (negsuc (suc n)) h = wide _ h (ground arith)

  pub float_bytes-Reads :
      (bits : ℕ) → bits < 2 ^ 32 → bits ≢ 0x80000000 → Reads (float_bytes bits) (float bits)
  unfolding float_bytes deserialize_object read_float
  float_bytes-Reads bits h n = ground (
    arith,
    header 0x30 rest,
    header 0x31 rest,
    header 0x32 rest,
    header 0x33 rest,
    header 0x34 rest,
    header 0x35 rest,
    header 0x36 (le_bytes 4 bits ++ rest),
    read_word-le_bytes strings four bits rest h,
  )

  pub new_string_bytes-Reads :
      (s : List ℕ)
      → length s < max_object_size
      → deserialize_object g (suc f) (at (new_string_bytes s ++ rest) strings)
        ≡ ok (string s, at rest (strings ++ s ∷ []))
  unfolding new_string_bytes deserialize_object read_string read_new_string string_length
  new_string_bytes-Reads s h = elim (Bool-cases (leb (length s) 255)) [
    | inl p ↦
        rw
          (
            p,
            header,
            append_assoc,
            read_word-le_bytes strings one (length s) (s ++ rest) (ground arith),
          )
          (rw (read-append strings s rest) (ground arith))
    | inr p ↦ elim (Bool-cases (leb (length s) 65535)) [
      | inl q ↦
          rw
            (
              p,
              q,
              header,
              append_assoc,
              read_word-le_bytes strings two (length s) (s ++ rest) (ground arith),
            )
            (rw (read-append strings s rest) (ground arith))
      | inr q ↦
          rw
            (
              p,
              q,
              header,
              append_assoc,
              read_word-le_bytes strings four (length s) (s ++ rest) (ground arith),
            )
            (rw (read-append strings s rest) (ground arith))
    ]
  ]

  pub string_index_bytes-Reads :
      (s : List ℕ) (index : ℕ)
      → get_elem? strings index ≡ some s
      → index < 2 ^ 32
      → Reads (string_index_bytes index) (string s)
  unfolding string_index_bytes deserialize_object read_string read_string_index string_index
  string_index_bytes-Reads s index found h = elim (Bool-cases (leb index 255)) [
    | inl p ↦ rw (p, header, read_word-le_bytes strings one index rest (ground arith), ◌>>=◌, found)
    | inr p ↦ elim (Bool-cases (leb index 65535)) [
      | inl q ↦
          rw (p, q, header, read_word-le_bytes strings two index rest (ground arith), ◌>>=◌, found)
      | inr q ↦ rw (p, q, header, read_word-le_bytes strings four index rest h, ◌>>=◌, found)
    ]
  ]

  pub size_bytes-array :
      (n : ℕ)
      → n < max_object_size
      → deserialize_object g (suc f) (at (size_bytes 0x50 n ++ rest) strings)
        ≡ (read_items g f n (at rest strings) >>= λ (vs, after). ok (array vs, after))
  unfolding size_bytes deserialize_object read_size
  size_bytes-array n h = ground (
    arith,
    header 0x50 rest,
    header 0x51 (le_bytes 1 n ++ rest),
    header 0x52 (le_bytes 4 n ++ rest),
    read_word-le_bytes strings one n rest,
    read_word-le_bytes strings four n rest,
  )

  pub size_bytes-table :
      (n : ℕ)
      → n < max_object_size
      → deserialize_object g (suc f) (at (size_bytes 0x60 n ++ rest) strings)
        ≡ (read_fields g f n end (at rest strings) >>= λ (fs, after). ok (table fs, after))
  unfolding size_bytes deserialize_object read_size
  size_bytes-table n h = ground (
    arith,
    header 0x60 rest,
    header 0x61 (le_bytes 1 n ++ rest),
    header 0x62 (le_bytes 4 n ++ rest),
    read_word-le_bytes strings one n rest,
    read_word-le_bytes strings four n rest,
  )
