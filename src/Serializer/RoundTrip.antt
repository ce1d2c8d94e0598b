-- ===== src/Serializer/RoundTrip.antt =====
-- `serialize` and then `deserialize` of sqstdlib/sqstdserialization.cpp.
use quirrel.Prelude.{
  ℕ, ◌+◌, ◌*◌, ◌^◌, ◌≤◌, ◌<◌, ◌≡◌, refl, List, [], ◌∷◌, ◌++◌, arith, append_assoc,
}
use quirrel.Prelude.{length, length-append, ok, ◌>>=◌, true, false, Bool}
use quirrel.Serializer.Value.{
  Value, Items, Fields, Writer, null, bool, integer, float, string, array, table, class_instance,
  other, nil, cons, end, field, new_slot, count_items, count_used, max_nesting, start_marker,
  end_marker,
}
use quirrel.Serializer.Write.{
  write, serialize_object, serialize, fresh_writer, integer_bytes, float_bytes, find_string,
  serialize_items, serialize_fields,
}
use quirrel.Serializer.Read.{deserialize_object, deserialize, read_items, read_fields}
use quirrel.Serializer.Valid.{
  IsValid, AreValid, AreValidFields, nesting, nesting_items, nesting_fields, strings, strings_items,
  strings_fields, append_fields, append_fields-end,
}
use quirrel.Serializer.Leaves.{
  at, read_word-cons, integer_bytes-Reads, float_bytes-Reads, size_bytes-array, size_bytes-table,
}
use quirrel.Serializer.States.{
  IsConsistent, Fits, inside, integer_bytes_pos, float_bytes_pos, inside-Fits, enter-eq-ok,
}
use quirrel.Serializer.Frames.{
  WritesValue, WritesItems, WritesFields, leaf, string-Writes, container-Writes, nil-Writes,
  cons-Writes, end-Writes, field-Writes,
}

module _ {w : Writer} {met : List (List ℕ)} where
  -- What is left of the room for the parts.
  Fits-mono : (m n d e : ℕ) → m ≤ n → d ≤ e → Fits w met n e → Fits w met m d
  Fits-mono m n d e p q fit = record {
    consistent = fit.consistent;
    room = omega (arith, fit.room);
    shallow = omega (arith, fit.shallow);
  }

  Fits-next :
      (g : ℕ → ℕ) {v : Value} (m n d : ℕ) (t : WritesValue g v w met m)
      → Fits w met (m + n) d
      → Fits t.after t.met_after n d
  Fits-next g m n d t fit = record {
    consistent = t.consistent;
    room = omega (arith, fit.room, t.few);
    shallow = omega (arith, fit.shallow, t.same_depth);
  }

  null-Writes : (g : ℕ → ℕ) (new : ℕ) → IsConsistent w met → WritesValue g null w met new
  unfolding serialize_object deserialize_object
  null-Writes g new c =
      leaf g null w met (1 ∷ []) new c refl (omega arith) (λ f rest. rw (read_word-cons met))

  bool-Writes :
      (g : ℕ → ℕ) (b : Bool) (new : ℕ) → IsConsistent w met → WritesValue g (bool b) w met new
  unfolding serialize_object deserialize_object
  bool-Writes g true new c =
      leaf g (bool true) w met (0x11 ∷ []) new c refl (omega arith)
        (λ f rest. rw (read_word-cons met))
  bool-Writes g false new c =
      leaf g (bool false) w met (0x10 ∷ []) new c refl (omega arith)
        (λ f rest. rw (read_word-cons met))

module _ (g : ℕ → ℕ) where
  mutual
    unfolding serialize_object IsValid nesting strings append_fields

    object-Writes :
        (v : Value) (w : Writer) (met : List (List ℕ))
        → IsValid v
        → Fits w met (strings v) (nesting v)
        → WritesValue g v w met (strings v)
    object-Writes null w met h fit = null-Writes g 0 fit.consistent
    object-Writes (bool b) w met h fit = bool-Writes g b 0 fit.consistent
    object-Writes (integer z) w met h fit =
        leaf g (integer z) w met (integer_bytes z) 0 fit.consistent refl (integer_bytes_pos z)
          (λ f rest. integer_bytes-Reads g met f rest z h)
    object-Writes (float bits) w met h fit =
        leaf g (float bits) w met (float_bytes bits) 0 fit.consistent refl (float_bytes_pos bits)
          (λ f rest. float_bytes-Reads g met f rest bits h.0 h.1)
    object-Writes (string s) w met h fit = string-Writes g s w met h fit
    object-Writes (array vs) w met h fit =
        container-Writes g (array vs) vs 0x50 (count_items vs) (strings_items vs) w met
          (serialize_items vs (inside 0x50 (count_items vs) w))
          (λ f. read_items g f (count_items vs)) array refl
          (rw (enter-eq-ok w (omega (arith, fit.shallow))))
          (λ f rest. size_bytes-array g met f rest (count_items vs) h.0)
          (items-Writes vs _ met h.1
            (inside-Fits 0x50 (count_items vs) (strings_items vs) (nesting_items vs) fit))
    object-Writes (table fs) w met h fit =
        container-Writes g (table fs) fs 0x60 (count_used fs) (strings_fields fs) w met
          (serialize_fields fs (inside 0x60 (count_used fs) w))
          (λ f. read_fields g f (count_used fs) end) table refl
          (rw (enter-eq-ok w (omega (arith, fit.shallow))))
          (λ f rest. size_bytes-table g met f rest (count_used fs) h.0)
          (fields-Writes fs end _ met h.1
            (inside-Fits 0x60 (count_used fs) (strings_fields fs) (nesting_fields fs) fit))
    object-Writes class_instance w met h fit = absurd h
    object-Writes other w met h fit = absurd h

    items-Writes :
        (vs : Items) (w : Writer) (met : List (List ℕ))
        → AreValid vs
        → Fits w met (strings_items vs) (nesting_items vs)
        → WritesItems g vs w met (strings_items vs)
    items-Writes nil w met h fit = nil-Writes g w met 0 fit.consistent
    items-Writes (cons v vs) w met h fit =
        let t =
          object-Writes v w met h.0
            (Fits-mono (strings v) _ (nesting v) _ (omega arith) (omega arith) fit) in
        cons-Writes g v vs w met (strings v) (strings_items vs) t (
          items-Writes vs t.after t.met_after h.1 (
            Fits-next g (strings v) (strings_items vs) (nesting_items vs) t (
              Fits-mono (strings v + strings_items vs) _ (nesting_items vs) _ (omega arith)
                (omega arith) fit)))

    fields-Writes :
        (fs slots : Fields) (w : Writer) (met : List (List ℕ))
        → AreValidFields slots fs
        → Fits w met (strings_fields fs) (nesting_fields fs)
        → WritesFields g slots fs w met (strings_fields fs)
    fields-Writes end slots w met h fit =
        end-Writes g slots w met 0 fit.consistent (append_fields-end slots)
    fields-Writes (field k v fs) slots w met h fit =
        let t =
          object-Writes k w met h.1
            (Fits-mono (strings k) _ (nesting k) _ (omega arith) (omega arith) fit) in
        let fit' =
          Fits-next g (strings k) (strings v + strings_fields fs) (nesting_fields (field k v fs)) t
            (Fits-mono (strings k + (strings v + strings_fields fs)) _
              (nesting_fields (field k v fs)) _ (omega arith) (omega arith) fit) in
        let u =
          object-Writes v t.after t.met_after h.2
            (Fits-mono (strings v) _ (nesting v) _ (omega arith) (omega arith) fit') in
        field-Writes g k v slots fs w met (strings k) (strings v) (strings_fields fs) t u h.0 (
          fields-Writes fs (new_slot k v slots) u.after u.met_after h.3 (
            Fits-next g (strings v) (strings_fields fs) (nesting_fields fs) u (
              Fits-mono (strings v + strings_fields fs) _ (nesting_fields fs) _ (omega arith)
                (omega arith) fit')))

  -- What `deserialize` makes of a body between the two markers.
  deserialize-framed :
      (v : Value) (body rest : List ℕ) (met : List (List ℕ))
      → ((f : ℕ) (rest : List ℕ)
          → 0 + 2 * length body < f
          → deserialize_object g f (at (body ++ rest) []) ≡ ok (v, at rest met))
      → deserialize g (start_marker ∷ (body ++ end_marker ∷ rest)) ≡ ok (v, rest)
  unfolding deserialize
  deserialize-framed v body rest met reads =
      let long = length-append body (end_marker ∷ rest) in
      let whole = start_marker ∷ (body ++ end_marker ∷ rest) in
      rw (
        read_word-cons [],
        ◌>>=◌,
        reads (2 * length whole + 2) (end_marker ∷ rest) (omega (arith, long)),
        read_word-cons met,
      )

  from_Writes :
      (v : Value) (new : ℕ) (rest : List ℕ)
      → WritesValue g v (write (start_marker ∷ []) fresh_writer) [] new
      → (bytes : List ℕ) × (serialize v ≡ ok bytes) × (deserialize g (bytes ++ rest) ≡ ok (v, rest))
  unfolding serialize write
  from_Writes v new rest t = (
    start_marker ∷ (t.bytes ++ end_marker ∷ []),
    rw (t.returns, ◌>>=◌, t.grows),
    rw append_assoc (deserialize-framed v t.bytes rest t.met_after t.reads),
  )

  fresh-Fits :
      (new deep : ℕ)
      → new ≤ 2 ^ 32
      → deep ≤ max_nesting
      → Fits (write (start_marker ∷ []) fresh_writer) [] new deep
  unfolding write find_string
  fresh-Fits new deep p q = record {
    consistent = record { counted = refl; found = λ s i e. cc };
    room = omega arith;
    shallow = omega arith;
  }

  -- For a value that IsValid, nested at most 200 deep and with at most 2 ^ 32 strings, `serialize`
  -- succeeds, and `deserialize` of its bytes, whatever follows them, gives the value back and
  -- leaves what follows.
  pub deserialize-serialize :
      (v : Value) (rest : List ℕ)
      → IsValid v
      → nesting v ≤ max_nesting
      → strings v ≤ 2 ^ 32
      → (bytes : List ℕ) × (serialize v ≡ ok bytes) × (deserialize g (bytes ++ rest) ≡ ok (v, rest))
  deserialize-serialize v rest h deep many =
      from_Writes v (strings v) rest
        (object-Writes v _ [] h (fresh-Fits (strings v) (nesting v) many deep))
