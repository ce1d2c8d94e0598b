-- ===== src/Serializer/Frames.antt =====
-- Writing one part of a value and reading it back, and how the parts go together:
-- sqstdlib/sqstdserialization.cpp.
use quirrel.Prelude.{ℕ, suc, ◌+◌, ◌≤◌, ◌<◌, ◌≡◌, refl, List, [], ◌∷◌, ◌++◌, arith}
use quirrel.Prelude.{
  Option-cases, inl, inr, length, length-append, Result, ok, ◌>>=◌, append_assoc, ◌∙◌, sym,
}
use quirrel.Prelude.{get_elem?-lt}
use quirrel.Prelude.{false, append-nil}
use quirrel.Serializer.Value.{
  Value, Items, Fields, Failure, Writer, Reader, string, nil, cons, end, field, new_slot,
  count_items, count_used, max_object_size,
}
use quirrel.Serializer.Write.{
  write, find_string, serialize_string, remember_string, leave, serialize_object, serialize_items,
  serialize_fields, new_string_bytes, string_index_bytes, size_bytes,
}
use quirrel.Serializer.Read.{read_string, Run, deserialize_object, read_items, read_fields}
use quirrel.Serializer.Valid.{has_key, append_fields, append_fields-new_slot}
use quirrel.Serializer.Leaves.{at, read_word-cons, new_string_bytes-Reads, string_index_bytes-Reads}
use quirrel.Serializer.States.{
  IsConsistent, remember_string-IsConsistent, Writes, Fits, pay, string_index_bytes_pos,
  new_string_bytes_pos, size_bytes_pos, inside,
}

module _ (g : ℕ → ℕ) where
  abbrev pub WritesValue : Value → Writer → List (List ℕ) → ℕ → Type 0
  WritesValue v w met new = Writes w met (serialize_object v w) 1 new 0 (deserialize_object g) v

  abbrev pub WritesItems : Items → Writer → List (List ℕ) → ℕ → Type 0
  WritesItems vs w met new =
      Writes w met (serialize_items vs w) 0 new 1 (λ f. read_items g f (count_items vs)) vs

  abbrev pub WritesFields : Fields → Fields → Writer → List (List ℕ) → ℕ → Type 0
  WritesFields slots fs w met new =
      Writes w met (serialize_fields fs w) 0 new 1 (λ f. read_fields g f (count_used fs) slots)
        (append_fields slots fs)

  -- A value that adds no string.
  pub leaf :
      (v : Value) (w : Writer) (met : List (List ℕ)) (bytes : List ℕ) (new : ℕ)
      → IsConsistent w met
      → serialize_object v w ≡ ok (write bytes w)
      → 1 ≤ length bytes
      → ((f : ℕ) (rest : List ℕ)
          → deserialize_object g (suc f) (at (bytes ++ rest) met) ≡ ok (v, at rest met))
      → WritesValue v w met new
  unfolding write
  leaf v w met bytes new c runs pos back = record {
    after = _;
    bytes = bytes;
    met_after = met;
    returns = runs;
    grows = refl;
    same_depth = refl;
    consistent = record { counted = c.counted; found = c.found };
    few = omega arith;
    some_bytes = pos;
    reads = λ f rest.
        pay (λ f. deserialize_object g f (at (bytes ++ rest) met) ≡ ok (v, at rest met))
          (λ f h. back f rest) f;
  }

  pub string-Writes :
      (s : List ℕ) (w : Writer) (met : List (List ℕ))
      → length s < max_object_size
      → Fits w met 1 0
      → WritesValue (string s) w met 1
  unfolding serialize_object serialize_string
  string-Writes [] w met h fit =
      leaf (string []) w met (0x40 ∷ []) 1 fit.consistent refl (omega arith)
        (λ f rest. unfold deserialize_object read_string in rw (read_word-cons met))
  string-Writes (b ∷ bs) w met h fit = elim (Option-cases (find_string (b ∷ bs) w.string_table)) [
    | inl e ↦ record {
      after = remember_string (b ∷ bs) (write (new_string_bytes (b ∷ bs)) w);
      bytes = new_string_bytes (b ∷ bs);
      met_after = met ++ (b ∷ bs) ∷ [];
      returns = rw (e, serialize_string);
      grows = unfold remember_string write in refl;
      same_depth = unfold remember_string write in refl;
      consistent = remember_string-IsConsistent (b ∷ bs) (write (new_string_bytes (b ∷ bs)) w) met (
          unfold write in
          record { counted = fit.consistent.counted; found = fit.consistent.found });
      few = unfold remember_string write in omega arith;
      some_bytes = new_string_bytes_pos (b ∷ bs);
      reads = λ f rest.
          pay
            (λ f.
              deserialize_object g f (at (new_string_bytes (b ∷ bs) ++ rest) met)
              ≡ ok (string (b ∷ bs), at rest (met ++ (b ∷ bs) ∷ [])))
            (λ f k. new_string_bytes-Reads g met f rest (b ∷ bs) h) f;
    }
    | inr (i, e) ↦
        leaf (string (b ∷ bs)) w met (string_index_bytes i) 1 fit.consistent
          (rw (e, serialize_string)) (string_index_bytes_pos i)
          (λ f rest. string_index_bytes-Reads g met f rest (b ∷ bs) i (fit.consistent.found _ i e) (
            omega (
              arith,
              get_elem?-lt met i (b ∷ bs) (fit.consistent.found _ i e),
              fit.consistent.counted,
              fit.room,
            )))
  ]

  -- From the parts of an array or a table, written inside, to the whole.
  pub container-Writes :
      {A : Type 0} (v : Value) (a : A) (tag n new : ℕ) (w : Writer) (met : List (List ℕ))
      (res : Result Failure Writer) (run : ℕ → Reader → Run A) (wrap : A → Value)
      → wrap a ≡ v
      → (serialize_object v w ≡ (res >>= λ t. ok (leave t)))
      → ((f : ℕ) (rest : List ℕ)
          → deserialize_object g (suc f) (at (size_bytes tag n ++ rest) met)
            ≡ (run f (at rest met) >>= λ (x, after). ok (wrap x, after)))
      → Writes (inside tag n w) met res 0 new 1 run a
      → WritesValue v w met new
  unfolding write leave
  container-Writes v a tag n new w met res run wrap whole runs back t = record {
    after = leave t.after;
    bytes = size_bytes tag n ++ t.bytes;
    met_after = t.met_after;
    returns = rw (runs, t.returns);
    grows = rw (t.grows, append_assoc);
    same_depth = omega (arith, t.same_depth);
    consistent = record { counted = t.consistent.counted; found = t.consistent.found };
    few = t.few;
    some_bytes = omega (arith, size_bytes_pos tag n, length-append (size_bytes tag n) t.bytes);
    reads = λ f rest.
        pay
          (λ f.
            deserialize_object g f (at ((size_bytes tag n ++ t.bytes) ++ rest) met)
            ≡ ok (v, at rest t.met_after))
          (λ f h. rw (
            append_assoc,
            back f (t.bytes ++ rest),
            t.reads f rest
                (omega (arith, h, size_bytes_pos tag n, length-append (size_bytes tag n) t.bytes)),
            ◌>>=◌,
            whole,
          ))
          f;
  }

  pub nil-Writes :
      (w : Writer) (met : List (List ℕ)) (new : ℕ) → IsConsistent w met → WritesItems nil w met new
  unfolding serialize_items count_items
  nil-Writes w met new c = record {
    after = w;
    bytes = [];
    met_after = met;
    returns = refl;
    grows = sym (append-nil _);
    same_depth = refl;
    consistent = c;
    few = omega arith;
    some_bytes = omega arith;
    reads = λ f rest.
        pay (λ f. read_items g f 0 (at rest met) ≡ ok (nil, at rest met))
          (λ f h. unfold read_items in refl) f;
  }

  pub cons-Writes :
      (v : Value) (vs : Items) (w : Writer) (met : List (List ℕ)) (m n : ℕ)
      (t : WritesValue v w met m)
      → WritesItems vs t.after t.met_after n
      → WritesItems (cons v vs) w met (m + n)
  unfolding serialize_items count_items read_items
  cons-Writes v vs w met m n t u = record {
    after = u.after;
    bytes = t.bytes ++ u.bytes;
    met_after = u.met_after;
    returns = rw t.returns u.returns;
    grows = rw (u.grows, t.grows, append_assoc);
    same_depth = u.same_depth ∙ t.same_depth;
    consistent = u.consistent;
    few = omega (arith, t.few, u.few);
    some_bytes = omega arith;
    reads = λ f rest.
        pay
          (λ f.
            read_items g f (suc (count_items vs)) (at ((t.bytes ++ u.bytes) ++ rest) met)
            ≡ ok (cons v vs, at rest u.met_after))
          (λ f h.
            let long = length-append t.bytes u.bytes in
            rw (
              append_assoc,
              t.reads f (u.bytes ++ rest) (omega (arith, h, long)),
              ◌>>=◌,
              u.reads f rest (omega (arith, h, long, t.some_bytes)),
            ))
          f;
  }

  pub end-Writes :
      (slots : Fields) (w : Writer) (met : List (List ℕ)) (new : ℕ)
      → IsConsistent w met
      → append_fields slots end ≡ slots
      → WritesFields slots end w met new
  unfolding serialize_fields count_used
  end-Writes slots w met new c e = record {
    after = w;
    bytes = [];
    met_after = met;
    returns = refl;
    grows = sym (append-nil _);
    same_depth = refl;
    consistent = c;
    few = omega arith;
    some_bytes = omega arith;
    reads = λ f rest.
        pay (λ f. read_fields g f 0 slots (at rest met) ≡ ok (append_fields slots end, at rest met))
          (λ f h. unfold read_fields in rw e) f;
  }

  pub field-Writes :
      (k v : Value) (slots fs : Fields) (w : Writer) (met : List (List ℕ)) (l m n : ℕ)
      (t : WritesValue k w met l) (u : WritesValue v t.after t.met_after m)
      → has_key k slots ≡ false
      → WritesFields (new_slot k v slots) fs u.after u.met_after n
      → WritesFields slots (field k v fs) w met (l + m + n)
  unfolding serialize_fields count_used read_fields
  field-Writes k v slots fs w met l m n t u fresh x = record {
    after = x.after;
    bytes = t.bytes ++ (u.bytes ++ x.bytes);
    met_after = x.met_after;
    returns = rw (t.returns, ◌>>=◌, u.returns) x.returns;
    grows = x.grows ∙ rw (u.grows, t.grows) (simp append_assoc);
    same_depth = x.same_depth ∙ u.same_depth ∙ t.same_depth;
    consistent = x.consistent;
    few = omega (arith, t.few, u.few, x.few);
    some_bytes = omega arith;
    reads = λ f rest.
        pay
          (λ f.
            read_fields g f (suc (count_used fs)) slots
              (at ((t.bytes ++ (u.bytes ++ x.bytes)) ++ rest) met)
            ≡ ok (append_fields slots (field k v fs), at rest x.met_after))
          (λ f h.
            let long = length-append t.bytes (u.bytes ++ x.bytes) in
            let long' = length-append u.bytes x.bytes in
            rw (
              append_assoc,
              t.reads f ((u.bytes ++ x.bytes) ++ rest) (omega (arith, h, long)),
              ◌>>=◌,
              append_assoc,
              u.reads f (x.bytes ++ rest) (omega (arith, h, long, long')),
              ◌>>=◌,
              x.reads f rest (omega (arith, h, long, long', t.some_bytes)),
              append_fields-new_slot k v slots fs fresh,
            ))
          f;
  }
