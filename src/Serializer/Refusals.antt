-- ===== src/Serializer/Refusals.antt =====
-- What `serialize` of sqstdlib/sqstdserialization.cpp refuses.
use quirrel.Prelude.{
  ℕ, ◌+◌, ◌≤◌, ◌≡◌, refl, List, arith, ok, >>=-eq-ok, [], ◌∷◌, Option-cases, inl, inr,
}
use quirrel.Serializer.Value.{
  Value, Items, Fields, Writer, null, bool, integer, float, string, array, table, class_instance,
  other, nil, cons, end, field, count_items, count_used, max_nesting, start_marker,
}
use quirrel.Serializer.Write.{
  write, serialize_object, serialize, serialize_items, serialize_fields, enter, leave, size_bytes,
  fresh_writer, serialize_string, find_string, remember_string,
}
use quirrel.Serializer.Valid.{nesting, nesting_items, nesting_fields}

-- No part is of a type that the format lacks.
unfoldable mutual
  pub IsSupported : Value → Type 0
  IsSupported (array vs) = AreSupported vs
  IsSupported (table fs) = AreSupportedFields fs
  IsSupported class_instance = ⊥
  IsSupported other = ⊥
  IsSupported _ = Unit

  pub AreSupported : Items → Type 0
  AreSupported nil = Unit
  AreSupported (cons v vs) = IsSupported v × AreSupported vs

  pub AreSupportedFields : Fields → Type 0
  AreSupportedFields end = Unit
  AreSupportedFields (field k v fs) = IsSupported k × IsSupported v × AreSupportedFields fs

-- The writer's depth came back to where it was, and had room for what was written.
abbrev Kept : Writer → Writer → ℕ → Type 0
Kept w w' deep = (w'.depth ≡ w.depth) × (w.depth + deep ≤ max_nesting)

enter-eq :
    (w : Writer) {w' : Writer}
    → enter w ≡ ok w'
    → (w'.depth ≡ w.depth + 1) × (w.depth + 1 ≤ max_nesting)
unfolding enter
enter-eq w h = ground arith

serialize_string-depth : (s : List ℕ) (w : Writer) → (serialize_string s w).depth ≡ w.depth
unfolding serialize_string write remember_string
serialize_string-depth [] w = refl
serialize_string-depth (b ∷ bs) w = elim (Option-cases (find_string (b ∷ bs) w.string_table)) [
  | inl e ↦ rw (e, serialize_string)
  | inr (i, e) ↦ rw (e, serialize_string)
]

mutual
  unfolding serialize_object IsSupported nesting write leave

  object-Kept :
      (v : Value) (w : Writer) {w' : Writer}
      → w.depth ≤ max_nesting
      → serialize_object v w ≡ ok w'
      → Kept w w' (nesting v) × IsSupported v
  object-Kept null w room h = (ground arith, tt)
  object-Kept (bool b) w room h = (ground arith, tt)
  object-Kept (integer z) w room h = (ground arith, tt)
  object-Kept (float bits) w room h = (ground arith, tt)
  object-Kept (string s) w room h = (ground (arith, serialize_string-depth s w), tt)
  object-Kept (array vs) w room h =
      let (inside, e, h₁) = >>=-eq-ok (enter w) _ h in
      let (done, e₁, h₂) =
        >>=-eq-ok (serialize_items vs (write (size_bytes 0x50 (count_items vs)) inside)) _ h₁ in
      let d = enter-eq w e in
      let ih = items-Kept vs (write (size_bytes 0x50 (count_items vs)) inside) (omega arith) e₁ in
      (ground arith, ih.1)
  object-Kept (table fs) w room h =
      let (inside, e, h₁) = >>=-eq-ok (enter w) _ h in
      let (done, e₁, h₂) =
        >>=-eq-ok (serialize_fields fs (write (size_bytes 0x60 (count_used fs)) inside)) _ h₁ in
      let d = enter-eq w e in
      let ih = fields-Kept fs (write (size_bytes 0x60 (count_used fs)) inside) (omega arith) e₁ in
      (ground arith, ih.1)
  object-Kept class_instance w room h = let (inside, e, h₁) = >>=-eq-ok (enter w) _ h in cc
  object-Kept other w room h = cc

  items-Kept :
      (vs : Items) (w : Writer) {w' : Writer}
      → w.depth ≤ max_nesting
      → serialize_items vs w ≡ ok w'
      → Kept w w' (nesting_items vs) × AreSupported vs
  items-Kept nil w room h = (ground arith, tt)
  items-Kept (cons v vs) w room h =
      let (next, e, h₁) = >>=-eq-ok (serialize_object v w) _ h in
      let t = object-Kept v w room e in
      let u = items-Kept vs next (omega arith) h₁ in (omega arith, (t.1, u.1))

  fields-Kept :
      (fs : Fields) (w : Writer) {w' : Writer}
      → w.depth ≤ max_nesting
      → serialize_fields fs w ≡ ok w'
      → Kept w w' (nesting_fields fs) × AreSupportedFields fs
  fields-Kept end w room h = (ground arith, tt)
  fields-Kept (field k v fs) w room h =
      let (keyed, e, h₁) = >>=-eq-ok (serialize_object k w) _ h in
      let (next, e₁, h₂) = >>=-eq-ok (serialize_object v keyed) _ h₁ in
      let t = object-Kept k w room e in
      let u = object-Kept v keyed (omega arith) e₁ in
      let x = fields-Kept fs next (omega arith) h₂ in (omega arith, (t.1, u.1, x.1))

-- Whatever `serialize` writes is nested at most 200 deep and holds no instance, function or other
-- object without a branch: such a value is refused, wherever in the value it stands.
pub serialize-refuses :
    (v : Value) {bytes : List ℕ}
    → serialize v ≡ ok bytes
    → (nesting v ≤ max_nesting) × IsSupported v
unfolding serialize
serialize-refuses v h =
    let (done, e, h₁) =
      >>=-eq-ok (serialize_object v (write (start_marker ∷ []) fresh_writer)) _ h in
    let t =
      object-Kept v (write (start_marker ∷ []) fresh_writer) (unfold write in omega arith) e in
    (unfold write in omega arith, t.1)
