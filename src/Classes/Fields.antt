-- ===== src/Classes/Fields.antt =====
-- NewSlot of squirrel/sqclass.cpp gives an SQClass a field.
use quirrel.Prelude.{
  ℕ, suc, ◌≤◌, ◌<◌, ◌≡◌, ◌≢◌, refl, sym, ap, ◌∙◌, inl, inr, true, ◌==◌, if◌then◌else◌, some, length,
  ◌++◌, ◌∷◌, [], arith, Bool-cases, length-append,
}
use quirrel.Classes.Index.{make_field_idx, member_max_count}
use quirrel.Classes.Members.{Members}
use quirrel.Classes.Class.{ObjectPtr, Class, map_done, real_val, add_field}
use quirrel.Classes.Sound.{
  IsSoundFor, Owners, IsMember, a_field, a_method, a_native, slot_value-field, fields-le,
}
use quirrel.Classes.Places.{Reads, Keeps-Reads, read-append, read-append_self}

module _ {K F : Type 0} {m : Members K} {c : Class m F} {o : Owners K} (s : IsSoundFor c o) (k : K)
    (v : ObjectPtr F) (room : m.count_used c.members < member_max_count)
    (no_field : (j : ℕ) → j < length c.default_values → k ≢ o.field j)
    (no_native : (j : ℕ) → j < length c.native_fields → k ≢ o.native j) where
  -- The names of the places, with the new one.
  abbrev owners_field : Owners K
  owners_field = record o { field = λ a. if a == length c.default_values then k else o.field a }

  grown_field : length (c.default_values ++ v ∷ []) ≡ suc (length c.default_values)
  grown_field = omega (arith, length-append c.default_values (v ∷ []))

  few_field : length (c.default_values ++ v ∷ []) ≤ member_max_count
  few_field = omega (arith, grown_field, fields-le s)

  get_field :
      (j : K)
      → m.get j (add_field k v c).members ≡ (
          if m.same k j then some (make_field_idx (length c.default_values)) else m.get j c.members)
  get_field j = m.get-new_slot j k (make_field_idx (length c.default_values)) c.members s.valid

  self_field : m.get k (add_field k v c).members ≡ some (make_field_idx (length c.default_values))
  self_field = get_field k ∙ rw ((m.same_iff k k).1 refl) refl

  other_field : (j : K) → k ≢ j → m.get j (add_field k v c).members ≡ m.get j c.members
  other_field j ne = elim (Bool-cases (m.same k j)) [
    | inl t ↦ absurd (ne ((m.same_iff k j).0 t))
    | inr t ↦ get_field j ∙ rw t refl
  ]

  IsMember-field :
      (j : K) (i : ℕ)
      → m.get j (add_field k v c).members ≡ some i
      → IsMember (add_field k v c) owners_field j i
  IsMember-field j i e = elim (Bool-cases (m.same k j)) [
    | inl t ↦
        a_field (length c.default_values) (number t) (omega (arith, grown_field))
          (ground (arith, (m.same_iff k j).0 t))
    | inr t ↦ moved j i (s.member j i (sym (get_field j ∙ rw t refl) ∙ e))
  ]
    where
      number : m.same k j ≡ true → i ≡ make_field_idx (length c.default_values)
      number t =
          let g : m.get j (add_field k v c).members
              ≡ some (make_field_idx (length c.default_values)) =
            get_field j ∙ rw t refl in
          cc

      moved : (j : K) (i : ℕ) → IsMember c o j i → IsMember (add_field k v c) owners_field j i
      moved j i (a_field b at h e) = a_field b at (omega (arith, grown_field)) (ground (arith, e))
      moved j i (a_method b at h e) = a_method b at h e
      moved j i (a_native b at h e) = a_native b at h e

  there_field :
      (j : K)
      → (i : ℕ) × (m.get j c.members ≡ some i)
      → (i : ℕ) × (m.get j (add_field k v c).members ≡ some i)
  there_field j (i, e) = elim (Bool-cases (m.same k j)) [
    | inl t ↦ (make_field_idx (length c.default_values), get_field j ∙ rw t refl)
    | inr t ↦ (i, get_field j ∙ rw t e)
  ]

  all_field :
      (j : ℕ)
      → j < length (c.default_values ++ v ∷ [])
      → m.get (owners_field.field j) (add_field k v c).members ≡ some (make_field_idx j)
  all_field j h = elim (Bool-cases (j == length c.default_values)) [
    | inl t ↦ rw t (self_field ∙ ap (λ n. some (make_field_idx n)) (ground arith))
    | inr t ↦ rw t (
        other_field (o.field j) (no_field j (ground (arith, grown_field)))
        ∙ s.fields_there j (ground (arith, grown_field)))
  ]

  pub add_field-IsSoundFor : IsSoundFor (add_field k v c) owners_field
  add_field-IsSoundFor = record {
    valid = m.new_slot-IsValid k (make_field_idx (length c.default_values)) c.members s.valid;
    member = IsMember-field;
    fields_there = all_field;
    natives_there = λ j h. other_field (o.native j) (no_native j h) ∙ s.natives_there j h;
    methods_there = λ j h. there_field (o.method j) (s.methods_there j h);
    methods_apart = s.methods_apart;
    few_fields = few_field;
    few_natives = s.few_natives;
    few_methods = s.few_methods;
    constructor_there = s.constructor_there;
    natives_inside = s.natives_inside;
  }

  pub add_field-Reads : Reads k (real_val v) c (add_field k v c)
  add_field-Reads =
      Keeps-Reads s (add_field k v c) k (real_val v) (make_field_idx (length c.default_values))
        self_field
        (slot_value-field (add_field k v c) (length c.default_values) (omega (arith, grown_field))
            few_field
          ∙ ap (map_done real_val) (read-append_self c.default_values v))
        other_field
        λ j ne. record {
          few_fields = few_field;
          few_methods = s.few_methods;
          few_natives = s.few_natives;
          more_fields = omega (arith, grown_field);
          more_methods = omega arith;
          more_natives = omega arith;
          field = λ b h e. read-append c.default_values v b h;
          method = λ b h e. refl;
        }
