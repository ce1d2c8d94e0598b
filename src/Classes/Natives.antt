-- ===== src/Classes/Natives.antt =====
-- RegisterNativeField of squirrel/sqclass.cpp.
use quirrel.Prelude.{
  ℕ, suc, ◌≤◌, ◌<◌, ◌≡◌, ◌≢◌, refl, sym, ap, ◌∙◌, inl, inr, true, ◌==◌, if◌then◌else◌, none, some,
  length, get_elem?, ◌++◌, ◌∷◌, [], arith, Bool-cases, length-append, subst, get_elem?-lt,
  get_elem?-append_left, get_elem?-append_self,
}
use quirrel.Classes.Index.{make_native_field_idx, member_max_count}
use quirrel.Classes.Members.{Members}
use quirrel.Classes.Class.{Class, NativeField, plain, add_native}
use quirrel.Classes.Sound.{
  IsSoundFor, Owners, IsMember, IsInside, a_field, a_method, a_native, slot_value-native,
  natives-le,
}
use quirrel.Classes.Places.{Reads, Keeps-Reads}
use quirrel.Vm.Object.{null}

module _ {K F : Type 0} {m : Members K} {c : Class m F} {o : Owners K} (s : IsSoundFor c o) (k : K)
    (d : NativeField) (room : m.count_used c.members < member_max_count)
    (inside : IsInside c.ud_size d) (absent : m.get k c.members ≡ none) where
  -- The names of the places, with the new one.
  abbrev owners_native : Owners K
  owners_native = record o { native = λ a. if a == length c.native_fields then k else o.native a }

  grown_native : length (c.native_fields ++ d ∷ []) ≡ suc (length c.native_fields)
  grown_native = omega (arith, length-append c.native_fields (d ∷ []))

  few_native : length (c.native_fields ++ d ∷ []) ≤ member_max_count
  few_native = omega (arith, grown_native, natives-le s)

  get_native :
      (j : K)
      → m.get j (add_native k d c).members ≡ (
          if m.same k j
          then some (make_native_field_idx (length c.native_fields))
          else m.get j c.members)
  get_native j =
      m.get-new_slot j k (make_native_field_idx (length c.native_fields)) c.members s.valid

  self_native :
      m.get k (add_native k d c).members ≡ some (make_native_field_idx (length c.native_fields))
  self_native = get_native k ∙ rw ((m.same_iff k k).1 refl) refl

  other_native : (j : K) → k ≢ j → m.get j (add_native k d c).members ≡ m.get j c.members
  other_native j ne = elim (Bool-cases (m.same k j)) [
    | inl t ↦ absurd (ne ((m.same_iff k j).0 t))
    | inr t ↦ get_native j ∙ rw t refl
  ]

  no_field : (j : ℕ) → j < length c.default_values → k ≢ o.field j
  no_field j h e = let there = s.fields_there j h in let gone = ap (λ n. m.get n c.members) e in cc

  no_native : (j : ℕ) → j < length c.native_fields → k ≢ o.native j
  no_native j h e =
      let there = s.natives_there j h in let gone = ap (λ n. m.get n c.members) e in cc

  IsMember-native :
      (j : K) (i : ℕ)
      → m.get j (add_native k d c).members ≡ some i
      → IsMember (add_native k d c) owners_native j i
  IsMember-native j i e = elim (Bool-cases (m.same k j)) [
    | inl t ↦
        a_native (length c.native_fields) (number t) (omega (arith, grown_native))
          (ground (arith, (m.same_iff k j).0 t))
    | inr t ↦ moved j i (s.member j i (sym (get_native j ∙ rw t refl) ∙ e))
  ]
    where
      number : m.same k j ≡ true → i ≡ make_native_field_idx (length c.native_fields)
      number t =
          let g : m.get j (add_native k d c).members
              ≡ some (make_native_field_idx (length c.native_fields)) =
            get_native j ∙ rw t refl in
          cc

      moved : (j : K) (i : ℕ) → IsMember c o j i → IsMember (add_native k d c) owners_native j i
      moved j i (a_field b at h e) = a_field b at h e
      moved j i (a_method b at h e) = a_method b at h e
      moved j i (a_native b at h e) =
          a_native b at (omega (arith, grown_native)) (ground (arith, e))

  there_native :
      (j : K)
      → (i : ℕ) × (m.get j c.members ≡ some i)
      → (i : ℕ) × (m.get j (add_native k d c).members ≡ some i)
  there_native j (i, e) = elim (Bool-cases (m.same k j)) [
    | inl t ↦ (make_native_field_idx (length c.native_fields), get_native j ∙ rw t refl)
    | inr t ↦ (i, get_native j ∙ rw t e)
  ]

  all_native :
      (j : ℕ)
      → j < length (c.native_fields ++ d ∷ [])
      → m.get (owners_native.native j) (add_native k d c).members ≡ some (make_native_field_idx j)
  all_native j h = elim (Bool-cases (j == length c.native_fields)) [
    | inl t ↦ rw t (self_native ∙ ap (λ n. some (make_native_field_idx n)) (ground arith))
    | inr t ↦ rw t (
        other_native (o.native j) (no_native j (ground (arith, grown_native)))
        ∙ s.natives_there j (ground (arith, grown_native)))
  ]

  IsInside-native :
      (j : ℕ) (e : NativeField)
      → get_elem? (c.native_fields ++ d ∷ []) j ≡ some e
      → IsInside c.ud_size e
  IsInside-native j e at = elim (Bool-cases (j == length c.native_fields)) [
    | inl t ↦
        subst (IsInside c.ud_size) (ground (arith, get_elem?-append_self c.native_fields d []))
          inside
    | inr t ↦ s.natives_inside j e (
        ground (
          arith,
          grown_native,
          get_elem?-lt (c.native_fields ++ d ∷ []) j e at,
          get_elem?-append_left c.native_fields (d ∷ []) j,
        ))
  ]

  pub add_native-IsSoundFor : IsSoundFor (add_native k d c) owners_native
  add_native-IsSoundFor = record {
    valid = m.new_slot-IsValid k (make_native_field_idx (length c.native_fields)) c.members s.valid;
    member = IsMember-native;
    fields_there = λ j h. other_native (o.field j) (no_field j h) ∙ s.fields_there j h;
    natives_there = all_native;
    methods_there = λ j h. there_native (o.method j) (s.methods_there j h);
    methods_apart = s.methods_apart;
    few_fields = s.few_fields;
    few_natives = few_native;
    few_methods = s.few_methods;
    constructor_there = s.constructor_there;
    natives_inside = IsInside-native;
  }

  pub add_native-Reads : Reads k (plain null) c (add_native k d c)
  add_native-Reads =
      Keeps-Reads s (add_native k d c) k (plain null)
        (make_native_field_idx (length c.native_fields)) self_native
        (slot_value-native (add_native k d c) (length c.native_fields) (omega (arith, grown_native))
          few_native)
        other_native
        λ j ne. record {
          few_fields = s.few_fields;
          few_methods = s.few_methods;
          few_natives = few_native;
          more_fields = omega arith;
          more_methods = omega arith;
          more_natives = omega (arith, grown_native);
          field = λ b h e. refl;
          method = λ b h e. refl;
        }
