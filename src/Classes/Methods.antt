-- ===== src/Classes/Methods.antt =====
-- NewSlot of squirrel/sqclass.cpp gives an SQClass a method.
use quirrel.Prelude.{
  ℕ, suc, ◌≤◌, ◌<◌, ◌≡◌, ◌≢◌, refl, sym, ap, ◌∙◌, inl, inr, true, ◌==◌, if◌then◌else◌, none, some,
  length, ◌++◌, ◌∷◌, [], arith, Bool-cases, length-append,
}
use quirrel.Classes.Index.{make_method_idx, member_max_count}
use quirrel.Classes.Members.{Members}
use quirrel.Classes.Class.{ObjectPtr, Class, SharedState, add_method}
use quirrel.Classes.Sound.{
  IsSoundFor, Owners, IsMember, a_field, a_method, a_native, slot_value-method, methods-le,
}
use quirrel.Classes.Places.{Reads, Keeps-Reads, read-append, read-append_self}

module _ {K F : Type 0} {m : Members K} {c : Class m F} {o : Owners K} (s : IsSoundFor c o)
    (ss : SharedState K) (k : K) (v : ObjectPtr F)
    (room : m.count_used c.members < member_max_count) (absent : m.get k c.members ≡ none) where
  -- The names of the places, with the new one.
  abbrev owners_method : Owners K
  owners_method = record o { method = λ a. if a == length c.methods then k else o.method a }

  grown_method : length (c.methods ++ v ∷ []) ≡ suc (length c.methods)
  grown_method = omega (arith, length-append c.methods (v ∷ []))

  few_method : length (c.methods ++ v ∷ []) ≤ member_max_count
  few_method = omega (arith, grown_method, methods-le s)

  get_method :
      (j : K)
      → m.get j (add_method ss k v c).members
        ≡ (if m.same k j then some (make_method_idx (length c.methods)) else m.get j c.members)
  get_method j = m.get-new_slot j k (make_method_idx (length c.methods)) c.members s.valid

  self_method : m.get k (add_method ss k v c).members ≡ some (make_method_idx (length c.methods))
  self_method = get_method k ∙ rw ((m.same_iff k k).1 refl) refl

  other_method : (j : K) → k ≢ j → m.get j (add_method ss k v c).members ≡ m.get j c.members
  other_method j ne = elim (Bool-cases (m.same k j)) [
    | inl t ↦ absurd (ne ((m.same_iff k j).0 t))
    | inr t ↦ get_method j ∙ rw t refl
  ]

  no_field : (j : ℕ) → j < length c.default_values → k ≢ o.field j
  no_field j h e = let there = s.fields_there j h in let gone = ap (λ n. m.get n c.members) e in cc

  no_native : (j : ℕ) → j < length c.native_fields → k ≢ o.native j
  no_native j h e =
      let there = s.natives_there j h in let gone = ap (λ n. m.get n c.members) e in cc

  IsMember-method :
      (j : K) (i : ℕ)
      → m.get j (add_method ss k v c).members ≡ some i
      → IsMember (add_method ss k v c) owners_method j i
  IsMember-method j i e = elim (Bool-cases (m.same k j)) [
    | inl t ↦
        a_method (length c.methods) (number t) (omega (arith, grown_method))
          (ground (arith, (m.same_iff k j).0 t))
    | inr t ↦ moved j i (s.member j i (sym (get_method j ∙ rw t refl) ∙ e))
  ]
    where
      number : m.same k j ≡ true → i ≡ make_method_idx (length c.methods)
      number t =
          let g : m.get j (add_method ss k v c).members
              ≡ some (make_method_idx (length c.methods)) =
            get_method j ∙ rw t refl in
          cc

      moved : (j : K) (i : ℕ) → IsMember c o j i → IsMember (add_method ss k v c) owners_method j i
      moved j i (a_field b at h e) = a_field b at h e
      moved j i (a_method b at h e) =
          a_method b at (omega (arith, grown_method)) (ground (arith, e))
      moved j i (a_native b at h e) = a_native b at h e

  there_method :
      (j : K)
      → (i : ℕ) × (m.get j c.members ≡ some i)
      → (i : ℕ) × (m.get j (add_method ss k v c).members ≡ some i)
  there_method j (i, e) = elim (Bool-cases (m.same k j)) [
    | inl t ↦ (make_method_idx (length c.methods), get_method j ∙ rw t refl)
    | inr t ↦ (i, get_method j ∙ rw t e)
  ]

  all_methods :
      (j : ℕ)
      → j < length (c.methods ++ v ∷ [])
      → (i : ℕ) × (m.get (owners_method.method j) (add_method ss k v c).members ≡ some i)
  all_methods j h = elim (Bool-cases (j == length c.methods)) [
    | inl t ↦ rw t (_, self_method)
    | inr t ↦ rw t (there_method (o.method j) (s.methods_there j (ground (arith, grown_method))))
  ]

  new_name : (j : ℕ) → j < length c.methods → o.method j ≢ k
  new_name j h e =
      let (i, there) = s.methods_there j h in let gone = ap (λ n. m.get n c.members) e in cc

  apart_method :
      (i j : ℕ)
      → i < length (c.methods ++ v ∷ [])
      → j < length (c.methods ++ v ∷ [])
      → owners_method.method i ≡ owners_method.method j
      → i ≡ j
  apart_method i j h l e = elim (Bool-cases (i == length c.methods)) [
    | inl t ↦ elim (Bool-cases (j == length c.methods)) [
      | inl u ↦ ground arith
      | inr u ↦ absurd (new_name j (ground (arith, grown_method)) (ground arith))
    ]
    | inr t ↦ elim (Bool-cases (j == length c.methods)) [
      | inl u ↦ absurd (new_name i (ground (arith, grown_method)) (ground arith))
      | inr u ↦
          s.methods_apart i j (ground (arith, grown_method)) (ground (arith, grown_method))
            (ground arith)
    ]
  ]

  constructor_method :
      (j : ℕ) → (add_method ss k v c).constructor_idx ≡ some j → j < length (c.methods ++ v ∷ [])
  constructor_method j e = elim (Bool-cases (m.same ss.constructor_str k)) [
    | inl t ↦ ground (arith, grown_method)
    | inr t ↦ ground (arith, grown_method, s.constructor_there j)
  ]

  pub add_method-IsSoundFor : IsSoundFor (add_method ss k v c) owners_method
  add_method-IsSoundFor = record {
    valid = m.new_slot-IsValid k (make_method_idx (length c.methods)) c.members s.valid;
    member = IsMember-method;
    fields_there = λ j h. other_method (o.field j) (no_field j h) ∙ s.fields_there j h;
    natives_there = λ j h. other_method (o.native j) (no_native j h) ∙ s.natives_there j h;
    methods_there = all_methods;
    methods_apart = apart_method;
    few_fields = s.few_fields;
    few_natives = s.few_natives;
    few_methods = few_method;
    constructor_there = λ j e. constructor_method j e;
    natives_inside = s.natives_inside;
  }

  pub add_method-Reads : Reads k v c (add_method ss k v c)
  add_method-Reads =
      Keeps-Reads s (add_method ss k v c) k v (make_method_idx (length c.methods)) self_method
        (slot_value-method (add_method ss k v c) (length c.methods) (omega (arith, grown_method))
            few_method
          ∙ read-append_self c.methods v)
        other_method
        λ j ne. record {
          few_fields = s.few_fields;
          few_methods = few_method;
          few_natives = s.few_natives;
          more_fields = omega arith;
          more_methods = omega (arith, grown_method);
          more_natives = omega arith;
          field = λ b h e. refl;
          method = λ b h e. read-append c.methods v b h;
        }
