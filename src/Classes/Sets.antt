-- ===== src/Classes/Sets.antt =====
-- `Set` of an SQInstance (squirrel/sqclass.h) on every branch.
use quirrel.Prelude.{
  ℕ, ◌+◌, ◌^◌, ◌≤◌, ◌<◌, ◌≡◌, ◌≢◌, refl, sym, ap, ◌∙◌, ◌⊎◌, inl, inr, true, false, some, arith,
  Bool-cases, Option-cases, length, set, lt→ltb,
}
use quirrel.Prelude.Int.{pos}
use quirrel.Vm.Object.{integer}
use quirrel.Classes.Index.{
  make_method_idx, make_field_idx, make_native_field_idx, is_fieldi, is_nativefieldi, member_idxi,
  field_kind, field_place, method_kind, native_kind, native_place,
}
use quirrel.Classes.Members.{Members}
use quirrel.Classes.Class.{
  ObjectPtr, Class, NativeField, done, map_done, real_val, plain, size_of_type,
}
use quirrel.Classes.Sound.{IsSoundFor, Owners, IsMember, a_field, a_method, a_native}
use quirrel.Classes.Places.{read-set_self, read-set_ne}
use quirrel.Classes.Store.{Instance}
use quirrel.Classes.Instance.{
  FloatUnit, get_native_field, set_native_field, get_member, instance_get, instance_set, status_of,
}
use quirrel.Classes.NativeFields.{set_native_field-get}
use quirrel.Classes.Accesses.{
  get_native_field-congr, get_done, get_member-field, get_member-method, get_member-native, IsApart,
  IsAssigned, no_match, field_set, native_refused, native_set,
}

module _ {K F : Type 0} {m : Members K} (u : FloatUnit F) (c : Class m F) (o : Owners K)
    (s : IsSoundFor c o) (inst : Instance F)
    (fits : length inst.values ≡ length c.default_values) where
  instance_get-congr :
      (after : Instance F) (j : K)
      → ((i : ℕ)
          → m.get j c.members ≡ some i
          → get_member u i (plain (integer (pos i))) after c
            ≡ get_member u i (plain (integer (pos i))) inst c)
      → instance_get u j after c ≡ instance_get u j inst c
  unfolding instance_get
  instance_get-congr after j h = elim (Option-cases (m.get j c.members)) [
    | inl e ↦ rw (instance_get, e) refl
    | inr (i, e) ↦ rw (instance_get, e) (h i e)
  ]

  instance_get-at :
      (after : Instance F) (j : K) (i : ℕ)
      → m.get j c.members ≡ some i
      → instance_get u j after c ≡ get_member u i (plain (integer (pos i))) after c
  unfolding instance_get
  instance_get-at after j i e = rw (instance_get, e) refl

  module _ (k : K) (v : ObjectPtr F) where
    abbrev with_field : ℕ → Instance F
    with_field a = record inst { values = set inst.values a v }

    field_kept :
        (a : ℕ)
        → o.field a ≡ k
        → (j : K) → k ≢ j
        → (i : ℕ) → IsMember c o j i
        → (old : ObjectPtr F) → get_member u i old (with_field a) c ≡ get_member u i old inst c
    field_kept a own j ne i (a_field b at h e) old =
        let small : b < 2 ^ 22 = omega (arith, s.few_fields) in
        rw at (
          get_member-field u (with_field a) c old b small
          ∙ ap (map_done real_val)
              (read-set_ne inst.values a b v (λ q. ne (sym own ∙ ap o.field q ∙ e)))
          ∙ sym (get_member-field u inst c old b small))
    field_kept a own j ne i (a_method b at h e) old =
        let small : b < 2 ^ 22 = omega (arith, s.few_methods) in
        rw at (
          get_member-method u (with_field a) c old b small
          ∙ sym (get_member-method u inst c old b small))
    field_kept a own j ne i (a_native b at h e) old =
        let small : b < 2 ^ 22 = omega (arith, s.few_natives) in
        rw at (
          get_member-native u (with_field a) c old b small
          ∙ sym (get_member-native u inst c old b small))

    abbrev with_data : (ℕ → ℕ) → Instance F
    with_data ud = record inst { ud = ud }

    data_kept :
        (d : NativeField) (ud : ℕ → ℕ)
        → ((j : ℕ) → (j < d.offset) ⊎ (d.offset + size_of_type d.type_of ≤ j) → ud j ≡ inst.ud j)
        → (j : K) → IsApart u c d j
        → (i : ℕ) → m.get j c.members ≡ some i
        → IsMember c o j i
        → (old : ObjectPtr F) → get_member u i old (with_data ud) c ≡ get_member u i old inst c
    data_kept d ud outside j apart i there (a_field b at h e) old =
        let small : b < 2 ^ 22 = omega (arith, s.few_fields) in
        rw at (
          get_member-field u (with_data ud) c old b small
          ∙ sym (get_member-field u inst c old b small))
    data_kept d ud outside j apart i there (a_method b at h e) old =
        let small : b < 2 ^ 22 = omega (arith, s.few_methods) in
        rw at (
          get_member-method u (with_data ud) c old b small
          ∙ sym (get_member-method u inst c old b small))
    data_kept d ud outside j apart i there (a_native b at h e) old =
        let small : b < 2 ^ 22 = omega (arith, s.few_natives) in
        let (q, found, r) = get_done c.native_fields b h in
        let known = (s.natives_inside b q found).known_type in
        rw at (
          get_member-native u (with_data ud) c old b small
          ∙ ap (map_done (λ f. get_native_field u f old ud)) r
          ∙ ap done (
              get_native_field-congr u q old ud inst.ud known
                λ x g l. outside x (beside q (apart b q (there ∙ ap some at) found) x g l))
          ∙ sym (ap (map_done (λ f. get_native_field u f old inst.ud)) r)
          ∙ sym (get_member-native u inst c old b small))
      where
        beside :
            (q : NativeField)
            → (q.offset + size_of_type q.type_of ≤ d.offset)
              ⊎ (d.offset + size_of_type d.type_of ≤ q.offset)
            → (x : ℕ) → q.offset ≤ x
            → x < q.offset + size_of_type q.type_of
            → (x < d.offset) ⊎ (d.offset + size_of_type d.type_of ≤ x)
        beside q (inl h) x g l = inl (omega arith)
        beside q (inr h) x g l = inr (omega arith)

    set_field :
        (a i : ℕ)
        → m.get k c.members ≡ some i
        → i ≡ make_field_idx a
        → a < length c.default_values
        → o.field a ≡ k
        → IsAssigned u c k v inst (instance_set u k v inst c)
    unfolding instance_set
    set_field a i e at inside own =
        let small : a < 2 ^ 22 = omega (arith, s.few_fields) in
        let kind : is_fieldi i ≡ true = ap is_fieldi at ∙ field_kind a small in
        let place : member_idxi i ≡ a = ap member_idxi at ∙ field_place a small in
        let within : a < length inst.values = omega (arith, fits) in
        let there : m.get k c.members ≡ some (make_field_idx a) = e ∙ ap some at in
        field_set a (with_field a) there
          (rw (instance_set, e, kind, place, lt→ltb a (length inst.values) within) refl)
          λ j. elim (Bool-cases (m.same k j)) [
            | inl t ↦ rw t (
                ap (λ n. instance_get u n (with_field a) c) (sym ((m.same_iff k j).0 t))
                ∙ instance_get-at (with_field a) k (make_field_idx a) there
                ∙ get_member-field u (with_field a) c (plain (integer (pos (make_field_idx a)))) a
                    small
                ∙ ap (map_done real_val) (read-set_self inst.values a v within))
            | inr t ↦ rw t (
                instance_get-congr (with_field a) j λ i e.
                  field_kept a own j (differ j t) i (s.member j i e) (plain (integer (pos i))))
          ]
      where
        differ : (j : K) → m.same k j ≡ false → k ≢ j
        differ j t e = let same = (m.same_iff k j).1 e in absurd (cc)

    set_native :
        (a i : ℕ)
        → m.get k c.members ≡ some i
        → i ≡ make_native_field_idx a
        → a < length c.native_fields
        → IsAssigned u c k v inst (instance_set u k v inst c)
    unfolding instance_set
    set_native a i e at inside =
        let small : a < 2 ^ 22 = omega (arith, s.few_natives) in
        let (f', n') = native_kind a small in
        let kind : is_fieldi i ≡ false = ap is_fieldi at ∙ f' in
        let native : is_nativefieldi i ≡ true = ap is_nativefieldi at ∙ n' in
        let place : member_idxi i ≡ a = ap member_idxi at ∙ native_place a small in
        let there : m.get k c.members ≡ some (make_native_field_idx a) = e ∙ ap some at in
        let (d, found, r) = get_done c.native_fields a inside in
        let known = (s.natives_inside a d found).known_type in
        let old : ObjectPtr F = plain (integer (pos (make_native_field_idx a))) in
        let run : instance_set u k v inst c
            ≡ done (
              with_data (set_native_field u d v inst.ud).0,
              status_of (set_native_field u d v inst.ud).1,
            ) =
          rw (instance_set, e, kind, native, place)
            (ap
              (map_done (λ (q : NativeField). (
                with_data (set_native_field u q v inst.ud).0,
                status_of (set_native_field u q v inst.ud).1,
              )))
              r) in
        elim (set_native_field-get u d v old inst.ud known) [
          | inl (same, refuses) ↦
              native_refused a d there found
                (run ∙ ap (λ w. done (with_data w.0, status_of w.1)) same) refuses
          | inr (ud, x, written, takes, reads, outside) ↦
              native_set a d x (with_data ud) there found
                (run ∙ ap (λ w. done (with_data w.0, status_of w.1)) written) takes
                (instance_get-at (with_data ud) k (make_native_field_idx a) there
                  ∙ get_member-native u (with_data ud) c old a small
                  ∙ ap (map_done (λ q. get_native_field u q old ud)) r
                  ∙ ap done reads)
                λ j apart. instance_get-congr (with_data ud) j λ i e.
                  data_kept d ud outside j apart i e (s.member j i e) (plain (integer (pos i)))
        ]

    set_method :
        (a i : ℕ)
        → m.get k c.members ≡ some i
        → i ≡ make_method_idx a
        → a < length c.methods
        → IsAssigned u c k v inst (instance_set u k v inst c)
    unfolding instance_set
    set_method a i e at inside =
        let (f', n') = method_kind a (omega (arith, s.few_methods)) in
        let kind : is_fieldi i ≡ false = ap is_fieldi at ∙ f' in
        let native : is_nativefieldi i ≡ false = ap is_nativefieldi at ∙ n' in
        no_match (rw (instance_set, e, kind, native) refl) (inr (a, e ∙ ap some at))

    -- `Set` of an instance with a value for each field of its class, which is sound, leaves no vector and ends
    -- in one of the four ways of `IsAssigned`.
    pub instance_set-IsAssigned : IsAssigned u c k v inst (instance_set u k v inst c)
    unfolding instance_set
    instance_set-IsAssigned = elim (Option-cases (m.get k c.members)) [
      | inl e ↦ no_match (rw (instance_set, e) refl) (inl e)
      | inr (i, e) ↦ elim (s.member k i e) [
        | a_field a at inside own ↦ set_field a i e at inside own
        | a_method a at inside own ↦ set_method a i e at inside
        | a_native a at inside own ↦ set_native a i e at inside
      ]
    ]
