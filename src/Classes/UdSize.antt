-- ===== src/Classes/UdSize.antt =====
-- sq_setclassudsize of squirrel/sqapi.cpp.
use quirrel.Prelude.{
  ℕ, ◌+◌, ◌^◌, ◌≤◌, ◌<◌, ◌≡◌, refl, ◌↔◌, ◌⊎◌, inl, inr, true, false, some, get_elem?, length, arith,
  subst, Bool-cases,
}
use quirrel.Classes.Members.{Members}
use quirrel.Classes.Class.{
  Class, NativeField, done, refused, is_locked, class_get, slot_value, set_class_ud_size,
  register_native_field, size_of_type,
}
use quirrel.Classes.Sound.{
  IsSoundFor, IsSound, Owners, IsMember, IsInside, a_field, a_method, a_native,
}
use quirrel.Classes.Store.{with_hint}
use quirrel.Classes.Locks.{with_hint-locked}
use quirrel.Classes.Register.{IsRegistered, register_native_field-cases}

module _ {K F : Type 0} {m : Members K} (n : ℕ) (c : Class m F) where
  -- The native fields of `c` lie in userdata of `n` bytes.
  abbrev AllInside : Type 0
  AllInside = (j : ℕ) (d : NativeField) → get_elem? c.native_fields j ≡ some d → IsInside n d

  abbrev pub resized : Class m F
  resized = record c { ud_size = n }

  pub resized-IsSoundFor : (o : Owners K) → IsSoundFor c o → AllInside → IsSoundFor resized o
  resized-IsSoundFor o s inside = record {
    valid = s.valid;
    member = λ j i e. moved j i (s.member j i e);
    fields_there = s.fields_there;
    natives_there = s.natives_there;
    methods_there = s.methods_there;
    methods_apart = s.methods_apart;
    few_fields = s.few_fields;
    few_natives = s.few_natives;
    few_methods = s.few_methods;
    constructor_there = s.constructor_there;
    natives_inside = inside;
  }
    where
      moved : (j : K) (i : ℕ) → IsMember c o j i → IsMember resized o j i
      moved j i (a_field b at h e) = a_field b at h e
      moved j i (a_method b at h e) = a_method b at h e
      moved j i (a_native b at h e) = a_native b at h e

  set_class_ud_size-cases :
      IsSound c
      → ((set_class_ud_size n c ≡ refused) × (is_locked c ≡ true))
        ⊎ ((c' : Class m F) × (is_locked c ≡ false)
            × (set_class_ud_size n c ≡ done c')
            × ((k : K) → class_get k c' ≡ class_get k c)
            × (IsSound c' ↔ AllInside))
  unfolding set_class_ud_size class_get slot_value
  set_class_ud_size-cases sc = elim (Bool-cases (is_locked c)) [
    | inl t ↦ inl (rw t refl, t)
    | inr t ↦ inr (
      resized,
      t,
      rw t refl,
      λ k. refl,
      (
        λ s. s.sound.natives_inside,
        λ inside. record {
          owners = sc.owners;
          sound = resized-IsSoundFor sc.owners sc.sound inside;
        },
      ),
    )
  ]

module _ {K F : Type 0} {m : Members K} where
  set_class_ud_size-with_hint :
      (n a : ℕ) (c : Class m F)
      → 2 ^ 8 ≤ a
      → a < 2 ^ 48
      → set_class_ud_size n (with_hint a c) ≡ refused
  unfolding set_class_ud_size
  set_class_ud_size-with_hint n a c high low = rw (with_hint-locked a c high low) refl

  -- What becomes of the class `c'` that has just got the native field `d`, as it is given a userdata of `n`
  -- bytes: the members read the same, it is sound exactly if its native fields all lie in the new size, and it
  -- is not where `n` ends before `d` does.
  pub record IsResized (n : ℕ) (d : NativeField) (c' r : Class m F) : Type 0 where
    pub reads : (j : K) → class_get j r ≡ class_get j c'
    pub sound : IsSound r ↔ AllInside n c'
    pub broken : (n < d.offset + size_of_type d.type_of) → ¬ IsSound r

  registered :
      (k : K) (d : NativeField) (c c' : Class m F)
      → IsSound c
      → register_native_field k d c ≡ done c'
      → IsRegistered k d c c'
  registered k d c c' sc e = elim (register_native_field-cases k d c sc) [
    | inl (refusal, why) ↦ absurd (cc)
    | inr (r, run, h) ↦ let same : r ≡ c' = cc in subst (IsRegistered k d c) same h
  ]

  -- sq_setclassudsize accepts every size on a class that has just got a native field, also one in which that
  -- field does not lie any more, and then the class is not sound. Once the class is locked, with the type id
  -- that its address `a` makes, every size is refused.
  pub set_class_ud_size-register_native_field :
      (n a : ℕ) (k : K) (d : NativeField) (c c' : Class m F)
      → IsSound c
      → register_native_field k d c ≡ done c'
      → 2 ^ 8 ≤ a
      → a < 2 ^ 48
      → ((r : Class m F) × (set_class_ud_size n c' ≡ done r) × IsResized n d c' r)
        × (set_class_ud_size n (with_hint a c') ≡ refused)
  set_class_ud_size-register_native_field n a k d c c' sc e high low =
      let h = registered k d c c' sc e in
      (
        elim (set_class_ud_size-cases n c' h.sound) [
          | inl (refusal, locked) ↦ absurd (let open_class = h.open_after in cc)
          | inr (r, t, run, reads, sound) ↦ (
            r,
            run,
            record {
              reads = reads;
              sound = sound;
              broken = λ short s.
                  let inside = sound.0 s (length c.native_fields) d h.description in
                  absurd (omega (arith, inside.within));
            },
          )
        ],
        set_class_ud_size-with_hint n a c' high low,
      )
