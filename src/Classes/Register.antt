-- ===== src/Classes/Register.antt =====
-- RegisterNativeField of squirrel/sqclass.cpp on every branch.
use quirrel.Prelude.{
  ℕ, zero, suc, [], ◌+◌, ◌%◌, ◌^◌, get_elem?, get_elem?-append_self, ◌≤◌, ◌<◌, ◌≡◌, refl, ◌∙◌, ◌⊎◌,
  inl, inr, true, false, none, ◌||◌, ltb, leb, ◌==◌, some, length, arith, Bool-cases, Option-cases,
}
use quirrel.Classes.Index.{make_native_field_idx, member_max_count}
use quirrel.Classes.Members.{Members}
use quirrel.Classes.Class.{
  Class, NativeField, done, refused, is_locked, plain, register_native_field, add_native,
  size_of_type, sqnft_bool,
}
use quirrel.Classes.Sound.{IsSound, IsInside}
use quirrel.Classes.Places.{Reads}
use quirrel.Classes.Natives.{add_native-IsSoundFor, add_native-Reads}
use quirrel.Vm.Object.{null}

size-pos : (t : ℕ) → t ≤ sqnft_bool → 0 < size_of_type t
size-pos zero h = omega arith
size-pos (suc zero) h = omega arith
size-pos (suc (suc zero)) h = omega arith
size-pos (suc (suc (suc zero))) h = omega arith
size-pos (suc (suc (suc (suc zero)))) h = omega arith
size-pos (suc (suc (suc (suc (suc t))))) h = absurd (omega arith)

module _ {K F : Type 0} {m : Members K} (k : K) (d : NativeField) (c : Class m F) where
  -- Where RegisterNativeField accepts: the class is open, the field lies in the low 32 bits of the size of
  -- the userdata, the class is not full, and the name is free. `c'` is the class with the field.
  pub record IsRegistered (c' : Class m F) : Type 0 where
    pub open_before : is_locked c ≡ false
    pub inside : IsInside (c.ud_size % 2 ^ 32) d
    pub room : m.count_used c.members < member_max_count
    pub free : m.get k c.members ≡ none
    pub sound : IsSound c'
    pub open_after : is_locked c' ≡ false
    pub reads : Reads k (plain null) c c'
    pub described : m.get k c'.members ≡ some (make_native_field_idx (length c.native_fields))
    pub description : get_elem? c'.native_fields (length c.native_fields) ≡ some d

module _ {K F : Type 0} {m : Members K} (k : K) (d : NativeField) (c : Class m F)
    (sc : IsSound c) where
  -- RegisterNativeField of a sound class refuses only where the class is locked, where the field has no
  -- type or does not lie in the size of the userdata, of which it takes the low 32 bits, where the class is
  -- full, and where the name is taken. It accepts only where none of these holds: then the name leads to the
  -- new description, the class is sound again and still open, and `Get` reads null under the name and what it
  -- read before under all others.
  pub register_native_field-cases :
      ((register_native_field k d c ≡ refused)
        × ((is_locked c ≡ true)
            ⊎ ¬ IsInside (c.ud_size % 2 ^ 32) d
            ⊎ (member_max_count ≤ m.count_used c.members)
            ⊎ ((i : ℕ) × (m.get k c.members ≡ some i))))
      ⊎ ((c' : Class m F) × (register_native_field k d c ≡ done c') × IsRegistered k d c c')
  unfolding register_native_field
  register_native_field-cases = elim (Bool-cases (is_locked c)) [
    | inl t ↦ inl (rw t refl, inl t)
    | inr open_class ↦ elim (Bool-cases (c.ud_size == 0)) [
      | inl t ↦ inl (
        rw (open_class, t) refl,
        inr (inl (λ h. absurd (ground (arith, size-pos d.type_of h.known_type, h.within)))),
      )
      | inr some_data ↦
          elim (Bool-cases (
            ltb sqnft_bool d.type_of
            || ltb (c.ud_size % 2 ^ 32) (d.offset + size_of_type d.type_of))) [
              | inl t ↦ inl (
                rw (open_class, some_data, t) refl,
                inr (inl (λ h. absurd (ground (arith, h.known_type, h.within)))),
              )
              | inr fits ↦ elim (Bool-cases (leb member_max_count (m.count_used c.members))) [
                | inl t ↦
                    inl (rw (open_class, some_data, fits, t) refl, inr (inr (inl (ground arith))))
                | inr room ↦ elim (Option-cases (m.get k c.members)) [
                  | inr (i, e) ↦ inl (
                    rw (register_native_field, open_class, some_data, fits, room, e) refl,
                    inr (inr (inr (i, e))),
                  )
                  | inl e ↦
                      let low : IsInside (c.ud_size % 2 ^ 32) d = record {
                        known_type = ground arith;
                        within = ground arith;
                      } in
                      let inside : IsInside c.ud_size d = record {
                        known_type = low.known_type;
                        within = omega (arith, low.within);
                      } in
                      inr (
                        add_native k d c,
                        rw (register_native_field, open_class, some_data, fits, room, e) refl,
                        record {
                          open_before = open_class;
                          inside = low;
                          room = ground arith;
                          free = e;
                          sound = record {
                            owners = _;
                            sound = add_native-IsSoundFor sc.sound k d (ground arith) inside e;
                          };
                          open_after = open_class;
                          reads = add_native-Reads sc.sound k d (ground arith) inside e;
                          described =
                              m.get-new_slot k k _ c.members sc.sound.valid
                              ∙ rw ((m.same_iff k k).1 refl) refl;
                          description = get_elem?-append_self c.native_fields d [];
                        },
                      )
                ]
              ]
            ]
    ]
  ]
