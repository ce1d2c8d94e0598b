-- ===== src/Classes/Slots.antt =====
-- NewSlot of squirrel/sqclass.cpp on every branch.
use quirrel.Prelude.{
  none-ne-some, same_some, ℕ, ◌^◌, ◌<◌, ◌≡◌, refl, ap, ◌∙◌, inl, inr, Bool, true, false, ◌&&◌, not,
  leb, Option, none, some, length, arith, Bool-cases, Option-cases, lt→ltb,
}
use quirrel.Classes.Index.{
  make_method_idx, member_max_count, is_fieldi, is_nativefieldi, member_idxi, field_kind,
  field_place, method_kind, native_kind,
}
use quirrel.Classes.Members.{Members}
use quirrel.Classes.Class.{
  ObjectPtr, Class, SharedState, Outcome, bound, is_locked, new_slot, add_slot, static_slot,
  add_field, add_method, belongs_to_static_table, metamethod_of,
}
use quirrel.Classes.Sound.{IsSound, IsMember, a_field, a_method, a_native}
use quirrel.Classes.Overrides.{
  overridden, redefined, overridden-IsSoundFor, overridden-Reads, redefined-IsSoundFor,
  redefined-Reads,
}
use quirrel.Classes.Fields.{add_field-Reads}
use quirrel.Classes.Methods.{add_method-Reads}
use quirrel.Classes.Writing.{
  has_field, IsWritten, nothing, a_metamethod, a_member, IsFree, has_field-eq, no_field, no_native,
  new_field-IsSound, new_method-IsSound, metamethod-IsSound, method_place-own,
}

module _ {K F : Type 0} {m : Members K} (ss : SharedState K) (k : K) (v : ObjectPtr F)
    (bstatic : Bool) (c : Class m F) (sc : IsSound c) where
  abbrev Written : Outcome (Class m F) → Type 0
  Written = IsWritten ss k v bstatic c

  -- A method, where the value is not a metamethod.
  method_slot-cases :
      (temp : Option ℕ)
      → m.get k c.members ≡ temp
      → IsFree c sc k v
      → m.count_used c.members < member_max_count
      → belongs_to_static_table v bstatic ≡ true
      → metamethod_of ss k v ≡ none
      → Written (static_slot ss k v temp c)
  unfolding static_slot
  method_slot-cases none e free room static mm =
      a_member (add_method ss k (bound c.base v) c) (rw (static_slot, mm) refl)
        (new_method-IsSound c sc k (bound c.base v) ss e room)
        (rw (has_field-eq c sc k v free, static)
          (add_method-Reads sc.sound ss k (bound c.base v) room e))
  method_slot-cases (some i) e free room static mm =
      let (a, inside, own, at, place) = method_place-own c sc k v i e free in
      a_member (redefined sc.sound k (bound c.base v) a inside)
        (rw (static_slot, mm, place, lt→ltb a (length c.methods) inside) refl)
        (record {
          owners = sc.owners;
          sound = redefined-IsSoundFor sc.sound k (bound c.base v) a inside;
        })
        (rw (has_field-eq c sc k v free, static)
          (redefined-Reads sc.sound k (bound c.base v) a inside own (e ∙ ap some at)))

  -- What belongs to the static table, under a name that no field has.
  static_slot-cases :
      (temp : Option ℕ)
      → m.get k c.members ≡ temp
      → IsFree c sc k v
      → m.count_used c.members < member_max_count
      → belongs_to_static_table v bstatic ≡ true
      → Written (static_slot ss k v temp c)
  unfolding static_slot
  static_slot-cases temp e free room static = elim (Option-cases (metamethod_of ss k v)) [
    | inr (i, mm) ↦ a_metamethod i mm (rw (static_slot, mm) refl) (metamethod-IsSound c sc k v i)
    | inl mm ↦ method_slot-cases temp e free room static mm
  ]

  add_slot-cases :
      (temp : Option ℕ)
      → m.get k c.members ≡ temp
      → IsFree c sc k v
      → Written (add_slot ss k v bstatic temp c)
  unfolding add_slot
  add_slot-cases temp e free = elim (Bool-cases (leb member_max_count (m.count_used c.members))) [
    | inl t ↦ nothing (rw t refl) (inr (inr (has_field-eq c sc k v free, ground arith)))
    | inr t ↦ elim (Bool-cases (belongs_to_static_table v bstatic)) [
      | inl static ↦ rw (t, static) (static_slot-cases temp e free (ground arith) static)
      | inr own ↦
          a_member (add_field k v c) (rw (t, own) refl)
            (new_field-IsSound c sc k v free (ground arith))
            (rw (has_field-eq c sc k v free, own)
              (add_field-Reads sc.sound k v (ground arith) (no_field c sc k v free)
                (no_native c sc k v free)))
    ]
  ]

  new_slot-free :
      (temp : Option ℕ)
      → (is_locked c && not (belongs_to_static_table v bstatic)) ≡ false
      → m.get k c.members ≡ temp
      → IsFree c sc k v
      → new_slot ss k v bstatic c ≡ add_slot ss k v bstatic temp c
  unfolding new_slot
  new_slot-free none free e names = rw (new_slot, free, e) refl
  new_slot-free (some i) free e names = let (f, n) = names i e in rw (new_slot, free, e, f, n) refl

  new_slot-member :
      (i : ℕ)
      → (is_locked c && not (belongs_to_static_table v bstatic)) ≡ false
      → m.get k c.members ≡ some i
      → IsMember c sc.owners k i
      → Written (new_slot ss k v bstatic c)
  unfolding new_slot
  new_slot-member i free e (a_field a at inside own) =
      let small : a < 2 ^ 22 = omega (arith, sc.sound.few_fields) in
      let kind : is_fieldi i ≡ true = ap is_fieldi at ∙ field_kind a small in
      let place : member_idxi i ≡ a = ap member_idxi at ∙ field_place a small in
      a_member (overridden sc.sound k v a inside)
        (rw (new_slot, free, e, kind, place, lt→ltb a (length c.default_values) inside) refl)
        (record { owners = sc.owners; sound = overridden-IsSoundFor sc.sound k v a inside })
        (rw (has_field, e, kind) (overridden-Reads sc.sound k v a inside own))
  new_slot-member i free e (a_method a at inside own) =
      let (f, n) = method_kind a (omega (arith, sc.sound.few_methods)) in
      let names : IsFree c sc k v = λ j e'.
        let same : j ≡ make_method_idx a = same_some e' (e ∙ ap some at) in
        (ap is_fieldi same ∙ f, ap is_nativefieldi same ∙ n) in
      rw (new_slot-free (some i) free e names) (add_slot-cases (some i) e names)
  new_slot-member i free e (a_native a at inside own) =
      let (f, n) = native_kind a (omega (arith, sc.sound.few_natives)) in
      let f' : is_fieldi i ≡ false = ap is_fieldi at ∙ f in
      let n' : is_nativefieldi i ≡ true = ap is_nativefieldi at ∙ n in
      nothing (rw (new_slot, free, e, f', n') refl) (inr (inl (i, e, n')))

  -- NewSlot of a sound class returns without leaving a vector. It refuses only a class that is locked,
  -- unless the value is a closure or static, a native field's name, and a class that is full; or it sets
  -- a metamethod; or the class is sound again, and `Get` reads the stored value under the name and under
  -- all others what it read before.
  pub new_slot-IsWritten : IsWritten ss k v bstatic c (new_slot ss k v bstatic c)
  unfolding new_slot
  new_slot-IsWritten = elim (Bool-cases (is_locked c && not (belongs_to_static_table v bstatic))) [
    | inl t ↦ nothing (rw t refl) (inl (ground arith))
    | inr t ↦ elim (Option-cases (m.get k c.members)) [
      | inl e ↦
          let names : IsFree c sc k v = λ i e'. absurd (none-ne-some e e') in
          rw (new_slot-free none t e names) (add_slot-cases none e names)
      | inr (i, e) ↦ new_slot-member i t e (sc.sound.member k i e)
    ]
  ]
