-- ===== src/Classes/Writing.antt =====
-- What NewSlot of squirrel/sqclass.cpp may come to, and the classes that it makes.
use quirrel.Prelude.{
  ℕ, ◌≤◌, ◌<◌, ◌≡◌, ◌≢◌, refl, sym, ap, ◌∙◌, ◌⊎◌, inl, inr, Bool, true, false, ◌==◌, if◌then◌else◌,
  none, some, length, arith, Option-cases,
}
use quirrel.Classes.Index.{
  make_method_idx, make_field_idx, make_native_field_idx, member_max_count, is_fieldi,
  is_nativefieldi, member_idxi, field_kind, method_place, native_kind,
}
use quirrel.Classes.Members.{Members}
use quirrel.Classes.Class.{
  ObjectPtr, Class, SharedState, Outcome, done, refused, real_val, bound, is_locked, add_field,
  add_method, belongs_to_static_table, metamethod_of, store_metamethod,
}
use quirrel.Classes.Sound.{IsSoundFor, IsSound, a_field, a_method, a_native}
use quirrel.Classes.Places.{Reads}
use quirrel.Classes.Carried.{carried-IsSoundFor}
use quirrel.Classes.Fields.{add_field-IsSoundFor}
use quirrel.Classes.Methods.{add_method-IsSoundFor}

module _ {K F : Type 0} {m : Members K} where
  -- The member table has the name for a field.
  abbrev pub has_field : K → Class m F → Bool
  has_field k c = elim (m.get k c.members) [ none ↦ false | some i ↦ is_fieldi i ]

  -- The value under a name that NewSlot writes: what a field holds is read through weak references, and
  -- a method is bound to the base class.
  abbrev pub stored : K → ObjectPtr F → Bool → Class m F → ObjectPtr F
  stored k v bstatic c =
      if has_field k c
      then real_val v
      else if belongs_to_static_table v bstatic
      then bound c.base v
      else real_val v

  -- Why NewSlot returns false.
  abbrev pub IsRefused : K → ObjectPtr F → Bool → Class m F → Type 0
  IsRefused k v bstatic c =
      ((is_locked c ≡ true) × (belongs_to_static_table v bstatic ≡ false))
      ⊎ ((i : ℕ) × (m.get k c.members ≡ some i) × (is_nativefieldi i ≡ true))
      ⊎ (has_field k c ≡ false) × (member_max_count ≤ m.count_used c.members)

  -- What NewSlot comes to.
  pub data IsWritten (ss : SharedState K) (k : K) (v : ObjectPtr F) (bstatic : Bool) (c : Class m F)
      (r : Outcome (Class m F)) : Type 0 where
    nothing : r ≡ refused → IsRefused k v bstatic c → IsWritten ss k v bstatic c r
    a_metamethod :
        (i : ℕ)
        → metamethod_of ss k v ≡ some i
        → r ≡ done (store_metamethod i v c)
        → IsSound (store_metamethod i v c)
        → IsWritten ss k v bstatic c r
    a_member :
        (c' : Class m F)
        → r ≡ done c'
        → IsSound c'
        → Reads k (stored k v bstatic c) c c'
        → IsWritten ss k v bstatic c r

module _ {K F : Type 0} {m : Members K} (c : Class m F) (sc : IsSound c) (k : K)
    (v : ObjectPtr F) where
  s : IsSoundFor c sc.owners
  s = sc.sound

  -- The name is not that of a field.
  abbrev pub IsFree : Type 0
  IsFree =
      (i : ℕ) → m.get k c.members ≡ some i → (is_fieldi i ≡ false) × (is_nativefieldi i ≡ false)

  pub has_field-eq : IsFree → has_field k c ≡ false
  has_field-eq free = elim (Option-cases (m.get k c.members)) [
    | inl e ↦ rw (has_field, e) refl
    | inr (i, e) ↦ rw (has_field, e) (free i e).0
  ]

  pub no_field : IsFree → (j : ℕ) → j < length c.default_values → k ≢ sc.owners.field j
  no_field free j h e =
      let there = ap (λ n. m.get n c.members) e ∙ s.fields_there j h in
      let kind = field_kind j (omega (arith, s.few_fields)) in
      let other = (free (make_field_idx j) there).0 in cc

  pub no_native : IsFree → (j : ℕ) → j < length c.native_fields → k ≢ sc.owners.native j
  no_native free j h e =
      let there = ap (λ n. m.get n c.members) e ∙ s.natives_there j h in
      let kind = (native_kind j (omega (arith, s.few_natives))).1 in
      let other = (free (make_native_field_idx j) there).1 in cc

  pub new_field-IsSound :
      IsFree → m.count_used c.members < member_max_count → IsSound (add_field k v c)
  new_field-IsSound free room = record {
    owners = _;
    sound = add_field-IsSoundFor s k v room (no_field free) (no_native free);
  }

  pub new_method-IsSound :
      (ss : SharedState K)
      → m.get k c.members ≡ none
      → m.count_used c.members < member_max_count
      → IsSound (add_method ss k v c)
  new_method-IsSound ss absent room = record {
    owners = _;
    sound = add_method-IsSoundFor s ss k v room absent;
  }

  pub metamethod-IsSound : (i : ℕ) → IsSound (store_metamethod i v c)
  metamethod-IsSound i = record {
    owners = sc.owners;
    sound =
        carried-IsSoundFor c c.members c.base (λ j. if i == j then v else c.metamethods j)
          c.locked_type_id c.is_builtin_type (λ j. refl) sc.owners s.valid s;
  }

  -- The member table's number for a method of this name.
  pub method_place-own :
      (i : ℕ)
      → m.get k c.members ≡ some i
      → IsFree
      → (a : ℕ) × (a < length c.methods)
        × (sc.owners.method a ≡ k)
        × (i ≡ make_method_idx a)
        × (member_idxi i ≡ a)
  method_place-own i e free = elim (s.member k i e) [
    | a_field j at h own ↦ absurd (no_field free j h (sym own))
    | a_method j at h own ↦
        (j, h, own, at, ap member_idxi at ∙ method_place j (omega (arith, s.few_methods)))
    | a_native j at h own ↦ absurd (no_native free j h (sym own))
  ]
