-- ===== src/Classes/Layout.antt =====
-- squirrel/sqclass.cpp: what NewSlot leaves of a class that is locked, on which the instances that there
-- are already rely; and the memory of an instance (squirrel/sqclass.h).
use quirrel.Prelude.{
  ℕ, ◌≡◌, refl, subst, ◌&&◌, not, inl, inr, Bool, true, false, ltb, leb, Option, none, some, length,
  length-set, Bool-cases, Option-cases,
}
use quirrel.Classes.Index.{is_fieldi, is_nativefieldi, member_idxi, member_max_count}
use quirrel.Classes.Members.{Members}
use quirrel.Classes.Class.{
  ObjectPtr, Class, SharedState, Outcome, done, refused, fault, is_locked, bound, store_method,
  store_default, new_slot, add_slot, static_slot, belongs_to_static_table, metamethod_of,
}

module _ {K F : Type 0} {m : Members K} where
  -- What an instance of the class has been laid out by.
  pub record SameLayout (c c' : Class m F) : Type 0 where
    pub fields : length c'.default_values ≡ length c.default_values
    pub natives : c'.native_fields ≡ c.native_fields
    pub data_size : c'.ud_size ≡ c.ud_size
    pub type_id : c'.locked_type_id ≡ c.locked_type_id
    pub base : c'.base ≡ c.base

  abbrev Kept : Class m F → Outcome (Class m F) → Type 0
  Kept c (done c') = SameLayout c c'
  Kept c refused = Unit
  Kept c fault = Unit

  store_method-Kept : (i : ℕ) (v : ObjectPtr F) (c : Class m F) → Kept c (store_method i v c)
  store_method-Kept i v c = elim (Bool-cases (ltb i (length c.methods))) [
    | inl t ↦
        rw t
          (record { fields = refl; natives = refl; data_size = refl; type_id = refl; base = refl })
    | inr t ↦ rw t tt
  ]

  store_default-Kept : (i : ℕ) (v : ObjectPtr F) (c : Class m F) → Kept c (store_default i v c)
  store_default-Kept i v c = elim (Bool-cases (ltb i (length c.default_values))) [
    | inl t ↦ rw t (record {
      fields = length-set c.default_values i v;
      natives = refl;
      data_size = refl;
      type_id = refl;
      base = refl;
    })
    | inr t ↦ rw t tt
  ]

  static_slot-Kept :
      (ss : SharedState K) (k : K) (v : ObjectPtr F) (temp : Option ℕ) (c : Class m F)
      → Kept c (static_slot ss k v temp c)
  unfolding static_slot
  static_slot-Kept ss k v none c = elim (Option-cases (metamethod_of ss k v)) [
    | inr (i, e) ↦
        rw (static_slot, e)
          (record { fields = refl; natives = refl; data_size = refl; type_id = refl; base = refl })
    | inl e ↦
        rw (static_slot, e)
          (record { fields = refl; natives = refl; data_size = refl; type_id = refl; base = refl })
  ]
  static_slot-Kept ss k v (some i) c = elim (Option-cases (metamethod_of ss k v)) [
    | inr (j, e) ↦
        rw (static_slot, e)
          (record { fields = refl; natives = refl; data_size = refl; type_id = refl; base = refl })
    | inl e ↦ rw (static_slot, e) (store_method-Kept (member_idxi i) (bound c.base v) c)
  ]

  add_slot-Kept :
      (ss : SharedState K) (k : K) (v : ObjectPtr F) (bstatic : Bool) (temp : Option ℕ)
      (c : Class m F)
      → belongs_to_static_table v bstatic ≡ true
      → Kept c (add_slot ss k v bstatic temp c)
  unfolding add_slot
  add_slot-Kept ss k v bstatic temp c static =
      elim (Bool-cases (leb member_max_count (m.count_used c.members))) [
        | inl t ↦ rw t tt
        | inr t ↦ rw (t, static) (static_slot-Kept ss k v temp c)
      ]

  found-Kept :
      (ss : SharedState K) (k : K) (v : ObjectPtr F) (bstatic : Bool) (c : Class m F)
      → (is_locked c && not (belongs_to_static_table v bstatic)) ≡ false
      → belongs_to_static_table v bstatic ≡ true
      → Kept c (new_slot ss k v bstatic c)
  unfolding new_slot
  found-Kept ss k v bstatic c free static = elim (Option-cases (m.get k c.members)) [
    | inl e ↦ rw (new_slot, free, e) (add_slot-Kept ss k v bstatic none c static)
    | inr (i, e) ↦ elim (Bool-cases (is_fieldi i)) [
      | inl t ↦ rw (new_slot, free, e, t) (store_default-Kept (member_idxi i) v c)
      | inr t ↦ elim (Bool-cases (is_nativefieldi i)) [
        | inl n ↦ rw (new_slot, free, e, t, n) tt
        | inr n ↦ rw (new_slot, free, e, t, n) (add_slot-Kept ss k v bstatic (some i) c static)
      ]
    ]
  ]

  new_slot-Kept :
      (ss : SharedState K) (k : K) (v : ObjectPtr F) (bstatic : Bool) (c : Class m F)
      → is_locked c ≡ true
      → Kept c (new_slot ss k v bstatic c)
  unfolding new_slot
  new_slot-Kept ss k v bstatic c locked = elim (Bool-cases (belongs_to_static_table v bstatic)) [
    | inl t ↦ found-Kept ss k v bstatic c (rw (locked, t) refl) t
    | inr t ↦ rw (new_slot, locked, t) tt
  ]

  -- NewSlot of a locked class, where it succeeds, keeps the number of its fields, its native fields, the size
  -- of its userdata, its type id and its base.
  pub new_slot-SameLayout :
      (ss : SharedState K) (k : K) (v : ObjectPtr F) (bstatic : Bool) (c c' : Class m F)
      → is_locked c ≡ true
      → new_slot ss k v bstatic c ≡ done c'
      → SameLayout c c'
  new_slot-SameLayout ss k v bstatic c c' locked h =
      subst (Kept c) h (new_slot-Kept ss k v bstatic c locked)
