-- ===== src/Classes/Accesses.antt =====
-- `Get` and `Set` of an SQInstance (squirrel/sqclass.h), through the member table of its class.
use quirrel.Prelude.{
  ℕ, ◌+◌, ◌^◌, ◌≤◌, ◌<◌, ◌≡◌, refl, ◌⊎◌, inl, inr, if◌then◌else◌, none, some, arith, Option-cases,
  List, length, get_elem?,
}
use quirrel.Vm.Object.{Obj}
use quirrel.Classes.Index.{
  make_method_idx, make_field_idx, make_native_field_idx, field_kind, field_place, method_kind,
  method_place, native_kind, native_place,
}
use quirrel.Classes.Members.{Members}
use quirrel.Classes.Class.{
  ObjectPtr, Class, NativeField, Outcome, done, read, map_done, real_val, plain, size_of_type,
  sqnft_bool,
}
use quirrel.Classes.Sound.{read_done}
use quirrel.Classes.Store.{Instance}
use quirrel.Classes.Instance.{
  FloatUnit, NativeType, float32, float64, int32, int64, bool, other, native_type, bytes_of,
  get_native_field, get_member, instance_get, slot_status_ok, slot_status_no_match,
  slot_status_error, SlotStatus,
}
use quirrel.Classes.Cells.{load_cell-congr, narrowed_value, native_type-known}

module _ {F : Type 0} (u : FloatUnit F) (d : NativeField) (old : ObjectPtr F) (a b : ℕ → ℕ) where
  typed-congr :
      (t : NativeType)
      → native_type d.type_of ≡ t
      → ((j : ℕ) → d.offset ≤ j → j < d.offset + bytes_of t → a j ≡ b j)
      → get_native_field u d old a ≡ get_native_field u d old b
  unfolding get_native_field
  typed-congr float32 e h = simp (get_native_field, e, load_cell-congr 4 d.offset a b h) refl
  typed-congr float64 e h = simp (get_native_field, e, load_cell-congr 8 d.offset a b h) refl
  typed-congr int32 e h = simp (get_native_field, e, load_cell-congr 4 d.offset a b h) refl
  typed-congr int64 e h = simp (get_native_field, e, load_cell-congr 8 d.offset a b h) refl
  typed-congr bool e h = simp (get_native_field, e, h d.offset (omega arith) (omega arith)) refl
  typed-congr other e h = simp (get_native_field, e) refl

  -- A native field reads only its own bytes.
  pub get_native_field-congr :
      d.type_of ≤ sqnft_bool
      → ((j : ℕ) → d.offset ≤ j → j < d.offset + size_of_type d.type_of → a j ≡ b j)
      → get_native_field u d old a ≡ get_native_field u d old b
  get_native_field-congr known h =
      let size = (native_type-known u d.type_of known).1 in
      typed-congr (native_type d.type_of) refl (λ j g l. h j g (omega (arith, size)))

module _ {A : Type 0} where
  pub get_done :
      (xs : List A) (i : ℕ)
      → i < length xs
      → (a : A) × (get_elem? xs i ≡ some a) × (read xs i ≡ done a)
  get_done xs i h = elim (Option-cases (get_elem? xs i)) [
    | inl e ↦ let (a, r) = read_done xs i h in absurd (ground arith)
    | inr (a, e) ↦ (a, e, rw (read, e) refl)
  ]

module _ {K F : Type 0} {m : Members K} (u : FloatUnit F) (inst : Instance F) (c : Class m F)
    (old : ObjectPtr F) (j : ℕ) (small : j < 2 ^ 22) where
  pub get_member-field :
      get_member u (make_field_idx j) old inst c ≡ map_done real_val (read inst.values j)
  unfolding get_member
  get_member-field = rw (field_kind j small, field_place j small) refl

  pub get_member-method : get_member u (make_method_idx j) old inst c ≡ read c.methods j
  unfolding get_member
  get_member-method = let (f, n) = method_kind j small in rw (f, n, method_place j small) refl

  pub get_member-native :
      get_member u (make_native_field_idx j) old inst c
      ≡ map_done (λ d. get_native_field u d old inst.ud) (read c.native_fields j)
  unfolding get_member
  get_member-native = let (f, n) = native_kind j small in rw (f, n, native_place j small) refl

module _ {K F : Type 0} {m : Members K} (u : FloatUnit F) (c : Class m F) where
  -- The native field under the name `j`, if there is one, shares no byte with `d`.
  abbrev pub IsApart : NativeField → K → Type 0
  IsApart d j =
      (b : ℕ) (e : NativeField)
      → m.get j c.members ≡ some (make_native_field_idx b)
      → get_elem? c.native_fields b ≡ some e
      → (e.offset + size_of_type e.type_of ≤ d.offset)
        ⊎ (d.offset + size_of_type d.type_of ≤ e.offset)

  -- What `Set` comes to: nothing for a method's name or no member's; a field that is written; a native field
  -- that refuses the value, or that takes it.
  pub data IsAssigned (k : K) (v : ObjectPtr F) (inst : Instance F)
      (r : Outcome (Instance F × SlotStatus)) : Type 0 where
    no_match :
        r ≡ done (inst, slot_status_no_match)
        → (m.get k c.members ≡ none) ⊎ ((a : ℕ) × (m.get k c.members ≡ some (make_method_idx a)))
        → IsAssigned k v inst r
    field_set :
        (a : ℕ) (after : Instance F)
        → m.get k c.members ≡ some (make_field_idx a)
        → r ≡ done (after, slot_status_ok)
        → ((j : K)
            → instance_get u j after c
              ≡ (if m.same k j then done (real_val v) else instance_get u j inst c))
        → IsAssigned k v inst r
    native_refused :
        (a : ℕ) (d : NativeField)
        → m.get k c.members ≡ some (make_native_field_idx a)
        → get_elem? c.native_fields a ≡ some d
        → r ≡ done (inst, slot_status_error)
        → narrowed_value u (native_type d.type_of) v ≡ none
        → IsAssigned k v inst r
    native_set :
        (a : ℕ) (d : NativeField) (o : Obj F) (after : Instance F)
        → m.get k c.members ≡ some (make_native_field_idx a)
        → get_elem? c.native_fields a ≡ some d
        → r ≡ done (after, slot_status_ok)
        → narrowed_value u (native_type d.type_of) v ≡ some o
        → instance_get u k after c ≡ done (plain o)
        → ((j : K) → IsApart d j → instance_get u j after c ≡ instance_get u j inst c)
        → IsAssigned k v inst r
