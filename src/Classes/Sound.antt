-- ===== src/Classes/Sound.antt =====
-- What holds of every SQClass of squirrel/sqclass.h that its operations make: the numbers in the member
-- table lead into the vectors, and every place of a vector belongs to one name.
use quirrel.Prelude.{
  same_some, ℕ, zero, suc, [], ◌∷◌, ◌⊎◌, ◌+◌, ◌≤◌, ◌<◌, ◌≡◌, refl, sym, ap, ◌∙◌, none, some, length,
  get_elem?, arith, List, inl, inr, Option-cases,
}
use quirrel.Classes.Index.{
  make_method_idx, make_field_idx, make_native_field_idx, member_max_count, member_idxi, field_kind,
  field_place, method_kind, method_place, native_kind, native_place,
}
use quirrel.Classes.Members.{Members}
use quirrel.Classes.Class.{
  ObjectPtr, Class, NativeField, size_of_type, sqnft_bool, done, refused, read, map_done, real_val,
  slot_value, plain, class_get,
}
use quirrel.Vm.Object.{null}

-- The names that the places of the three vectors were made for.
pub record Owners (K : Type 0) : Type 0 where
  pub field : ℕ → K
  pub method : ℕ → K
  pub native : ℕ → K

-- A number under which the member table has a name.
pub data IsMember {K F : Type 0} {m : Members K} (c : Class m F) (o : Owners K) (k : K) (i : ℕ)
    : Type 0 where
  a_field :
      (j : ℕ)
      → i ≡ make_field_idx j
      → j < length c.default_values
      → o.field j ≡ k
      → IsMember c o k i
  a_method :
      (j : ℕ) → i ≡ make_method_idx j → j < length c.methods → o.method j ≡ k → IsMember c o k i
  a_native :
      (j : ℕ)
      → i ≡ make_native_field_idx j
      → j < length c.native_fields
      → o.native j ≡ k
      → IsMember c o k i

-- A native field lies in the userdata.
pub record IsInside (ud_size : ℕ) (d : NativeField) : Type 0 where
  pub known_type : d.type_of ≤ sqnft_bool
  pub within : d.offset + size_of_type d.type_of ≤ ud_size

module _ {K F : Type 0} {m : Members K} where
  -- A method that became a field leaves a place that no number leads to; its name is still there.
  pub record IsSoundFor (c : Class m F) (o : Owners K) : Type 0 where
    pub valid : m.IsValid c.members
    pub member : (k : K) (i : ℕ) → m.get k c.members ≡ some i → IsMember c o k i
    pub fields_there :
        (j : ℕ)
        → j < length c.default_values
        → m.get (o.field j) c.members ≡ some (make_field_idx j)
    pub natives_there :
        (j : ℕ)
        → j < length c.native_fields
        → m.get (o.native j) c.members ≡ some (make_native_field_idx j)
    pub methods_there :
        (j : ℕ) → j < length c.methods → (i : ℕ) × (m.get (o.method j) c.members ≡ some i)
    pub methods_apart :
        (i j : ℕ) → i < length c.methods → j < length c.methods → o.method i ≡ o.method j → i ≡ j
    pub few_fields : length c.default_values ≤ member_max_count
    pub few_natives : length c.native_fields ≤ member_max_count
    pub few_methods : length c.methods ≤ member_max_count
    pub constructor_there : (j : ℕ) → c.constructor_idx ≡ some j → j < length c.methods
    pub natives_inside :
        (j : ℕ) (d : NativeField) → get_elem? c.native_fields j ≡ some d → IsInside c.ud_size d

  pub record IsSound (c : Class m F) : Type 0 where
    pub owners : Owners K
    pub sound : IsSoundFor c owners

-- A place within a vector can be read.
pub read_done : {A : Type 0} (xs : List A) (i : ℕ) → i < length xs → (a : A) × (read xs i ≡ done a)
read_done [] i h = absurd (omega arith)
read_done (x ∷ xs) zero h = (x, refl)
read_done (x ∷ xs) (suc i) h = read_done xs i (omega arith)

module _ {K F : Type 0} {m : Members K} (c : Class m F) (j : ℕ) where
  pub slot_value-field :
      j < length c.default_values
      → length c.default_values ≤ member_max_count
      → slot_value (make_field_idx j) c ≡ map_done real_val (read c.default_values j)
  unfolding slot_value
  slot_value-field h few = rw (field_kind j (omega arith), field_place j (omega arith)) refl

  pub slot_value-method :
      j < length c.methods
      → length c.methods ≤ member_max_count
      → slot_value (make_method_idx j) c ≡ read c.methods j
  unfolding slot_value
  slot_value-method h few =
      let (f, n) = method_kind j (omega arith) in rw (f, n, method_place j (omega arith)) refl

  pub slot_value-native :
      j < length c.native_fields
      → length c.native_fields ≤ member_max_count
      → slot_value (make_native_field_idx j) c ≡ done (plain null)
  unfolding slot_value
  slot_value-native h few = let (f, n) = native_kind j (omega arith) in rw (f, n) refl

module _ {K F : Type 0} {m : Members K} {c : Class m F} {o : Owners K} (s : IsSoundFor c o) where
  -- A name that the member table has can be read.
  pub get_member :
      (k : K) (i : ℕ) → m.get k c.members ≡ some i → (v : ObjectPtr F) × (slot_value i c ≡ done v)
  get_member k i e = elim (s.member k i e) [
    | a_field j at inside own ↦
        let (v, e) = read_done c.default_values j inside in
        (real_val v, rw (at, slot_value-field c j inside s.few_fields, e) refl)
    | a_method j at inside own ↦
        let (v, e) = read_done c.methods j inside in
        (v, rw (at, slot_value-method c j inside s.few_methods, e) refl)
    | a_native j at inside own ↦
        (plain null, rw (at, slot_value-native c j inside s.few_natives) refl)
  ]

  -- `Get` never leaves a vector: it reads a value for the names in the member table.
  pub class_get-cases :
      (k : K)
      → ((m.get k c.members ≡ none) × (class_get k c ≡ refused))
        ⊎ ((i : ℕ) × (v : ObjectPtr F) × (m.get k c.members ≡ some i)
            × (slot_value i c ≡ done v)
            × (class_get k c ≡ done v))
  unfolding class_get
  class_get-cases k = elim (Option-cases (m.get k c.members)) [
    | inl e ↦ inl (e, rw (class_get, e) refl)
    | inr (i, e) ↦ let (v, r) = get_member k i e in inr (i, v, e, r, rw (class_get, e) r)
  ]

  -- Fields and native fields are not more than the names.
  pub fields-le : length c.default_values ≤ m.count_used c.members
  fields-le =
      m.few_names c.members (length c.default_values) o.field s.valid
        (λ i h. (make_field_idx i, s.fields_there i h))
        λ i j h l e.
          sym (field_place i (omega (arith, s.few_fields)))
          ∙ ap member_idxi
              (same_some (s.fields_there i h) (ap (λ k. m.get k c.members) e ∙ s.fields_there j l))
          ∙ field_place j (omega (arith, s.few_fields))

  pub natives-le : length c.native_fields ≤ m.count_used c.members
  natives-le =
      m.few_names c.members (length c.native_fields) o.native s.valid
        (λ i h. (make_native_field_idx i, s.natives_there i h))
        λ i j h l e.
          sym (native_place i (omega (arith, s.few_natives)))
          ∙ ap member_idxi (
              same_some (s.natives_there i h) (ap (λ k. m.get k c.members) e ∙ s.natives_there j l))
          ∙ native_place j (omega (arith, s.few_natives))

  -- So are the methods, those included that a field has taken the name of.
  pub methods-le : length c.methods ≤ m.count_used c.members
  methods-le =
      m.few_names c.members (length c.methods) o.method s.valid s.methods_there s.methods_apart
