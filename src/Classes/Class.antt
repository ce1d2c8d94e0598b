-- ===== src/Classes/Class.antt =====
-- squirrel/sqclass.h and squirrel/sqclass.cpp: an SQClass, and the operations on its members.
use quirrel.Prelude.{
  ℕ, ◌+◌, ◌%◌, ◌^◌, Bool, true, false, ◌&&◌, ◌||◌, not, ◌==◌, ltb, leb, if◌then◌else◌, Option, none,
  some, List, [], ◌∷◌, ◌++◌, length, get_elem?, set,
}
use quirrel.Vm.Object.{Obj, null}
use quirrel.Classes.Index.{
  is_fieldi, is_nativefieldi, member_idxi, make_method_idx, make_field_idx, make_native_field_idx,
  member_max_count,
}
use quirrel.Classes.Members.{Members}

-- An SQObjectPtr. Of a closure the class keeps its function and `_base`; a weak reference is one to
-- an object that lives.
pub data ObjectPtr (F : Type 0) : Type 0 where
  plain : Obj F → ObjectPtr F
  closure : ℕ → Option ℕ → ObjectPtr F
  native_closure : ℕ → ObjectPtr F
  weak_ref : ObjectPtr F → ObjectPtr F

module _ {F : Type 0} where
  -- `_realval`
  abbrev pub real_val : ObjectPtr F → ObjectPtr F
  real_val (plain o) = plain o
  real_val (closure f b) = closure f b
  real_val (native_closure f) = native_closure f
  real_val (weak_ref v) = v

  abbrev pub is_closure : ObjectPtr F → Bool
  is_closure (plain o) = false
  is_closure (closure f b) = true
  is_closure (native_closure f) = true
  is_closure (weak_ref v) = false

  -- The closure that is stored for a method: a clone of it that knows the base class, if there is one.
  abbrev pub bound : Option ℕ → ObjectPtr F → ObjectPtr F
  bound none v = v
  bound (some b) (plain o) = plain o
  bound (some b) (closure f old) = closure f (some b)
  bound (some b) (native_closure f) = native_closure f
  bound (some b) (weak_ref v) = weak_ref v

-- SQNativeFieldDesc
pub record NativeField : Type 0 where
  pub offset : ℕ
  pub type_of : ℕ

-- SQClass. Classes are known by their addresses. `constructor_idx` is none for -1; the type tag, the
-- release hook and the collector's links are left out.
pub record Class {K : Type 0} (m : Members K) (F : Type 0) : Type 0 where
  pub members : m.Map
  pub base : Option ℕ
  pub default_values : List (ObjectPtr F)
  pub methods : List (ObjectPtr F)
  pub native_fields : List NativeField
  pub metamethods : ℕ → ObjectPtr F
  pub constructor_idx : Option ℕ
  pub ud_size : ℕ
  pub locked_type_id : ℕ
  pub is_builtin_type : Bool

-- What the operations take from SQSharedState: `_constructorstr` and GetMetaMethodIdxByName, which is
-- none for -1.
pub record SharedState (K : Type 0) : Type 0 where
  pub constructor_str : K
  pub metamethod_idx_by_name : K → Option ℕ

-- A `bool` with what it is true for; `fault` where a vector is read or written out of its bounds.
pub data Outcome (A : Type 0) : Type 0 where
  done : A → Outcome A
  refused fault : Outcome A

module _ {A : Type 0} where
  abbrev pub read : List A → ℕ → Outcome A
  read xs i = elim (get_elem? xs i) [ none ↦ fault | some a ↦ done a ]

  abbrev pub map_done : {B : Type 0} → (A → B) → Outcome A → Outcome B
  map_done f (done a) = done (f a)
  map_done f refused = refused
  map_done f fault = fault

-- The metamethod that a value defines under a name.
abbrev pub metamethod_of : {K F : Type 0} → SharedState K → K → ObjectPtr F → Option ℕ
metamethod_of ss k v = if is_closure v then ss.metamethod_idx_by_name k else none

abbrev pub belongs_to_static_table : {F : Type 0} → ObjectPtr F → Bool → Bool
belongs_to_static_table v bstatic = is_closure v || bstatic

module _ {K F : Type 0} {m : Members K} where
  abbrev pub is_locked : Class m F → Bool
  is_locked c = not (c.locked_type_id == 0)

  -- What `Get` reads behind the number in the member table.
  unfoldable pub slot_value : ℕ → Class m F → Outcome (ObjectPtr F)
  slot_value i c =
      if is_fieldi i
      then map_done real_val (read c.default_values (member_idxi i))
      else if is_nativefieldi i
      then done (plain null)
      else read c.methods (member_idxi i)

  -- `Get`
  unfoldable pub class_get : K → Class m F → Outcome (ObjectPtr F)
  class_get k c = elim (m.get k c.members) [ none ↦ refused | some i ↦ slot_value i c ]

  -- `GetConstructor`
  unfoldable pub get_constructor : Class m F → Outcome (ObjectPtr F)
  get_constructor c = elim c.constructor_idx [ none ↦ refused | some i ↦ read c.methods i ]

  -- The constructor, of a class without a base and of a class that inherits.
  unfoldable pub new_root : Class m F
  new_root = record {
    members = m.create;
    base = none;
    default_values = [];
    methods = [];
    native_fields = [];
    metamethods = λ i. plain null;
    constructor_idx = none;
    ud_size = 0;
    locked_type_id = 0;
    is_builtin_type = false;
  }

  unfoldable pub inherit : ℕ → Class m F → Class m F
  inherit address c = record c {
    members = m.clone c.members;
    base = some address;
    locked_type_id = 0;
    is_builtin_type = false;
  }

  -- `_defaultvalues[i].val = val`, where a field is overridden.
  abbrev pub store_default : ℕ → ObjectPtr F → Class m F → Outcome (Class m F)
  store_default i v c =
      if ltb i (length c.default_values)
      then done (record c { default_values = set c.default_values i v })
      else fault

  -- `_methods[i].val = theval`
  abbrev pub store_method : ℕ → ObjectPtr F → Class m F → Outcome (Class m F)
  store_method i v c =
      if ltb i (length c.methods) then done (record c { methods = set c.methods i v }) else fault

  abbrev pub add_field : K → ObjectPtr F → Class m F → Class m F
  add_field k v c = record c {
    members = m.new_slot k (make_field_idx (length c.default_values)) c.members;
    default_values = c.default_values ++ v ∷ [];
  }

  abbrev pub add_method : SharedState K → K → ObjectPtr F → Class m F → Class m F
  add_method ss k v c = record c {
    members = m.new_slot k (make_method_idx (length c.methods)) c.members;
    methods = c.methods ++ v ∷ [];
    constructor_idx =
        if m.same ss.constructor_str k then some (length c.methods) else c.constructor_idx;
  }

  abbrev pub store_metamethod : ℕ → ObjectPtr F → Class m F → Class m F
  store_metamethod i v c = record c { metamethods = λ j. if i == j then v else c.metamethods j }

  -- The part of NewSlot for what belongs to the static table; `temp` is what the name had.
  unfoldable pub static_slot :
      SharedState K → K → ObjectPtr F → Option ℕ → Class m F → Outcome (Class m F)
  static_slot ss k v temp c = elim (metamethod_of ss k v) [
    | some i ↦ done (store_metamethod i v c)
    | none ↦ elim temp [
      | none ↦ done (add_method ss k (bound c.base v) c)
      | some i ↦ store_method (member_idxi i) (bound c.base v) c
    ]
  ]

  unfoldable pub add_slot :
      SharedState K → K → ObjectPtr F → Bool → Option ℕ → Class m F → Outcome (Class m F)
  add_slot ss k v bstatic temp c =
      if leb member_max_count (m.count_used c.members)
      then refused
      else if belongs_to_static_table v bstatic
      then static_slot ss k v temp c
      else done (add_field k v c)

  -- `NewSlot`
  unfoldable pub new_slot : SharedState K → K → ObjectPtr F → Bool → Class m F → Outcome (Class m F)
  new_slot ss k v bstatic c =
      if is_locked c && not (belongs_to_static_table v bstatic)
      then refused
      else elim (m.get k c.members) [
        | none ↦ add_slot ss k v bstatic none c
        | some i ↦
            if is_fieldi i
            then store_default (member_idxi i) v c
            else if is_nativefieldi i
            then refused
            else add_slot ss k v bstatic (some i) c
      ]

-- `type_sizes`, by the SQNFT_… constants, of which SQNFT_BOOL is the last.
abbrev pub type_sizes : List ℕ
type_sizes = 4 ∷ 8 ∷ 4 ∷ 8 ∷ 1 ∷ []

abbrev pub sqnft_bool : ℕ
sqnft_bool = 4

abbrev pub size_of_type : ℕ → ℕ
size_of_type t = elim (get_elem? type_sizes t) [ none ↦ 0 | some n ↦ n ]

module _ {K F : Type 0} {m : Members K} where
  abbrev pub add_native : K → NativeField → Class m F → Class m F
  add_native k d c = record c {
    members = m.new_slot k (make_native_field_idx (length c.native_fields)) c.members;
    native_fields = c.native_fields ++ d ∷ [];
  }

  -- RegisterNativeField. The offset is below 2¹⁶ and the type below 2⁸.
  unfoldable pub register_native_field : K → NativeField → Class m F → Outcome (Class m F)
  register_native_field k d c =
      if is_locked c
      then refused
      else if c.ud_size == 0
      then refused
      else if ltb sqnft_bool d.type_of
          || ltb (c.ud_size % 2 ^ 32) (d.offset + size_of_type d.type_of)
      then refused
      else if leb member_max_count (m.count_used c.members)
      then refused
      else elim (m.get k c.members) [ none ↦ done (add_native k d c) | some i ↦ refused ]

  -- sq_setclassudsize of squirrel/sqapi.cpp, for a size that is not negative.
  unfoldable pub set_class_ud_size : ℕ → Class m F → Outcome (Class m F)
  set_class_ud_size n c = if is_locked c then refused else done (record c { ud_size = n })
