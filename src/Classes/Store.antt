-- ===== src/Classes/Store.antt =====
-- squirrel/sqclass.cpp: locking a class and its bases, making classes and instances, and InstanceOf. A
-- class is known by its address.
use Prim.Native.Nat.{bit_and}
use quirrel.Prelude.{
  ℕ, zero, suc, ◌-◌, ◌/◌, ◌^◌, Bool, true, false, ◌==◌, if◌then◌else◌, Option, none, some, List,
}
use quirrel.Vm.Object.{Obj}
use quirrel.Classes.Members.{Members}
use quirrel.Classes.Class.{ObjectPtr, Class, is_locked, inherit, new_root}

-- MT_LOCK
abbrev pub mt_lock : ℕ
mt_lock = 16

abbrev pub Store : {K : Type 0} → Members K → Type 0 → Type 0
Store m F = ℕ → Class m F

-- `Call` of the VM with a class for its only argument: what a script does to the classes, and whether it
-- succeeds.
abbrev pub Call : {K : Type 0} → Members K → Type 0 → Type 0
Call m F = ObjectPtr F → ℕ → Store m F → Store m F × Bool

-- `currentHint`
unfoldable pub current_hint : ℕ → ℕ
current_hint address = bit_and (address / 2 ^ 8) (2 ^ 40 - 1)

abbrev pub is_null : {F : Type 0} → ObjectPtr F → Bool
is_null (ObjectPtr.plain Obj.null) = true
is_null v = false

-- SQInstance: its class, its fields' values and the bytes of its userdata.
pub record Instance (F : Type 0) : Type 0 where
  pub class_of : ℕ
  pub values : List (ObjectPtr F)
  pub ud : ℕ → ℕ

module _ {K F : Type 0} {m : Members K} where
  abbrev pub put_class : ℕ → Class m F → Store m F → Store m F
  put_class address c s j = if address == j then c else s j

  -- `_lockedTypeId = currentHint()`
  abbrev pub with_hint : ℕ → Class m F → Class m F
  with_hint a c = record c { locked_type_id = current_hint a }

  -- The part of `Lock` behind the base's: the metamethod, which may fail, and the type id.
  unfoldable pub lock_self : Call m F → ℕ → Store m F → Store m F × Bool
  lock_self call a s =
      let (t, success) =
        if is_null ((s a).metamethods mt_lock)
        then (s, true)
        else call ((s a).metamethods mt_lock) a s in
      (put_class a (with_hint a (t a)) t, success)

  -- `Lock`, on as many bases as there is fuel; none where it runs out.
  unfoldable pub lock : Call m F → ℕ → ℕ → Store m F → Option (Store m F × Bool)
  lock call zero a s = none
  lock call (suc f) a s =
      let base_locked : Option (Store m F × Bool) = elim (s a).base [
        | none ↦ some (lock_self call a s)
        | some b ↦ elim (lock call f b s) [
          | none ↦ none
          | some (t, success) ↦ some (if success then lock_self call a t else (t, false))
        ]
      ] in
      if is_locked (s a) then some (s, true) else base_locked

  -- `Create` at a new address; the result is none for nullptr.
  unfoldable pub create_class :
      Call m F → ℕ → ℕ → Option ℕ → Store m F → Option (Store m F × Option ℕ)
  create_class call f address none s = some (put_class address new_root s, some address)
  create_class call f address (some b) s =
      let locked : Option (Store m F × Bool) =
        if is_locked (s b) then some (s, true) else lock call f b s in
      if (s b).is_builtin_type then some (s, none) else elim locked [
        | none ↦ none
        | some (t, success) ↦
            some
              (if success then (put_class address (inherit b (t b)) t, some address) else (t, none))
      ]

  -- `CreateInstance`, with the constructor of SQInstance. `raw` is what the userdata's memory holds.
  unfoldable pub create_instance :
      Call m F → (ℕ → ℕ) → ℕ → ℕ → Store m F → Option (Store m F × Option (Instance F))
  create_instance call raw f a s =
      let locked : Option (Store m F × Bool) =
        if is_locked (s a) then some (s, true) else lock call f a s in
      elim locked [
        | none ↦ none
        | some (t, success) ↦ some (
            if success
            then (t, some (record { class_of = a; values = (t a).default_values; ud = raw }))
            else (t, none))
      ]

  -- `InstanceOf`, on as many classes as there is fuel.
  unfoldable pub instance_of : ℕ → Store m F → Option ℕ → ℕ → Option Bool
  instance_of f s none trg = some false
  instance_of zero s (some parent) trg = none
  instance_of (suc f) s (some parent) trg =
      let rest : Option Bool = instance_of f s (s parent).base trg in
      if parent == trg then some true else rest
