-- ===== src/Classes/Lineage.antt =====
-- `Create`, `CreateInstance` and `InstanceOf` of squirrel/sqclass.cpp.
use quirrel.Prelude.{
  none-ne-some, same_some, ℕ, zero, suc, ◌≡◌, ◌≢◌, refl, sym, ap, subst, ◌∙◌, ==_iff, ◌↔◌, inl, inr,
  Bool, true, false, ◌==◌, if◌then◌else◌, Option, none, some, arith, Bool-cases, Option-cases,
}
use quirrel.Classes.Members.{Members}
use quirrel.Classes.Class.{is_locked, inherit, class_get}
use quirrel.Classes.Carried.{inherit-get}
use quirrel.Classes.Store.{Store, Call, put_class, lock, create_class, create_instance, instance_of}
use quirrel.Classes.Locks.{IsLockedUp, AllSound, Depth, IsScript, Locks, lock-Locks}

module _ {K F : Type 0} {m : Members K} where
  -- `c` is `a`, or a base of it at some remove.
  pub data Ancestor (s : Store m F) (c : ℕ) : ℕ → Type 0 where
    self : {a : ℕ} → a ≡ c → Ancestor s c a
    up : {a b : ℕ} → (s a).base ≡ some b → Ancestor s c b → Ancestor s c a

  not_self :
      (s : Store m F) (a c : ℕ)
      → (a == c) ≡ false
      → Ancestor s c a
      → (b : ℕ) × ((s a).base ≡ some b) × Ancestor s c b
  not_self s a c e (self same) = absurd (ground arith)
  not_self s a c e (up {b = b} base rest) = (b, base, rest)

  -- `InstanceOf` returns for an instance of a class whose base chain ends, and says whether the class asked
  -- for is the instance's class or one of its bases.
  pub instance_of-Ancestor :
      (n : ℕ) (s : Store m F) (a c : ℕ)
      → Depth n s a
      → (r : Bool) × (instance_of n s (some a) c ≡ some r) × ((r ≡ true) ↔ Ancestor s c a)
  unfolding instance_of
  instance_of-Ancestor zero s a c depth = absurd depth
  instance_of-Ancestor (suc n) s a c (high, low, bases) = elim (Bool-cases (a == c)) [
    | inl e ↦ (true, rw e refl, (λ t. self ((==_iff a c).0 e), λ t. refl))
    | inr e ↦ elim (Option-cases (s a).base) [
      | inl root ↦ (
        false,
        rw (e, root) refl,
        (
          λ t. absurd (never t),
          λ t. let (b, base, rest) = not_self s a c e t in absurd (none-ne-some root base),
        ),
      )
      | inr (b, base) ↦
          let (r, run, iff) = instance_of-Ancestor n s b c (bases b base) in
          (
            r,
            rw (e, base) run,
            (
              λ t. up base (iff.0 t),
              λ t.
                  let (d, base', rest) = not_self s a c e t in
                  iff.1 (subst (Ancestor s c) (same_some base' base) rest),
            ),
          )
    ]
  ]
    where
      never : false ≡ true → ⊥
      never t = cc

  -- No class has `address` for its base.
  abbrev pub IsFresh : ℕ → Store m F → Type 0
  IsFresh address s = (a : ℕ) → (s a).base ≢ some address

  -- The three ways that `Create` ends: the base is a built-in type, its lock fails, or there is a new class,
  -- not locked, with the members of the base.
  pub data IsMade (s : Store m F) (address b : ℕ) (r : Option (Store m F × Option ℕ)) : Type 0 where
    built_in : r ≡ some (s, none) → (s b).is_builtin_type ≡ true → IsMade s address b r
    not_locked :
        (t : Store m F)
        → r ≡ some (t, none)
        → (s b).is_builtin_type ≡ false
        → Locks b s t false
        → IsMade s address b r
    made :
        (t u : Store m F)
        → r ≡ some (u, some address)
        → (s b).is_builtin_type ≡ false
        → Locks b s t true
        → ((a : ℕ) → u a ≡ (if address == a then inherit b (t b) else t a))
        → ((k : K) → class_get k (u address) ≡ class_get k (t b))
        → IsLockedUp u
        → AllSound u
        → IsMade s address b r

module _ {K F : Type 0} {m : Members K} (call : Call m F) (script : IsScript call) (n : ℕ)
    (s : Store m F) (up : IsLockedUp s) (sound : AllSound s) where
  -- `if (!isLocked()) Lock`
  locked_now :
      (b : ℕ)
      → Depth n s b
      → (t : Store m F) × (success : Bool) × ((if is_locked (s b)
            then some (s, true)
            else lock call n b s)
          ≡ some (t, success))
        × Locks b s t success
  locked_now b depth = elim (Bool-cases (is_locked (s b))) [
    | inl h ↦ (
      s,
      true,
      rw h refl,
      record { grew = λ a. (refl, λ l. l); locked_up = up; all_sound = sound; locked = λ e. h },
    )
    | inr h ↦
        let (t, success, run, locks) = lock-Locks call script n b s depth up sound in
        (t, success, rw h run, locks)
  ]

  module _ (address b : ℕ) (t : Store m F) (locks : Locks b s t true) where
    abbrev extended : Store m F
    extended = put_class address (inherit b (t b)) t

    extended-AllSound : AllSound extended
    extended-AllSound a = elim (Bool-cases (address == a)) [
      | inl e ↦ rw e (inherit-get b (t b) (locks.all_sound b)).0
      | inr e ↦ rw e (locks.all_sound a)
    ]

    extended-IsLockedUp : IsFresh address s → IsLockedUp extended
    unfolding inherit
    extended-IsLockedUp fresh x y = elim (Bool-cases (address == x)) [
      | inl e ↦ rw e (λ p h. absurd (cc))
      | inr e ↦ rw e λ p h. elim (Bool-cases (address == y)) [
        | inl q ↦
            absurd (fresh x (sym (locks.grew x).0 ∙ p ∙ ap some (sym ((==_iff address y).0 q))))
        | inr q ↦ rw q (locks.locked_up x y p h)
      ]
    ]

  -- Under the conditions of lock-Locks, `Create` with a base, at an address that is no class's base,
  -- refuses a built-in type, fails where the lock of the base does, or makes a class that is the base
  -- inherited: its base is locked, its members read as the base's, every class is sound, and the base of
  -- every locked class is locked.
  pub create_class-IsMade :
      (address b : ℕ)
      → Depth n s b
      → IsFresh address s
      → IsMade s address b (create_class call n address (some b) s)
  unfolding create_class
  create_class-IsMade address b depth fresh = elim (Bool-cases (s b).is_builtin_type) [
    | inl e ↦ built_in (rw e refl) e
    | inr e ↦
        let (t, success, run, locks) = locked_now b depth in
        elim (Bool-cases success) [
          | inl won ↦
              let locks' = subst (Locks b s t) won locks in
              made t (extended address b t locks') (rw (e, run, won) refl) e locks' (λ a. refl)
                (λ k.
                  ap (class_get k) (here address b t)
                  ∙ (inherit-get b (t b) (locks.all_sound b)).1 k)
                (extended-IsLockedUp address b t locks' fresh)
                (extended-AllSound address b t locks')
          | inr lost ↦ not_locked t (rw (e, run, lost) refl) e (subst (Locks b s t) lost locks)
        ]
  ]
    where
      here :
          (address b : ℕ) (t : Store m F)
          → put_class address (inherit b (t b)) t address ≡ inherit b (t b)
      here address b t = rw ((==_iff address address).1 refl) refl

  -- `CreateInstance` comes to an end. Without a lock there is no instance; otherwise its class is locked
  -- and it has a value for each of the class's fields, the default one.
  pub create_instance-locked :
      (raw : ℕ → ℕ) (a : ℕ)
      → Depth n s a
      → (t : Store m F) × (success : Bool) × (create_instance call raw n a s
          ≡ some (
            t,
            (if success
                then some (record { class_of = a; values = (t a).default_values; ud = raw })
                else none),
          ))
        × Locks a s t success
  unfolding create_instance
  create_instance-locked raw a depth =
      let (t, success, run, locks) = locked_now a depth in
      elim (Bool-cases success) [
        | inl won ↦ (t, true, rw (create_instance, run, won) refl, subst (Locks a s t) won locks)
        | inr lost ↦
            (t, false, rw (create_instance, run, lost) refl, subst (Locks a s t) lost locks)
      ]
