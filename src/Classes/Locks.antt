-- ===== src/Classes/Locks.antt =====
-- `Lock` of squirrel/sqclass.cpp locks the bases of a class before the class.
use quirrel.Prelude.{
  none-ne-some, same_some, ℕ, zero, suc, ◌/◌, ◌^◌, ◌≤◌, ◌<◌, ◌≡◌, refl, sym, ap, subst, ◌∙◌, ==_iff,
  inl, inr, Bool, true, false, ◌==◌, some, arith, Bool-cases, Option-cases,
}
use quirrel.Classes.Index.{bit_and_ones}
use quirrel.Classes.Members.{Members}
use quirrel.Classes.Class.{ObjectPtr, Class, is_locked}
use quirrel.Classes.Carried.{carried-IsSoundFor}
use quirrel.Classes.Sound.{IsSound}
use quirrel.Classes.Store.{
  Store, Call, current_hint, with_hint, is_null, mt_lock, put_class, lock_self, lock,
}

module _ {K F : Type 0} {m : Members K} where
  -- Where a class is locked its base is.
  abbrev pub IsLockedUp : Store m F → Type 0
  IsLockedUp s = (a b : ℕ) → (s a).base ≡ some b → is_locked (s a) ≡ true → is_locked (s b) ≡ true

  abbrev pub AllSound : Store m F → Type 0
  AllSound s = (a : ℕ) → IsSound (s a)

  -- Bases stay, and locked classes stay locked.
  abbrev pub Grew : Store m F → Store m F → Type 0
  Grew s t = (a : ℕ) → ((t a).base ≡ (s a).base) × (is_locked (s a) ≡ true → is_locked (t a) ≡ true)

  -- The base chain of `a` ends within `n` classes, which have addresses of 48 bits outside the first 256.
  abbrev pub Depth : ℕ → Store m F → ℕ → Type 0
  Depth zero s a = ⊥
  Depth (suc n) s a = (2 ^ 8 ≤ a) × (a < 2 ^ 48) × ((b : ℕ) → (s a).base ≡ some b → Depth n s b)

  -- What a script may not do: give a class another base, unlock it, lock it before its base, or break its
  -- members.
  pub record IsScript (call : Call m F) : Type 0 where
    pub grows : (v : ObjectPtr F) (a : ℕ) (s : Store m F) → Grew s (call v a s).0
    pub locked_up :
        (v : ObjectPtr F) (a : ℕ) (s : Store m F) → IsLockedUp s → IsLockedUp (call v a s).0
    pub all_sound : (v : ObjectPtr F) (a : ℕ) (s : Store m F) → AllSound s → AllSound (call v a s).0

  -- What `Lock` promises of its result.
  pub record Locks (a : ℕ) (s t : Store m F) (success : Bool) : Type 0 where
    pub grew : Grew s t
    pub locked_up : IsLockedUp t
    pub all_sound : AllSound t
    pub locked : success ≡ true → is_locked (t a) ≡ true

current_hint-ne : (a : ℕ) → 2 ^ 8 ≤ a → a < 2 ^ 48 → (current_hint a == 0) ≡ false
unfolding current_hint
current_hint-ne a h l = let same = bit_and_ones 40 (a / 2 ^ 8) (omega arith) in ground (arith)

module _ {K F : Type 0} {m : Members K} where
  pub with_hint-locked :
      (a : ℕ) (c : Class m F) → 2 ^ 8 ≤ a → a < 2 ^ 48 → is_locked (with_hint a c) ≡ true
  with_hint-locked a c h l = rw (current_hint-ne a h l) refl

  with_hint-IsSound : (a : ℕ) (c : Class m F) → IsSound c → IsSound (with_hint a c)
  with_hint-IsSound a c sc = record {
    owners = sc.owners;
    sound =
        carried-IsSoundFor c c.members c.base c.metamethods (current_hint a) c.is_builtin_type
          (λ k. refl) sc.owners sc.sound.valid sc.sound;
  }

  put_class_self :
      (a b : ℕ) (c : Class m F) (t : Store m F) → (a == b) ≡ true → put_class a c t b ≡ c
  put_class_self a b c t e = rw (put_class, e) refl

  put_class_other :
      (a b : ℕ) (c : Class m F) (t : Store m F) → (a == b) ≡ false → put_class a c t b ≡ t b
  put_class_other a b c t e = rw (put_class, e) refl

  module _ (a : ℕ) (s t : Store m F) (success : Bool) (high : 2 ^ 8 ≤ a) (low : a < 2 ^ 48)
      (grew : Grew s t) (up : IsLockedUp t) (sound : AllSound t)
      (above : (b : ℕ) → (t a).base ≡ some b → is_locked (t b) ≡ true) where
    abbrev after : Store m F
    after = put_class a (with_hint a (t a)) t

    after-locked : (b : ℕ) → is_locked (t b) ≡ true → is_locked (after b) ≡ true
    after-locked b h = elim (Bool-cases (a == b)) [
      | inl e ↦
          ap is_locked (put_class_self a b (with_hint a (t a)) t e)
          ∙ with_hint-locked a (t a) high low
      | inr e ↦ ap is_locked (put_class_other a b (with_hint a (t a)) t e) ∙ h
    ]

    after-base : (b : ℕ) → (after b).base ≡ (t b).base
    after-base b = elim (Bool-cases (a == b)) [
      | inl e ↦
          ap (λ c. c.base) (put_class_self a b (with_hint a (t a)) t e)
          ∙ ap (λ n. (t n).base) ((==_iff a b).0 e)
      | inr e ↦ ap (λ c. c.base) (put_class_other a b (with_hint a (t a)) t e)
    ]

    -- The class gets its type id in a store in which its base is locked.
    with_hint-Locks : Locks a s after success
    with_hint-Locks = record {
      grew = λ b. (after-base b ∙ (grew b).0, λ h. after-locked b ((grew b).1 h));
      locked_up = λ b d e h. after-locked d (up_after b d (sym (after-base b) ∙ e) h);
      all_sound = λ b. elim (Bool-cases (a == b)) [
        | inl e ↦
            subst IsSound (sym (put_class_self a b (with_hint a (t a)) t e))
              (with_hint-IsSound a (t a) (sound a))
        | inr e ↦ subst IsSound (sym (put_class_other a b (with_hint a (t a)) t e)) (sound b)
      ];
      locked = λ e.
          ap is_locked (put_class_self a a (with_hint a (t a)) t ((==_iff a a).1 refl))
          ∙ with_hint-locked a (t a) high low;
    }
      where
        up_after :
            (b d : ℕ) → (t b).base ≡ some d → is_locked (after b) ≡ true → is_locked (t d) ≡ true
        up_after b d e h = elim (Bool-cases (a == b)) [
          | inl q ↦ above d (ap (λ n. (t n).base) ((==_iff a b).0 q) ∙ e)
          | inr q ↦ up b d e (sym (ap is_locked (put_class_other a b (with_hint a (t a)) t q)) ∙ h)
        ]

module _ {K F : Type 0} {m : Members K} (call : Call m F) (script : IsScript call) where
  lock_self-Locks :
      (a : ℕ) (s t : Store m F)
      → 2 ^ 8 ≤ a
      → a < 2 ^ 48
      → Grew s t
      → IsLockedUp t
      → AllSound t
      → ((b : ℕ) → (t a).base ≡ some b → is_locked (t b) ≡ true)
      → Locks a s (lock_self call a t).0 (lock_self call a t).1
  unfolding lock_self
  lock_self-Locks a s t high low grew up sound above =
      elim (Bool-cases (is_null ((t a).metamethods mt_lock))) [
        | inl e ↦ rw e (with_hint-Locks a s t true high low grew up sound above)
        | inr e ↦
            let v = (t a).metamethods mt_lock in
            let more = script.grows v a t in
            rw e (
              with_hint-Locks a s (call v a t).0 (call v a t).1 high low
                (λ b. ((more b).0 ∙ (grew b).0, λ h. (more b).1 ((grew b).1 h)))
                (script.locked_up v a t up) (script.all_sound v a t sound)
                λ b p. (more b).1 (above b (sym (more a).0 ∙ p)))
      ]

  stays_Locks :
      (a : ℕ) (s : Store m F)
      → IsLockedUp s
      → AllSound s
      → is_locked (s a) ≡ true
      → Locks a s s true
  stays_Locks a s up sound h = record {
    grew = λ b. (refl, λ l. l);
    locked_up = up;
    all_sound = sound;
    locked = λ e. h;
  }

  -- `Lock` returns for a class whose base chain ends, where scripts keep to IsScript, all classes are
  -- sound, and the base of every locked class is locked. Afterwards the last two hold again, every class
  -- has the base it had and is locked if it was, and where the result is true the class is locked.
  pub lock-Locks :
      (n a : ℕ) (s : Store m F)
      → Depth n s a
      → IsLockedUp s
      → AllSound s
      → (t : Store m F) × (success : Bool) × (lock call n a s ≡ some (t, success))
        × Locks a s t success
  unfolding lock
  lock-Locks zero a s depth up sound = absurd depth
  lock-Locks (suc n) a s (high, low, bases) up sound = elim (Bool-cases (is_locked (s a))) [
    | inl h ↦ (s, true, rw h refl, stays_Locks a s up sound h)
    | inr h ↦ elim (Option-cases (s a).base) [
      | inl root ↦ (
        (lock_self call a s).0,
        (lock_self call a s).1,
        rw (h, root) refl,
        lock_self-Locks a s s high low (λ b. (refl, λ l. l)) up sound
            (λ b e. absurd (none-ne-some root e)),
      )
      | inr (b, e) ↦
          let (t, success, run, locks) = lock-Locks n b s (bases b e) up sound in
          elim (Bool-cases success) [
            | inl won ↦ (
              (lock_self call a t).0,
              (lock_self call a t).1,
              rw (h, e, run, won) refl,
              lock_self-Locks a s t high low locks.grew locks.locked_up locks.all_sound λ d p.
                  ap (λ x. is_locked (t x)) (same_some (sym (locks.grew a).0 ∙ p) e)
                  ∙ locks.locked won,
            )
            | inr lost ↦ (
              t,
              false,
              rw (h, e, run, lost) refl,
              record {
                grew = locks.grew;
                locked_up = locks.locked_up;
                all_sound = locks.all_sound;
                locked = λ q. absurd (never q);
              },
            )
          ]
    ]
  ]
    where
      never : false ≡ true → ⊥
      never q = cc
