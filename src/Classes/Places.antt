-- ===== src/Classes/Places.antt =====
-- What each write to the members of an SQClass (squirrel/sqclass.cpp) does: the class stays sound, and
-- `Get` reads the new value under one name and elsewhere what it read before.
use quirrel.Prelude.{
  ℕ, ◌≤◌, ◌<◌, ◌≡◌, ◌≢◌, refl, sym, ap, ◌∙◌, inl, inr, false, if◌then◌else◌, some, length,
  get_elem?, set, ◌++◌, ◌∷◌, [], arith, List, Bool-cases, Option-cases, get_elem?-set_self,
  get_elem?-set_ne, get_elem?-append_left, get_elem?-append_self,
}
use quirrel.Classes.Index.{member_max_count}
use quirrel.Classes.Members.{Members}
use quirrel.Classes.Class.{ObjectPtr, Class, done, read, slot_value, class_get}
use quirrel.Classes.Sound.{
  IsSoundFor, Owners, IsMember, a_field, a_method, a_native, slot_value-field, slot_value-method,
  slot_value-native,
}

module _ {A : Type 0} where
  read_same : (xs ys : List A) (i j : ℕ) → get_elem? xs i ≡ get_elem? ys j → read xs i ≡ read ys j
  read_same xs ys i j e = ground arith

  pub read-set_self : (xs : List A) (i : ℕ) (v : A) → i < length xs → read (set xs i v) i ≡ done v
  read-set_self xs i v h = ground (arith, get_elem?-set_self xs i v h)

  pub read-set_ne : (xs : List A) (i j : ℕ) (v : A) → i ≢ j → read (set xs i v) j ≡ read xs j
  read-set_ne xs i j v h = read_same _ _ j j (get_elem?-set_ne xs i j v h)

  pub read-append :
      (xs : List A) (y : A) (i : ℕ) → i < length xs → read (xs ++ y ∷ []) i ≡ read xs i
  read-append xs y i h = read_same _ _ i i (get_elem?-append_left xs (y ∷ []) i h)

  pub read-append_self : (xs : List A) (y : A) → read (xs ++ y ∷ []) (length xs) ≡ done y
  read-append_self xs y = ground (arith, get_elem?-append_self xs y [])

module _ {K F : Type 0} {m : Members K} where
  -- `Get` reads `x` under the name `k`, and elsewhere what it read in `c`.
  abbrev pub Reads : K → ObjectPtr F → Class m F → Class m F → Type 0
  Reads k x c c' = (j : K) → class_get j c' ≡ (if m.same k j then done x else class_get j c)

  Reads-of :
      (k : K) (x : ObjectPtr F) (c c' : Class m F)
      → class_get k c' ≡ done x
      → ((j : K) → k ≢ j → class_get j c' ≡ class_get j c)
      → Reads k x c c'
  Reads-of k x c c' self other j = elim (Bool-cases (m.same k j)) [
    | inl t ↦ rw t (ap (λ i. class_get i c') (sym ((m.same_iff k j).0 t)) ∙ self)
    | inr t ↦ rw t (other j (λ e. absurd (differ e t)))
  ]
    where
      differ : k ≡ j → m.same k j ≡ false → ⊥
      differ e t = let same = (m.same_iff k j).1 e in cc

  class_get-congr :
      (c c' : Class m F) (j : K)
      → m.get j c'.members ≡ m.get j c.members
      → ((i : ℕ) → m.get j c.members ≡ some i → slot_value i c' ≡ slot_value i c)
      → class_get j c' ≡ class_get j c
  unfolding class_get
  class_get-congr c c' j names slots = elim (Option-cases (m.get j c.members)) [
    | inl e ↦ simp (class_get, names, e) refl
    | inr (i, e) ↦ simp (class_get, names, e) (slots i e)
  ]

  -- The vectors of `c'` have what those of `c` have for the name `j`.
  pub record Keeps (c c' : Class m F) (o : Owners K) (j : K) : Type 0 where
    pub few_fields : length c'.default_values ≤ member_max_count
    pub few_methods : length c'.methods ≤ member_max_count
    pub few_natives : length c'.native_fields ≤ member_max_count
    pub more_fields : length c.default_values ≤ length c'.default_values
    pub more_methods : length c.methods ≤ length c'.methods
    pub more_natives : length c.native_fields ≤ length c'.native_fields
    pub field :
        (a : ℕ)
        → a < length c.default_values
        → o.field a ≡ j
        → read c'.default_values a ≡ read c.default_values a
    pub method :
        (a : ℕ) → a < length c.methods → o.method a ≡ j → read c'.methods a ≡ read c.methods a

  slot_value-Keeps :
      {c : Class m F} {o : Owners K} (s : IsSoundFor c o) (c' : Class m F) (j : K)
      → Keeps c c' o j
      → (i : ℕ) → IsMember c o j i
      → slot_value i c' ≡ slot_value i c
  slot_value-Keeps {c} s c' j keeps i (a_field a at inside own) =
      rw
        (
          at,
          slot_value-field c' a (omega (arith, keeps.more_fields)) keeps.few_fields,
          slot_value-field c a inside s.few_fields,
          keeps.field a inside own,
        )
        refl
  slot_value-Keeps {c} s c' j keeps i (a_method a at inside own) =
      rw
        (
          at,
          slot_value-method c' a (omega (arith, keeps.more_methods)) keeps.few_methods,
          slot_value-method c a inside s.few_methods,
          keeps.method a inside own,
        )
        refl
  slot_value-Keeps {c} s c' j keeps i (a_native a at inside own) =
      rw
        (
          at,
          slot_value-native c' a (omega (arith, keeps.more_natives)) keeps.few_natives,
          slot_value-native c a inside s.few_natives,
        )
        refl

  -- A write that leads `k` to `x` and keeps all that other names lead to.
  pub Keeps-Reads :
      {c : Class m F} {o : Owners K} (s : IsSoundFor c o) (c' : Class m F) (k : K) (x : ObjectPtr F)
      (i : ℕ)
      → m.get k c'.members ≡ some i
      → slot_value i c' ≡ done x
      → ((j : K) → k ≢ j → m.get j c'.members ≡ m.get j c.members)
      → ((j : K) → k ≢ j → Keeps c c' o j)
      → Reads k x c c'
  unfolding class_get
  Keeps-Reads {c} s c' k x i there value names keeps =
      Reads-of k x c c' (rw (class_get, there) value) λ j ne.
        class_get-congr c c' j (names j ne)
          λ i e. slot_value-Keeps s c' j (keeps j ne) i (s.member j i e)
