-- ===== src/Table/Iteration.antt =====
-- `Next` of squirrel/sqtable.cpp, and the loop of a caller that walks a table by it.
use mathlib.Core.List.{Memᴰ}
use mathlib.Core.List.Memᴰ
use quirrel.Prelude.{
  ℕ, zero, suc, ◌+◌, ◌-◌, ◌≤◌, ◌<◌, ◌≡◌, subst, refl, sym, ap, ◌∙◌, ◌↔◌, ◌⊎◌, inl, inr, false, ◌==◌,
  arith, Bool-cases, List, [], ◌∷◌, length,
}
use quirrel.Prelude.{none, some, Option-cases}
use quirrel.Table.Nodes.{KeyOps, Node, Table, get, is_none}
use quirrel.Table.Slots.{next_from, next}
use quirrel.Table.Count.{used}
use quirrel.Table.Valid.{Stores, IsValid, get-Means}

module _ {K V : Type 0} where
  -- What a caller sees that goes on from `idx` where `Next` says, until it returns -1.
  unfoldable pub walk : ℕ → ℕ → Table K V → List (K × V)
  walk zero idx t = []
  walk (suc f) idx t = elim (next idx t) [
    | none ↦ []
    | some (k, v, after) ↦ (k, v) ∷ walk f after t
  ]

  -- No node from `a` to `b` holds a key.
  abbrev IsGap : (ℕ → Node K V) → ℕ → ℕ → Type 0
  IsGap nodes a b = (i : ℕ) → a ≤ i → i < b → (nodes i).key ≡ none

  used-IsGap :
      (nodes : ℕ → Node K V) (a b : ℕ) → a ≤ b → IsGap nodes a b → used nodes b ≡ used nodes a
  unfolding used
  used-IsGap nodes a zero h gap = ground arith
  used-IsGap nodes a (suc b) h gap = elim (Bool-cases (a == suc b)) [
    | inl t ↦ ground arith
    | inr t ↦
        ground (arith, gap b, used-IsGap nodes a b (ground arith) (λ i g l. gap i g (omega arith)))
  ]

  next_from-cases :
      (idx n : ℕ) (nodes : ℕ → Node K V)
      → ((next_from idx n nodes ≡ none) × IsGap nodes idx (idx + n))
        ⊎ ((i : ℕ) × (next_from idx n nodes ≡ some i)
            × (idx ≤ i)
            × (i < idx + n)
            × (is_none (nodes i).key ≡ false)
            × IsGap nodes idx i)
  unfolding next_from
  next_from-cases idx zero nodes = inl (refl, λ i h l. absurd (omega arith))
  next_from-cases idx (suc n) nodes = elim (Bool-cases (is_none (nodes idx).key)) [
    | inr held ↦
        inr (idx, rw held refl, omega arith, omega arith, held, λ i h l. absurd (omega arith))
    | inl free ↦
        let here : IsGap nodes idx (idx + 1) = λ i h l. ground arith in
        elim (next_from-cases (idx + 1) n nodes) [
          | inl (e, gap) ↦ inl (
            rw free e,
            λ i h l. elim (Bool-cases (i == idx)) [
              | inl t ↦ here i h (ground arith)
              | inr t ↦ gap i (ground arith) (omega arith)
            ],
          )
          | inr (a, e, le, lt, held, gap) ↦ inr (
            a,
            rw free e,
            omega arith,
            omega arith,
            held,
            λ i h l. elim (Bool-cases (i == idx)) [
              | inl t ↦ here i h (ground arith)
              | inr t ↦ gap i (ground arith) l
            ],
          )
        ]
  ]

  next-cases :
      (idx : ℕ) (t : Table K V)
      → idx ≤ t.size
      → ((next idx t ≡ none) × IsGap t.nodes idx t.size)
        ⊎ ((i : ℕ) × (k : K) × (next idx t ≡ some (k, (t.nodes i).val, i + 1))
            × (idx ≤ i)
            × (i < t.size)
            × ((t.nodes i).key ≡ some k)
            × IsGap t.nodes idx i)
  unfolding next
  next-cases idx t h = elim (next_from-cases idx (t.size - idx) t.nodes) [
    | inl (e, gap) ↦ inl (rw (next, e) refl, λ i a l. gap i a (omega arith))
    | inr (i, e, le, lt, held, gap) ↦ elim (Option-cases (t.nodes i).key) [
      | inl none_held ↦ absurd (ground arith)
      | inr (k, key) ↦ inr (i, k, simp (next, e, key) refl, le, omega arith, key, gap)
    ]
  ]

  walk-none : (f idx : ℕ) (t : Table K V) → next idx t ≡ none → walk (suc f) idx t ≡ []
  unfolding walk
  walk-none f idx t e = rw (walk, e) refl

  walk-some :
      (f idx : ℕ) (t : Table K V) (k : K) (v : V) (after : ℕ)
      → next idx t ≡ some (k, v, after)
      → walk (suc f) idx t ≡ (k, v) ∷ walk f after t
  unfolding walk
  walk-some f idx t k v after e = rw (walk, e) refl

  -- The loop sees as many keys as the nodes from `idx` on hold.
  walk-length :
      (f idx : ℕ) (t : Table K V)
      → idx ≤ t.size
      → t.size < idx + f
      → length (walk f idx t) + used t.nodes idx ≡ used t.nodes t.size
  unfolding walk used
  walk-length zero idx t h l = absurd (omega arith)
  walk-length (suc f) idx t h l = elim (next-cases idx t h) [
    | inl (e, gap) ↦ rw (walk-none f idx t e) (omega (arith, used-IsGap t.nodes idx t.size h gap))
    | inr (i, k, e, le, lt, key, gap) ↦
        let one : used t.nodes (suc i) ≡ suc (used t.nodes i) = rw key refl in
        rw (walk-some f idx t k _ (i + 1) e) (
          omega (
            arith,
            walk-length f (i + 1) t (omega arith) (omega arith),
            used-IsGap t.nodes idx i le gap,
            ap (used t.nodes) {x = i + 1} {y = suc i} (omega arith),
            one,
          ))
  ]

  -- The loop sees the keys of the nodes from `idx` on with their values, and nothing else.
  walk-Stores :
      (f idx : ℕ) (t : Table K V) (k : K) (v : V)
      → idx ≤ t.size
      → Memᴰ (k, v) (walk f idx t)
      → Stores t.nodes k v
  unfolding walk
  walk-Stores zero idx t k v h m = absurd (Memᴰ.not-nil m)
  walk-Stores (suc f) idx t k v h m = elim (next-cases idx t h) [
    | inl (e, gap) ↦ absurd (Memᴰ.not-nil (subst (λ l. Memᴰ (k, v) l) (walk-none f idx t e) m))
    | inr (i, j, e, le, lt, key, gap) ↦
        elim (Memᴰ.cases_cons (subst (λ l. Memᴰ (k, v) l) (walk-some f idx t j _ (i + 1) e) m)) [
          | inl eq ↦ (i, key ∙ ap (λ p. some p.0) (sym eq), ap (λ p. p.1) (sym eq))
          | inr rest ↦ walk-Stores f (i + 1) t k v (omega arith) rest
        ]
  ]

  same_entry :
      (nodes : ℕ → Node K V) (i a : ℕ) (k j : K)
      → i ≡ a
      → (nodes i).key ≡ some k
      → (nodes a).key ≡ some j
      → ◌≡◌ {A = K × V} (k, (nodes i).val) (j, (nodes a).val)
  same_entry nodes i a k j same key key' =
      let keys : k ≡ j = ground arith in
      let vals : (nodes i).val ≡ (nodes a).val = ap (λ n. (nodes n).val) same in
      rw (keys, vals) refl

  Stores-walk :
      (f idx : ℕ) (t : Table K V) (k : K) (i : ℕ)
      → idx ≤ i
      → i < t.size
      → t.size < idx + f
      → (t.nodes i).key ≡ some k
      → Memᴰ (k, (t.nodes i).val) (walk f idx t)
  unfolding walk
  Stores-walk zero idx t k i le lt l key = absurd (omega arith)
  Stores-walk (suc f) idx t k i le lt l key = elim (next-cases idx t (omega arith)) [
    | inl (e, gap) ↦ absurd (ground (arith, gap i))
    | inr (a, j, e, le', lt', key', gap) ↦
        rw (walk-some f idx t j _ (a + 1) e) (elim (Bool-cases (i == a)) [
          | inl s ↦ Memᴰ.head (same_entry t.nodes i a k j (ground arith) key key')
          | inr s ↦
              Memᴰ.tail (Stores-walk f (a + 1) t k i (ground (arith, gap i)) lt (omega arith) key)
        ])
  ]

module _ {K V : Type 0} (ops : KeyOps K) where
  -- A caller that starts at 0 and goes on where `Next` says comes to an end after as many keys as the
  -- count says, and has then seen every key that `Get` finds, with its value, and nothing else.
  pub walk-get :
      (t : Table K V)
      → IsValid ops t
      → (length (walk (suc t.size) 0 t) ≡ t.used_nodes)
        × ((k : K) (v : V) → Memᴰ (k, v) (walk (suc t.size) 0 t) ↔ (get ops k t ≡ some v))
  unfolding used
  walk-get t valid = (
    omega (arith, walk-length (suc t.size) 0 t (omega arith) (omega arith), valid.counted.counted),
    λ k v. (
      λ m. (get-Means ops t valid.chained k v).0 (walk-Stores (suc t.size) 0 t k v (omega arith) m),
      λ g.
          let (i, key, val) = (get-Means ops t valid.chained k v).1 g in
          subst (λ u. Memᴰ (k, u) (walk (suc t.size) 0 t)) val
            (Stores-walk (suc t.size) 0 t k i (omega arith) (valid.chained.bounded i k key)
              (omega arith) key),
    ),
  )
