-- ===== src/Table/Chains.antt =====
-- The chains of an SQTable: what holds of the nodes between two operations, and searching them.
use quirrel.Prelude.{
  ℕ, zero, suc, ◌+◌, ◌<◌, ◌≡◌, ◌≢◌, refl, ap, subst, inl, inr, true, ◌==◌, arith, Bool-cases,
}
use quirrel.Prelude.{Option, none, some, Option-cases}
use quirrel.Table.Nodes.{KeyOps, Node, found, exhausted, get_from, previous_of, slot_of, holds_key}

-- The chain from a node leads to node `p`.
pub data Leads {K V : Type 0} (nodes : ℕ → Node K V) (p : ℕ) : ℕ → Type 0 where
  here : Leads nodes p p
  onward : {i j : ℕ} → (nodes i).next ≡ some j → Leads nodes p j → Leads nodes p i

-- The chains of `size` nodes with the free pointer at `ff`: they fall by a rank, which the nodes below
-- the free pointer bound; no two meet; they stand above the free pointer; every key is on the chain
-- of its main position, and nowhere else; and a node that is some key's main position holds no key of
-- another.
pub record IsChained {K V : Type 0} (ops : KeyOps K) (nodes : ℕ → Node K V) (size ff : ℕ)
    : Type 0 where
  pub rank : ℕ → ℕ
  pub falls : (i j : ℕ) → (nodes i).next ≡ some j → rank j < rank i
  pub shallow : (i : ℕ) → rank i + ff < size
  pub bounded : (i : ℕ) (k : K) → (nodes i).key ≡ some k → i < size
  pub inside : (i j : ℕ) → (nodes i).next ≡ some j → (i < size) × (ff < j) × (j < size)
  pub one_previous : (i j p : ℕ) → (nodes i).next ≡ some p → (nodes j).next ≡ some p → i ≡ j
  pub leads : (i : ℕ) (k : K) → (nodes i).key ≡ some k → Leads nodes i (slot_of ops k size)
  pub unique : (i j : ℕ) (k : K) → (nodes i).key ≡ some k → (nodes j).key ≡ some k → i ≡ j
  pub heads :
      (i j : ℕ) (k l : K)
      → (nodes i).key ≡ some k
      → (nodes j).key ≡ some l
      → slot_of ops l size ≡ i
      → slot_of ops k size ≡ i

module _ {K : Type 0} (ops : KeyOps K) where
  pub holds_key-eq : (k : K) (o : Option K) → holds_key ops k o ≡ true → o ≡ some k
  holds_key-eq k none h = absurd (cc)
  holds_key-eq k (some j) h = ap some ((ops.same_iff j k).0 h)

  pub holds_key_self : (k : K) → holds_key ops k (some k) ≡ true
  holds_key_self k = (ops.same_iff k k).1 refl

module _ {K V : Type 0} (ops : KeyOps K) where
  -- A search that finds a node found the key there.
  pub get_from-found :
      (f : ℕ) (k : K) (nodes : ℕ → Node K V) (i p : ℕ)
      → get_from ops f k nodes i ≡ found p
      → (nodes p).key ≡ some k
  unfolding get_from
  get_from-found zero k nodes i p h = absurd (cc)
  get_from-found (suc f) k nodes i p h = elim (Option-cases (nodes i).next) [
    | inl e ↦ ground (arith, holds_key-eq ops k (nodes i).key)
    | inr (j, e) ↦ ground (arith, holds_key-eq ops k (nodes i).key, get_from-found f k nodes j p)
  ]

  module _ (nodes : ℕ → Node K V) (rank : ℕ → ℕ)
      (falls : (i j : ℕ) → (nodes i).next ≡ some j → rank j < rank i) where
    -- With more fuel than the rank a search reaches the chain's end.
    pub get_from-ne-exhausted :
        (f : ℕ) (k : K) (i : ℕ) → rank i < f → get_from ops f k nodes i ≢ exhausted
    unfolding get_from
    get_from-ne-exhausted zero k i h = absurd (omega arith)
    get_from-ne-exhausted (suc f) k i h = elim (Option-cases (nodes i).next) [
      | inl e ↦ ground arith
      | inr (j, e) ↦ ground (arith, falls i j e, get_from-ne-exhausted f k j)
    ]

    -- A key on the chain is found.
    pub get_from-Leads :
        (f : ℕ) (k : K) (i p : ℕ)
        → ((j : ℕ) → (nodes j).key ≡ some k → j ≡ p)
        → (nodes p).key ≡ some k
        → Leads nodes p i
        → rank i < f
        → get_from ops f k nodes i ≡ found p
    unfolding get_from
    get_from-Leads zero k i p only key way h = absurd (omega arith)
    get_from-Leads (suc f) k i p only key here h = rw key (rw (holds_key_self ops k) refl)
    get_from-Leads (suc f) k i p only key (onward {j} e way) h =
        elim (Bool-cases (holds_key ops k (nodes i).key)) [
          | inl t ↦ rw t (ap found (only i (holds_key-eq ops k (nodes i).key t)))
          | inr t ↦ rw (t, e) (get_from-Leads f k j p only key way (omega (arith, falls i j e)))
        ]

-- The walk to the node before another.
module _ {K V : Type 0} (nodes : ℕ → Node K V) (rank : ℕ → ℕ)
    (falls : (i j : ℕ) → (nodes i).next ≡ some j → rank j < rank i) where
  pub previous_of-Leads :
      (f mp i : ℕ)
      → Leads nodes mp i
      → i ≢ mp
      → rank i < f
      → (q : ℕ) × (previous_of f nodes mp i ≡ found q) × ((nodes q).next ≡ some mp)
  unfolding previous_of
  previous_of-Leads zero mp i way ne h = absurd (omega arith)
  previous_of-Leads (suc f) mp i here ne h = absurd (ne refl)
  previous_of-Leads (suc f) mp i (onward {j} e way) ne h = elim (Bool-cases (j == mp)) [
    | inl t ↦ (i, ground arith, ground arith)
    | inr t ↦
        let (q, found_q, next_q) =
          previous_of-Leads f mp j way (ground arith) (omega (arith, falls i j e)) in
        (q, ground arith, next_q)
  ]

module _ {K V : Type 0} where
  -- A chain is kept where its pointers are.
  pub Leads-mono :
      {nodes nodes' : ℕ → Node K V} {p i : ℕ}
      → ((i j : ℕ) → (nodes i).next ≡ some j → (nodes' i).next ≡ some j)
      → Leads nodes p i
      → Leads nodes' p i
  Leads-mono keep here = here
  Leads-mono keep (onward {i} {j} e way) = onward (keep i j e) (Leads-mono keep way)

  -- A chain is kept where every pointer is, of nodes that may have moved.
  pub Leads-map :
      {nodes nodes' : ℕ → Node K V} {p i : ℕ} (to : ℕ → ℕ)
      → ((i j : ℕ) → (nodes i).next ≡ some j → (nodes' (to i)).next ≡ some (to j))
      → Leads nodes p i
      → Leads nodes' (to p) (to i)
  Leads-map to keep here = here
  Leads-map to keep (onward {i} {j} e way) = onward (keep i j e) (Leads-map to keep way)

  pub Leads-self : {nodes : ℕ → Node K V} {p i : ℕ} → i ≡ p → Leads nodes p i
  Leads-self {nodes} {i} e = subst (λ p. Leads nodes p i) e here

  -- A chain to another node starts with a pointer.
  pub Leads-next :
      {nodes : ℕ → Node K V} {p i : ℕ}
      → Leads nodes p i
      → i ≢ p
      → (j : ℕ) × ((nodes i).next ≡ some j)
  Leads-next here ne = absurd (ne refl)
  Leads-next (onward {j} e way) ne = (j, e)

  -- A chain to another node ends with a pointer.
  pub Leads-previous :
      {nodes : ℕ → Node K V} {p i : ℕ}
      → Leads nodes p i
      → i ≢ p
      → (j : ℕ) × ((nodes j).next ≡ some p)
  Leads-previous here ne = absurd (ne refl)
  Leads-previous {p} (onward {i} {j} e way) ne = elim (Bool-cases (j == p)) [
    | inl t ↦ (i, ground arith)
    | inr t ↦ Leads-previous way (ground arith)
  ]
