-- ===== src/Table/Valid.antt =====
-- What an SQTable of squirrel/sqtable.h stores, and the tables that its operations make.
use quirrel.Prelude.{ℕ, ◌^◌, ◌≡◌, ◌≢◌, refl, sym, ap, ◌∙◌, ◌↔◌, ◌⊎◌, inl, inr, arith}
use quirrel.Prelude.{Option, none, some}
use quirrel.Table.Nodes.{
  KeyOps, Node, Table, slot_of, get, get_node, Search, found, missing, exhausted,
}
use quirrel.Table.Chains.{
  IsChained, Leads-mono, get_from-Leads, get_from-found, get_from-ne-exhausted,
}
use quirrel.Table.Count.{used}

abbrev pub IsPower : ℕ → Type 0
IsPower n = (d : ℕ) × (n ≡ 2 ^ d)

-- Two optional values with the same content.
pub Option-ext : {V : Type 0} (a b : Option V) → ((v : V) → (a ≡ some v) ↔ (b ≡ some v)) → a ≡ b
Option-ext none none h = refl
Option-ext none (some y) h = (h y).1 refl
Option-ext (some x) b h = sym ((h x).0 refl)

Search-cases : (s : Search) → ((i : ℕ) × (s ≡ found i)) ⊎ ((s ≡ missing) ⊎ (s ≡ exhausted))
Search-cases (found i) = inl (i, refl)
Search-cases missing = inr (inl refl)
Search-cases exhausted = inr (inr refl)

module _ {K V : Type 0} where
  -- Some node holds key `j` with value `v`.
  abbrev pub Stores : (ℕ → Node K V) → K → V → Type 0
  Stores nodes j v = (i : ℕ) × ((nodes i).key ≡ some j) × ((nodes i).val ≡ v)

  -- The nodes stand for the map `f`.
  abbrev pub Means : (ℕ → Node K V) → (K → Option V) → Type 0
  Means nodes f = (j : K) (v : V) → Stores nodes j v ↔ (f j ≡ some v)

  -- Between two operations, but for what the chains are.
  pub record IsCounted (t : Table K V) : Type 0 where
    pub open_key : (t.nodes t.first_free).key ≡ none
    pub open_next : (t.nodes t.first_free).next ≡ none
    pub counted : used t.nodes t.size ≡ t.used_nodes

module _ {K V : Type 0} (ops : KeyOps K) where
  -- What holds of a table between two operations.
  pub record IsValid (t : Table K V) : Type 0 where
    pub chained : IsChained ops t.nodes t.size t.first_free
    pub counted : IsCounted t
    pub power : IsPower t.size

  -- The chains stay where nodes only lose keys.
  pub IsChained-fewer :
      {nodes nodes' : ℕ → Node K V} {size ff : ℕ}
      → IsChained ops nodes size ff
      → ((i : ℕ) (l : K) → (nodes' i).key ≡ some l → (nodes i).key ≡ some l)
      → ((i : ℕ) → (nodes' i).next ≡ (nodes i).next)
      → IsChained ops nodes' size ff
  IsChained-fewer c keys nexts = record {
    rank = c.rank;
    falls = λ i j h. c.falls i j (sym (nexts i) ∙ h);
    shallow = c.shallow;
    bounded = λ i l h. c.bounded i l (keys i l h);
    inside = λ i j h. c.inside i j (sym (nexts i) ∙ h);
    one_previous = λ i j p h h'. c.one_previous i j p (sym (nexts i) ∙ h) (sym (nexts j) ∙ h');
    leads = λ i l h. Leads-mono (λ a b e. nexts a ∙ e) (c.leads i l (keys i l h));
    unique = λ i j l h h'. c.unique i j l (keys i l h) (keys j l h');
    heads = λ i j l m h h'. c.heads i j l m (keys i l h) (keys j m h');
  }

  module _ (t : Table K V) (c : IsChained ops t.nodes t.size t.first_free) (k : K) where
    pub get_node-key : (i : ℕ) → (t.nodes i).key ≡ some k → get_node ops k t ≡ found i
    get_node-key i h =
        get_from-Leads ops t.nodes c.rank c.falls t.size k (slot_of ops k t.size) i
          (λ j e. c.unique j i k e h) h (c.leads i k h)
          (omega (arith, c.shallow (slot_of ops k t.size)))

    -- A search in a chained table ends: at a node that holds the key, or at the end of a chain, and
    -- then no node holds the key.
    pub get_node-cases :
        ((i : ℕ) × (get_node ops k t ≡ found i) × ((t.nodes i).key ≡ some k))
        ⊎ ((get_node ops k t ≡ missing) × ((i : ℕ) → (t.nodes i).key ≢ some k))
    get_node-cases = elim (Search-cases (get_node ops k t)) [
      | inl (i, e) ↦ inl (i, e, get_from-found ops t.size k t.nodes (slot_of ops k t.size) i e)
      | inr (inl e) ↦ inr (e, λ i h. absurd (ground (arith, get_node-key i)))
      | inr (inr e) ↦ absurd (
          get_from-ne-exhausted ops t.nodes c.rank c.falls t.size k (slot_of ops k t.size)
            (omega (arith, c.shallow (slot_of ops k t.size))) e)
    ]

  module _ (t : Table K V) (c : IsChained ops t.nodes t.size t.first_free) where
    -- `get` reads the map that the nodes stand for.
    pub get-Means : Means t.nodes (λ j. get ops j t)
    unfolding get
    get-Means j v = (
      λ (i, h, e). rw (get, get_node-key t c j i h) (ap some e),
      elim (get_node-cases t c j) [
        | inl (i, e, h) ↦ λ g. (i, h, ground arith)
        | inr (e, h) ↦ λ g. absurd (ground arith)
      ],
    )

    pub get-eq : (f : K → Option V) → Means t.nodes f → (j : K) → get ops j t ≡ f j
    get-eq f m j =
        Option-ext (get ops j t) (f j)
          (λ v. (λ g. (m j v).0 ((get-Means j v).1 g), λ e. (get-Means j v).0 ((m j v).1 e)))
