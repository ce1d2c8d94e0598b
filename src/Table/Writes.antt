-- ===== src/Table/Writes.antt =====
-- What a write does to an SQTable (squirrel/sqtable.cpp), to the map it stands for, and to the node of a
-- key that is there.
use quirrel.Prelude.{
  ℕ, suc, ◌<◌, ◌≡◌, ◌≢◌, refl, ◌∙◌, inl, inr, ◌==◌, if◌then◌else◌, arith, Bool-cases,
}
use quirrel.Prelude.{Option, some}
use quirrel.Table.Nodes.{KeyOps, Node, Table, Placed, put}
use quirrel.Table.Chains.{IsChained}
use quirrel.Table.Count.{used, used-congr}
use quirrel.Table.Valid.{Means, IsValid, IsChained-fewer}
use quirrel.Table.Places.{keyed, Places}

module _ {K : Type 0} (ops : KeyOps K) where
  -- The map `f` but for `k`.
  abbrev pub update : {V : Type 0} → (K → Option V) → K → Option V → K → Option V
  update f k o j = if ops.same k j then o else f j

module _ {K V : Type 0} (ops : KeyOps K) where
  -- No key is at two nodes.
  pub record IsOnce (nodes : ℕ → Node K V) (size : ℕ) : Type 0 where
    pub bounded : (i : ℕ) (k : K) → (nodes i).key ≡ some k → i < size
    pub unique : (i j : ℕ) (k : K) → (nodes i).key ≡ some k → (nodes j).key ≡ some k → i ≡ j

  pub IsChained-IsOnce :
      {nodes : ℕ → Node K V} {size ff : ℕ} → IsChained ops nodes size ff → IsOnce nodes size
  IsChained-IsOnce c = record { bounded = c.bounded; unique = c.unique }

  -- `k` is written with value `v`.
  pub record Wrote (k : K) (v : V) (t t' : Table K V) : Type 0 where
    pub valid : IsValid ops t'
    pub means : (f : K → Option V) → Means t.nodes f → Means t'.nodes (update ops f k (some v))
    pub same_size : t'.size ≡ t.size

  -- `k` is in the last node that was free, and no value yet written.
  pub record Filled (k : K) (t t' : Table K V) : Type 0 where
    pub once : IsOnce t'.nodes t'.size
    pub value : V
    pub means : (f : K → Option V) → Means t.nodes f → Means t'.nodes (update ops f k (some value))
    pub same_size : t'.size ≡ t.size
    pub same_count : t'.used_nodes ≡ t.used_nodes
    pub more : used t'.nodes t'.size ≡ suc t.used_nodes

  module _ (k : K) (t : Table K V) (absent : (i : ℕ) → (t.nodes i).key ≢ some k) (p : Placed K V)
      (w : Places ops t k p) (nodes' : ℕ → Node K V)
      (keys : (i : ℕ) → (nodes' i).key ≡ (keyed k p i).key) where
    pub placed-Means :
        (v : V)
        → (nodes' p.spot).val ≡ v
        → ((i : ℕ) → i ≢ p.spot → (nodes' i).val ≡ (keyed k p i).val)
        → (f : K → Option V) → Means t.nodes f
        → Means nodes' (update ops f k (some v))
    placed-Means v new vals f m j u = (
      λ (i, h, e). elim (Bool-cases (i == p.spot)) [
        | inl s ↦ ground (arith, keys i, w.keys i, ops.same_iff k j)
        | inr s ↦ ground (
          arith,
          keys i,
          w.keys i,
          vals i,
          w.vals i,
          ops.same_iff k j,
          (m j u).0
              (w.origin i, ground (arith, keys i, w.keys i), ground (arith, vals i, w.vals i)),
          absent (w.origin i),
        )
      ],
      λ h. elim (Bool-cases (ops.same k j)) [
        | inl s ↦
            (p.spot, ground (arith, keys p.spot, w.keys p.spot, ops.same_iff k j), ground arith)
        | inr s ↦
            let (i, key, val) = (m j u).1 (ground arith) in
            let (a, ne, back) = w.onto i j key in
            (a, ground (arith, keys a, w.keys a), ground (arith, vals a, w.vals a))
      ],
    )

    pub placed-IsOnce : IsOnce t.nodes t.size → IsOnce nodes' t.size
    placed-IsOnce once = record {
      bounded = λ i l h.
          ground (arith, keys i, w.keys i, w.spot_lt, once.bounded (w.origin i) l, w.within i);
      unique = λ i j l h h'. ground (
        arith,
        keys i,
        keys j,
        w.keys i,
        w.keys j,
        once.unique (w.origin i) (w.origin j) l,
        w.apart i j,
        absent (w.origin i),
        absent (w.origin j),
      );
    }

-- The key found: its value is written.
module _ {K V : Type 0} (ops : KeyOps K) (k : K) (v : V) (t : Table K V) (valid : IsValid ops t)
    (a : ℕ) (held : (t.nodes a).key ≡ some k) where
  abbrev pub overwritten : Table K V
  overwritten = record t { nodes = put t.nodes a (record (t.nodes a) { val = v }) }

  pub overwritten-Wrote : Wrote ops k v t overwritten
  overwritten-Wrote = record {
    valid = record {
      chained = IsChained-fewer ops valid.chained (λ i l h. ground arith) (λ i. ground arith);
      counted = record {
        open_key = ground (arith, valid.counted.open_key);
        open_next = ground (arith, valid.counted.open_next);
        counted = used-congr t.nodes _ t.size (λ i l. ground arith) ∙ valid.counted.counted;
      };
      power = valid.power;
    };
    means = λ f m j u. (
      λ (i, h, e). elim (Bool-cases (i == a)) [
        | inl s ↦ ground (arith, ops.same_iff k j)
        | inr s ↦ ground (
          arith,
          ops.same_iff k j,
          valid.chained.unique i a k,
          (m j u).0 (i, ground arith, ground arith),
        )
      ],
      λ h. elim (Bool-cases (ops.same k j)) [
        | inl s ↦ (a, ground (arith, ops.same_iff k j), ground arith)
        | inr s ↦
            let (i, key, val) = (m j u).1 (ground arith) in
            (i, ground arith, ground (arith, ops.same_iff k j))
      ],
    );
    same_size = refl;
  }
