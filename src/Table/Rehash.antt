-- ===== src/Table/Rehash.antt =====
-- `Rehash` of squirrel/sqtable.cpp: the keys and values of the old nodes are in the new ones.
use quirrel.Prelude.{
  ℕ, zero, suc, ◌+◌, ◌≤◌, ◌<◌, ◌≡◌, ◌≢◌, refl, ◌∙◌, inl, inr, Bool, false, ◌==◌, arith, Bool-cases,
}
use quirrel.Prelude.{Option, none, some, Option-cases}
use quirrel.Table.Nodes.{KeyOps, Node, Table, alloc_nodes, free_node, get}
use quirrel.Table.Slots.{rehash_size, reinsert, rehash, new_slot}
use quirrel.Table.Count.{used, used-le, used_mono}
use quirrel.Table.Valid.{Stores, IsPower, Means, IsValid, get-Means}
use quirrel.Table.Sizes.{rehash_size-lt, rehash_size-IsPower}
use quirrel.Table.Writes.{IsChained-IsOnce, IsOnce, Wrote}
use quirrel.Table.Insert.{IsDense, insert-IsDense}

pub used-alloc_nodes :
    (K : Type 0) {V : Type 0} (null : V) (n : ℕ) → used {K = K} {V = V} (λ _. free_node null) n ≡ 0
unfolding used
used-alloc_nodes K null zero = refl
used-alloc_nodes K null (suc n) = used-alloc_nodes K null n

pub empty-Means :
    (K : Type 0) {V : Type 0} (null : V) → Means {K = K} (λ _. free_node null) (λ j. none)
empty-Means K null j v = (λ (i, key, val). absurd (cc), λ e. absurd (cc))

module _ {K V : Type 0} (ops : KeyOps K) (null : V) (t : Table K V) where
  pub alloc_nodes-IsValid :
      (m : ℕ) → 0 < m → IsPower m → IsValid ops (record (alloc_nodes null m t) { used_nodes = 0 })
  alloc_nodes-IsValid m pos power = record {
    chained = record {
      rank = λ i. 0;
      falls = λ i j h. absurd (cc);
      shallow = λ i. omega arith;
      bounded = λ i k h. absurd (cc);
      inside = λ i j h. absurd (cc);
      one_previous = λ i j p h h'. absurd (cc);
      leads = λ i k h. absurd (cc);
      unique = λ i j k h h'. absurd (cc);
      heads = λ i j k l h h' e. absurd (cc);
    };
    counted = record { open_key = refl; open_next = refl; counted = used-alloc_nodes K null m };
    power = power;
  }

  alloc_nodes-IsDense : (m : ℕ) → IsDense (record (alloc_nodes null m t) { used_nodes = 0 })
  alloc_nodes-IsDense m = record { pointed = λ i h. refl; above = λ i a l. absurd (omega arith) }

module _ {K V : Type 0} (ops : KeyOps K) (null : V) (old : ℕ → Node K V) where
  -- A node below `n` holds key `j` with value `v`.
  abbrev StoresBelow : ℕ → K → V → Type 0
  StoresBelow n j v = (i : ℕ) × (i < n) × ((old i).key ≡ some j) × ((old i).val ≡ v)

  -- The keys of the first `n` old nodes are in the table `s`.
  record Holds (n m : ℕ) (s : Table K V) : Type 0 where
    pub valid : IsValid ops s
    pub dense : IsDense s
    pub counts : s.used_nodes ≡ used old n
    pub sized : s.size ≡ m
    pub into : (j : K) (v : V) → StoresBelow n j v → Stores s.nodes j v
    pub from : (j : K) (v : V) → Stores s.nodes j v → StoresBelow n j v

  module _ {size : ℕ} (once : IsOnce ops old size) {n m : ℕ} where
    -- A node without a key is passed over.
    skip-Holds : {s : Table K V} → Holds n m s → (old n).key ≡ none → Holds (suc n) m s
    unfolding used
    skip-Holds {s} h free = record {
      valid = h.valid;
      dense = h.dense;
      counts = rw free h.counts;
      sized = h.sized;
      into = λ j v (i, l, key, val). h.into j v (i, ground arith, key, val);
      from = λ j v st. let (i, l, key, val) = h.from j v st in (i, omega arith, key, val);
    }

    -- The key of a node is not in the table that the nodes before it have filled.
    unseen :
        {s : Table K V} (k : K)
        → Holds n m s
        → (old n).key ≡ some k
        → (i : ℕ) → (s.nodes i).key ≢ some k
    unseen {s} k h held i e =
        let (a, l, key, val) = h.from k (s.nodes i).val (i, e, refl) in
        ground (arith, once.unique a n k)

    add-Holds :
        {s s' : Table K V} (k : K)
        → Holds n m s
        → (old n).key ≡ some k
        → Wrote ops k (old n).val s s'
        → IsDense s'
        → s'.used_nodes ≡ s.used_nodes + 1
        → Holds (suc n) m s'
    unfolding used
    add-Holds {s} {s'} k h held w dense more = record {
      valid = w.valid;
      dense = dense;
      counts = rw held (omega (arith, h.counts));
      sized = w.same_size ∙ h.sized;
      into = λ j v (i, l, key, val).
          let read = get-Means ops s h.valid.chained in
          let written = w.means (λ a. get ops a s) read j v in
          elim (Bool-cases (i == n)) [
            | inl t ↦ written.1 (ground (arith, ops.same_iff k j))
            | inr t ↦
                let seen = (read j v).0 (h.into j v (i, ground arith, key, val)) in
                written.1 (ground (arith, ops.same_iff k j, once.unique i n k))
          ];
      from = λ j v st.
          let read = get-Means ops s h.valid.chained in
          let written = (w.means (λ a. get ops a s) read j v).0 st in
          elim (Bool-cases (ops.same k j)) [
            | inl t ↦ (n, omega arith, ground (arith, ops.same_iff k j), ground arith)
            | inr t ↦
                let (i, l, key, val) = h.from j v ((read j v).1 (ground arith)) in
                (i, omega arith, key, val)
          ];
    }

  -- All keys of the old nodes fit in the new ones, by insertions that need no more room.
  module _ {size : ℕ} (once : IsOnce ops old size) (t : Table K V) (m f : ℕ)
      (fits : used old size < m) (power : IsPower m) where
    reinsert-Holds :
        (n : ℕ)
        → n ≤ size
        → (s : Table K V) × (reinsert ops null
              (new_slot ops null (suc f))
              old
              n
              (record (alloc_nodes null m t) { used_nodes = 0 })
            ≡ some s)
          × Holds n m s
    unfolding reinsert used new_slot
    reinsert-Holds zero l = (
      _,
      refl,
      record {
        valid = alloc_nodes-IsValid ops null t m (omega arith) power;
        dense = alloc_nodes-IsDense ops null t m;
        counts = refl;
        sized = refl;
        into = λ j v (i, l, key, val). absurd (omega arith);
        from = λ j v (i, key, val). absurd (cc);
      },
    )
    reinsert-Holds (suc n) l =
        let (s, run, h) = reinsert-Holds n (omega arith) in
        elim (Option-cases (old n).key) [
          | inl free ↦ (s, rw (run, free) refl, skip-Holds once h free)
          | inr (k, held) ↦
              let more = used_mono old (suc n) size l in
              let room : used old (suc n) ≡ suc (used old n) = rw held refl in
              let (s', placed, w, dense, counted) =
                insert-IsDense ops null k (old n).val s h.valid h.dense (unseen once k h held)
                  (omega (arith, h.counts, h.sized, more, room)) in
              (s', rw (run, held, placed) refl, add-Holds once k h held w dense counted)
        ]

module _ {K V : Type 0} (ops : KeyOps K) (null : V) (t : Table K V)
    (once : IsOnce ops t.nodes t.size) (positive : 0 < t.size)
    (counted : used t.nodes t.size ≤ t.used_nodes + 1) (power : IsPower t.size) where
  -- Where `Rehash` takes other nodes they are a valid table that stands for the same map.
  pub rehash-Means :
      (fuel : ℕ) (force : Bool) (m : ℕ)
      → rehash_size force t.size t.used_nodes ≡ some m
      → (s : Table K V) × (rehash ops null (new_slot ops null (suc fuel)) force t ≡ some s)
        × IsValid ops s
        × ((f : K → Option V) → Means t.nodes f → Means s.nodes f)
  unfolding rehash
  rehash-Means fuel force m e =
      let fits =
        rehash_size-lt force t.size t.used_nodes m (used t.nodes t.size) e (used-le t.nodes t.size)
          counted positive in
      let (s, run, h) =
        reinsert-Holds ops null t.nodes once t m fuel fits
          (rehash_size-IsPower force t.size t.used_nodes m e power) t.size (omega arith) in
      (
        s,
        rw (rehash, e) run,
        h.valid,
        λ f means j v. (
          λ st. let (i, l, key, val) = h.from j v st in (means j v).0 (i, key, val),
          λ r.
              let (i, key, val) = (means j v).1 r in h.into j v (i, once.bounded i j key, key, val),
        ),
      )

module _ {K V : Type 0} (ops : KeyOps K) (null : V) (t : Table K V) (valid : IsValid ops t) where
  -- `Rehash(false)` returns on every valid table, whether it keeps the nodes or takes others: the table
  -- is valid again and stands for the same map.
  pub rehash-IsValid :
      (fuel : ℕ)
      → (s : Table K V) × (rehash ops null (new_slot ops null (suc fuel)) false t ≡ some s)
        × IsValid ops s
        × ((f : K → Option V) → Means t.nodes f → Means s.nodes f)
  unfolding rehash
  rehash-IsValid fuel = elim (Option-cases (rehash_size false t.size t.used_nodes)) [
    | inl e ↦ (t, rw (rehash, e) refl, valid, λ f means. means)
    | inr (m, e) ↦
        rehash-Means ops null t (IsChained-IsOnce ops valid.chained)
          (omega (arith, valid.chained.shallow 0)) (omega (arith, valid.counted.counted))
          valid.power fuel false m e
  ]
