-- ===== src/Table/Placing.antt =====
-- The chains of an SQTable after `NewSlot` of squirrel/sqtable.cpp has placed a key: one lemma for each
-- of the three places. The nodes behind the placing are given by their keys and pointers.
use quirrel.Prelude.{
  ℕ, ◌+◌, ◌≤◌, ◌<◌, ◌≡◌, ◌≢◌, sym, ◌∙◌, inl, inr, ◌==◌, ltb, if◌then◌else◌, arith, Bool-cases,
}
use quirrel.Prelude.{none, some}
use quirrel.Table.Nodes.{KeyOps, Node, slot_of}
use quirrel.Table.Chains.{
  Leads, here, onward, IsChained, Leads-mono, Leads-map, Leads-self, Leads-next,
}

module _ {K V : Type 0} (ops : KeyOps K) (nodes nodes' : ℕ → Node K V) (size ff g : ℕ) (k : K)
    (c : IsChained ops nodes size ff) (absent : (i : ℕ) → (nodes i).key ≢ some k)
    (spot : slot_of ops k size < size) where
  -- The main position is free.
  module _ (free : (nodes (slot_of ops k size)).key ≡ none) (low : g ≤ ff)
      (keys : (i : ℕ)
        → (nodes' i).key ≡ (if i == slot_of ops k size then some k else (nodes i).key))
      (nexts : (i : ℕ) → (nodes' i).next ≡ (nodes i).next) where
    pub direct-IsChained : IsChained ops nodes' size g
    direct-IsChained = record {
      rank = c.rank;
      falls = λ i j h. c.falls i j (sym (nexts i) ∙ h);
      shallow = λ i. omega (arith, c.shallow i);
      bounded = λ i l h. ground (arith, keys i, c.bounded i l);
      inside = λ i j h. ground (arith, nexts i, c.inside i j);
      one_previous = λ i j p h h'. c.one_previous i j p (sym (nexts i) ∙ h) (sym (nexts j) ∙ h');
      leads = λ i l h. elim (Bool-cases (i == slot_of ops k size)) [
        | inl t ↦ Leads-self (ground (arith, keys i))
        | inr t ↦ Leads-mono (λ a b e. nexts a ∙ e) (c.leads i l (ground (arith, keys i)))
      ];
      unique = λ i j l h h'. ground (arith, keys i, keys j, c.unique i j l, absent i, absent j);
      heads = λ i j l m h h' e. ground (arith, keys i, keys j, c.heads i j l m);
    }

  module _ (open_key : (nodes ff).key ≡ none) (open_next : (nodes ff).next ≡ none)
      (low : g < ff) where
    -- No key has the free node as its main position.
    slot_of-ne-free : (j : ℕ) (l : K) → (nodes j).key ≡ some l → slot_of ops l size ≢ ff
    slot_of-ne-free j l h e = elim (Bool-cases (j == ff)) [
      | inl t ↦ ground arith
      | inr t ↦ let (b, next_b) = Leads-next (c.leads j l h) (ground arith) in ground arith
    ]

    -- The main position holds a key that belongs there.
    module _ (o : K) (held : (nodes (slot_of ops k size)).key ≡ some o)
        (home : slot_of ops o size ≡ slot_of ops k size)
        (keys : (i : ℕ) → (nodes' i).key ≡ (if i == ff then some k else (nodes i).key))
        (nexts : (i : ℕ)
          → (nodes' i).next ≡ (
              if i == slot_of ops k size
              then some ff
              else if i == ff
              then (nodes (slot_of ops k size)).next
              else (nodes i).next)) where
      abbrev chain_rank : ℕ → ℕ
      chain_rank x =
          if x == ff
          then c.rank (slot_of ops k size)
          else if ltb (c.rank x) (c.rank (slot_of ops k size))
          then c.rank x
          else c.rank x + 1

      chain-Leads : {p a : ℕ} → Leads nodes p a → Leads nodes' p a
      chain-Leads here = here
      chain-Leads (onward {i = a} {j = b} e way) = elim (Bool-cases (a == slot_of ops k size)) [
        | inl t ↦
            onward {j = ff} (ground (arith, nexts a))
              (onward {j = b} (ground (arith, nexts ff)) (chain-Leads way))
        | inr t ↦ onward {j = b} (ground (arith, nexts a)) (chain-Leads way)
      ]

      pub chain-IsChained : IsChained ops nodes' size g
      chain-IsChained = record {
        rank = chain_rank;
        falls = λ i j h. ground (
          arith,
          nexts i,
          c.falls i j,
          c.falls (slot_of ops k size) j,
          c.inside i j,
          c.inside (slot_of ops k size) j,
        );
        shallow = λ i. ground (arith, c.shallow i, c.shallow (slot_of ops k size));
        bounded = λ i l h. ground (arith, keys i, c.bounded i l, c.shallow ff);
        inside = λ i j h.
            ground (arith, nexts i, c.inside i j, c.inside (slot_of ops k size) j, c.shallow ff);
        one_previous = λ i j p h h'. ground (
          arith,
          nexts i,
          nexts j,
          c.inside i p,
          c.inside j p,
          c.inside (slot_of ops k size) p,
          c.one_previous i j p,
          c.one_previous i (slot_of ops k size) p,
          c.one_previous (slot_of ops k size) j p,
        );
        leads = λ i l h. elim (Bool-cases (i == ff)) [
          | inl t ↦
              onward {j = ff} (ground (arith, keys i, nexts (slot_of ops l size)))
                (Leads-self (ground arith))
          | inr t ↦ chain-Leads (c.leads i l (ground (arith, keys i)))
        ];
        unique = λ i j l h h'. ground (arith, keys i, keys j, c.unique i j l, absent i, absent j);
        heads =
            λ i j l m h h' e. ground (arith, keys i, keys j, c.heads i j l m, slot_of-ne-free j m);
      }

    -- The main position holds a key that belongs elsewhere.
    module _ (o : K) (q : ℕ) (held : (nodes (slot_of ops k size)).key ≡ some o)
        (away : slot_of ops o size ≢ slot_of ops k size)
        (previous : (nodes q).next ≡ some (slot_of ops k size))
        (keys : (i : ℕ)
          → (nodes' i).key ≡ (
              if i == slot_of ops k size
              then some k
              else if i == ff
              then some o
              else (nodes i).key))
        (nexts : (i : ℕ)
          → (nodes' i).next ≡ (
              if i == slot_of ops k size
              then none
              else if i == ff
              then (nodes (slot_of ops k size)).next
              else if i == q
              then some ff
              else (nodes i).next)) where
      abbrev move_rank : ℕ → ℕ
      move_rank x = if x == ff then c.rank (slot_of ops k size) else c.rank x

      abbrev moved : ℕ → ℕ
      moved x = if x == slot_of ops k size then ff else x

      moved-next : (i j : ℕ) → (nodes i).next ≡ some j → (nodes' (moved i)).next ≡ some (moved j)
      moved-next i j h =
          ground
            (arith, nexts i, nexts ff, c.inside i j, c.falls i j, c.falls q i, c.one_previous i q j)

      moved-Leads : (p' p i : ℕ) → moved p ≡ p' → moved i ≡ i → Leads nodes p i → Leads nodes' p' i
      moved-Leads p' p i hp hi way =
          ground (arith, Leads-map {nodes' = nodes'} moved moved-next way)

      pub move-IsChained : IsChained ops nodes' size g
      move-IsChained = record {
        rank = move_rank;
        falls = λ i j h. ground (
          arith,
          nexts i,
          c.falls i j,
          c.falls (slot_of ops k size) j,
          c.falls q (slot_of ops k size),
          c.inside i j,
          c.inside (slot_of ops k size) j,
        );
        shallow = λ i. ground (arith, c.shallow i, c.shallow (slot_of ops k size));
        bounded = λ i l h. ground (arith, keys i, c.bounded i l, c.shallow ff);
        inside = λ i j h. ground (
          arith,
          nexts i,
          c.inside i j,
          c.inside (slot_of ops k size) j,
          c.inside q (slot_of ops k size),
          c.shallow ff,
        );
        one_previous = λ i j p h h'. ground (
          arith,
          nexts i,
          nexts j,
          c.inside i p,
          c.inside j p,
          c.inside (slot_of ops k size) p,
          c.one_previous i j p,
          c.one_previous i (slot_of ops k size) p,
          c.one_previous (slot_of ops k size) j p,
        );
        leads = λ i l h. elim (Bool-cases (i == slot_of ops k size)) [
          | inl t ↦ Leads-self (ground (arith, keys i))
          | inr t ↦ elim (Bool-cases (i == ff)) [
            | inl f ↦
                moved-Leads i (slot_of ops k size) (slot_of ops l size) (ground arith)
                  (ground (arith, keys i)) (c.leads (slot_of ops k size) l (ground (arith, keys i)))
            | inr f ↦
                moved-Leads i i (slot_of ops l size) (ground arith)
                  (ground (arith, keys i, c.heads (slot_of ops k size) i o l))
                  (c.leads i l (ground (arith, keys i)))
          ]
        ];
        unique = λ i j l h h'. ground (
          arith,
          keys i,
          keys j,
          c.unique i j l,
          c.unique i (slot_of ops k size) l,
          c.unique (slot_of ops k size) j l,
          absent i,
          absent j,
        );
        heads = λ i j l m h h' e. ground (
          arith,
          keys i,
          keys j,
          c.heads i j l m,
          c.heads i (slot_of ops k size) l m,
          slot_of-ne-free j m,
          slot_of-ne-free (slot_of ops k size) m,
        );
      }
