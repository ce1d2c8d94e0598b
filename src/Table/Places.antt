-- ===== src/Table/Places.antt =====
-- What `NewSlot` of squirrel/sqtable.cpp makes of the nodes when it places a key that is not there.
use quirrel.Prelude.{
  ℕ, suc, ◌-◌, ◌≤◌, ◌<◌, ◌≡◌, ◌≢◌, refl, ap, ◌∙◌, inl, inr, true, false, ◌&&◌, not, ltb, ◌==◌,
  if◌then◌else◌, arith, Bool-cases,
}
use quirrel.Prelude.{none, some, Option-cases}
use quirrel.Prelude.Bits.{bit_and-le}
use quirrel.Table.Nodes.{
  KeyOps, Node, Table, Placed, slot_of, place, put, chain_new, move_collider, is_none, previous_of,
  found,
}
use quirrel.Table.Chains.{IsChained, Leads-previous, previous_of-Leads}
use quirrel.Table.Count.{used, used_more}
use quirrel.Table.Valid.{IsValid}
use quirrel.Table.Placing.{direct-IsChained, chain-IsChained, move-IsChained}

module _ {K V : Type 0} where
  -- The nodes with the key written at its place.
  abbrev pub keyed : K → Placed K V → ℕ → Node K V
  keyed k p = put p.after p.spot (record (p.after p.spot) { key = some k })

  -- `k` is placed: the nodes but that of `k` hold the keys and values of `nodes`, at `origin`; one more
  -- node holds a key; none loses its key; and a node that got a pointer has a key.
  pub record Places (ops : KeyOps K) (t : Table K V) (k : K) (p : Placed K V) : Type 0 where
    pub origin : ℕ → ℕ
    pub spot_lt : p.spot < t.size
    pub keys :
        (i : ℕ) → (keyed k p i).key ≡ (if i == p.spot then some k else (t.nodes (origin i)).key)
    pub vals : (i : ℕ) → i ≢ p.spot → (keyed k p i).val ≡ (t.nodes (origin i)).val
    pub apart : (i j : ℕ) → i ≢ p.spot → j ≢ p.spot → origin i ≡ origin j → i ≡ j
    pub within : (i : ℕ) → i ≢ p.spot → origin i < t.size → i < t.size
    pub onto : (i : ℕ) (l : K) → (t.nodes i).key ≡ some l → (j : ℕ) × (j ≢ p.spot) × (origin j ≡ i)
    pub more : used (keyed k p) t.size ≡ suc (used t.nodes t.size)
    pub chained :
        (g : ℕ) → g ≤ t.first_free → (keyed k p g).key ≡ none → IsChained ops (keyed k p) t.size g
    pub kept : (i : ℕ) → is_none (t.nodes i).key ≡ false → is_none (keyed k p i).key ≡ false
    pub pointed :
        ((i : ℕ) → (t.nodes i).key ≡ none → (t.nodes i).next ≡ none)
        → (i : ℕ) → (keyed k p i).key ≡ none
        → (keyed k p i).next ≡ none

-- The nodes behind the move of a colliding node.
module _ {K V : Type 0} (ops : KeyOps K) (null : V) (k : K) (nodes : ℕ → Node K V) (mp n q : ℕ)
    (other : n ≢ mp) (before : q ≢ mp) (i : ℕ) where
  move_collider-key :
      (keyed k (move_collider ops null nodes mp n q) i).key
      ≡ (if i == mp then some k else if i == n then (nodes mp).key else (nodes i).key)
  move_collider-key = ground arith

  move_collider-val :
      i ≢ mp
      → (keyed k (move_collider ops null nodes mp n q) i).val
        ≡ (if i == n then (nodes mp).val else (nodes i).val)
  move_collider-val h = ground arith

  move_collider-next : (keyed k (move_collider ops null nodes mp n q) i).next ≡ (
      if i == mp
      then none
      else if i == n
      then (nodes mp).next
      else if i == q
      then some n
      else (nodes i).next)
  move_collider-next = ground arith

module _ {K V : Type 0} (ops : KeyOps K) (null : V) (k : K) (t : Table K V) (valid : IsValid ops t)
    (absent : (i : ℕ) → (t.nodes i).key ≢ some k) where
  spot_lt : slot_of ops k t.size < t.size
  spot_lt = omega (arith, valid.chained.shallow 0, bit_and-le (ops.hash k) (t.size - 1))

  place_direct :
      (t.nodes (slot_of ops k t.size)).key ≡ none
      → Places ops t k (record { after = t.nodes; spot = slot_of ops k t.size })
  place_direct free = record {
    origin = λ i. i;
    spot_lt = spot_lt;
    keys = λ i. ground arith;
    vals = λ i h. ground arith;
    apart = λ i j h h' e. e;
    within = λ i h l. l;
    onto = λ i l h. (i, ground arith, refl);
    more =
        used_more t.nodes _ (slot_of ops k t.size) t.size spot_lt (ground arith) (ground arith)
          (λ i h. ground arith);
    chained = λ g h o.
        direct-IsChained ops t.nodes _ t.size t.first_free g k valid.chained absent spot_lt free h
          (λ i. ground arith) (λ i. ground arith);
    kept = λ i h. ground arith;
    pointed = λ dense i h. ground (arith, dense i);
  }

  module _ (o : K) (held : (t.nodes (slot_of ops k t.size)).key ≡ some o) where
    place_chain :
        slot_of ops o t.size ≡ slot_of ops k t.size
        → Places ops t k (chain_new ops null t.nodes (slot_of ops k t.size) t.first_free)
    place_chain home = record {
      origin = λ i. i;
      spot_lt = omega (arith, valid.chained.shallow t.first_free);
      keys = λ i. ground arith;
      vals = λ i h. ground arith;
      apart = λ i j h h' e. e;
      within = λ i h l. l;
      onto = λ i l h. (i, ground (arith, valid.counted.open_key), refl);
      more =
          used_more t.nodes _ t.first_free t.size
            (omega (arith, valid.chained.shallow t.first_free))
            (ground (arith, valid.counted.open_key)) (ground arith) (λ i h. ground arith);
      chained = λ g h e.
          chain-IsChained ops t.nodes _ t.size t.first_free g k valid.chained absent spot_lt
            valid.counted.open_key valid.counted.open_next (ground arith) o held home
            (λ i. ground arith) (λ i. ground arith);
      kept = λ i h. ground arith;
      pointed = λ dense i h. ground (arith, dense i);
    }

    module _ (q : ℕ) (away : slot_of ops o t.size ≢ slot_of ops k t.size)
        (previous : (t.nodes q).next ≡ some (slot_of ops k t.size)) where
      before : q ≢ slot_of ops k t.size
      before e = ground (arith, valid.chained.falls q (slot_of ops k t.size) previous)

      other : t.first_free ≢ slot_of ops k t.size
      other e = ground (arith, valid.counted.open_key)

      moved_key :
          (i : ℕ)
          → (keyed k (move_collider ops null t.nodes (slot_of ops k t.size) t.first_free q) i).key
            ≡ (if i == slot_of ops k t.size
                then some k
                else if i == t.first_free
                then some o
                else (t.nodes i).key)
      moved_key i = move_collider-key ops null k t.nodes _ _ q other before i ∙ ground arith

      place_moved :
          Places ops t k (move_collider ops null t.nodes (slot_of ops k t.size) t.first_free q)
      place_moved = record {
        origin = λ i. if i == t.first_free then slot_of ops k t.size else i;
        spot_lt = spot_lt;
        keys = λ i. moved_key i ∙ ground arith;
        vals = λ i h. move_collider-val ops null k t.nodes _ _ q other before i h ∙ ground arith;
        apart = λ i j h h' e. ground arith;
        within = λ i h l. ground (arith, valid.chained.shallow t.first_free);
        onto = λ i l h. elim (Bool-cases (i == slot_of ops k t.size)) [
          | inl e ↦ (t.first_free, other, ground arith)
          | inr e ↦ (i, ground arith, ground (arith, valid.counted.open_key))
        ];
        more =
            used_more t.nodes _ t.first_free t.size
              (omega (arith, valid.chained.shallow t.first_free))
              (ap is_none valid.counted.open_key)
              (ap is_none (moved_key t.first_free) ∙ ground (arith, other))
              (λ i h. ap is_none (moved_key i) ∙ ground arith);
        chained = λ g h e.
            move-IsChained ops t.nodes _ t.size t.first_free g k valid.chained absent spot_lt
              valid.counted.open_key valid.counted.open_next (ground (arith, moved_key g)) o q held
              away previous moved_key (move_collider-next ops null k t.nodes _ _ q other before);
        kept = λ i h. ap is_none (moved_key i) ∙ ground arith;
        pointed = λ dense i h. ground (
          arith,
          moved_key i,
          move_collider-next ops null k t.nodes _ _ q other before i,
          dense i,
          dense q,
        );
      }

  module _ (o : K) (held : (t.nodes (slot_of ops k t.size)).key ≡ some o) where
    place_home :
        slot_of ops o t.size ≡ slot_of ops k t.size
        → place ops null k t ≡ some (chain_new ops null t.nodes (slot_of ops k t.size) t.first_free)
    unfolding place
    place_home h =
        let stays : (ltb t.first_free (slot_of ops k t.size)
              && not (slot_of ops o t.size == slot_of ops k t.size))
            ≡ false =
          ground arith in
        simp (place, held, stays) refl

    place_away :
        (q : ℕ)
        → t.first_free < slot_of ops k t.size
        → slot_of ops o t.size ≢ slot_of ops k t.size
        → previous_of t.size t.nodes (slot_of ops k t.size) (slot_of ops o t.size) ≡ found q
        → place ops null k t
          ≡ some (move_collider ops null t.nodes (slot_of ops k t.size) t.first_free q)
    unfolding place
    place_away q l h e =
        let goes : (ltb t.first_free (slot_of ops k t.size)
              && not (slot_of ops o t.size == slot_of ops k t.size))
            ≡ true =
          ground arith in
        simp (place, held, goes, e) refl

  -- In a valid table a key that no node holds is placed, without a walk that leaves its chain: one more
  -- node holds a key, all others are held where they were or where they moved, and the chains are
  -- those of a valid table for every free pointer not above the old one to a node without a key.
  pub place-Places : (p : Placed K V) × (place ops null k t ≡ some p) × Places ops t k p
  unfolding place
  place-Places = elim (Option-cases (t.nodes (slot_of ops k t.size)).key) [
    | inl free ↦ (_, rw (place, free) refl, place_direct free)
    | inr (o, held) ↦ elim (Bool-cases (slot_of ops o t.size == slot_of ops k t.size)) [
      | inl home ↦ (_, place_home o held (ground arith), place_chain o held (ground arith))
      | inr away ↦
          let way = valid.chained.leads (slot_of ops k t.size) o held in
          let apart : slot_of ops o t.size ≢ slot_of ops k t.size = ground arith in
          let (a, next_a) = Leads-previous way apart in
          let (q, found_q, next_q) =
            previous_of-Leads t.nodes valid.chained.rank valid.chained.falls t.size _ _ way apart
              (omega (arith, valid.chained.shallow (slot_of ops o t.size))) in
          (
            _,
            place_away o held q (ground (arith, valid.chained.inside a (slot_of ops k t.size)))
                apart found_q,
            place_moved o held q apart next_q,
          )
    ]
  ]
