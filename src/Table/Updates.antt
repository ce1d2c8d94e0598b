-- ===== src/Table/Updates.antt =====
-- What the operations of an SQTable (squirrel/sqtable.cpp) promise: each keeps a valid table and is the
-- update of the map that `Get` reads.
use quirrel.Prelude.{
  ℕ, suc, ◌≡◌, refl, ◌∙◌, inl, inr, Bool, true, false, ◌&&◌, not, if◌then◌else◌, arith,
}
use quirrel.Prelude.{Option, some}
use quirrel.Table.Nodes.{KeyOps, Table, get, set_val, is_none}
use quirrel.Table.Slots.{insert, rehash, new_slot}
use quirrel.Table.Valid.{Means, IsValid, get-Means, get-eq, get_node-key, get_node-cases}
use quirrel.Table.Writes.{update, Wrote, Filled, overwritten, overwritten-Wrote}
use quirrel.Table.Insert.{insert-cases}
use quirrel.Table.Rehash.{rehash-Means}
use quirrel.Table.Sizes.{rehash_size-forced}

-- `t'` is valid, and reads as `t` does but for `k`, where it reads `o`.
abbrev pub Updates : {K V : Type 0} → KeyOps K → K → Option V → Table K V → Table K V → Type 0
Updates {K} ops k o t t' =
    IsValid ops t' × ((j : K) → get ops j t' ≡ (if ops.same k j then o else get ops j t))

if_same :
    {K V : Type 0} (ops : KeyOps K) (k : K) (x y : Option V) → (if ops.same k k then x else y) ≡ x
if_same ops k x y = rw ((ops.same_iff k k).1 refl) refl

-- A key written twice.
update-update :
    {K V : Type 0} (ops : KeyOps K) (k : K) (v w : V) (f : K → Option V) (j : K)
    → update ops (update ops f k (some w)) k (some v) j ≡ update ops f k (some v) j
update-update ops k v w f j = ground arith

-- `Set` writes the value of a key that is there, leaves any other table as it is, and says which; the
-- table stays valid.
pub set_val-get :
    {K V : Type 0} (ops : KeyOps K) (k : K) (v : V) (t : Table K V)
    → IsValid ops t
    → (t' : Table K V) × (written : Bool) × (set_val ops k v t ≡ (t', written))
      × IsValid ops t'
      × ((j : K) → get ops j t' ≡ (if written && ops.same k j then some v else get ops j t))
      × (written ≡ not (is_none (get ops k t)))
unfolding set_val get
set_val-get ops k v t valid = elim (get_node-cases ops t valid.chained k) [
  | inl (a, e, held) ↦
      let w = overwritten-Wrote ops k v t valid a held in
      (
        overwritten ops k v t valid a held,
        true,
        rw (set_val, e) refl,
        w.valid,
        get-eq ops (overwritten ops k v t valid a held) w.valid.chained _
            (w.means _ (get-Means ops t valid.chained)),
        rw (get, e) refl,
      )
  | inr (e, absent) ↦ (t, false, rw (set_val, e) refl, valid, λ j. refl, rw (get, e) refl)
]

module _ {K V : Type 0} (ops : KeyOps K) where
  -- What was written is read.
  Wrote-get :
      (k : K) (v : V) (t t' : Table K V)
      → IsValid ops t
      → Wrote ops k v t t'
      → Updates ops k (some v) t t'
  Wrote-get k v t t' valid w =
      (w.valid, get-eq ops t' w.valid.chained _ (w.means _ (get-Means ops t valid.chained)))

module _ {K V : Type 0} (ops : KeyOps K) (null : V) (fuel : ℕ) (k : K) (v : V) where
  -- A key that is there is written at once.
  new_slot_held :
      (s : Table K V) (valid : IsValid ops s) (a : ℕ) (held : (s.nodes a).key ≡ some k)
      → new_slot ops null (suc fuel) k v s ≡ some (overwritten ops k v s valid a held, false)
  unfolding new_slot insert
  new_slot_held s valid a held =
      simp (new_slot, insert, get_node-key ops s valid.chained k a held) refl

  -- The full table grows, and then the key that is there already gets its value.
  new_slot_full :
      (t t' : Table K V)
      → IsValid ops t
      → Filled ops k t t'
      → (s : Table K V) × (rehash ops null (new_slot ops null (suc fuel)) true t' ≡ some s)
        × ((t'' : Table K V) × (new_slot ops null (suc fuel) k v s ≡ some (t'', false))
            × Updates ops k (some v) t t'')
  new_slot_full t t' valid w =
      let (m, resized) = rehash_size-forced t'.size t'.used_nodes in
      let (s, grown, valid_s, means) =
        rehash-Means ops null t' w.once (rw w.same_size (omega (arith, valid.chained.shallow 0)))
          (omega (arith, w.more, w.same_count)) (rw w.same_size valid.power) fuel true m resized in
      let stored : Means s.nodes (update ops (λ j. get ops j t) k (some w.value)) =
        means _ (w.means _ (get-Means ops t valid.chained)) in
      let (a, held, val) = (stored k w.value).1 (if_same ops k _ _) in
      let wrote = overwritten-Wrote ops k v s valid_s a held in
      (
        s,
        grown,
        (
          overwritten ops k v s valid_s a held,
          new_slot_held s valid_s a held,
          (
            wrote.valid,
            λ j.
                get-eq ops _ wrote.valid.chained _ (wrote.means _ stored) j
                ∙ update-update ops k v w.value (λ j. get ops j t) j,
          ),
        ),
      )

module _ {K V : Type 0} (ops : KeyOps K) (null : V) where
  -- `NewSlot` returns on every valid table, whatever has to grow for it: the table is valid again,
  -- and `Get` reads the new value at the key and elsewhere what it read before.
  pub new_slot-get :
      (fuel : ℕ) (k : K) (v : V) (t : Table K V)
      → IsValid ops t
      → (t' : Table K V) × (new : Bool) × (new_slot ops null (suc (suc fuel)) k v t
          ≡ some (t', new))
        × Updates ops k (some v) t t'
  unfolding new_slot
  new_slot-get fuel k v t valid = elim (insert-cases ops null k v t valid) [
    | inl (t', run, w) ↦ (t', false, rw (new_slot, run) refl, Wrote-get ops k v t t' valid w)
    | inr (inl (t', run, w)) ↦ (t', true, rw (new_slot, run) refl, Wrote-get ops k v t t' valid w)
    | inr (inr (t', run, w)) ↦
        let (s, grown, (t'', written, law)) = new_slot_full ops null fuel k v t t' valid w in
        (t'', false, rw (new_slot, run, grown) written, law)
  ]
