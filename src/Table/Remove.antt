-- ===== src/Table/Remove.antt =====
-- `Remove` of squirrel/sqtable.cpp.
use quirrel.Prelude.{ℕ, suc, ◌-◌, ◌≡◌, refl, sym, ap, ◌∙◌, inl, inr, arith, Bool-cases}
use quirrel.Prelude.{Option, none, some}
use quirrel.Table.Nodes.{KeyOps, Table, get, put}
use quirrel.Table.Slots.{remove}
use quirrel.Table.Count.{used_more}
use quirrel.Table.Valid.{Means, IsValid, IsChained-fewer, get-Means, get-eq, get_node-cases}
use quirrel.Table.Writes.{update}
use quirrel.Table.Rehash.{rehash-IsValid}
use quirrel.Table.Updates.{Updates}

-- The node of the key is cleared.
module _ {K V : Type 0} (ops : KeyOps K) (null : V) (k : K) (t : Table K V) (valid : IsValid ops t)
    (a : ℕ) (held : (t.nodes a).key ≡ some k) where
  abbrev cleared : Table K V
  cleared = record t {
    nodes = put t.nodes a (record (t.nodes a) { key = none; val = null });
    used_nodes = t.used_nodes - 1;
  }

  cleared-IsValid : IsValid ops cleared
  cleared-IsValid =
      let less =
        used_more cleared.nodes t.nodes a t.size (valid.chained.bounded a k held) (ground arith)
          (ground arith) (λ i h. ground arith) in
      record {
        chained = IsChained-fewer ops valid.chained (λ i l h. ground arith) (λ i. ground arith);
        counted = record {
          open_key = ground (arith, valid.counted.open_key);
          open_next = ground (arith, valid.counted.open_next);
          counted = omega (arith, less, valid.counted.counted);
        };
        power = valid.power;
      }

  cleared-Means : (f : K → Option V) → Means t.nodes f → Means cleared.nodes (update ops f k none)
  cleared-Means f m j u = (
    λ (i, h, e). ground (
      arith,
      ops.same_iff k j,
      valid.chained.unique i a k,
      (m j u).0 (i, ground arith, ground arith),
    ),
    λ h.
        let (i, key, val) = (m j u).1 (ground arith) in
        (i, ground (arith, ops.same_iff k j), ground (arith, ops.same_iff k j)),
  )

module _ {K V : Type 0} (ops : KeyOps K) (null : V) where
  -- `Remove` returns on every valid table, whatever has to shrink: the table is valid again, and `Get`
  -- finds nothing at the key and reads elsewhere what it read before.
  pub remove-get :
      (fuel : ℕ) (k : K) (t : Table K V)
      → IsValid ops t
      → (t' : Table K V) × (remove ops null (suc fuel) k t ≡ some t') × Updates ops k none t t'
  unfolding remove get
  remove-get fuel k t valid = elim (get_node-cases ops t valid.chained k) [
    | inl (a, e, held) ↦
        let (s, run, kept, means) =
          rehash-IsValid ops null (cleared ops null k t valid a held)
            (cleared-IsValid ops null k t valid a held) fuel in
        let after =
          means _ (cleared-Means ops null k t valid a held _ (get-Means ops t valid.chained)) in
        (
          record s { class_type_id = 0 },
          rw (remove, e, run) refl,
          (
            record {
              chained = kept.chained;
              counted = record {
                open_key = kept.counted.open_key;
                open_next = kept.counted.open_next;
                counted = kept.counted.counted;
              };
              power = kept.power;
            },
            get-eq ops (record s { class_type_id = 0 }) kept.chained _ after,
          ),
        )
    | inr (e, absent) ↦ (
      t,
      rw (remove, e) refl,
      (
        valid,
        λ j. elim (Bool-cases (ops.same k j)) [
          | inl same ↦
              rw same (ap (λ i. get ops i t) (sym ((ops.same_iff k j).0 same)) ∙ rw (get, e) refl)
          | inr other ↦ rw other refl
        ],
      ),
    )
  ]
