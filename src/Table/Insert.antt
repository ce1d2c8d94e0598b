-- ===== src/Table/Insert.antt =====
-- What one pass of `NewSlot` of squirrel/sqtable.cpp does to an SQTable: where it need not grow first, and
-- where the last free node is taken.
use quirrel.Prelude.{
  ℕ, suc, ◌+◌, ◌<◌, ◌≡◌, ◌≢◌, refl, sym, ap, ◌∙◌, ◌⊎◌, inl, inr, false, leb, arith, Bool-cases,
}
use quirrel.Prelude.{none, some, Option-cases}
use quirrel.Table.Nodes.{KeyOps, Table, Placed, put, is_none, open_below, class_type_id_with}
use quirrel.Table.Slots.{insert, fill, present, inserted, full}
use quirrel.Table.Count.{used-congr, open_below-some, open_below-none, used_all}
use quirrel.Table.Valid.{IsValid, IsChained-fewer, get_node-cases}
use quirrel.Table.Places.{keyed, Places, place-Places}
use quirrel.Table.Writes.{
  IsChained-IsOnce, Wrote, Filled, placed-Means, placed-IsOnce, overwritten-Wrote,
}

module _ {K V : Type 0} (ops : KeyOps K) (null : V) (k : K) (v : V) (t : Table K V)
    (valid : IsValid ops t) (absent : (i : ℕ) → (t.nodes i).key ≢ some k) (p : Placed K V)
    (w : Places ops t k p) where
  abbrev pub after_inserted : ℕ → Table K V
  after_inserted g = record t {
    nodes = put (keyed k p) p.spot (record (keyed k p p.spot) { val = v });
    first_free = g;
    used_nodes = t.used_nodes + 1;
    class_type_id = class_type_id_with ops k p.spot t;
  }

  abbrev pub after_full : Table K V
  after_full = record t { nodes = keyed k p; first_free = 0 }

  -- A node is still free behind the placing.
  fill-inserted :
      (g : ℕ)
      → open_below (keyed k p) t.first_free ≡ some g
      → (fill ops null k v t p ≡ inserted (after_inserted g))
        × Wrote ops k v t (after_inserted g)
        × ((i : ℕ) → ((after_inserted g).nodes i).key ≡ (keyed k p i).key)
        × ((i : ℕ) → ((after_inserted g).nodes i).next ≡ (keyed k p i).next)
  fill-inserted g e =
      let (le, key, next, above) = open_below-some (keyed k p) t.first_free g e in
      let keys : (i : ℕ)
          → (put (keyed k p) p.spot (record (keyed k p p.spot) { val = v }) i).key
            ≡ (keyed k p i).key =
        λ i. ground arith in
      let nexts : (i : ℕ)
          → (put (keyed k p) p.spot (record (keyed k p p.spot) { val = v }) i).next
            ≡ (keyed k p i).next =
        λ i. ground arith in
      (
        rw (fill, e) refl,
        record {
          valid = record {
            chained = IsChained-fewer ops (w.chained g le key) (λ i l h. sym (keys i) ∙ h) nexts;
            counted = record {
              open_key = keys g ∙ key;
              open_next = nexts g ∙ next;
              counted =
                  used-congr (keyed k p) _ t.size (λ i l. ap is_none (keys i))
                  ∙ w.more
                  ∙ omega (arith, valid.counted.counted);
            };
            power = valid.power;
          };
          means =
              placed-Means ops k t absent p w (after_inserted g).nodes keys v (ground arith)
                (λ i h. ground arith);
          same_size = refl;
        },
        keys,
        nexts,
      )

  -- No node is free any more.
  fill-full :
      open_below (keyed k p) t.first_free ≡ none
      → (fill ops null k v t p ≡ full after_full) × Filled ops k t after_full
  fill-full e = (
    rw (fill, e) refl,
    record {
      once = placed-IsOnce ops k t absent p w _ (λ i. refl) (IsChained-IsOnce ops valid.chained);
      value = (keyed k p p.spot).val;
      means = placed-Means ops k t absent p w (keyed k p) (λ i. refl) _ refl (λ i h. refl);
      same_size = refl;
      same_count = refl;
      more = w.more ∙ ap suc valid.counted.counted;
    },
  )

-- Nodes without a key have no pointer, and those above the free pointer have keys: so it is where no
-- key was removed.
pub record IsDense {K V : Type 0} (t : Table K V) : Type 0 where
  pub pointed : (i : ℕ) → (t.nodes i).key ≡ none → (t.nodes i).next ≡ none
  pub above : (i : ℕ) → t.first_free < i → i < t.size → is_none (t.nodes i).key ≡ false

module _ {K V : Type 0} (ops : KeyOps K) (null : V) (k : K) (v : V) (t : Table K V)
    (valid : IsValid ops t) where
  -- The body of `NewSlot` writes the value of a key that is there, places one that is not, or places
  -- it in the last free node.
  pub insert-cases :
      ((t' : Table K V) × (insert ops null k v t ≡ present t') × Wrote ops k v t t')
      ⊎ (((t' : Table K V) × (insert ops null k v t ≡ inserted t') × Wrote ops k v t t')
          ⊎ ((t' : Table K V) × (insert ops null k v t ≡ full t') × Filled ops k t t'))
  unfolding insert
  insert-cases = elim (get_node-cases ops t valid.chained k) [
    | inl (a, e, held) ↦ inl (_, rw (insert, e) refl, overwritten-Wrote ops k v t valid a held)
    | inr (e, absent) ↦
        let (p, placed, w) = place-Places ops null k t valid absent in
        elim (Option-cases (open_below (keyed k p) t.first_free)) [
          | inl none_open ↦
              let (run, filled) = fill-full ops null k v t valid absent p w none_open in
              inr (inr (_, rw (insert, e, placed) run, filled))
          | inr (g, free) ↦
              let (run, wrote, keys, nexts) =
                fill-inserted ops null k v t valid absent p w g free in
              inr (inl (_, rw (insert, e, placed) run, wrote))
        ]
  ]

  -- In a dense table that is not nearly full a key that is not there is placed.
  pub insert-IsDense :
      IsDense t
      → ((i : ℕ) → (t.nodes i).key ≢ some k)
      → t.used_nodes + 1 < t.size
      → (t' : Table K V) × (insert ops null k v t ≡ inserted t')
        × Wrote ops k v t t'
        × IsDense t'
        × (t'.used_nodes ≡ t.used_nodes + 1)
  unfolding insert
  insert-IsDense dense absent room = elim (get_node-cases ops t valid.chained k) [
    | inl (a, e, held) ↦ absurd (absent a held)
    | inr (e, _) ↦
        let (p, placed, w) = place-Places ops null k t valid absent in
        elim (Option-cases (open_below (keyed k p) t.first_free)) [
          | inl none_open ↦
              let all = used_all (keyed k p) t.size (λ i l. elim (Bool-cases (leb i t.first_free)) [
                | inl s ↦
                    ground
                      (arith, open_below-none (keyed k p) t.first_free i, w.pointed dense.pointed i)
                | inr s ↦ w.kept i (dense.above i (ground arith) l)
              ]) in
              absurd (omega (arith, all, w.more, valid.counted.counted))
          | inr (g, free) ↦
              let (run, wrote, keys, nexts) =
                fill-inserted ops null k v t valid absent p w g free in
              let (le, key, next, above) = open_below-some (keyed k p) t.first_free g free in
              (
                _,
                rw (insert, e, placed) run,
                wrote,
                record {
                  pointed = λ i h. nexts i ∙ w.pointed dense.pointed i (sym (keys i) ∙ h);
                  above = λ i a l. ap is_none (keys i) ∙ elim (Bool-cases (leb i t.first_free)) [
                    | inl s ↦ ground (arith, above i, w.pointed dense.pointed i)
                    | inr s ↦ w.kept i (dense.above i (ground arith) l)
                  ];
                },
                refl,
              )
        ]
  ]
