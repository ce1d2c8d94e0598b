-- ===== src/Table/Copies.antt =====
-- `Clone` and `Clear` of squirrel/sqtable.cpp.
use native.Mathlib.Nat.{pow-suc}
use quirrel.Prelude.{
  ℕ, zero, suc, ◌*◌, ◌^◌, ◌≤◌, ◌<◌, ◌≡◌, refl, sym, ap, ◌∙◌, inl, inr, Bool, true, false, ltb,
  if◌then◌else◌, arith, subst,
}
use quirrel.Prelude.{Option, none, some, Option-cases}
use quirrel.Table.Nodes.{KeyOps, Table, get, free_node}
use quirrel.Table.Slots.{create, pow2_size, clone, clear}
use quirrel.Table.Create.{le-pow, le_mul}
use quirrel.Table.Count.{used-congr}
use quirrel.Table.Valid.{IsPower, Means, IsValid, IsChained-fewer, get-eq, get-Means}
use quirrel.Table.Rehash.{rehash-Means, alloc_nodes-IsValid, used-alloc_nodes, empty-Means}
use quirrel.Table.Sizes.{rehash_size-forced}

-- The doubling comes to a power of two itself.
pow2_size-eq : (j f size : ℕ) → j ≤ f → 0 < size → pow2_size f (size * 2 ^ j) size ≡ size * 2 ^ j
unfolding pow2_size
pow2_size-eq zero zero size h pos = omega arith
pow2_size-eq zero (suc f) size h pos = ground arith
pow2_size-eq (suc j) zero size h pos = absurd (omega arith)
pow2_size-eq (suc j) (suc f) size h pos =
    let rest = pow2_size-eq j f (size * 2) (omega arith) (omega arith) in
    let twice : size * 2 * 2 ^ j ≡ size * 2 ^ suc j =
      omega (arith, ap (λ (p : ℕ). size * p) (pow-suc 2 j)) in
    let more : size < size * 2 ^ suc j =
      omega (arith, twice, le_mul (size * 2) (2 ^ j) (omega (arith, le-pow j))) in
    ground (arith, subst (λ n. pow2_size f n (size * 2) ≡ n) twice rest)

pow2_size-IsPower : (n : ℕ) → IsPower n → pow2_size n n 1 ≡ n
pow2_size-IsPower n (d, h) =
    let power : 1 * 2 ^ d ≡ n = omega arith in
    subst (λ m. pow2_size n m 1 ≡ m) power
      (pow2_size-eq d n 1 (omega (arith, le-pow d)) (omega arith))

module _ {K V : Type 0} (ops : KeyOps K) (null : V) (t : Table K V) (valid : IsValid ops t) where
  no_next : (i : ℕ) → t.size ≤ i → (t.nodes i).next ≡ none
  no_next i h = elim (Option-cases (t.nodes i).next) [
    | inl e ↦ e
    | inr (j, e) ↦ absurd (omega (arith, (valid.chained.inside i j e).0))
  ]

  abbrev copied : ℕ → Table K V
  copied n = record t { nodes = λ i. if ltb i t.size then t.nodes i else free_node null; size = n }

  copied-IsValid : IsValid ops (copied t.size)
  copied-IsValid = record {
    chained =
        IsChained-fewer ops valid.chained (λ i l h. ground arith) (λ i. ground (arith, no_next i));
    counted = record {
      open_key = ground (arith, valid.counted.open_key);
      open_next = ground (arith, valid.counted.open_next);
      counted = used-congr t.nodes _ t.size (λ i l. ground arith) ∙ valid.counted.counted;
    };
    power = valid.power;
  }

  copied-Means : (f : K → Option V) → Means t.nodes f → Means (copied t.size).nodes f
  copied-Means f m j v = (
    λ (i, key, val). (m j v).0 (i, ground arith, ground arith),
    λ r.
        let (i, key, val) = (m j v).1 r in
        (i, ground (arith, valid.chained.bounded i j), ground (arith, valid.chained.bounded i j)),
  )

  -- The clone of a valid table is valid, `Get` reads the same from it, and its size is the same.
  pub clone-get :
      IsValid ops (clone ops null t)
      × ((j : K) → get ops j (clone ops null t) ≡ get ops j t)
      × ((clone ops null t).size ≡ t.size)
  unfolding clone create
  clone-get =
      subst
        (λ n.
          IsValid ops (copied n) × ((j : K) → get ops j (copied n) ≡ get ops j t) × (n ≡ t.size))
        (sym (pow2_size-IsPower t.size valid.power))
        (
          copied-IsValid,
          get-eq ops (copied t.size) copied-IsValid.chained _
              (copied-Means _ (get-Means ops t valid.chained)),
          refl,
        )

module _ {K V : Type 0} (ops : KeyOps K) (null : V) where
  -- `Clear` returns, with or without other nodes: the table is valid and `Get` finds nothing.
  pub clear-get :
      (fuel : ℕ) (resize : Bool) (t : Table K V)
      → IsValid ops t
      → (t' : Table K V) × (clear ops null (suc fuel) resize t ≡ some t')
        × IsValid ops t'
        × ((j : K) → get ops j t' ≡ none)
  unfolding clear
  clear-get fuel true t valid =
      let cleared : Table K V = record t {
        nodes = λ _. free_node null;
        used_nodes = 0;
        class_type_id = 0;
      } in
      let (m, resized) = rehash_size-forced t.size 0 in
      let (s, run, valid_s, means) =
        rehash-Means ops null cleared
          (record { bounded = λ i k h. absurd (cc); unique = λ i j k h h'. absurd (cc) })
          (omega (arith, valid.chained.shallow 0))
          (rw (used-alloc_nodes K null t.size) (omega arith)) valid.power fuel true m resized in
      (s, run, valid_s, get-eq ops s valid_s.chained _ (means _ (empty-Means K null)))
  clear-get fuel false t valid =
      let empty =
        alloc_nodes-IsValid ops null (record t { class_type_id = 0 }) t.size
          (omega (arith, valid.chained.shallow 0)) valid.power in
      (_, refl, empty, get-eq ops _ empty.chained _ (empty-Means K null))
