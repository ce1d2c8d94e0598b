-- ===== src/Table/Count.antt =====
-- How many nodes of an SQTable hold a key, which `_usednodes` of squirrel/sqtable.h keeps, and how
-- `_firstfree` is corrected.
use quirrel.Prelude.{
  ℕ, zero, suc, ◌≤◌, ◌<◌, ◌≡◌, ◌≢◌, refl, inl, inr, true, false, ◌==◌, if◌then◌else◌, arith,
  Bool-cases,
}
use quirrel.Prelude.{none, some}
use quirrel.Table.Nodes.{Node, is_none, is_open, open_below}

module _ {K V : Type 0} where
  -- The nodes below `n` that hold a key.
  unfoldable pub used : (ℕ → Node K V) → ℕ → ℕ
  used nodes zero = 0
  used nodes (suc n) = if is_none (nodes n).key then used nodes n else suc (used nodes n)

  pub used-le : (nodes : ℕ → Node K V) (n : ℕ) → used nodes n ≤ n
  unfolding used
  used-le nodes zero = omega arith
  used-le nodes (suc n) = ground (arith, used-le nodes n)

  pub used_mono : (nodes : ℕ → Node K V) (m n : ℕ) → m ≤ n → used nodes m ≤ used nodes n
  unfolding used
  used_mono nodes m zero h = ground arith
  used_mono nodes m (suc n) h = elim (Bool-cases (m == suc n)) [
    | inl t ↦ ground arith
    | inr t ↦ ground (arith, used_mono nodes m n)
  ]

  pub used-congr :
      (nodes nodes' : ℕ → Node K V) (n : ℕ)
      → ((i : ℕ) → i < n → is_none (nodes' i).key ≡ is_none (nodes i).key)
      → used nodes' n ≡ used nodes n
  unfolding used
  used-congr nodes nodes' zero h = refl
  used-congr nodes nodes' (suc n) h =
      rw (h n (omega arith), used-congr nodes nodes' n (λ i b. h i (omega arith))) refl

  -- One more node holds a key.
  pub used_more :
      (nodes nodes' : ℕ → Node K V) (a n : ℕ)
      → a < n
      → is_none (nodes a).key ≡ true
      → is_none (nodes' a).key ≡ false
      → ((i : ℕ) → i ≢ a → is_none (nodes' i).key ≡ is_none (nodes i).key)
      → used nodes' n ≡ suc (used nodes n)
  unfolding used
  used_more nodes nodes' a zero l h h' same = absurd (omega arith)
  used_more nodes nodes' a (suc n) l h h' same = elim (Bool-cases (n == a)) [
    | inl t ↦ ground (arith, used-congr nodes nodes' n (λ i b. same i (ground arith)))
    | inr t ↦ ground (arith, same n, used_more nodes nodes' a n)
  ]

  -- Where all nodes hold keys the count is the size.
  pub used_all :
      (nodes : ℕ → Node K V) (n : ℕ)
      → ((i : ℕ) → i < n → is_none (nodes i).key ≡ false)
      → used nodes n ≡ n
  unfolding used
  used_all nodes zero h = refl
  used_all nodes (suc n) h =
      rw (h n (omega arith), used_all nodes n (λ i b. h i (omega arith))) refl

  pub open_below-some :
      (nodes : ℕ → Node K V) (ff g : ℕ)
      → open_below nodes ff ≡ some g
      → (g ≤ ff)
        × ((nodes g).key ≡ none)
        × ((nodes g).next ≡ none)
        × ((i : ℕ) → g < i → i ≤ ff → is_open (nodes i) ≡ false)
  unfolding open_below
  open_below-some nodes zero g h = ground arith
  open_below-some nodes (suc ff) g h = elim (Bool-cases (is_open (nodes (suc ff)))) [
    | inl t ↦ ground arith
    | inr t ↦
        let (le, key, next, above) = open_below-some nodes ff g (ground arith) in
        (
          omega arith,
          key,
          next,
          λ i a b. elim (Bool-cases (i == suc ff)) [
            | inl s ↦ ground arith
            | inr s ↦ above i a (ground arith)
          ],
        )
  ]

  pub open_below-none :
      (nodes : ℕ → Node K V) (ff i : ℕ)
      → open_below nodes ff ≡ none
      → i ≤ ff
      → is_open (nodes i) ≡ false
  unfolding open_below
  open_below-none nodes zero i h l = ground arith
  open_below-none nodes (suc ff) i h l = elim (Bool-cases (i == suc ff)) [
    | inl t ↦ ground arith
    | inr t ↦ ground (arith, open_below-none nodes ff i)
  ]
