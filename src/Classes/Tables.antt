-- ===== src/Classes/Tables.antt =====
-- The member table of an SQClass is an SQTable: the hash table of squirrel/sqtable.cpp meets the
-- interface that squirrel/sqclass.cpp uses.
use mathlib.Core.List.{Memᴰ}
use mathlib.Core.List.Memᴰ
use quirrel.Prelude.{
  ℕ, zero, suc, ◌≤◌, ◌<◌, ◌≡◌, ◌≢◌, refl, sym, ap, ◌∙◌, ◌⊎◌, inl, inr, arith, List, [], ◌∷◌, length,
  none, some, if◌then◌else◌,
}
use quirrel.Table.Nodes.{KeyOps, Table, get}
use quirrel.Table.Slots.{new_slot, create, clone}
use quirrel.Table.Valid.{IsValid}
use quirrel.Table.Updates.{new_slot-get}
use quirrel.Table.Create.{create-get}
use quirrel.Table.Copies.{clone-get}
use quirrel.Table.Iteration.{walk, walk-get}
use quirrel.Classes.Members.{Members}

module _ {A : Type 0} where
  -- A list without one of its members.
  without :
      (x : A) (l : List A)
      → Memᴰ x l
      → (rest : List A) × (length l ≡ suc (length rest))
        × ((y : A) → Memᴰ y l → (y ≡ x) ⊎ Memᴰ y rest)
  without x [] m = absurd (Memᴰ.not-nil m)
  without x (a ∷ l) m = elim (Memᴰ.cases_cons m) [
    | inl e ↦ (l, refl, λ y k. elim (Memᴰ.cases_cons k) [ inl d ↦ inl (d ∙ sym e) | inr t ↦ inr t ])
    | inr t ↦
        let (rest, count, others) = without x l t in
        (
          a ∷ rest,
          ap suc count,
          λ y k. elim (Memᴰ.cases_cons k) [
            | inl d ↦ inr (Memᴰ.head d)
            | inr u ↦ elim (others y u) [ inl d ↦ inl d | inr w ↦ inr (Memᴰ.tail w) ]
          ],
        )
  ]

module _ {K : Type 0} where
  -- As many names that differ as a list has pairs, at most.
  pigeonhole :
      (n : ℕ) (name : ℕ → K) (l : List (K × ℕ))
      → ((i : ℕ) → i < n → (v : ℕ) × Memᴰ (name i, v) l)
      → ((i j : ℕ) → i < n → j < n → name i ≡ name j → i ≡ j)
      → n ≤ length l
  pigeonhole zero name l there apart = omega arith
  pigeonhole (suc n) name l there apart =
      let (v, last) = there n (omega arith) in
      let (rest, count, others) = without (name n, v) l last in
      let fewer =
        pigeonhole n name rest
          (λ i h.
            let (w, m) = there i (omega arith) in
            (
              w,
              elim (others (name i, w) m) [
                | inl e ↦ absurd (differ i h (ap (λ p. p.0) e))
                | inr r ↦ r
              ],
            ))
          (λ i j h k e. apart i j (omega arith) (omega arith) e) in
      omega (arith, count, fewer)
    where
      differ : (i : ℕ) → i < n → name i ≢ name n
      differ i h e = let same = apart i n (omega arith) (omega arith) e in omega arith

module _ {K : Type 0} (ops : KeyOps K) where
  -- `NewSlot`, whose `Rehash` calls it once again at most.
  abbrev pub set_slot : K → ℕ → Table K ℕ → Table K ℕ
  set_slot k v t = elim (new_slot ops 0 2 k v t) [ none ↦ t | some (t', new) ↦ t' ]

  pub set_slot-IsValid :
      (k : K) (v : ℕ) (t : Table K ℕ) → IsValid ops t → IsValid ops (set_slot k v t)
  set_slot-IsValid k v t valid =
      let (t', new, run, updates) = new_slot-get ops 0 0 k v t valid in rw (set_slot, run) updates.0

  pub get-set_slot :
      (j k : K) (v : ℕ) (t : Table K ℕ)
      → IsValid ops t
      → get ops j (set_slot k v t) ≡ (if ops.same k j then some v else get ops j t)
  get-set_slot j k v t valid =
      let (t', new, run, updates) = new_slot-get ops 0 0 k v t valid in
      rw (set_slot, run) (updates.1 j)

  pub few_keys :
      (t : Table K ℕ) (n : ℕ) (name : ℕ → K)
      → IsValid ops t
      → ((i : ℕ) → i < n → (v : ℕ) × (get ops (name i) t ≡ some v))
      → ((i j : ℕ) → i < n → j < n → name i ≡ name j → i ≡ j)
      → n ≤ t.used_nodes
  few_keys t n name valid there apart =
      let (count, seen) = walk-get ops t valid in
      omega (
        arith,
        count,
        pigeonhole n name (walk (suc t.size) 0 t)
            (λ i h. let (v, e) = there i h in (v, (seen (name i) v).1 e)) apart,
      )

  -- The hash table as a member table.
  abbrev pub table_members : Members K
  table_members = record {
    same = ops.same;
    same_iff = ops.same_iff;
    Map = Table K ℕ;
    IsValid = IsValid ops;
    create = create ops 0 0;
    get = get ops;
    new_slot = set_slot;
    clone = clone ops 0;
    count_used = λ t. t.used_nodes;
    create-IsValid = (create-get ops 0 0 (omega arith)).0;
    get-create = (create-get ops 0 0 (omega arith)).1;
    new_slot-IsValid = set_slot-IsValid;
    get-new_slot = get-set_slot;
    clone-IsValid = λ t valid. (clone-get ops 0 t valid).0;
    get-clone = λ k t valid. (clone-get ops 0 t valid).1 k;
    few_names = few_keys;
  }
