-- ===== src/Table/Slots.antt =====
-- squirrel/sqtable.cpp: the operations that change an SQTable.
use quirrel.Prelude.{
  ℕ, zero, suc, ◌+◌, ◌-◌, ◌*◌, ◌/◌, ◌^◌, Bool, true, false, ◌&&◌, ltb, leb, if◌then◌else◌,
}
use quirrel.Prelude.{Option, none, some}
use quirrel.Table.Nodes.{
  KeyOps, Node, Table, found, missing, exhausted, Placed, put, get_node, place, open_below,
  alloc_nodes, free_node, class_type_id_with, is_none,
}

-- What the body of `NewSlot` comes to before it looks for more room: the key was there, the key is
-- placed, or it is placed without its value in a table that is full.
pub data Insertion (K V : Type 0) : Type 0 where
  present inserted full : Table K V → Insertion K V
  lost : Insertion K V

-- `31 - __builtin_clz(n)`
unfoldable pub floor_log2 : ℕ → ℕ → ℕ
floor_log2 zero n = 0
floor_log2 (suc f) n = if ltb 1 n then suc (floor_log2 f (n / 2)) else 0

-- The size that `Rehash` takes, or none where it keeps the nodes.
unfoldable pub rehash_size : Bool → ℕ → ℕ → Option ℕ
rehash_size force oldsize nelems =
    if leb (oldsize - oldsize / 4) nelems
    then some (oldsize * 2)
    else if ltb nelems (oldsize / 4) && ltb 1 oldsize
    then some (oldsize / 2)
    else if force
    then some (2 ^ (floor_log2 oldsize oldsize + 1))
    else none

-- `pow2size`, doubled until `n` fits; for up to 2 ^ 32 nodes the doubling stays far from the end of
-- SQInteger.
unfoldable pub pow2_size : ℕ → ℕ → ℕ → ℕ
pow2_size zero n size = size
pow2_size (suc f) n size =
    let larger = pow2_size f n (size * 2) in if ltb size n then larger else size

module _ {K V : Type 0} (ops : KeyOps K) (null : V) where
  -- The key at its place, and the end of `NewSlot` or the way to `Rehash`.
  abbrev pub fill : K → V → Table K V → Placed K V → Insertion K V
  fill k v t p =
      let keyed = put p.after p.spot (record (p.after p.spot) { key = some k }) in
      elim (open_below keyed t.first_free) [
        | none ↦ full (record t { nodes = keyed; first_free = 0 })
        | some free ↦ inserted (record t {
          nodes = put keyed p.spot (record (keyed p.spot) { val = v });
          first_free = free;
          used_nodes = t.used_nodes + 1;
          class_type_id = class_type_id_with ops k p.spot t;
        })
      ]

  unfoldable pub insert : K → V → Table K V → Insertion K V
  insert k v t =
      let placed = place ops null k t in
      elim (get_node ops k t) [
        | found i ↦ present (record t { nodes = put t.nodes i (record (t.nodes i) { val = v }) })
        | missing ↦ elim placed [ none ↦ lost | some p ↦ fill k v t p ]
        | exhausted ↦ lost
      ]

  -- The loop of `Rehash`, on the first `n` nodes of `nold`.
  unfoldable pub reinsert :
      (K → V → Table K V → Option (Table K V × Bool))
      → (ℕ → Node K V)
      → ℕ
      → Table K V
      → Option (Table K V)
  reinsert slot nold zero t = some t
  reinsert slot nold (suc n) t = elim (reinsert slot nold n t) [
    | none ↦ none
    | some s ↦ elim (nold n).key [
      | none ↦ some s
      | some k ↦ elim (slot k (nold n).val s) [ none ↦ none | some (s', new) ↦ some s' ]
    ]
  ]

  unfoldable pub rehash :
      (K → V → Table K V → Option (Table K V × Bool)) → Bool → Table K V → Option (Table K V)
  rehash slot force t = elim (rehash_size force t.size t.used_nodes) [
    | none ↦ some t
    | some m ↦ reinsert slot t.nodes t.size (record (alloc_nodes null m t) { used_nodes = 0 })
  ]

  -- `NewSlot`, on as many nested calls as there is fuel.
  unfoldable pub new_slot : ℕ → K → V → Table K V → Option (Table K V × Bool)
  new_slot zero k v t = none
  new_slot (suc f) k v t = elim (insert k v t) [
    | present t' ↦ some (t', false)
    | inserted t' ↦ some (t', true)
    | full t' ↦ elim (rehash (new_slot f) true t') [ none ↦ none | some s ↦ new_slot f k v s ]
    | lost ↦ none
  ]

  unfoldable pub remove : ℕ → K → Table K V → Option (Table K V)
  remove f k t = elim (get_node ops k t) [
    | found i ↦
        elim (rehash (new_slot f) false (record t {
          nodes = put t.nodes i (record (t.nodes i) { key = none; val = null });
          used_nodes = t.used_nodes - 1;
        })) [ none ↦ none | some s ↦ some (record s { class_type_id = 0 }) ]
    | missing ↦ some t
    | exhausted ↦ none
  ]

  -- `SQTable::SQTable`
  unfoldable pub create : ℕ → Table K V
  create n = record {
    nodes = λ _. free_node null;
    size = pow2_size n n 1;
    first_free = pow2_size n n 1 - 1;
    used_nodes = 0;
    class_type_id = 0;
  }

  -- `Clear`, with the growth it asks for.
  unfoldable pub clear : ℕ → Bool → Table K V → Option (Table K V)
  clear f resize t =
      let cleared : Table K V = record t {
        nodes = λ _. free_node null;
        used_nodes = 0;
        class_type_id = 0;
      } in
      if resize
      then rehash (new_slot f) true cleared
      else some (record cleared { first_free = t.size - 1 })

  -- `Clone`, with _FAST_CLONE: node by node into a new table of the same size.
  unfoldable pub clone : Table K V → Table K V
  clone t =
      let fresh = create t.size in
      record fresh {
        nodes = λ i. if ltb i t.size then t.nodes i else fresh.nodes i;
        first_free = t.first_free;
        used_nodes = t.used_nodes;
        class_type_id = t.class_type_id;
      }

-- The loop of `Next`, from node `idx` on with `n` nodes left.
unfoldable pub next_from : {K V : Type 0} → ℕ → ℕ → (ℕ → Node K V) → Option ℕ
next_from idx zero nodes = none
next_from idx (suc n) nodes =
    let rest = next_from (idx + 1) n nodes in if is_none (nodes idx).key then rest else some idx

-- `Next`: a key, its value and where to go on; none for -1.
unfoldable pub next : {K V : Type 0} → ℕ → Table K V → Option (K × V × ℕ)
next idx t = elim (next_from idx (t.size - idx) t.nodes) [
  | none ↦ none
  | some i ↦ elim (t.nodes i).key [ none ↦ none | some k ↦ some (k, (t.nodes i).val, i + 1) ]
]
