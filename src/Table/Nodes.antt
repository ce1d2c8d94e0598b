-- ===== src/Table/Nodes.antt =====
-- squirrel/sqtable.h and squirrel/sqtable.cpp: the nodes of an SQTable, searching them, and placing a
-- new key. A pointer to a node is the node's index in `_nodes`.
use Prim.Native.Nat.{bit_xor, bit_and}
use quirrel.Prelude.{
  ℕ, zero, suc, ◌-◌, ◌*◌, ◌/◌, ◌%◌, ◌^◌, ◌≡◌, ◌↔◌, Bool, true, false, not, ◌&&◌, ◌||◌, ◌==◌, ltb,
  if◌then◌else◌,
}
use quirrel.Prelude.{Option, none, some}

-- What the table asks of an SQObjectPtr as a key: HashObj, the test that types and raw values agree,
-- and the SQString's address if it is a string.
pub record KeyOps (K : Type 0) : Type 0 where
  pub hash : K → ℕ
  pub same : K → K → Bool
  pub same_iff : (a b : K) → (same a b ≡ true) ↔ (a ≡ b)
  pub string_address : K → Option ℕ

-- `key` is none for OT_FREE_TABLE_SLOT.
pub record Node (K V : Type 0) : Type 0 where
  pub key : Option K
  pub val : V
  pub next : Option ℕ

-- `size` is `_numofnodes_minus_one` and one, which 32 bits hold: a table has at most 2 ^ 32 nodes.
-- The delegate and the allocator play no part.
pub record Table (K V : Type 0) : Type 0 where
  pub nodes : ℕ → Node K V
  pub size : ℕ
  pub first_free : ℕ
  pub used_nodes : ℕ
  pub class_type_id : ℕ

-- What a walk along a chain comes to: a node, the end of the chain, or no end within the fuel.
pub data Search : Type 0 where
  found : ℕ → Search
  missing exhausted : Search

abbrev pub is_none : {A : Type 0} → Option A → Bool
is_none none = true
is_none (some a) = false

module _ {K V : Type 0} where
  -- `&_nodes[i]` after a write.
  abbrev pub put : (ℕ → Node K V) → ℕ → Node K V → ℕ → Node K V
  put nodes i n j = if i == j then n else nodes j

  -- A free node that no chain goes through.
  abbrev pub is_open : Node K V → Bool
  is_open n = is_none n.key && is_none n.next

  -- `while (othern->next != mp) othern = othern->next;`
  unfoldable pub previous_of : ℕ → (ℕ → Node K V) → ℕ → ℕ → Search
  previous_of zero nodes mp i = exhausted
  previous_of (suc f) nodes mp i = elim (nodes i).next [
    | none ↦ missing
    | some j ↦ if j == mp then found i else previous_of f nodes mp j
  ]

  -- The correction of `_firstfree`, which goes down from where it is.
  unfoldable pub open_below : (ℕ → Node K V) → ℕ → Option ℕ
  open_below nodes zero = if is_open (nodes zero) then some zero else none
  open_below nodes (suc i) = if is_open (nodes (suc i)) then some (suc i) else open_below nodes i

module _ {K : Type 0} (ops : KeyOps K) where
  abbrev pub holds_key : K → Option K → Bool
  holds_key k none = false
  holds_key k (some j) = ops.same j k

  -- `HashObj(key) & _numofnodes_minus_one`
  abbrev pub slot_of : K → ℕ → ℕ
  slot_of k size = bit_and (ops.hash k) (size - 1)

module _ {K V : Type 0} (ops : KeyOps K) where
  -- `_Get(key, hash)` and `_GetStr`.
  unfoldable pub get_from : ℕ → K → (ℕ → Node K V) → ℕ → Search
  get_from zero k nodes i = exhausted
  get_from (suc f) k nodes i =
      let rest : Search = elim (nodes i).next [ none ↦ missing | some j ↦ get_from f k nodes j ] in
      if holds_key ops k (nodes i).key then found i else rest

  abbrev pub get_node : K → Table K V → Search
  get_node k t = get_from t.size k t.nodes (slot_of ops k t.size)

  -- `Get`
  unfoldable pub get : K → Table K V → Option V
  get k t = elim (get_node k t) [
    | found i ↦ some (t.nodes i).val
    | missing ↦ none
    | exhausted ↦ none
  ]

  -- `Set`
  unfoldable pub set_val : K → V → Table K V → Table K V × Bool
  set_val k v t = elim (get_node k t) [
    | found i ↦ (record t { nodes = put t.nodes i (record (t.nodes i) { val = v }) }, true)
    | missing ↦ (t, false)
    | exhausted ↦ (t, false)
  ]

-- A node put in the place of another: the nodes after it, and where the new key goes.
pub record Placed (K V : Type 0) : Type 0 where
  pub after : ℕ → Node K V
  pub spot : ℕ

module _ {K V : Type 0} (ops : KeyOps K) (null : V) where
  -- The colliding node `mp` moves to the free node `n`, and `othern` before it is led to `n`.
  abbrev pub move_collider : (ℕ → Node K V) → ℕ → ℕ → ℕ → Placed K V
  move_collider nodes mp n othern =
      let led = put nodes othern (record (nodes othern) { next = some n }) in
      let moved =
        put led n (record { key = (led mp).key; val = (led mp).val; next = (led mp).next }) in
      record { after = put moved mp (record { key = none; val = null; next = none }); spot = mp }

  -- The new node goes into the free node `n`, behind `mp`.
  abbrev pub chain_new : (ℕ → Node K V) → ℕ → ℕ → Placed K V
  chain_new nodes mp n =
      let led = put nodes n (record (nodes n) { next = (nodes mp).next }) in
      record { after = put led mp (record (led mp) { next = some n }); spot = n }

  -- The node for a key that is not there; none where the walk for `othern` would leave the chain.
  unfoldable pub place : K → Table K V → Option (Placed K V)
  place k t =
      let mp = slot_of ops k t.size in
      let n = t.first_free in
      elim (t.nodes mp).key [
        | none ↦ some (record { after = t.nodes; spot = mp })
        | some other ↦
            let mph = slot_of ops other t.size in
            if ltb n mp && not (mph == mp)
            then elim (previous_of t.size t.nodes mp mph) [
              | found othern ↦ some (move_collider t.nodes mp n othern)
              | missing ↦ none
              | exhausted ↦ none
            ]
            else some (chain_new t.nodes mp n)
      ]

module _ {K V : Type 0} (null : V) where
  abbrev pub free_node : Node K V
  free_node = record { key = none; val = null; next = none }

  -- `AllocNodes`
  abbrev pub alloc_nodes : ℕ → Table K V → Table K V
  alloc_nodes n t = record t { nodes = λ _. free_node; size = n; first_free = n - 1 }

-- 14695981039346656037 and 1099511628211: an FNV hash on 64 bits.
abbrev pub class_type_hash_init : ℕ
class_type_hash_init = 14695981039346656037

abbrev pub class_type_hash_prime : ℕ
class_type_hash_prime = 1099511628211

unfoldable pub class_type_hash_update_1 : ℕ → ℕ → ℕ
class_type_hash_update_1 hashval x = bit_xor hashval x * class_type_hash_prime % 2 ^ 64

unfoldable pub class_type_hash_update_4 : ℕ → ℕ → ℕ
class_type_hash_update_4 hashval x =
    class_type_hash_update_1
      (class_type_hash_update_1
        (class_type_hash_update_1 (class_type_hash_update_1 hashval (x % 256)) (x / 256 % 256))
        (x / 65536 % 256))
      (x / 16777216 % 256)

-- The class type id behind the insertion of a key at `spot`: kept by tables of at most 32 nodes all
-- of whose keys are strings.
unfoldable pub class_type_id_with : {K V : Type 0} → KeyOps K → K → ℕ → Table K V → ℕ
class_type_id_with ops k spot t = elim (ops.string_address k) [
  | none ↦ 0
  | some address ↦
      if ltb (t.size - 1) 32
      then if not (t.class_type_id == 0) || t.used_nodes == 0
        then class_type_hash_update_4
            (class_type_hash_update_1
              (if t.class_type_id == 0 then class_type_hash_init else t.class_type_id) (spot % 256))
            (address / 8 % 2 ^ 32)
        else t.class_type_id
      else 0
]
