-- ===== src/Tests/Tables.antt =====
-- squirrel/sqtable.cpp with numbers for keys, which are their own hashes.
use mathlib.Core.List.{Memᴰ}
use quirrel.Prelude.{
  ◌^◌, ℕ, ◌<◌, ◌≤◌, ◌≡◌, ◌≢◌, ◌⊎◌, inl, inr, arith, false, true, length, suc, ◌↔◌, ◌*◌, refl, sym,
  subst, Bool, ◌&&◌, not, ◌==◌, ==_iff, if◌then◌else◌,
}
use quirrel.Prelude.{Option, none, some}
use quirrel.Table.Nodes.{
  KeyOps, Placed, Table, get, set_val, get_node, is_none, get_from, found, missing, previous_of,
  open_below, place, class_type_id_with,
}
use quirrel.Table.Slots.{
  clear, new_slot, insert, rehash, reinsert, rehash_size, floor_log2, pow2_size, create, clone,
  remove,
}
use quirrel.Table.Valid.{Means, IsValid, get_node-cases}
use quirrel.Table.Places.{Places, place-Places}
use quirrel.Table.Rehash.{rehash-IsValid}
use quirrel.Table.Copies.{clone-get, clear-get}
use quirrel.Table.Iteration.{walk, walk-get}
use quirrel.Table.Updates.{Updates, set_val-get, new_slot-get}
use quirrel.Table.Remove.{remove-get}
use quirrel.Table.Create.{create-get}

abbrev numbers : KeyOps ℕ
numbers = record {
  hash = λ k. k;
  same = λ a b. a == b;
  same_iff = ==_iff;
  string_address = λ k. none;
}

-- One node.
abbrev smallest : Table ℕ ℕ
smallest = create numbers 0 1

smallest-IsValid : IsValid numbers smallest
smallest-IsValid = (create-get numbers 0 1 (omega arith)).0

program : Unit {0}
unfolding new_slot insert rehash reinsert rehash_size floor_log2 pow2_size create remove get_from
    previous_of open_below place class_type_id_with get set_val
program = tt

-- The keys 1, 5 and 9 collide; the table grows twice; 5 is removed.
abbrev session : Option (Table ℕ ℕ)
session = elim (new_slot numbers 0 2 1 10 smallest) [
  | none ↦ none
  | some (a, x) ↦ elim (new_slot numbers 0 2 5 50 a) [
    | none ↦ none
    | some (b, y) ↦ elim (new_slot numbers 0 2 9 90 b) [
      | none ↦ none
      | some (c, z) ↦ remove numbers 0 1 5 c
    ]
  ]
]

abbrev reads : Option (Table ℕ ℕ) → ℕ → Option ℕ
reads none k = none
reads (some t) k = get numbers k t

session_nine : reads session 9 ≡ some 90
unfolding program
session_nine = refl

session_five : reads session 5 ≡ none
unfolding program
session_five = refl

session_one : reads session 1 ≡ some 10
unfolding program
session_one = refl

new_slot-get_example :
    (t' : Table ℕ ℕ) × (new : Bool) × (new_slot numbers 0 2 5 50 smallest ≡ some (t', new))
    × Updates numbers 5 (some 50) smallest t'
new_slot-get_example = new_slot-get numbers 0 0 5 50 smallest smallest-IsValid

abbrev table_of : Option (Table ℕ ℕ × Bool) → Table ℕ ℕ
table_of none = smallest
table_of (some (t, new)) = t

-- Key 5 alone.
abbrev single : Table ℕ ℕ
single = table_of (new_slot numbers 0 2 5 50 smallest)

single-IsValid : IsValid numbers single
single-IsValid =
    let (t, new, run, law) = new_slot-get numbers 0 0 5 50 smallest smallest-IsValid in
    subst (λ o. IsValid numbers (table_of o)) (sym run) law.0

remove-get_example :
    (t' : Table ℕ ℕ) × (remove numbers 0 1 5 single ≡ some t') × Updates numbers 5 none single t'
remove-get_example = remove-get numbers 0 0 5 single single-IsValid

set_val-get_example :
    (t' : Table ℕ ℕ) × (written : Bool) × (set_val numbers 5 7 single ≡ (t', written))
    × IsValid numbers t'
    × ((j : ℕ) → get numbers j t' ≡ (if written && (5 == j) then some 7 else get numbers j single))
    × (written ≡ not (is_none (get numbers 5 single)))
set_val-get_example = set_val-get numbers 5 7 single single-IsValid

abbrev eight : Table ℕ ℕ
eight = create numbers 0 5

create-get_example :
    IsValid numbers eight
    × ((j : ℕ) → get numbers j eight ≡ none)
    × (5 ≤ eight.size)
    × ((eight.size ≡ 1) ⊎ (eight.size < 5 * 2))
    × (eight.size ≤ 2 ^ 32)
create-get_example = create-get numbers 0 5 (omega arith)

get_node-cases_example :
    ((i : ℕ) × (get_node numbers 5 single ≡ found i) × ((single.nodes i).key ≡ some 5))
    ⊎ ((get_node numbers 5 single ≡ missing) × ((i : ℕ) → (single.nodes i).key ≢ some 5))
get_node-cases_example = get_node-cases numbers single single-IsValid.chained 5

half_of_eight : rehash_size false 8 1 ≡ some 4
unfolding program
half_of_eight = refl

rehash-IsValid_example :
    (s : Table ℕ ℕ) × (rehash numbers 0 (new_slot numbers 0 1) false single ≡ some s)
    × IsValid numbers s
    × ((f : ℕ → Option ℕ) → Means single.nodes f → Means s.nodes f)
rehash-IsValid_example = rehash-IsValid numbers 0 single single-IsValid 0

-- Key 9 has the main position of key 5.
no_nine : get_node numbers 9 single ≡ missing
unfolding program
no_nine = refl

nine-absent : (i : ℕ) → (single.nodes i).key ≢ some 9
nine-absent = elim (get_node-cases numbers single single-IsValid.chained 9) [
  | inl (i, e, h) ↦ absurd (ground (arith, no_nine))
  | inr (e, absent) ↦ absent
]

place-Places_example :
    (p : Placed ℕ ℕ) × (place numbers 0 9 single ≡ some p) × Places numbers single 9 p
place-Places_example = place-Places numbers 0 9 single single-IsValid nine-absent

clone-get_example :
    IsValid numbers (clone numbers 0 single)
    × ((j : ℕ) → get numbers j (clone numbers 0 single) ≡ get numbers j single)
    × ((clone numbers 0 single).size ≡ single.size)
clone-get_example = clone-get numbers 0 single single-IsValid

clear-get_example :
    (t : Table ℕ ℕ) × (clear numbers 0 1 true single ≡ some t)
    × IsValid numbers t
    × ((j : ℕ) → get numbers j t ≡ none)
clear-get_example = clear-get numbers 0 0 true single single-IsValid

walk-get_example :
    (length (walk (suc single.size) 0 single) ≡ single.used_nodes)
    × ((k v : ℕ) → Memᴰ (k, v) (walk (suc single.size) 0 single) ↔ (get numbers k single ≡ some v))
walk-get_example = walk-get numbers single single-IsValid

abbrev says_new : Option (Table ℕ ℕ × Bool) → Bool
says_new none = false
says_new (some (t, new)) = new

-- Key 5 is new, but the table grows for it.
grows_unsaid : says_new (new_slot numbers 0 2 5 50 smallest) ≡ false
unfolding program
grows_unsaid = refl
