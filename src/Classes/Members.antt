-- ===== src/Classes/Members.antt =====
-- The table of members of an SQClass (squirrel/sqclass.h), by what the class asks of it: a finite map
-- from names to members' numbers. The hash table of squirrel/sqtable.cpp is one (Classes/Tables).
use quirrel.Prelude.{ℕ, ◌≤◌, ◌<◌, ◌≡◌, ◌↔◌, Bool, true, if◌then◌else◌, Option, none, some}

pub record Members (K : Type 0) : Type 1 where
  pub same : K → K → Bool
  pub same_iff : (a b : K) → (same a b ≡ true) ↔ (a ≡ b)
  pub Map : Type 0
  pub IsValid : Map → Type 0
  pub create : Map
  pub get : K → Map → Option ℕ
  pub new_slot : K → ℕ → Map → Map
  pub clone : Map → Map
  pub count_used : Map → ℕ
  pub create-IsValid : IsValid create
  pub get-create : (k : K) → get k create ≡ none
  pub new_slot-IsValid : (k : K) (v : ℕ) (t : Map) → IsValid t → IsValid (new_slot k v t)
  pub get-new_slot :
      (j k : K) (v : ℕ) (t : Map)
      → IsValid t
      → get j (new_slot k v t) ≡ (if same k j then some v else get j t)
  pub clone-IsValid : (t : Map) → IsValid t → IsValid (clone t)
  pub get-clone : (k : K) (t : Map) → IsValid t → get k (clone t) ≡ get k t
  -- Names that differ and are there are not more than the count.
  pub few_names :
      (t : Map) (n : ℕ) (name : ℕ → K)
      → IsValid t
      → ((i : ℕ) → i < n → (v : ℕ) × (get (name i) t ≡ some v))
      → ((i j : ℕ) → i < n → j < n → name i ≡ name j → i ≡ j)
      → n ≤ count_used t
