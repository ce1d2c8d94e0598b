-- ===== src/Classes/Carried.antt =====
-- What an SQClass of squirrel/sqclass.cpp keeps where only its other fields change: where it is locked,
-- where a metamethod is set, and where another class inherits from it.
use quirrel.Prelude.{ℕ, ◌≡◌, refl, ◌∙◌, Bool, Option, some, arith}
use quirrel.Classes.Members.{Members}
use quirrel.Classes.Class.{ObjectPtr, Class, class_get, slot_value, inherit, new_root}
use quirrel.Classes.Sound.{IsSoundFor, IsSound, Owners, IsMember, a_field, a_method, a_native}

module _ {K F : Type 0} {m : Members K} (c : Class m F) (table : m.Map) (base : Option ℕ)
    (metamethods : ℕ → ObjectPtr F) (locked_type_id : ℕ) (is_builtin_type : Bool) where
  -- The class with all its members, kept in another table.
  abbrev pub carried : Class m F
  carried = record c {
    members = table;
    base = base;
    metamethods = metamethods;
    locked_type_id = locked_type_id;
    is_builtin_type = is_builtin_type;
  }

  module _ (same : (k : K) → m.get k table ≡ m.get k c.members) where
    pub carried-get : (k : K) → class_get k carried ≡ class_get k c
    unfolding class_get slot_value
    carried-get k = rw (class_get, same k) refl

    pub carried-IsSoundFor :
        (o : Owners K) → m.IsValid table → IsSoundFor c o → IsSoundFor carried o
    carried-IsSoundFor o valid s = record {
      valid = valid;
      member = λ j i e. moved j i (s.member j i (found j i e));
      fields_there = λ j h. same (o.field j) ∙ s.fields_there j h;
      natives_there = λ j h. same (o.native j) ∙ s.natives_there j h;
      methods_there = λ j h. let (i, e) = s.methods_there j h in (i, same (o.method j) ∙ e);
      methods_apart = s.methods_apart;
      few_fields = s.few_fields;
      few_natives = s.few_natives;
      few_methods = s.few_methods;
      constructor_there = s.constructor_there;
      natives_inside = s.natives_inside;
    }
      where
        found : (j : K) (i : ℕ) → m.get j table ≡ some i → m.get j c.members ≡ some i
        found j i e = let g = same j in cc

        moved : (j : K) (i : ℕ) → IsMember c o j i → IsMember carried o j i
        moved j i (a_field b at h e) = a_field b at h e
        moved j i (a_method b at h e) = a_method b at h e
        moved j i (a_native b at h e) = a_native b at h e

module _ {K F : Type 0} {m : Members K} where
  -- A class that inherits has the members of its base, with the same values, is sound if the base is,
  -- and is not locked.
  pub inherit-get :
      (address : ℕ) (c : Class m F)
      → IsSound c
      → IsSound (inherit address c) × ((k : K) → class_get k (inherit address c) ≡ class_get k c)
  unfolding inherit
  inherit-get address c s =
      let same = λ (k : K). m.get-clone k c.members s.sound.valid in
      let valid = m.clone-IsValid c.members s.sound.valid in
      (
        record {
          owners = s.owners;
          sound =
              carried-IsSoundFor c (m.clone c.members) (some address) c.metamethods 0 Bool.false
                same s.owners valid s.sound;
        },
        carried-get c (m.clone c.members) (some address) c.metamethods 0 Bool.false same,
      )

  -- A class without a base is sound. `k` is any name.
  pub new_root-IsSound : (k : K) → IsSound {F = F} {m = m} new_root
  unfolding new_root
  new_root-IsSound k = record {
    owners = record { field = λ i. k; method = λ i. k; native = λ i. k };
    sound = record {
      valid = m.create-IsValid;
      member = λ j i e. absurd (none_there j i e);
      fields_there = λ j h. absurd (elim h [ ]);
      natives_there = λ j h. absurd (elim h [ ]);
      methods_there = λ j h. absurd (elim h [ ]);
      methods_apart = λ i j h. absurd (elim h [ ]);
      few_fields = omega arith;
      few_natives = omega arith;
      few_methods = omega arith;
      constructor_there = λ j e. absurd (cc);
      natives_inside = λ j d e. absurd (cc);
    };
  }
    where
      none_there : (j : K) (i : ℕ) → m.get j m.create ≡ some i → ⊥
      none_there j i e = let g = m.get-create j in cc
