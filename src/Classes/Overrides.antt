-- ===== src/Classes/Overrides.antt =====
-- An SQClass member that is there is written again (NewSlot of squirrel/sqclass.cpp).
use quirrel.Prelude.{ℕ, ◌<◌, ◌≡◌, refl, sym, ap, ◌∙◌, some, length, set, arith, length-set}
use quirrel.Classes.Index.{make_method_idx, make_field_idx}
use quirrel.Classes.Members.{Members}
use quirrel.Classes.Class.{ObjectPtr, Class, map_done, real_val}
use quirrel.Classes.Sound.{
  IsSoundFor, Owners, IsMember, a_field, a_method, a_native, slot_value-field, slot_value-method,
}
use quirrel.Classes.Places.{Reads, Keeps-Reads, read-set_self, read-set_ne}

module _ {K F : Type 0} {m : Members K} {c : Class m F} {o : Owners K} (s : IsSoundFor c o) (k : K)
    (v : ObjectPtr F) (a : ℕ) (inside : a < length c.default_values) where
  -- A field with another default value.
  abbrev pub overridden : Class m F
  overridden = record c { default_values = set c.default_values a v }

  default_count : length (set c.default_values a v) ≡ length c.default_values
  default_count = length-set c.default_values a v

  pub overridden-IsSoundFor : IsSoundFor overridden o
  overridden-IsSoundFor = record {
    valid = s.valid;
    member = λ j i e. moved j i (s.member j i e);
    fields_there = λ j h. s.fields_there j (omega (arith, default_count));
    natives_there = s.natives_there;
    methods_there = λ j h. s.methods_there j (omega (arith, default_count));
    methods_apart = λ i j h l.
        s.methods_apart i j (omega (arith, default_count)) (omega (arith, default_count));
    few_fields = omega (arith, default_count, s.few_fields);
    few_natives = s.few_natives;
    few_methods = omega (arith, default_count, s.few_methods);
    constructor_there = λ j e. omega (arith, default_count, s.constructor_there j e);
    natives_inside = s.natives_inside;
  }
    where
      moved : (j : K) (i : ℕ) → IsMember c o j i → IsMember overridden o j i
      moved j i (a_field b at h e) = a_field b at (omega (arith, default_count)) e
      moved j i (a_method b at h e) = a_method b at (omega (arith, default_count)) e
      moved j i (a_native b at h e) = a_native b at h e

  pub overridden-Reads : o.field a ≡ k → Reads k (real_val v) c overridden
  overridden-Reads own =
      Keeps-Reads s overridden k (real_val v) (make_field_idx a)
        (ap (λ n. m.get n c.members) (sym own) ∙ s.fields_there a inside)
        (slot_value-field overridden a (omega (arith, default_count))
            (omega (arith, default_count, s.few_fields))
          ∙ ap (map_done real_val) (read-set_self c.default_values a v inside))
        (λ j ne. refl)
        λ j ne. record {
          few_fields = omega (arith, default_count, s.few_fields);
          few_methods = s.few_methods;
          few_natives = s.few_natives;
          more_fields = omega (arith, default_count);
          more_methods = omega arith;
          more_natives = omega arith;
          field =
              λ b h e. read-set_ne c.default_values a b v (λ eq. ne (sym own ∙ ap o.field eq ∙ e));
          method = λ b h e. refl;
        }

module _ {K F : Type 0} {m : Members K} {c : Class m F} {o : Owners K} (s : IsSoundFor c o) (k : K)
    (v : ObjectPtr F) (a : ℕ) (inside : a < length c.methods) where
  -- A method with another closure.
  abbrev pub redefined : Class m F
  redefined = record c { methods = set c.methods a v }

  method_count : length (set c.methods a v) ≡ length c.methods
  method_count = length-set c.methods a v

  pub redefined-IsSoundFor : IsSoundFor redefined o
  redefined-IsSoundFor = record {
    valid = s.valid;
    member = λ j i e. moved j i (s.member j i e);
    fields_there = λ j h. s.fields_there j (omega (arith, method_count));
    natives_there = s.natives_there;
    methods_there = λ j h. s.methods_there j (omega (arith, method_count));
    methods_apart =
        λ i j h l. s.methods_apart i j (omega (arith, method_count)) (omega (arith, method_count));
    few_fields = omega (arith, method_count, s.few_fields);
    few_natives = s.few_natives;
    few_methods = omega (arith, method_count, s.few_methods);
    constructor_there = λ j e. omega (arith, method_count, s.constructor_there j e);
    natives_inside = s.natives_inside;
  }
    where
      moved : (j : K) (i : ℕ) → IsMember c o j i → IsMember redefined o j i
      moved j i (a_field b at h e) = a_field b at (omega (arith, method_count)) e
      moved j i (a_method b at h e) = a_method b at (omega (arith, method_count)) e
      moved j i (a_native b at h e) = a_native b at h e

  pub redefined-Reads :
      o.method a ≡ k → m.get k c.members ≡ some (make_method_idx a) → Reads k v c redefined
  redefined-Reads own there =
      Keeps-Reads s redefined k v (make_method_idx a) there
        (slot_value-method redefined a (omega (arith, method_count))
            (omega (arith, method_count, s.few_methods))
          ∙ read-set_self c.methods a v inside)
        (λ j ne. refl)
        λ j ne. record {
          few_fields = s.few_fields;
          few_methods = omega (arith, method_count, s.few_methods);
          few_natives = s.few_natives;
          more_fields = omega arith;
          more_methods = omega (arith, method_count);
          more_natives = omega arith;
          field = λ b h e. refl;
          method = λ b h e. read-set_ne c.methods a b v (λ eq. ne (sym own ∙ ap o.method eq ∙ e));
        }
