-- ===== src/Types/Functions/Aligned.antt =====
-- The lists of an SQFunctionType that sq_parse_function_type_string (squirrel/compiler/sqtypeparser.cpp)
-- fills go together.
use quirrel.Prelude.{
  ℕ, zero, suc, ◌+◌, ◌≤◌, ◌≡◌, refl, inl, inr, Bool, true, false, not, subst, ◌==◌, if◌then◌else◌,
  length, length-append, arith, Option-cases,
}
use quirrel.Prelude.{Option, [], ◌∷◌, ◌++◌, Result, ok, err}
use quirrel.Types.Names.{Bytes, skip_spaces, parse_identifier}
use quirrel.Types.Functions.Text.{
  FunctionType, FunctionError, fail, ◌>>=◌, at, starts_with, type_mask_of, unexpected_characters,
}
use quirrel.Types.Functions.Arguments.{
  ArgState, any_mask, past, after_colon, ellipsis_arg, arg_mask, arg_default, add_arg, arg_end,
  is_required, named_arg, arg_step, parse_args,
}
use quirrel.Types.Functions.Parse.{
  parse_modifiers, method_name, bracket_name, word_mask, plain_name, parse_end, parse_signature,
  parse_function_type_string,
}

-- A name for each mask and, behind `old` default values of before, one of the values; the arguments that
-- are required are among them.
pub record IsAligned (old : ℕ) (res : FunctionType) : Type 0 where
  pub masks : length res.arg_type_mask ≡ length res.arg_names
  pub values : length res.default_values ≡ old + length res.arg_names
  pub required : res.required_args ≤ length res.arg_names

-- A result has the property, if there is one.
data Gives {B : Type 0} (P : B → Type 0) : Result FunctionError B → Type 0 where
  gives : {b : B} → P b → Gives P (ok b)
  fails : {e : FunctionError} → Gives P (err e)

module _ {B C : Type 0} (P : C → Type 0) where
  Gives-bind :
      (m : Result FunctionError B) (f : B → Result FunctionError C)
      → ((b : B) → Gives P (f b))
      → Gives P (m >>= f)
  Gives-bind (ok b) f h = h b
  Gives-bind (err e) f h = fails

  Gives-then :
      {Q : B → Type 0} {m : Result FunctionError B} (f : B → Result FunctionError C)
      → Gives Q m
      → ((b : B) → Q b → Gives P (f b))
      → Gives P (m >>= f)
  Gives-then f (gives {b} q) h = h b q
  Gives-then f fails h = fails

Gives-if :
    {B : Type 0} {P : B → Type 0} (b : Bool) {x y : Result FunctionError B}
    → Gives P x
    → Gives P y
    → Gives P (if b then x else y)
Gives-if true p q = p
Gives-if false p q = q

module _ (old : ℕ) where
  abbrev Args : ArgState × Bytes → Type 0
  Args r = IsAligned old r.0.res

  abbrev Types : FunctionType × Bytes → Type 0
  Types r = IsAligned old r.0

  add_arg-IsAligned :
      (st : ArgState) (name : Bytes) (mask : ℕ) (value : Option Bytes)
      → IsAligned old st.res
      → IsAligned old (add_arg st name mask value).res
  add_arg-IsAligned st name mask value h = record {
    masks = omega (
      arith,
      h.masks,
      length-append st.res.arg_type_mask (mask ∷ []),
      length-append st.res.arg_names (name ∷ []),
    );
    values = omega (
      arith,
      h.values,
      length-append st.res.default_values (value ∷ []),
      length-append st.res.arg_names (name ∷ []),
    );
    required = at_most (is_required st value);
  }
    where
      at_most :
          (b : Bool)
          → (if b then st.res.required_args + 1 else st.res.required_args)
            ≤ length (st.res.arg_names ++ name ∷ [])
      at_most true = omega (arith, h.required, length-append st.res.arg_names (name ∷ []))
      at_most false = omega (arith, h.required, length-append st.res.arg_names (name ∷ []))

  named_arg-Gives : (st : ArgState) (p : Bytes) → IsAligned old st.res → Gives Args (named_arg st p)
  unfolding named_arg arg_end
  named_arg-Gives st p h = elim (Option-cases (parse_identifier p)) [
    | inl e ↦ rw (named_arg, e) fails
    | inr ((name, q), e) ↦
        rw (named_arg, e)
          (Gives-bind Args (arg_mask (skip_spaces q)) _ λ (mask, r).
            Gives-bind Args (arg_default st r) _ λ (value, t).
              Gives-if (at b',' (skip_spaces t)) (gives (add_arg-IsAligned st name mask value h))
                (Gives-if _ (gives (add_arg-IsAligned st name mask value h)) fails))
  ]

  same_lists :
      {res : FunctionType} (mask : ℕ)
      → IsAligned old res
      → IsAligned old (record res { ellipsis_arg_type_mask = mask })
  same_lists mask h = record { masks = h.masks; values = h.values; required = h.required }

  arg_step-Gives : (st : ArgState) (p : Bytes) → IsAligned old st.res → Gives Args (arg_step st p)
  unfolding arg_step ellipsis_arg
  arg_step-Gives st [] h = fails
  arg_step-Gives st (c ∷ p) h =
      Gives-if (c == b'[')
        (Gives-if st.inside_optional fails (Gives-if st.optional_block_finished fails (gives h)))
        (Gives-if (c == b']') (Gives-if st.inside_optional (gives h) fails) (
          Gives-if (c == b',') (Gives-if st.argument_processed (gives h) fails) (
            Gives-if (starts_with (b'.' ∷ b'.' ∷ b'.' ∷ []) (c ∷ p))
              (Gives-if _ fails (
                Gives-bind Args (after_colon any_mask _) _
                  λ (mask, q). Gives-if _ (gives (same_lists mask h)) fails))
              (Gives-if st.optional_block_finished fails (named_arg-Gives st (c ∷ p) h)))))

  parse_args-Gives :
      (f : ℕ) (st : ArgState) (p : Bytes) → IsAligned old st.res → Gives Args (parse_args f st p)
  unfolding parse_args
  parse_args-Gives zero st p h = fails
  parse_args-Gives (suc f) st p h = Gives-if (at b')' p) (gives h) (
      Gives-then Args _ (arg_step-Gives st (skip_spaces p) h)
        λ (st', q) g. parse_args-Gives f st' q g)

  abbrev Whole : FunctionType → Type 0
  Whole res = IsAligned old res

  parse_signature-Gives :
      (res : FunctionType) (p : Bytes) → IsAligned old res → Gives Whole (parse_signature res p)
  unfolding parse_signature parse_end
  parse_signature-Gives res p h = Gives-if (not (at b'(' p)) fails (
      Gives-then Whole _ (parse_args-Gives (length p + 1) _ (skip_spaces (past p)) h) λ (st, q) g.
        Gives-if st.inside_optional fails (
          Gives-bind Whole (after_colon st.res.return_type_mask (skip_spaces (past q))) _
            λ (mask, r). ended mask (skip_spaces r) st.res g))
    where
      ended :
          (mask : ℕ) (q : Bytes) (res : FunctionType)
          → IsAligned old res
          → Gives Whole (elim q [
            | [] ↦ ok (record res { return_type_mask = mask })
            | c ∷ r ↦ fail unexpected_characters (c ∷ r)
          ])
      ended mask [] res g =
          gives (record { masks = g.masks; values = g.values; required = g.required })
      ended mask (c ∷ r) res g = fails

  -- `pure` and `nodiscard` leave the lists alone.
  parse_modifiers-Gives :
      (f : ℕ) (res : FunctionType) (p : Bytes)
      → IsAligned old res
      → Gives Types (parse_modifiers f res p)
  unfolding parse_modifiers
  parse_modifiers-Gives zero res p h = fails
  parse_modifiers-Gives (suc f) res p h =
      Gives-if _
        (parse_modifiers-Gives f (record res { is_pure = true }) (skip_spaces _)
          (record { masks = h.masks; values = h.values; required = h.required }))
        (Gives-if _
          (parse_modifiers-Gives f (record res { nodiscard = true }) (skip_spaces _)
            (record { masks = h.masks; values = h.values; required = h.required }))
          (gives h))

  bracket_name-Gives :
      (res : FunctionType) (p : Bytes) → IsAligned old res → Gives Types (bracket_name res p)
  unfolding bracket_name
  bracket_name-Gives res p h = Gives-bind Types (type_mask_of p) _ λ (mask, q). Gives-if _ fails (
      Gives-bind Types (method_name _) _
        λ (name, r). gives (record { masks = h.masks; values = h.values; required = h.required }))

  plain_name-Gives :
      (res : FunctionType) (p : Bytes) → IsAligned old res → Gives Types (plain_name res p)
  unfolding plain_name
  plain_name-Gives res p h = elim (Option-cases (parse_identifier p)) [
    | inl e ↦ rw (plain_name, e) fails
    | inr ((word, q), e) ↦
        rw (plain_name, e)
          (Gives-if (not (at b'.' q))
            (gives (record { masks = h.masks; values = h.values; required = h.required }))
            (Gives-bind Types (method_name (skip_spaces (past q))) _ λ (name, r).
              Gives-bind Types (word_mask word q) _ λ mask.
                gives (record { masks = h.masks; values = h.values; required = h.required })))
  ]

result-Gives :
    (res : FunctionType) (s : Bytes)
    → Gives (IsAligned (length res.default_values)) (parse_function_type_string res s)
unfolding parse_function_type_string
result-Gives res [] = fails
result-Gives res (c ∷ s) =
    let old = length res.default_values in
    Gives-then (IsAligned old) _
      (parse_modifiers-Gives old (length s + 2) _ (skip_spaces (c ∷ s))
        (record { masks = refl; values = omega arith; required = omega arith }))
      λ (base, p) h.
        Gives-then (IsAligned old) _
          (Gives-if (at b'(' p) (bracket_name-Gives old base p h) (plain_name-Gives old base p h))
          λ (named, q) g. parse_signature-Gives old named (skip_spaces q) g

-- A function type that sq_parse_function_type_string returns has a mask for each argument's name and, behind
-- the default values that `res` held before, one for each name; it requires no more arguments than it names.
pub parse_function_type_string-IsAligned :
    (res out : FunctionType) (s : Bytes)
    → parse_function_type_string res s ≡ ok out
    → IsAligned (length res.default_values) out
parse_function_type_string-IsAligned res out s e =
    taken (parse_function_type_string res s) (result-Gives res s) e
  where
    taken :
        (r : Result FunctionError FunctionType)
        → Gives (IsAligned (length res.default_values)) r
        → r ≡ ok out
        → IsAligned (length res.default_values) out
    taken r (gives {b} h) e =
        let same : b ≡ out = cc in subst (IsAligned (length res.default_values)) same h
    taken r fails e = absurd (cc)
