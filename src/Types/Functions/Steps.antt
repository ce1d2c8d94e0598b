-- ===== src/Types/Functions/Steps.antt =====
-- The arguments of a function type (squirrel/compiler/sqtypeparser.cpp) on every text.
use quirrel.Prelude.{
  ℕ, zero, suc, ◌≤◌, ◌<◌, ◌≡◌, refl, inl, inr, true, not, ◌==◌, length, drop, length-drop, arith,
  Option-cases,
}
use quirrel.Prelude.{[], ◌∷◌}
use quirrel.Types.Names.{Bytes, skip_spaces, parse_identifier}
use quirrel.Types.Parses.{length-skip_spaces, length-parse_identifier}
use quirrel.Types.Functions.Text.{at, starts_with}
use quirrel.Types.Functions.Arguments.{
  ArgState, any_mask, past, ellipsis_arg, arg_mask, arg_default, add_arg, arg_end, named_arg,
  arg_step, parse_args,
}
use quirrel.Types.Functions.Ends.{
  Ends, reaches, reports, Ends-bind, Ends-if, Ends-test, Ends-longer, length-past,
  length-starts_with, type_mask_of-Ends, after_colon-Ends, default_value-Ends,
}

-- The text behind a byte and the white space after it is shorter.
pub skipped : (c : ℕ) (p : Bytes) → at c p ≡ true → length (skip_spaces (past p)) < length p
skipped c p t = omega (arith, length-skip_spaces (past p), length-past c p t)

pub past-le : (p : Bytes) → length (past p) ≤ length p
past-le [] = omega arith
past-le (c ∷ p) = omega arith

arg_mask-Ends : (p : Bytes) → Ends (suc (length p)) (arg_mask p)
unfolding arg_mask
arg_mask-Ends p =
    Ends-test (at b':' p)
      (λ t.
        Ends-longer (length (skip_spaces (past p))) (suc (length p))
          (omega (arith, skipped b':' p t)) (type_mask_of-Ends (skip_spaces (past p))))
      (Ends-if _ (reaches (omega arith)) (reports refl))

arg_default-Ends : (st : ArgState) (p : Bytes) → Ends (suc (length p)) (arg_default st p)
unfolding arg_default
arg_default-Ends st p =
    Ends-test (at b'=' p)
      (λ t.
        Ends-longer (suc (length (skip_spaces (past p)))) (suc (length p))
          (omega (arith, skipped b'=' p t)) (default_value-Ends (skip_spaces (past p))))
      (Ends-if _ (reports refl) (reaches (omega arith)))

arg_end-Ends : (st : ArgState) (p : Bytes) → Ends (suc (length p)) (arg_end st p)
unfolding arg_end
arg_end-Ends st p =
    Ends-test (at b',' p) (λ t. reaches (omega (arith, skipped b',' p t)))
      (Ends-if _ (reaches (omega arith)) (reports refl))

named_arg-Ends : (st : ArgState) (p : Bytes) → Ends (length p) (named_arg st p)
unfolding named_arg
named_arg-Ends st p = elim (Option-cases (parse_identifier p)) [
  | inl e ↦ rw (named_arg, e) (reports refl)
  | inr ((name, q), e) ↦
      let shorter = length-parse_identifier p name q e in
      rw (named_arg, e)
        (Ends-bind (suc (length (skip_spaces q))) (length p) _ (arg_mask-Ends (skip_spaces q))
          λ mask r l. Ends-bind (suc (length r)) (length p) _ (arg_default-Ends st r) λ value t l'.
            Ends-longer (suc (length (skip_spaces t))) (length p)
              (omega (arith, length-skip_spaces t, length-skip_spaces q))
              (arg_end-Ends (add_arg st name mask value) (skip_spaces t)))
]

ellipsis_arg-Ends : (st : ArgState) (p : Bytes) → 3 ≤ length p → Ends (length p) (ellipsis_arg st p)
unfolding ellipsis_arg
ellipsis_arg-Ends st p h = Ends-if (not (st.res.ellipsis_arg_type_mask == 0)) (reports refl) (
    Ends-bind (suc (length (skip_spaces (drop 3 p)))) (length p) _
      (after_colon-Ends any_mask (skip_spaces (drop 3 p)))
      λ mask q l.
        Ends-if _
          (reaches
            (omega (arith, length-skip_spaces q, length-skip_spaces (drop 3 p), length-drop 3 p)))
          (reports refl))

arg_step-Ends : (st : ArgState) (p : Bytes) → Ends (length p) (arg_step st p)
unfolding arg_step
arg_step-Ends st [] = reports refl
arg_step-Ends st (c ∷ p) =
    let on = length-skip_spaces p in
    Ends-if (c == b'[')
      (Ends-if st.inside_optional (reports refl)
        (Ends-if st.optional_block_finished (reports refl) (reaches (omega (arith, on)))))
      (Ends-if (c == b']') (Ends-if st.inside_optional (reaches (omega (arith, on))) (reports refl))
        (Ends-if (c == b',')
          (Ends-if st.argument_processed (reaches (omega (arith, on))) (reports refl))
          (Ends-test (starts_with (b'.' ∷ b'.' ∷ b'.' ∷ []) (c ∷ p))
            (λ t.
              ellipsis_arg-Ends st (c ∷ p) (length-starts_with (b'.' ∷ b'.' ∷ b'.' ∷ []) (c ∷ p) t))
            (Ends-if st.optional_block_finished (reports refl) (named_arg-Ends st (c ∷ p))))))

pub parse_args-Ends :
    (f : ℕ) (st : ArgState) (p : Bytes) → length p < f → Ends (suc (length p)) (parse_args f st p)
unfolding parse_args
parse_args-Ends zero st p h = absurd (omega arith)
parse_args-Ends (suc f) st p h = Ends-if (at b')' p) (reaches (omega arith)) (
    Ends-bind (length (skip_spaces p)) (suc (length p)) _ (arg_step-Ends st (skip_spaces p))
      λ st' q l.
        Ends-longer (suc (length q)) (suc (length p)) (omega (arith, length-skip_spaces p))
          (parse_args-Ends f st' q (omega (arith, length-skip_spaces p))))
