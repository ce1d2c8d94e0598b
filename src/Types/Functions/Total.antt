-- ===== src/Types/Functions/Total.antt =====
-- sq_parse_function_type_string of squirrel/compiler/sqtypeparser.cpp comes to an end on every text.
use quirrel.Prelude.{
  ℕ, zero, suc, ◌+◌, ◌<◌, ◌≡◌, ◌≢◌, refl, ap, ◌⊎◌, inl, inr, Bool, true, false, not, if◌then◌else◌,
  length, drop, length-drop, arith, Bool-cases, Option-cases,
}
use quirrel.Prelude.{[], ◌∷◌, ◌++◌, Result, ok, err}
use quirrel.Types.Names.{
  Bytes, TypeError, skip_spaces, parse_identifier, parse_type_mask, out_of_fuel,
}
use quirrel.Types.Parses.{
  length-skip_spaces, length-parse_identifier, IsOutcome, refused, parse_type_mask-IsOutcome,
}
use quirrel.Types.Functions.Text.{
  FunctionType, FunctionComplaint, FunctionError, Parsed, fail, ◌>>=◌, at, starts_with,
  invalid_object_type, out_of_steps, type_mask, unexpected_characters,
}
use quirrel.Types.Functions.Arguments.{past}
use quirrel.Types.Functions.Parse.{
  parse_modifiers, method_name, bracket_name, word_mask, plain_name, parse_end, parse_signature,
  parse_function_type_string,
}
use quirrel.Types.Functions.Ends.{
  is_stuck, is_spent-no, Ends, reaches, reports, Ends-bind, Ends-if, Ends-test, Ends-longer,
  length-starts_with, type_mask_of-Ends, after_colon-Ends,
}
use quirrel.Types.Functions.Steps.{skipped, past-le, parse_args-Ends}

abbrev pure_word : Bytes
pure_word = b'p' ∷ b'u' ∷ b'r' ∷ b'e' ∷ 32 ∷ []

abbrev nodiscard_word : Bytes
nodiscard_word = b'n' ∷ b'o' ∷ b'd' ∷ b'i' ∷ b's' ∷ b'c' ∷ b'a' ∷ b'r' ∷ b'd' ∷ 32 ∷ []

parse_modifiers-Ends :
    (f : ℕ) (res : FunctionType) (p : Bytes)
    → length p < f
    → Ends (suc (length p)) (parse_modifiers f res p)
unfolding parse_modifiers
parse_modifiers-Ends zero res p h = absurd (omega arith)
parse_modifiers-Ends (suc f) res p h =
    Ends-test (starts_with pure_word p)
      (λ t.
        Ends-longer (suc (length (skip_spaces (drop 5 p)))) (suc (length p))
          (omega (arith, length-skip_spaces (drop 5 p), length-drop 5 p))
          (parse_modifiers-Ends f (record res { is_pure = true }) (skip_spaces (drop 5 p))
            (omega (
              arith,
              length-skip_spaces (drop 5 p),
              length-drop 5 p,
              length-starts_with pure_word p t,
            ))))
      (Ends-test (starts_with nodiscard_word p)
        (λ t.
          Ends-longer (suc (length (skip_spaces (drop 10 p)))) (suc (length p))
            (omega (arith, length-skip_spaces (drop 10 p), length-drop 10 p))
            (parse_modifiers-Ends f (record res { nodiscard = true }) (skip_spaces (drop 10 p))
              (omega (
                arith,
                length-skip_spaces (drop 10 p),
                length-drop 10 p,
                length-starts_with nodiscard_word p t,
              ))))
        (reaches (omega arith)))

method_name-Ends : (p : Bytes) → Ends (suc (length p)) (method_name p)
unfolding method_name
method_name-Ends p = elim (Option-cases (parse_identifier p)) [
  | inl e ↦ rw (method_name, e) (reports refl)
  | inr ((name, q), e) ↦
      let shorter = length-parse_identifier p name q e in
      rw (method_name, e) (reaches (omega arith))
]

bracket_name-Ends : (res : FunctionType) (p : Bytes) → Ends (suc (length p)) (bracket_name res p)
unfolding bracket_name
bracket_name-Ends res p = Ends-bind (length p) (suc (length p)) _ (type_mask_of-Ends p) λ mask q l.
    Ends-if (not (at b'.' (skip_spaces q))) (reports refl) (
      Ends-bind (suc (length (skip_spaces (past (skip_spaces q))))) (suc (length p)) _
        (method_name-Ends (skip_spaces (past (skip_spaces q))))
        λ name r l'. reaches (
          omega (
            arith,
            length-skip_spaces q,
            length-skip_spaces (past (skip_spaces q)),
            past-le (skip_spaces q),
          )))

-- An error of the code, if it is one.
abbrev IsHonest : {A : Type 0} → Result FunctionError A → Type 0
IsHonest (ok a) = Unit
IsHonest (err e) = is_stuck e.complaint ≡ false

IsHonest-bind :
    {A B : Type 0} {n : ℕ} {m : Parsed A} (f : A × Bytes → Result FunctionError B)
    → Ends n m
    → ((a : A) (rest : Bytes) → IsHonest (f (a, rest)))
    → IsHonest (m >>= f)
IsHonest-bind f (reaches {a} {rest} l) h = h a rest
IsHonest-bind f (reports ne) h = ne

IsHonest-if :
    {A : Type 0} (b : Bool) (x y : Result FunctionError A)
    → IsHonest x
    → IsHonest y
    → IsHonest (if b then x else y)
IsHonest-if true x y p q = p
IsHonest-if false x y p q = q

word_mask-IsHonest : (word rest : Bytes) → IsHonest (word_mask word rest)
unfolding word_mask
word_mask-IsHonest word rest = told (parse_type_mask word) (parse_type_mask-IsOutcome word)
  where
    told :
        (r : Result TypeError (ℕ × Bytes))
        → IsOutcome word r
        → IsHonest {A = ℕ} (elim r [
          | err e ↦ fail (type_mask e.complaint) (e.left ++ rest)
          | ok (mask, []) ↦ ok mask
          | ok (mask, c ∷ q) ↦ fail invalid_object_type ((c ∷ q) ++ rest)
        ])
    told (err e) (refused l ne) = is_spent-no _ ne
    told (ok (mask, [])) h = tt
    told (ok (mask, c ∷ q)) h = refl

Ends-IsHonest :
    {A B : Type 0} (m : Result FunctionError A) (n : ℕ) (f : A → Parsed B)
    → IsHonest m
    → ((a : A) → Ends n (f a))
    → Ends n (m >>= f)
Ends-IsHonest (ok a) n f h k = k a
Ends-IsHonest (err e) n f h k = reports h

plain_name-Ends : (res : FunctionType) (p : Bytes) → Ends (suc (length p)) (plain_name res p)
unfolding plain_name
plain_name-Ends res p = elim (Option-cases (parse_identifier p)) [
  | inl e ↦ rw (plain_name, e) (reports refl)
  | inr ((word, q), e) ↦
      let shorter = length-parse_identifier p word q e in
      rw (plain_name, e)
        (Ends-if (not (at b'.' q)) (reaches (omega arith)) (
          Ends-bind (suc (length (skip_spaces (past q)))) (suc (length p)) _
            (method_name-Ends (skip_spaces (past q)))
            λ name r l.
              Ends-IsHonest (word_mask word q) (suc (length p)) _ (word_mask-IsHonest word q)
                λ mask. reaches (omega (arith, length-skip_spaces (past q), past-le q))))
]

parse_end-IsHonest : (res : FunctionType) (p : Bytes) → IsHonest (parse_end res p)
unfolding parse_end
parse_end-IsHonest res p =
    IsHonest-bind _ (after_colon-Ends res.return_type_mask (skip_spaces (past p)))
      λ mask q. tail mask (skip_spaces q)
  where
    tail :
        (mask : ℕ) (q : Bytes)
        → IsHonest {A = FunctionType} (elim q [
          | [] ↦ ok (record res { return_type_mask = mask })
          | c ∷ r ↦ fail unexpected_characters (c ∷ r)
        ])
    tail mask [] = tt
    tail mask (c ∷ r) = refl

parse_signature-IsHonest : (res : FunctionType) (p : Bytes) → IsHonest (parse_signature res p)
unfolding parse_signature
parse_signature-IsHonest res p = elim (Bool-cases (at b'(' p)) [
  | inr t ↦ rw t refl
  | inl t ↦ rw t (
      IsHonest-bind _
        (parse_args-Ends (length p + 1) _ (skip_spaces (past p)) (omega (arith, skipped b'(' p t)))
        λ st q. IsHonest-if st.inside_optional _ _ refl (parse_end-IsHonest st.res q))
]

result-IsHonest : (res : FunctionType) (s : Bytes) → IsHonest (parse_function_type_string res s)
unfolding parse_function_type_string
result-IsHonest res [] = refl
result-IsHonest res (c ∷ s) =
    IsHonest-bind _
      (parse_modifiers-Ends (length s + 2) _ (skip_spaces (c ∷ s))
        (omega (arith, length-skip_spaces (c ∷ s))))
      λ base p.
        IsHonest-bind _ (Ends-if (at b'(' p) (bracket_name-Ends base p) (plain_name-Ends base p))
          λ named q. parse_signature-IsHonest named (skip_spaces q)

-- sq_parse_function_type_string comes to an end on every text, whatever `res` held: with a function type, or
-- with one of the errors of the code: neither its own loops nor that of the masks in it run out of steps.
pub parse_function_type_string-total :
    (res : FunctionType) (s : Bytes)
    → ((out : FunctionType) × (parse_function_type_string res s ≡ ok out))
      ⊎ ((e : FunctionError) × (parse_function_type_string res s ≡ err e)
          × (e.complaint ≢ out_of_steps)
          × (e.complaint ≢ type_mask out_of_fuel))
parse_function_type_string-total res s =
    told (parse_function_type_string res s) (result-IsHonest res s)
  where
    stuck : (a c : FunctionComplaint) → a ≡ c → is_stuck a ≡ false → is_stuck c ≢ true
    stuck a c x h y = let z = ap is_stuck x in absurd (cc)

    told :
        (r : Result FunctionError FunctionType)
        → IsHonest r
        → ((out : FunctionType) × (r ≡ ok out))
          ⊎ ((e : FunctionError) × (r ≡ err e)
              × (e.complaint ≢ out_of_steps)
              × (e.complaint ≢ type_mask out_of_fuel))
    told (ok out) h = inl (out, refl)
    told (err e) h =
        inr (e, refl, λ x. absurd (stuck _ _ x h refl), λ x. absurd (stuck _ _ x h refl))
