-- ===== src/Types/Functions/Ends.antt =====
-- sq_parse_function_type_string of squirrel/compiler/sqtypeparser.cpp on every text.
use quirrel.Prelude.{
  ℕ, suc, ◌-◌, ◌≤◌, ◌<◌, ◌≡◌, ◌≢◌, refl, inl, inr, Bool, true, false, ◌||◌, ◌&&◌, ◌==◌, leb,
  if◌then◌else◌, length, take, arith, Bool-cases,
}
use quirrel.Prelude.{some, List, [], ◌∷◌, Result, ok, err}
use quirrel.Types.Names.{
  Complaint, expected_type_name, expected_bracket, out_of_fuel, invalid_type_name, Bytes, is_space,
  skip_spaces, parse_type_mask,
}
use quirrel.Types.Parses.{IsOutcome, parsed, refused, length-skip_spaces, parse_type_mask-IsOutcome}
use quirrel.Types.Functions.Text.{
  FunctionComplaint, FunctionError, Parsed, fail, ◌>>=◌, at, starts_with, type_mask_of,
  unmatched_in_default, expected_default, out_of_steps, type_mask,
}
use quirrel.Types.Functions.Scanner.{
  Scan, outside, inside, escaped, Action, to, stop, bad, close, scan_plain, scan_step, scan_end,
  scan_default, default_value,
}
use quirrel.Types.Functions.Arguments.{past, after_colon}

-- The mask parser's own.
abbrev is_spent : Complaint → Bool
is_spent out_of_fuel = true
is_spent _ = false

pub is_spent-no : (c : Complaint) → c ≢ out_of_fuel → is_spent c ≡ false
is_spent-no expected_type_name ne = refl
is_spent-no expected_bracket ne = refl
is_spent-no out_of_fuel ne = absurd (ne refl)
is_spent-no (invalid_type_name w s) ne = refl

-- The two complaints that the code does not have: a loop of the model ran out of steps.
abbrev pub is_stuck : FunctionComplaint → Bool
is_stuck out_of_steps = true
is_stuck (type_mask c) = is_spent c
is_stuck _ = false

-- Fewer than `n` bytes are left, or there is an error of the code.
pub data Ends {A : Type 0} (n : ℕ) : Result FunctionError (A × Bytes) → Type 0 where
  reaches : {a : A} {rest : Bytes} → length rest < n → Ends n (ok (a, rest))
  reports : {e : FunctionError} → is_stuck e.complaint ≡ false → Ends n (err e)

module _ {A B : Type 0} where
  pub Ends-bind :
      {m : Parsed A} (n k : ℕ) (f : A × Bytes → Parsed B)
      → Ends n m
      → ((a : A) (rest : Bytes) → length rest < n → Ends k (f (a, rest)))
      → Ends k (m >>= f)
  Ends-bind n k f (reaches {a} {rest} l) h = h a rest l
  Ends-bind n k f (reports ne) h = reports ne

pub Ends-if :
    {A : Type 0} {n : ℕ} (b : Bool) {x y : Parsed A}
    → Ends n x
    → Ends n y
    → Ends n (if b then x else y)
Ends-if true p q = p
Ends-if false p q = q

-- The same where the first branch needs its test.
pub Ends-test :
    {A : Type 0} {n : ℕ} (b : Bool) {x y : Parsed A}
    → (b ≡ true → Ends n x)
    → Ends n y
    → Ends n (if b then x else y)
Ends-test true p q = p refl
Ends-test false p q = q

pub Ends-longer : {A : Type 0} {m : Parsed A} (k n : ℕ) → k ≤ n → Ends k m → Ends n m
Ends-longer k n h (reaches l) = reaches (omega arith)
Ends-longer k n h (reports ne) = reports ne

pub length-past : (c : ℕ) (p : Bytes) → at c p ≡ true → suc (length (past p)) ≡ length p
length-past c [] h = absurd (cc)
length-past c (x ∷ p) h = refl

pub length-starts_with : (w p : Bytes) → starts_with w p ≡ true → length w ≤ length p
unfolding starts_with
length-starts_with [] p h = omega arith
length-starts_with (c ∷ w) [] h = absurd (cc)
length-starts_with (c ∷ w) (x ∷ p) h = ground (arith, length-starts_with w p)

pub type_mask_of-Ends : (p : Bytes) → Ends (length p) (type_mask_of p)
unfolding type_mask_of
type_mask_of-Ends p = passed (parse_type_mask p) (parse_type_mask-IsOutcome p)
  where
    passed :
        (r : _)
        → IsOutcome p r
        → Ends (length p) (elim r [ ok x ↦ ok x | err e ↦ fail (type_mask e.complaint) e.left ])
    passed r (parsed l) = reaches l
    passed r (refused l ne) = reports (is_spent-no _ ne)

pub after_colon-Ends : (mask : ℕ) (p : Bytes) → Ends (suc (length p)) (after_colon mask p)
unfolding after_colon
after_colon-Ends mask p = elim (Bool-cases (at b':' p)) [
  | inl t ↦ rw t (
      Ends-longer (length (skip_spaces (past p))) (suc (length p))
        (omega (arith, length-skip_spaces (past p), length-past b':' p t))
        (type_mask_of-Ends (skip_spaces (past p))))
  | inr t ↦ rw t (reaches (omega arith))
]

-- An action that is no error but one of the code.
abbrev IsKnown : Action → Type 0
IsKnown (to state stack) = Unit
IsKnown stop = Unit
IsKnown (bad e) = is_stuck e ≡ false

IsKnown-if : (b : Bool) (x y : Action) → IsKnown x → IsKnown y → IsKnown (if b then x else y)
IsKnown-if true x y p q = p
IsKnown-if false x y p q = q

close-IsKnown :
    (a : Action) (partner : ℕ) (stack : List ℕ) → IsKnown a → IsKnown (close a partner stack)
close-IsKnown a partner [] h = h
close-IsKnown a partner (t ∷ stack) h = IsKnown-if (t == partner) _ _ tt refl

scan_plain-IsKnown : (stack : List ℕ) (c : ℕ) → IsKnown (scan_plain stack c)
unfolding scan_plain
scan_plain-IsKnown stack c = IsKnown-if (c == b'"' || c == 39) _ _ tt (
    IsKnown-if (leb 39 (length stack)) _ _ refl (
      IsKnown-if (c == b'(' || c == b'[' || c == b'{') _ _ tt (
        IsKnown-if (c == b')') _ _ (close-IsKnown stop b'(' stack tt) (
          IsKnown-if (c == b']') _ _ (close-IsKnown stop b'[' stack tt) (
            IsKnown-if (c == b'}') _ _ (close-IsKnown (bad unmatched_in_default) b'{' stack refl)
              (IsKnown-if (c == b',') _ _ (comma stack) tt))))))
  where
    comma :
        (stack : List ℕ)
        → IsKnown (elim stack [ [] ↦ stop | t ∷ rest ↦ to (outside true) (t ∷ rest) ])
    comma [] = tt
    comma (t ∷ rest) = tt

scan_step-IsKnown : (state : Scan) (stack : List ℕ) (c : ℕ) → IsKnown (scan_step state stack c)
unfolding scan_step
scan_step-IsKnown (outside skipping) stack c =
    IsKnown-if (skipping && is_space c) _ _ tt (scan_plain-IsKnown stack c)
scan_step-IsKnown (inside opener) stack c =
    IsKnown-if (c == opener) _ _ tt (IsKnown-if (c == 92) _ _ tt tt)
scan_step-IsKnown (escaped opener) stack c = tt

scan_end-known : (state : Scan) (stack : List ℕ) → is_stuck (scan_end state stack) ≡ false
scan_end-known (escaped opener) stack = refl
scan_end-known (outside skipping) [] = refl
scan_end-known (outside skipping) (t ∷ stack) = refl
scan_end-known (inside opener) [] = refl
scan_end-known (inside opener) (t ∷ stack) = refl

-- What the scanner of default values comes to.
data Scanned (n : ℕ) : Result FunctionError Bytes → Type 0 where
  scanned : {rest : Bytes} → length rest ≤ n → Scanned n (ok rest)
  complained : {e : FunctionError} → is_stuck e.complaint ≡ false → Scanned n (err e)

Scanned-longer : {n : ℕ} {r : Result FunctionError Bytes} → Scanned n r → Scanned (suc n) r
Scanned-longer (scanned l) = scanned (omega arith)
Scanned-longer (complained ne) = complained ne

scan_default-Scanned :
    (state : Scan) (stack : List ℕ) (p : Bytes) → Scanned (length p) (scan_default state stack p)
unfolding scan_default
scan_default-Scanned state stack [] = complained (scan_end-known state stack)
scan_default-Scanned state stack (c ∷ p) =
    acted (scan_step state stack c) (scan_step-IsKnown state stack c)
      (λ s t. scan_default-Scanned s t p)
  where
    acted :
        (a : Action)
        → IsKnown a
        → ((s : Scan) (t : List ℕ) → Scanned (length p) (scan_default s t p))
        → Scanned
            (suc (length p))
            (elim a [ to s t ↦ scan_default s t p | stop ↦ ok (c ∷ p) | bad e ↦ fail e (c ∷ p) ])
    acted (to s t) known rest = Scanned-longer (rest s t)
    acted stop known rest = scanned (omega arith)
    acted (bad e) known rest = complained known

pub default_value-Ends : (p : Bytes) → Ends (suc (length p)) (default_value p)
unfolding default_value
default_value-Ends p =
    valued (scan_default (outside false) [] p) (scan_default-Scanned (outside false) [] p)
  where
    valued :
        (r : Result FunctionError Bytes)
        → Scanned (length p) r
        → Ends (suc (length p)) (
            r >>= λ rest.
            if length p - length rest == 0
            then fail expected_default rest
            else ok (some (take (length p - length rest) p), rest))
    valued r (scanned {rest} l) =
        Ends-if (length p - length rest == 0) (reports refl) (reaches (omega arith))
    valued r (complained ne) = reports ne
