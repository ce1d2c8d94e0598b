-- ===== src/Types/Functions/Scanner.antt =====
-- squirrel/compiler/sqtypeparser.cpp: the default values of a function type.
use quirrel.Prelude.{ℕ, ◌-◌, Bool, true, false, ◌||◌, ◌&&◌, ◌==◌, leb, if◌then◌else◌, length, take}
use quirrel.Prelude.{Option, some, List, [], ◌∷◌, Result, ok}
use quirrel.Types.Names.{Bytes, is_space}
use quirrel.Types.Functions.Text.{
  FunctionComplaint, FunctionError, Parsed, fail, ◌>>=◌, unterminated_default, too_complex,
  unmatched_in_default, unfinished_default, unterminated_string, expected_default,
}

-- Where the loop over a default value is: outside of a string, behind white space to skip or not, in a
-- string with its opener, or behind a backslash in one.
pub data Scan : Type 0 where
  outside : Bool → Scan
  inside escaped : ℕ → Scan

-- What one byte does: on with this state and stack, the end of the value, or an error.
pub data Action : Type 0 where
  to : Scan → List ℕ → Action
  stop : Action
  bad : FunctionComplaint → Action

-- A closing bracket whose partner is `open`.
abbrev pub close : Action → ℕ → List ℕ → Action
close empty partner [] = empty
close empty partner (t ∷ stack) =
    if t == partner then to (outside true) stack else bad unmatched_in_default

unfoldable pub scan_plain : List ℕ → ℕ → Action
scan_plain stack c =
    if c == b'"' || c == 39
    then to (inside c) stack
    else if leb 39 (length stack)
    then bad too_complex
    else if c == b'(' || c == b'[' || c == b'{'
    then to (outside true) (c ∷ stack)
    else if c == b')'
    then close stop b'(' stack
    else if c == b']'
    then close stop b'[' stack
    else if c == b'}'
    then close (bad unmatched_in_default) b'{' stack
    else if c == b','
    then elim stack [ [] ↦ stop | t ∷ rest ↦ to (outside true) (t ∷ rest) ]
    else to (outside true) stack

unfoldable pub scan_step : Scan → List ℕ → ℕ → Action
scan_step (outside skipping) stack c =
    if skipping && is_space c then to (outside true) stack else scan_plain stack c
scan_step (inside opener) stack c =
    if c == opener
    then to (outside false) stack
    else if c == 92
    then to (escaped opener) stack
    else to (inside opener) stack
scan_step (escaped opener) stack c = to (inside opener) stack

-- The end of the text in a default value.
abbrev pub scan_end : Scan → List ℕ → FunctionComplaint
scan_end (escaped opener) stack = unterminated_string
scan_end (outside skipping) [] = unterminated_default
scan_end (outside skipping) (t ∷ stack) = unfinished_default
scan_end (inside opener) [] = unterminated_default
scan_end (inside opener) (t ∷ stack) = unfinished_default

-- The loop over a default value: what follows the value.
unfoldable pub scan_default : Scan → List ℕ → Bytes → Result FunctionError Bytes
scan_default state stack [] = fail (scan_end state stack) []
scan_default state stack (c ∷ p) = elim (scan_step state stack c) [
  | to state' stack' ↦ scan_default state' stack' p
  | stop ↦ ok (c ∷ p)
  | bad e ↦ fail e (c ∷ p)
]

-- A default value behind its `=`.
unfoldable pub default_value : Bytes → Parsed (Option Bytes)
default_value p = scan_default (outside false) [] p >>= λ rest.
    if length p - length rest == 0
    then fail expected_default rest
    else ok (some (take (length p - length rest) p), rest)
