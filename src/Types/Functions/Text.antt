-- ===== src/Types/Functions/Text.antt =====
-- squirrel/compiler/sqtypeparser.h and sqtypeparser.cpp: function types, and reading the text of one. A
-- text is the bytes before its zero, and an error has what is left of it.
use quirrel.Prelude.{ℕ, Bool, true, false, ◌||◌, ◌&&◌, ◌==◌}
use quirrel.Prelude.{Option, List, [], ◌∷◌, Result, ok, err}
use quirrel.Types.Names.{Bytes, Complaint, parse_type_mask}

-- SQFunctionType
pub record FunctionType : Type 0 where
  pub function_name : Bytes
  pub return_type_mask : ℕ
  pub object_type_mask : ℕ
  pub arg_names : List Bytes
  pub arg_type_mask : List ℕ
  pub default_values : List (Option Bytes)
  pub required_args : ℕ
  pub ellipsis_arg_type_mask : ℕ
  pub is_pure : Bool
  pub nodiscard : Bool

-- The errors, in the order of the source; `type_mask` is one of parse_type_mask's.
pub data FunctionComplaint : Type 0 where
  empty_string expected_dot expected_name_after_dot expected_name invalid_object_type :
      FunctionComplaint
  expected_arguments unterminated_list nested_optional optional_not_last unmatched_bracket :
      FunctionComplaint
  argument_before_comma multiple_ellipsis expected_end_of_ellipsis argument_after_optional :
      FunctionComplaint
  expected_argument_name expected_colon unterminated_default too_complex : FunctionComplaint
  unmatched_in_default unfinished_default unterminated_string expected_default : FunctionComplaint
  default_expected expected_comma unmatched_optional unexpected_characters out_of_steps :
      FunctionComplaint
  type_mask : Complaint → FunctionComplaint

pub record FunctionError : Type 0 where
  pub left : Bytes
  pub complaint : FunctionComplaint

abbrev pub Parsed : Type 0 → Type 0
Parsed A = Result FunctionError (A × Bytes)

abbrev pub fail : {A : Type 0} → FunctionComplaint → Bytes → Result FunctionError A
fail e p = err (record { left = p; complaint = e })

infixl 5 ◌>>=◌
abbrev pub ◌>>=◌ :
    {A B : Type 0} → Result FunctionError A → (A → Result FunctionError B) → Result FunctionError B
ok a >>= f = f a
err e >>= f = err e

-- `*p == c`
abbrev pub at : ℕ → Bytes → Bool
at c [] = false
at c (x ∷ p) = x == c

-- `*p` is one of the bytes.
abbrev pub at_one_of : List ℕ → Bytes → Bool
at_one_of [] p = false
at_one_of (c ∷ cs) p = at c p || at_one_of cs p

-- `strncmp(p, word, n) == 0`
unfoldable pub starts_with : Bytes → Bytes → Bool
starts_with [] p = true
starts_with (c ∷ w) [] = false
starts_with (c ∷ w) (x ∷ p) = x == c && starts_with w p

-- parse_type_mask with its error passed on.
unfoldable pub type_mask_of : Bytes → Parsed ℕ
type_mask_of p = elim (parse_type_mask p) [
  | ok r ↦ ok r
  | err e ↦ fail (type_mask e.complaint) e.left
]
