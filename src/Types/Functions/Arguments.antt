-- ===== src/Types/Functions/Arguments.antt =====
-- squirrel/compiler/sqtypeparser.cpp: the arguments of a function type.
use quirrel.Prelude.{ℕ, zero, suc, ◌+◌, Bool, true, false, not, ◌&&◌, ◌==◌, if◌then◌else◌, drop}
use quirrel.Prelude.{Option, none, some, List, [], ◌∷◌, ◌++◌, ok}
use quirrel.Types.Names.{Bytes, skip_spaces, parse_identifier}
use quirrel.Types.Functions.Text.{
  FunctionType, Parsed, fail, ◌>>=◌, at, at_one_of, starts_with, type_mask_of, unterminated_list,
  nested_optional, optional_not_last, unmatched_bracket, argument_before_comma, multiple_ellipsis,
  expected_end_of_ellipsis, argument_after_optional, expected_argument_name, expected_colon,
  default_expected, expected_comma, out_of_steps,
}
use quirrel.Types.Functions.Scanner.{default_value}

-- The variables of the loop over the arguments.
pub record ArgState : Type 0 where
  pub inside_optional : Bool
  pub optional_block_finished : Bool
  pub argument_processed : Bool
  pub res : FunctionType

-- `defaultValues.back()` is there and not null.
abbrev pub last_has_value : List (Option Bytes) → Bool
last_has_value [] = false
last_has_value (v ∷ []) = elim v [ none ↦ false | some text ↦ true ]
last_has_value (v ∷ w ∷ vs) = last_has_value (w ∷ vs)

abbrev pub any_mask : ℕ
any_mask = 0xffff_ffff

-- `*p` after `p++`
abbrev pub past : Bytes → Bytes
past [] = []
past (c ∷ p) = p

-- A mask behind a colon, where there is one.
unfoldable pub after_colon : ℕ → Bytes → Parsed ℕ
after_colon otherwise p =
    if at b':' p then type_mask_of (skip_spaces (past p)) else ok (otherwise, p)

-- `...` with its mask; `p` is the text from the dots on.
unfoldable pub ellipsis_arg : ArgState → Bytes → Parsed ArgState
ellipsis_arg st p =
    if not (st.res.ellipsis_arg_type_mask == 0)
    then fail multiple_ellipsis p
    else after_colon any_mask (skip_spaces (drop 3 p)) >>= λ (mask, q).
        if at_one_of (b')' ∷ b']' ∷ []) (skip_spaces q)
        then ok (
          record st {
            argument_processed = true;
            res = record st.res { ellipsis_arg_type_mask = mask };
          },
          skip_spaces q,
        )
        else fail expected_end_of_ellipsis (skip_spaces q)

-- The mask of an argument, or what may follow an argument without one.
unfoldable pub arg_mask : Bytes → Parsed ℕ
arg_mask p =
    if at b':' p
    then type_mask_of (skip_spaces (past p))
    else if at_one_of (b',' ∷ b')' ∷ b']' ∷ b'[' ∷ b'=' ∷ []) p
    then ok (any_mask, p)
    else fail expected_colon p

unfoldable pub arg_default : ArgState → Bytes → Parsed (Option Bytes)
arg_default st p =
    if at b'=' p
    then default_value (skip_spaces (past p))
    else if not st.inside_optional && last_has_value st.res.default_values
    then fail default_expected p
    else ok (none, p)

abbrev pub is_required : ArgState → Option Bytes → Bool
is_required st none = not st.inside_optional
is_required st (some text) = false

-- The `push_back`s of an argument.
abbrev pub add_arg : ArgState → Bytes → ℕ → Option Bytes → ArgState
add_arg st name mask value = record st {
  argument_processed = true;
  res = record st.res {
    arg_names = st.res.arg_names ++ name ∷ [];
    arg_type_mask = st.res.arg_type_mask ++ mask ∷ [];
    default_values = st.res.default_values ++ value ∷ [];
    required_args = if is_required st value then st.res.required_args + 1 else st.res.required_args;
  };
}

-- What follows an argument.
unfoldable pub arg_end : ArgState → Bytes → Parsed ArgState
arg_end st p =
    if at b',' p
    then ok (st, skip_spaces (past p))
    else if at_one_of (b')' ∷ b']' ∷ b'[' ∷ []) p
    then ok (st, p)
    else fail expected_comma p

unfoldable pub named_arg : ArgState → Bytes → Parsed ArgState
named_arg st p = elim (parse_identifier p) [
  | none ↦ fail expected_argument_name p
  | some (name, q) ↦ arg_mask (skip_spaces q) >>= λ (mask, r).
      arg_default st r >>= λ (value, t). arg_end (add_arg st name mask value) (skip_spaces t)
]

-- The body of the loop, behind its white space.
unfoldable pub arg_step : ArgState → Bytes → Parsed ArgState
arg_step st [] = fail unterminated_list []
arg_step st (c ∷ p) =
    if c == b'['
    then if st.inside_optional
      then fail nested_optional (c ∷ p)
      else if st.optional_block_finished
      then fail optional_not_last (c ∷ p)
      else ok (record st { inside_optional = true }, skip_spaces p)
    else if c == b']'
    then if st.inside_optional
      then ok (record st { inside_optional = false; optional_block_finished = true }, skip_spaces p)
      else fail unmatched_bracket (c ∷ p)
    else if c == b','
    then if st.argument_processed
      then ok (record st { argument_processed = false }, skip_spaces p)
      else fail argument_before_comma (c ∷ p)
    else if starts_with (b'.' ∷ b'.' ∷ b'.' ∷ []) (c ∷ p)
    then ellipsis_arg st (c ∷ p)
    else if st.optional_block_finished
    then fail argument_after_optional (c ∷ p)
    else named_arg st (c ∷ p)

-- The loop up to the closing parenthesis.
unfoldable pub parse_args : ℕ → ArgState → Bytes → Parsed ArgState
parse_args zero st p = fail out_of_steps p
parse_args (suc f) st p =
    let rest : Parsed ArgState = arg_step st (skip_spaces p) >>= λ (st', q). parse_args f st' q in
    if at b')' p then ok (st, p) else rest
