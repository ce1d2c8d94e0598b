-- ===== src/Types/Functions/Parse.antt =====
-- squirrel/compiler/sqtypeparser.cpp: sq_parse_function_type_string.
use quirrel.Prelude.{ℕ, zero, suc, ◌+◌, true, false, not, if◌then◌else◌, length, drop}
use quirrel.Prelude.{none, some, [], ◌∷◌, ◌++◌, Result, ok, err}
use quirrel.Types.Names.{Bytes, skip_spaces, parse_identifier, parse_type_mask}
use quirrel.Types.Functions.Text.{
  FunctionType, FunctionError, Parsed, fail, ◌>>=◌, at, starts_with, type_mask_of, empty_string,
  expected_dot, expected_name_after_dot, expected_name, invalid_object_type, expected_arguments,
  unmatched_optional, unexpected_characters, out_of_steps, type_mask,
}
use quirrel.Types.Functions.Arguments.{any_mask, past, after_colon, parse_args}

-- `pure` and `nodiscard`, as often as they stand there.
unfoldable pub parse_modifiers : ℕ → FunctionType → Bytes → Parsed FunctionType
parse_modifiers zero res p = fail out_of_steps p
parse_modifiers (suc f) res p =
    let is_pure = parse_modifiers f (record res { is_pure = true }) (skip_spaces (drop 5 p)) in
    let nodiscard = parse_modifiers f (record res { nodiscard = true }) (skip_spaces (drop 10 p)) in
    if starts_with (b'p' ∷ b'u' ∷ b'r' ∷ b'e' ∷ 32 ∷ []) p
    then is_pure
    else if starts_with (b'n' ∷ b'o' ∷ b'd' ∷ b'i' ∷ b's' ∷ b'c' ∷ b'a' ∷ b'r' ∷ b'd' ∷ 32 ∷ []) p
    then nodiscard
    else ok (res, p)

-- The function's name behind its dot.
unfoldable pub method_name : Bytes → Parsed Bytes
method_name p = elim (parse_identifier p) [ none ↦ fail expected_name_after_dot p | some r ↦ ok r ]

-- A type in brackets before the dot.
unfoldable pub bracket_name : FunctionType → Bytes → Parsed FunctionType
bracket_name res p = type_mask_of p >>= λ (mask, q).
    if not (at b'.' (skip_spaces q))
    then fail expected_dot (skip_spaces q)
    else method_name (skip_spaces (past (skip_spaces q))) >>= λ (name, r).
        ok (record res { function_name = name; object_type_mask = mask }, r)

-- The mask of the word before the dot; `rest` is the text behind the word.
unfoldable pub word_mask : Bytes → Bytes → Result FunctionError ℕ
word_mask word rest = elim (parse_type_mask word) [
  | err e ↦ fail (type_mask e.complaint) (e.left ++ rest)
  | ok (mask, []) ↦ ok mask
  | ok (mask, c ∷ q) ↦ fail invalid_object_type ((c ∷ q) ++ rest)
]

unfoldable pub plain_name : FunctionType → Bytes → Parsed FunctionType
plain_name res p = elim (parse_identifier p) [
  | none ↦ fail expected_name p
  | some (word, q) ↦
      if not (at b'.' q)
      then ok (record res { function_name = word }, q)
      else method_name (skip_spaces (past q)) >>= λ (name, r). word_mask word q >>= λ mask.
          ok (record res { function_name = name; object_type_mask = mask }, r)
]

-- What follows the arguments.
unfoldable pub parse_end : FunctionType → Bytes → Result FunctionError FunctionType
parse_end res p = after_colon res.return_type_mask (skip_spaces (past p)) >>= λ (mask, q).
    elim (skip_spaces q) [
      | [] ↦ ok (record res { return_type_mask = mask })
      | c ∷ r ↦ fail unexpected_characters (c ∷ r)
    ]

-- The arguments in their parentheses and what follows.
unfoldable pub parse_signature : FunctionType → Bytes → Result FunctionError FunctionType
parse_signature res p =
    if not (at b'(' p)
    then fail expected_arguments p
    else parse_args (length p + 1)
        (record {
          inside_optional = false;
          optional_block_finished = false;
          argument_processed = false;
          res = res;
        })
        (skip_spaces (past p))
      >>= λ (st, q). if st.inside_optional then fail unmatched_optional q else parse_end st.res q

-- `sq_parse_function_type_string` into `res`, of which the default values, `pure` and `nodiscard` are not
-- reset.
unfoldable pub parse_function_type_string : FunctionType → Bytes → Result FunctionError FunctionType
parse_function_type_string res [] = fail empty_string []
parse_function_type_string res (c ∷ s) =
    parse_modifiers (length s + 2)
      (record res {
        object_type_mask = any_mask;
        return_type_mask = 1;
        required_args = 0;
        ellipsis_arg_type_mask = 0;
        arg_names = [];
        arg_type_mask = [];
      })
      (skip_spaces (c ∷ s))
    >>= λ (base, p).
        (if at b'(' p then bracket_name base p else plain_name base p) >>= λ (named, q).
        parse_signature named (skip_spaces q)
