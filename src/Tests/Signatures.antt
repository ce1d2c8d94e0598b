-- ===== src/Tests/Signatures.antt =====
-- squirrel/compiler/sqtypeparser.cpp on texts of function types.
use quirrel.Prelude.{◌≡◌, ◌≢◌, ◌⊎◌, refl, false, [], ◌∷◌, none, some, ok, err}
use quirrel.Types.Names.{
  Bytes, skip_spaces, word_of, parse_identifier, parse_type_mask, parse_mask, parse_types,
  close_bracket, same_text, type_string_to_mask, is_str_equal_ignore_case,
}
use quirrel.Types.Functions.Text.{
  FunctionType, FunctionError, out_of_steps, starts_with, type_mask_of,
}
use quirrel.Types.Functions.Scanner.{default_value, scan_default, scan_step, scan_plain}
use quirrel.Types.Functions.Arguments.{
  arg_mask, arg_default, arg_end, named_arg, arg_step, parse_args, after_colon, ellipsis_arg,
}
use quirrel.Types.Functions.Parse.{
  parse_modifiers, plain_name, bracket_name, method_name, parse_end, parse_signature,
  parse_function_type_string,
}
use quirrel.Types.Functions.Aligned.{IsAligned, parse_function_type_string-IsAligned}
use quirrel.Types.Functions.Text.{type_mask}
use quirrel.Types.Names.{out_of_fuel}
use quirrel.Types.Functions.Total.{parse_function_type_string-total}

abbrev blank : FunctionType
blank = record {
  function_name = [];
  return_type_mask = 0xffff_ffff;
  object_type_mask = 0xffff_ffff;
  arg_names = [];
  arg_type_mask = [];
  default_values = [];
  required_args = 0;
  ellipsis_arg_type_mask = 0;
  is_pure = false;
  nodiscard = false;
}

program : Unit {0}
unfolding parse_function_type_string parse_modifiers plain_name bracket_name method_name parse_end
    parse_signature parse_args arg_step named_arg arg_end arg_default arg_mask after_colon
    ellipsis_arg default_value scan_default scan_step scan_plain starts_with type_mask_of
    skip_spaces word_of parse_identifier parse_type_mask parse_mask parse_types close_bracket
    same_text type_string_to_mask is_str_equal_ignore_case
program = tt

-- f(a:int=5):null
abbrev one_default : Bytes
one_default =
    b'f' ∷ b'(' ∷ b'a' ∷ b':' ∷ b'i' ∷ b'n' ∷ b't' ∷ b'=' ∷ b'5' ∷ b')' ∷ b':' ∷ b'n' ∷ b'u' ∷ b'l'
    ∷ b'l' ∷ []

one_default_parsed :
    parse_function_type_string blank one_default
    ≡ ok (record blank {
      function_name = b'f' ∷ [];
      return_type_mask = 1;
      arg_names = (b'a' ∷ []) ∷ [];
      arg_type_mask = 2 ∷ [];
      default_values = some (b'5' ∷ []) ∷ [];
    })
unfolding program
one_default_parsed = refl

-- f(a,,b): the second comma stands where an argument is expected, and is taken.
abbrev two_commas : Bytes
two_commas = b'f' ∷ b'(' ∷ b'a' ∷ b',' ∷ b',' ∷ b'b' ∷ b')' ∷ []

two_commas_parsed :
    parse_function_type_string blank two_commas
    ≡ ok (record blank {
      function_name = b'f' ∷ [];
      return_type_mask = 1;
      arg_names = (b'a' ∷ []) ∷ (b'b' ∷ []) ∷ [];
      arg_type_mask = 0xffff_ffff ∷ 0xffff_ffff ∷ [];
      default_values = none ∷ none ∷ [];
      required_args = 2;
    })
unfolding program
two_commas_parsed = refl

parse_function_type_string-total_example :
    ((out : FunctionType) × (parse_function_type_string blank two_commas ≡ ok out))
    ⊎ ((e : FunctionError) × (parse_function_type_string blank two_commas ≡ err e)
        × (e.complaint ≢ out_of_steps)
        × (e.complaint ≢ type_mask out_of_fuel))
parse_function_type_string-total_example = parse_function_type_string-total blank two_commas

parse_function_type_string-IsAligned_example : IsAligned 0 (record blank {
  function_name = b'f' ∷ [];
  return_type_mask = 1;
  arg_names = (b'a' ∷ []) ∷ [];
  arg_type_mask = 2 ∷ [];
  default_values = some (b'5' ∷ []) ∷ [];
})
parse_function_type_string-IsAligned_example =
    parse_function_type_string-IsAligned blank
      (record blank {
        function_name = b'f' ∷ [];
        return_type_mask = 1;
        arg_names = (b'a' ∷ []) ∷ [];
        arg_type_mask = 2 ∷ [];
        default_values = some (b'5' ∷ []) ∷ [];
      })
      one_default one_default_parsed
