-- ===== src/Tests/Names.antt =====
-- squirrel/compiler/sqtypeparser.cpp on small texts.
use quirrel.Prelude.{◌≡◌, refl, [], ◌∷◌, some, ok, err}
use quirrel.Types.Names.{
  RawTypeDecl, invalid_type_name, skip_spaces, word_of, parse_identifier, type_string_to_mask,
  same_text, is_str_equal_ignore_case, parse_types, close_bracket, parse_mask, parse_type_mask,
}
use quirrel.Types.Parses.{IsOutcome, parse_type_mask-IsOutcome}

-- " int|null "
either :
    parse_type_mask (b' ' ∷ b'i' ∷ b'n' ∷ b't' ∷ b'|' ∷ b'n' ∷ b'u' ∷ b'l' ∷ b'l' ∷ b' ' ∷ [])
    ≡ ok (0x3, [])
unfolding parse_type_mask parse_mask parse_types parse_identifier word_of type_string_to_mask
    same_text skip_spaces close_bracket is_str_equal_ignore_case
either = refl

-- "Ref" brings the suggestion "weakref".
suggests :
    parse_type_mask (b'R' ∷ b'e' ∷ b'f' ∷ [])
    ≡ err (record {
      left = [];
      complaint =
          invalid_type_name
            (b'R' ∷ b'e' ∷ b'f' ∷ [])
            (some (b'w' ∷ b'e' ∷ b'a' ∷ b'k' ∷ b'r' ∷ b'e' ∷ b'f' ∷ []));
    })
unfolding parse_type_mask parse_mask parse_types parse_identifier word_of type_string_to_mask
    same_text skip_spaces close_bracket is_str_equal_ignore_case
suggests = refl

parse_type_mask-IsOutcome_example :
    IsOutcome (b'i' ∷ b'n' ∷ b't' ∷ []) (parse_type_mask (b'i' ∷ b'n' ∷ b't' ∷ []))
parse_type_mask-IsOutcome_example = parse_type_mask-IsOutcome (b'i' ∷ b'n' ∷ b't' ∷ [])

abbrev boolean : RawTypeDecl
boolean = record {
  name = b'b' ∷ b'o' ∷ b'o' ∷ b'l' ∷ [];
  synonyms = (b'b' ∷ b'o' ∷ b'o' ∷ b'l' ∷ b'e' ∷ b'a' ∷ b'n' ∷ []) ∷ [];
  mask = 0x8;
}
