-- ===== src/Types/Names.antt =====
-- squirrel/compiler/sqtypeparser.cpp: the names of types, and the parser of a type mask.
use Prim.Native.Nat.{bit_or}
use quirrel.Prelude.{
  ℕ, zero, suc, ◌+◌, Bool, true, false, ◌||◌, ◌&&◌, ◌==◌, leb, if◌then◌else◌, length,
}
use quirrel.Prelude.{Option, none, some, List, [], ◌∷◌, Result, ok, err}

abbrev pub Bytes : Type 0
Bytes = List ℕ

-- `sq_isspace`, `sq_isalpha`, `sq_isalnum`, `sq_tolower` of include/sq_char_class.h
abbrev pub within : ℕ → ℕ → ℕ → Bool
within low high c = leb low c && leb c high

abbrev pub is_space : ℕ → Bool
is_space c = c == 32 || within 9 13 c

abbrev pub is_alpha : ℕ → Bool
is_alpha c = within b'A' b'Z' c || within b'a' b'z' c

abbrev pub is_alnum : ℕ → Bool
is_alnum c = within b'a' b'z' c || within b'A' b'Z' c || within b'0' b'9' c

abbrev pub to_lower : ℕ → ℕ
to_lower c = if within b'A' b'Z' c then c + 32 else c

unfoldable pub skip_spaces : Bytes → Bytes
skip_spaces [] = []
skip_spaces (c ∷ s) = if is_space c then skip_spaces s else c ∷ s

-- `strcmp` for equality
unfoldable pub same_text : Bytes → Bytes → Bool
same_text [] [] = true
same_text [] (y ∷ b) = false
same_text (x ∷ a) [] = false
same_text (x ∷ a) (y ∷ b) = (x == y) && same_text a b

unfoldable pub is_str_equal_ignore_case : Bytes → Bytes → Bool
is_str_equal_ignore_case [] [] = true
is_str_equal_ignore_case [] (y ∷ b) = false
is_str_equal_ignore_case (x ∷ a) [] = false
is_str_equal_ignore_case (x ∷ a) (y ∷ b) =
    let rest = is_str_equal_ignore_case a b in if to_lower x == to_lower y then rest else x == y

-- The loop of `parse_identifier`: the word and what follows it.
unfoldable pub word_of : Bytes → Bytes × Bytes
word_of [] = ([], [])
word_of (c ∷ s) =
    let (word, rest) = word_of s in
    if is_alnum c || c == b'_' then (c ∷ word, rest) else ([], c ∷ s)

unfoldable pub parse_identifier : Bytes → Option (Bytes × Bytes)
parse_identifier [] = none
parse_identifier (c ∷ s) =
    let (word, rest) = word_of s in if is_alpha c || c == b'_' then some (c ∷ word, rest) else none

-- The first of `names`, and the others.
pub record RawTypeDecl : Type 0 where
  pub name : Bytes
  pub synonyms : List Bytes
  pub mask : ℕ

abbrev pub raw_type_decls : List RawTypeDecl
raw_type_decls =
    record {
      name = (b'b' ∷ b'o' ∷ b'o' ∷ b'l' ∷ []);
      synonyms = ((b'b' ∷ b'o' ∷ b'o' ∷ b'l' ∷ b'e' ∷ b'a' ∷ b'n' ∷ []) ∷ []);
      mask = 0x8;
    }
    ∷ record {
      name = (b'n' ∷ b'u' ∷ b'm' ∷ b'b' ∷ b'e' ∷ b'r' ∷ []);
      synonyms = ((b'n' ∷ b'u' ∷ b'm' ∷ []) ∷ []);
      mask = 0x6;
    }
    ∷ record {
      name = (b'i' ∷ b'n' ∷ b't' ∷ []);
      synonyms = ((b'i' ∷ b'n' ∷ b't' ∷ b'e' ∷ b'g' ∷ b'e' ∷ b'r' ∷ []) ∷ []);
      mask = 0x2;
    }
    ∷ record {
      name = (b'f' ∷ b'l' ∷ b'o' ∷ b'a' ∷ b't' ∷ []);
      synonyms =
          ((b'd' ∷ b'o' ∷ b'u' ∷ b'b' ∷ b'l' ∷ b'e' ∷ []) ∷ (b'r' ∷ b'e' ∷ b'a' ∷ b'l' ∷ []) ∷ []);
      mask = 0x4;
    }
    ∷ record {
      name = (b's' ∷ b't' ∷ b'r' ∷ b'i' ∷ b'n' ∷ b'g' ∷ []);
      synonyms = ((b's' ∷ b't' ∷ b'r' ∷ []) ∷ []);
      mask = 0x10;
    }
    ∷ record {
      name = (b't' ∷ b'a' ∷ b'b' ∷ b'l' ∷ b'e' ∷ []);
      synonyms = ((b'd' ∷ b'i' ∷ b'c' ∷ b't' ∷ []) ∷ (b'm' ∷ b'a' ∷ b'p' ∷ []) ∷ []);
      mask = 0x20;
    }
    ∷ record {
      name = (b'a' ∷ b'r' ∷ b'r' ∷ b'a' ∷ b'y' ∷ []);
      synonyms =
          ((b'l' ∷ b'i' ∷ b's' ∷ b't' ∷ []) ∷ (b'v' ∷ b'e' ∷ b'c' ∷ b't' ∷ b'o' ∷ b'r' ∷ []) ∷ []);
      mask = 0x40;
    }
    ∷ record {
      name = (b'u' ∷ b's' ∷ b'e' ∷ b'r' ∷ b'd' ∷ b'a' ∷ b't' ∷ b'a' ∷ []);
      synonyms =
          ((b'u' ∷ b's' ∷ b'e' ∷ b'r' ∷ []) ∷ (b'o' ∷ b'b' ∷ b'j' ∷ b'e' ∷ b'c' ∷ b't' ∷ []) ∷ []);
      mask = 0x80;
    }
    ∷ record {
      name = (b'f' ∷ b'u' ∷ b'n' ∷ b'c' ∷ b't' ∷ b'i' ∷ b'o' ∷ b'n' ∷ []);
      synonyms =
          ((b'f' ∷ b'u' ∷ b'n' ∷ b'c' ∷ [])
            ∷ (b'c' ∷ b'l' ∷ b'o' ∷ b's' ∷ b'u' ∷ b'r' ∷ b'e' ∷ [])
            ∷ []);
      mask = 0x300;
    }
    ∷ record {
      name = (b'g' ∷ b'e' ∷ b'n' ∷ b'e' ∷ b'r' ∷ b'a' ∷ b't' ∷ b'o' ∷ b'r' ∷ []);
      synonyms = ((b'g' ∷ b'e' ∷ b'n' ∷ []) ∷ (b'y' ∷ b'i' ∷ b'e' ∷ b'l' ∷ b'd' ∷ []) ∷ []);
      mask = 0x400;
    }
    ∷ record {
      name = (b'u' ∷ b's' ∷ b'e' ∷ b'r' ∷ b'p' ∷ b'o' ∷ b'i' ∷ b'n' ∷ b't' ∷ b'e' ∷ b'r' ∷ []);
      synonyms =
          ((b'p' ∷ b't' ∷ b'r' ∷ []) ∷ (b'p' ∷ b'o' ∷ b'i' ∷ b'n' ∷ b't' ∷ b'e' ∷ b'r' ∷ []) ∷ []);
      mask = 0x800;
    }
    ∷ record {
      name = (b't' ∷ b'h' ∷ b'r' ∷ b'e' ∷ b'a' ∷ b'd' ∷ []);
      synonyms =
          ((b'c' ∷ b'o' ∷ b'r' ∷ b'o' ∷ b'u' ∷ b't' ∷ b'i' ∷ b'n' ∷ b'e' ∷ [])
            ∷ (b'f' ∷ b'i' ∷ b'b' ∷ b'e' ∷ b'r' ∷ [])
            ∷ []);
      mask = 0x1000;
    }
    ∷ record {
      name = (b'i' ∷ b'n' ∷ b's' ∷ b't' ∷ b'a' ∷ b'n' ∷ b'c' ∷ b'e' ∷ []);
      synonyms =
          ((b'i' ∷ b'n' ∷ b's' ∷ b't' ∷ []) ∷ (b'o' ∷ b'b' ∷ b'j' ∷ b'e' ∷ b'c' ∷ b't' ∷ []) ∷ []);
      mask = 0x8000;
    }
    ∷ record { name = (b'c' ∷ b'l' ∷ b'a' ∷ b's' ∷ b's' ∷ []); synonyms = []; mask = 0x4000 }
    ∷ record {
      name = (b'w' ∷ b'e' ∷ b'a' ∷ b'k' ∷ b'r' ∷ b'e' ∷ b'f' ∷ []);
      synonyms =
          ((b'r' ∷ b'e' ∷ b'f' ∷ b'e' ∷ b'r' ∷ b'e' ∷ b'n' ∷ b'c' ∷ b'e' ∷ [])
            ∷ (b'r' ∷ b'e' ∷ b'f' ∷ [])
            ∷ []);
      mask = 0x10000;
    }
    ∷ record {
      name = (b'n' ∷ b'u' ∷ b'l' ∷ b'l' ∷ []);
      synonyms = ((b'n' ∷ b'i' ∷ b'l' ∷ []) ∷ (b'n' ∷ b'o' ∷ b'n' ∷ b'e' ∷ []) ∷ []);
      mask = 0x1;
    }
    ∷ record { name = (b'a' ∷ b'n' ∷ b'y' ∷ []); synonyms = []; mask = 0xffff_ffff }
    ∷ []

abbrev pub is_synonym : Bytes → List Bytes → Bool
is_synonym word [] = false
is_synonym word (n ∷ ns) = is_str_equal_ignore_case word n || is_synonym word ns

-- `sq_type_string_to_mask` on the declarations that are left: the mask if the name is found, and the
-- suggestion.
unfoldable pub type_string_to_mask :
    List RawTypeDecl → Bytes → Option Bytes → Option ℕ × Option Bytes
type_string_to_mask [] word suggestion = (none, suggestion)
type_string_to_mask (d ∷ ds) word suggestion =
    let rest =
      type_string_to_mask ds word
        (if is_synonym word (d.name ∷ d.synonyms) then some d.name else suggestion) in
    if same_text word d.name then (some d.mask, suggestion) else rest

pub data Complaint : Type 0 where
  expected_type_name expected_bracket out_of_fuel : Complaint
  invalid_type_name : Bytes → Option Bytes → Complaint

-- An error at what is left of the text, from which `error_pos` counts.
pub record TypeError : Type 0 where
  pub left : Bytes
  pub complaint : Complaint

-- The loop of `parse_type_mask`: the mask and what follows it.
unfoldable pub parse_types : ℕ → Bytes → ℕ → Result TypeError (ℕ × Bytes)
parse_types zero p mask = err (record { left = p; complaint = out_of_fuel })
parse_types (suc f) p mask = elim (parse_identifier p) [
  | none ↦ err (record { left = p; complaint = expected_type_name })
  | some (word, rest) ↦
      let (known, suggestion) = type_string_to_mask raw_type_decls word none in
      elim known [
        | none ↦ err (record { left = rest; complaint = invalid_type_name word suggestion })
        | some current ↦ elim (skip_spaces rest) [
          | [] ↦ ok (bit_or mask current, [])
          | c ∷ q ↦
              if c == b'|'
              then parse_types f (skip_spaces q) (bit_or mask current)
              else ok (bit_or mask current, c ∷ q)
        ]
      ]
]

-- The end of `parse_type_mask` where a bracket is open.
unfoldable pub close_bracket : ℕ × Bytes → Result TypeError (ℕ × Bytes)
close_bracket (mask, []) = err (record { left = []; complaint = expected_bracket })
close_bracket (mask, c ∷ q) =
    if c == b')'
    then ok (mask, skip_spaces q)
    else err (record { left = c ∷ q; complaint = expected_bracket })

unfoldable pub parse_mask : Bytes → Result TypeError (ℕ × Bytes)
parse_mask [] = parse_types 1 [] 0
parse_mask (c ∷ q) =
    if c == b'('
    then elim (parse_types (length q + 1) (skip_spaces q) 0) [
      | ok r ↦ close_bracket r
      | err e ↦ err e
    ]
    else parse_types (length q + 2) (c ∷ q) 0

-- `parse_type_mask`
unfoldable pub parse_type_mask : Bytes → Result TypeError (ℕ × Bytes)
parse_type_mask s = parse_mask (skip_spaces s)
