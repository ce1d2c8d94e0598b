-- ===== src/Types/Parses.antt =====
-- What `parse_type_mask` of squirrel/compiler/sqtypeparser.cpp comes to on every text.
use mathlib.Core.List.{Memᴰ}
use mathlib.Core.List.Memᴰ
use quirrel.Prelude.{
  ℕ, zero, suc, ◌+◌, ◌≤◌, ◌<◌, ◌≡◌, ◌≢◌, ◌⊎◌, refl, sym, subst, inl, inr, ◌==◌, length, arith,
  Bool-cases,
}
use quirrel.Prelude.{none, some, Option-cases, List, [], ◌∷◌, ◌++◌, Result, ok, err}
use quirrel.Types.Names.{
  Bytes, RawTypeDecl, raw_type_decls, TypeError, out_of_fuel, skip_spaces, word_of,
  parse_identifier, type_string_to_mask, parse_types, close_bracket, parse_mask, parse_type_mask,
  same_text, is_str_equal_ignore_case,
}

-- A mask and a shorter rest, or an error of the code at a place in the text.
pub data IsOutcome (s : Bytes) : Result TypeError (ℕ × Bytes) → Type 0 where
  parsed : {mask : ℕ} {rest : Bytes} → length rest < length s → IsOutcome s (ok (mask, rest))
  refused :
      {e : TypeError} → length e.left ≤ length s → e.complaint ≢ out_of_fuel → IsOutcome s (err e)

List-cases : (s : Bytes) → (s ≡ []) ⊎ ((c : ℕ) × (q : Bytes) × (s ≡ c ∷ q))
List-cases [] = inl refl
List-cases (c ∷ q) = inr (c, q, refl)

longer :
    {s t : Bytes} {r : Result TypeError (ℕ × Bytes)}
    → length s ≤ length t
    → IsOutcome s r
    → IsOutcome t r
longer h (parsed l) = parsed (omega arith)
longer h (refused l ne) = refused (omega arith) ne

pub length-skip_spaces : (s : Bytes) → length (skip_spaces s) ≤ length s
unfolding skip_spaces
length-skip_spaces [] = omega arith
length-skip_spaces (c ∷ s) = ground (arith, length-skip_spaces s)

length-word_of : (s : Bytes) → length (word_of s).1 ≤ length s
unfolding word_of
length-word_of [] = omega arith
length-word_of (c ∷ s) = ground (arith, length-word_of s)

pub length-parse_identifier :
    (s word rest : Bytes) → parse_identifier s ≡ some (word, rest) → length rest < length s
unfolding parse_identifier
length-parse_identifier [] word rest h = absurd (cc)
length-parse_identifier (c ∷ s) word rest h = ground (arith, length-word_of s)

parse_types-IsOutcome :
    (f : ℕ) (p : Bytes) (mask : ℕ) → length p < f → IsOutcome p (parse_types f p mask)
unfolding parse_types
parse_types-IsOutcome zero p mask h = absurd (omega arith)
parse_types-IsOutcome (suc f) p mask h = elim (Option-cases (parse_identifier p)) [
  | inl e ↦ rw (parse_types, e) (refused (omega arith) (λ x. absurd (cc)))
  | inr ((word, rest), e) ↦
      let shorter = length-parse_identifier p word rest e in
      elim (Option-cases (type_string_to_mask raw_type_decls word none).0) [
        | inl unknown ↦ rw (parse_types, e, unknown) (refused (omega arith) (λ x. absurd (cc)))
        | inr (current, known) ↦ elim (List-cases (skip_spaces rest)) [
          | inl end ↦ rw (parse_types, e, known, end) (parsed (omega arith))
          | inr (c, q, more) ↦
              let fits : length (c ∷ q) ≤ length rest =
                subst (λ x. length x ≤ length rest) more (length-skip_spaces rest) in
              elim (Bool-cases (c == b'|')) [
                | inl t ↦
                    rw (parse_types, e, known, more, t)
                      (longer (omega (arith, length-skip_spaces q)) (
                        parse_types-IsOutcome f (skip_spaces q) _
                          (omega (arith, length-skip_spaces q))))
                | inr t ↦ rw (parse_types, e, known, more, t) (parsed (omega arith))
              ]
        ]
      ]
]

closed :
    {s : Bytes} {r : Result TypeError (ℕ × Bytes)}
    → IsOutcome s r
    → IsOutcome s (elim r [ ok x ↦ close_bracket x | err e ↦ err e ])
unfolding close_bracket
closed (parsed {mask} {rest = []} l) = refused (omega arith) (λ x. absurd (cc))
closed (parsed {mask} {rest = c ∷ q} l) = elim (Bool-cases (c == b')')) [
  | inl t ↦ rw t (parsed (omega (arith, length-skip_spaces q)))
  | inr t ↦ rw t (refused (omega arith) (λ x. absurd (cc)))
]
closed (refused l ne) = refused l ne

parse_mask-IsOutcome : (s : Bytes) → IsOutcome s (parse_mask s)
unfolding parse_mask
parse_mask-IsOutcome [] = parse_types-IsOutcome 1 [] 0 (omega arith)
parse_mask-IsOutcome (c ∷ q) = elim (Bool-cases (c == b'(')) [
  | inl t ↦ rw t (
      longer (omega (arith, length-skip_spaces q)) (
        closed (
          parse_types-IsOutcome (length q + 1) (skip_spaces q) 0
            (omega (arith, length-skip_spaces q)))))
  | inr t ↦ rw t (parse_types-IsOutcome (length q + 2) (c ∷ q) 0 (omega arith))
]

-- `parse_type_mask` ends on every text: with a mask and a shorter rest, or with one of the errors of
-- the code at a place in the text.
pub parse_type_mask-IsOutcome : (s : Bytes) → IsOutcome s (parse_type_mask s)
unfolding parse_type_mask
parse_type_mask-IsOutcome s = longer (length-skip_spaces s) (parse_mask-IsOutcome (skip_spaces s))

-- A name alone and in brackets is parsed as the mask of its declaration.
abbrev IsNamed : RawTypeDecl → Type 0
IsNamed d =
    (parse_type_mask d.name ≡ ok (d.mask, []))
    × (parse_type_mask (b'(' ∷ d.name ++ b')' ∷ []) ≡ ok (d.mask, []))

data AllNamed : List RawTypeDecl → Type 0 where
  nil : AllNamed []
  cons : {d : RawTypeDecl} {ds : List RawTypeDecl} → IsNamed d → AllNamed ds → AllNamed (d ∷ ds)

AllNamed-Memᴰ : {d : RawTypeDecl} {ds : List RawTypeDecl} → AllNamed ds → Memᴰ d ds → IsNamed d
AllNamed-Memᴰ nil m = absurd (Memᴰ.not-nil m)
AllNamed-Memᴰ (cons named rest) (Memᴰ.head e) = subst IsNamed (sym e) named
AllNamed-Memᴰ (cons named rest) (Memᴰ.tail m) = AllNamed-Memᴰ rest m

all_named : AllNamed raw_type_decls
unfolding parse_type_mask parse_mask parse_types parse_identifier word_of type_string_to_mask
    same_text skip_spaces close_bracket is_str_equal_ignore_case
all_named =
    cons (refl, refl)
      (cons (refl, refl)
        (cons (refl, refl)
          (cons (refl, refl)
            (cons (refl, refl)
              (cons (refl, refl)
                (cons (refl, refl)
                  (cons (refl, refl)
                    (cons (refl, refl)
                      (cons (refl, refl)
                        (cons (refl, refl)
                          (cons (refl, refl)
                            (cons (refl, refl)
                              (cons (refl, refl)
                                (cons (refl, refl)
                                  (cons (refl, refl) (cons (refl, refl) nil))))))))))))))))

-- The name of every declaration, alone and in brackets, is parsed as its mask, with nothing left.
pub parse_type_mask_name :
    (d : RawTypeDecl)
    → Memᴰ d raw_type_decls
    → (parse_type_mask d.name ≡ ok (d.mask, []))
      × (parse_type_mask (b'(' ∷ d.name ++ b')' ∷ []) ≡ ok (d.mask, []))
parse_type_mask_name d m = AllNamed-Memᴰ all_named m
