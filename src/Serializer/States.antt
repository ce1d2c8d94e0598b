-- ===== src/Serializer/States.antt =====
-- The writer of sqstdlib/sqstdserialization.cpp between two objects: what holds of it, and what writing
-- an object leaves.

-- round trip for sqstdlib/sqstdserialization.cpp.
use quirrel.Prelude.{ℕ, zero, suc, ◌+◌, ◌*◌, ◌^◌, ◌≤◌, ◌<◌, ◌≡◌, refl, List, [], ◌∷◌, ◌++◌, arith}
use quirrel.Prelude.{length, length-append, Result, ok}
use quirrel.Prelude.{get_elem?, get_elem?-append_left, get_elem?-append_self, get_elem?-lt, some}
use quirrel.Prelude.{true}
use quirrel.Serializer.Value.{Failure, Writer, Reader, bytes_eq, max_nesting}
use quirrel.Serializer.Write.{
  write, find_string, remember_string, enter, integer_bytes, float_bytes, new_string_bytes,
  string_index_bytes, size_bytes,
}
use quirrel.Prelude.Int.{ℤ}
use quirrel.Serializer.Read.{Run}
use quirrel.Serializer.Leaves.{at}

-- The strings that the reader has met are those that the writer counted, and every index in the
-- writer's table points at its string.
pub record IsConsistent (w : Writer) (met : List (List ℕ)) : Type 0 where
  pub counted : w.string_counter ≡ length met
  pub found :
      (s : List ℕ) (i : ℕ) → find_string s w.string_table ≡ some i → get_elem? met i ≡ some s

bytes_eq→eq : (s t : List ℕ) → bytes_eq s t ≡ true → s ≡ t
bytes_eq→eq [] [] h = refl
bytes_eq→eq [] (y ∷ ys) h = cc
bytes_eq→eq (x ∷ xs) [] h = cc
bytes_eq→eq (x ∷ xs) (y ∷ ys) h = ground (arith, bytes_eq→eq xs ys)

pub remember_string-IsConsistent :
    (s : List ℕ) (w : Writer) (met : List (List ℕ))
    → IsConsistent w met
    → IsConsistent (remember_string s w) (met ++ s ∷ [])
unfolding remember_string find_string
remember_string-IsConsistent s w met c = record {
  counted = omega (arith, length-append met (s ∷ []), c.counted);
  found = λ t i h. ground (
    arith,
    bytes_eq→eq s t,
    c.counted,
    c.found t i,
    get_elem?-append_self met s [],
    get_elem?-append_left met (s ∷ []) i,
    get_elem?-lt met i t,
  );
}

-- `res` is a success that added bytes to the output, at least `least` and with at most `new` new
-- strings among them; `run` reads them back as `a`, with fuel above twice their number and `slack`.
pub record Writes {A : Type 0} (w : Writer) (met : List (List ℕ)) (res : Result Failure Writer)
    (least new slack : ℕ) (run : ℕ → Reader → Run A) (a : A) : Type 0 where
  pub after : Writer
  pub bytes : List ℕ
  pub met_after : List (List ℕ)
  pub returns : res ≡ ok after
  pub grows : after.output ≡ w.output ++ bytes
  pub same_depth : after.depth ≡ w.depth
  pub consistent : IsConsistent after met_after
  pub few : after.string_counter ≤ w.string_counter + new
  pub some_bytes : least ≤ length bytes
  pub reads :
      (f : ℕ) (rest : List ℕ)
      → slack + 2 * length bytes < f
      → run f (at (bytes ++ rest) met) ≡ ok (a, at rest met_after)

-- What a value, items or fields need of the state that they are written in.
pub record Fits (w : Writer) (met : List (List ℕ)) (new deep : ℕ) : Type 0 where
  pub consistent : IsConsistent w met
  pub room : w.string_counter + new ≤ 2 ^ 32
  pub shallow : w.depth + deep ≤ max_nesting

-- Enough fuel pays for the call at hand, and the statement may be shown with one unit taken off.
pub pay {ℓ} :
    {least : ℕ} (Holds : ℕ → Type ℓ) (call : (left : ℕ) → least < suc left → Holds (suc left))
    (fuel : ℕ)
    → least < fuel
    → Holds fuel
pay Holds call (suc left) enough = call left enough
pay Holds call zero enough = absurd (omega arith)

pub integer_bytes_pos : (z : ℤ) → 1 ≤ length (integer_bytes z)
unfolding integer_bytes
integer_bytes_pos z = ground arith

pub float_bytes_pos : (bits : ℕ) → 1 ≤ length (float_bytes bits)
unfolding float_bytes
float_bytes_pos bits = ground arith

pub string_index_bytes_pos : (i : ℕ) → 1 ≤ length (string_index_bytes i)
unfolding string_index_bytes
string_index_bytes_pos i = ground arith

pub new_string_bytes_pos : (s : List ℕ) → 1 ≤ length (new_string_bytes s)
unfolding new_string_bytes
new_string_bytes_pos s = ground arith

pub size_bytes_pos : (tag n : ℕ) → 1 ≤ length (size_bytes tag n)
unfolding size_bytes
size_bytes_pos tag n = ground arith

-- The state behind `depth++` and the header of an array or a table.
abbrev pub inside : ℕ → ℕ → Writer → Writer
inside tag n w = write (size_bytes tag n) (record w { depth = w.depth + 1 })

pub enter-eq-ok :
    (w : Writer) → w.depth + 1 ≤ max_nesting → enter w ≡ ok (record w { depth = w.depth + 1 })
unfolding enter
enter-eq-ok w h = ground arith

pub inside-Fits :
    {w : Writer} {met : List (List ℕ)} (tag n new deep : ℕ)
    → Fits w met new (deep + 1)
    → Fits (inside tag n w) met new deep
unfolding write
inside-Fits tag n new deep fit = record {
  consistent = record { counted = fit.consistent.counted; found = fit.consistent.found };
  room = fit.room;
  shallow = omega (arith, fit.shallow);
}
