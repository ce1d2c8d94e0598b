-- ===== src/Serializer/Total.antt =====
-- The outcomes of `deserialize` of sqstdlib/sqstdserialization.cpp, and its fuel.
use quirrel.Prelude.{
  ℕ, zero, suc, ◌+◌, ◌*◌, ◌/◌, ◌%◌, not, ◌≤◌, ◌<◌, ◌≢◌, List, [], arith, Bool, true, false,
}
use quirrel.Prelude.{◌==◌, length, Result, ok, err, ◌>>=◌, require}
use quirrel.Serializer.Value.{
  Value, Fields, Failure, Reader, null, bool, array, table, end, invalid_array, invalid_table,
  array_too_large, table_too_large, unsupported_object, invalid_start_marker, invalid_end_marker,
  out_of_fuel, new_slot,
}
use quirrel.Serializer.Read.{
  Run, read_size, deserialize_object, read_items, read_fields, deserialize,
}
use quirrel.Serializer.Progress.{
  took, refused, Progresses, if-Progresses, bind-Progresses, after-Progresses, read_word-Progresses,
  stay, stop, integer_then, float_then, size_then, instance_then, string_then,
}

-- One induction on the fuel: what a call takes lowers the bound on what the next one needs.
module _ (g : ℕ → ℕ) where
  array_then :
      (s : Reader) (f v : ℕ)
      → ((n : ℕ) (i : Reader)
          → length i.input + 0 ≤ length s.input
          → Progresses 0 i (read_items g f n i))
      → Progresses 0 s (
          read_size invalid_array array_too_large v s >>= λ (n, i).
          read_items g f n i >>= λ (vs, t). ok (array vs, t))
  array_then s f v parts =
      bind-Progresses 0 0 _ (size_then s invalid_array array_too_large v (cc) (cc)) λ n i l.
        bind-Progresses 0 0 _ (after-Progresses 0 0 0 l (omega arith) (parts n i l))
          λ vs t m. took m

  table_then :
      (s : Reader) (f v : ℕ)
      → ((n : ℕ) (i : Reader)
          → length i.input + 0 ≤ length s.input
          → Progresses 0 i (read_fields g f n end i))
      → Progresses 0 s (
          read_size invalid_table table_too_large v s >>= λ (n, i).
          read_fields g f n end i >>= λ (fs, t). ok (table fs, t))
  table_then s f v parts =
      bind-Progresses 0 0 _ (size_then s invalid_table table_too_large v (cc) (cc)) λ n i l.
        bind-Progresses 0 0 _ (after-Progresses 0 0 0 l (omega arith) (parts n i l))
          λ fs t m. took m

  mutual
    unfolding deserialize_object

    object-Progresses :
        (f : ℕ) (r : Reader) → 2 * length r.input < f → Progresses 1 r (deserialize_object g f r)
    object-Progresses zero r h = absurd (omega arith)
    object-Progresses (suc f) r h = bind-Progresses 1 1 _ (read_word-Progresses r 1) λ t s k.
        after-Progresses 1 0 1 k (omega arith) (
          if-Progresses (t / 16 == 0) (stay s null) (
            if-Progresses (t / 16 == 1) (stay s (bool (not (t % 16 == 0)))) (
              if-Progresses (t / 16 == 2) (integer_then s (t % 16)) (
                if-Progresses (t / 16 == 3) (float_then s g (t % 16)) (
                  if-Progresses (t / 16 == 4) (string_then s (t % 16)) (
                    if-Progresses (t / 16 == 5)
                      (array_then s f (t % 16) (λ n i l. items-Progresses f n i (omega arith)))
                      (if-Progresses (t / 16 == 6)
                        (table_then s f (t % 16)
                          (λ n i l. fields-Progresses f n end i (omega arith)))
                        (if-Progresses (t / 16 == 7) (instance_then s (t % 16))
                          (stop s unsupported_object (cc))))))))))

    items-Progresses :
        (f n : ℕ) (r : Reader) → suc (2 * length r.input) < f → Progresses 0 r (read_items g f n r)
    items-Progresses zero n r h = absurd (omega arith)
    items-Progresses (suc f) zero r h = stay r _
    items-Progresses (suc f) (suc n) r h =
        bind-Progresses 1 0 _ (object-Progresses f r (omega arith)) λ v s k.
          bind-Progresses 0 0 _
            (after-Progresses 1 0 0 k (omega arith) (items-Progresses f n s (omega arith)))
            λ vs t m. took m

    fields-Progresses :
        (f n : ℕ) (slots : Fields) (r : Reader)
        → suc (2 * length r.input) < f
        → Progresses 0 r (read_fields g f n slots r)
    fields-Progresses zero n slots r h = absurd (omega arith)
    fields-Progresses (suc f) zero slots r h = stay r _
    fields-Progresses (suc f) (suc n) slots r h =
        bind-Progresses 1 0 _ (object-Progresses f r (omega arith)) λ k s l.
          bind-Progresses 1 0 _
            (after-Progresses 1 1 1 l (omega arith) (object-Progresses f s (omega arith)))
            λ v t m.
              after-Progresses 1 0 0 m (omega arith)
                (fields-Progresses f n (new_slot k v slots) t (omega arith))

-- What can come of a call of `deserialize`: an error of the code, or a value and a rest that is
-- shorter than the input by at least the markers and one byte.
pub data IsOutcome (bytes : List ℕ) : Result Failure (Value × List ℕ) → Type 0 where
  returned :
      {v : Value} {rest : List ℕ} → length rest + 3 ≤ length bytes → IsOutcome bytes (ok (v, rest))
  thrown : {e : Failure} → e ≢ out_of_fuel → IsOutcome bytes (err e)

bind-IsOutcome :
    {A : Type 0} {bytes : List ℕ} {r : Reader} {m : Run A} (k : ℕ)
    (f : A × Reader → Result Failure (Value × List ℕ))
    → Progresses k r m
    → ((a : A) (s : Reader) → length s.input + k ≤ length r.input → IsOutcome bytes (f (a, s)))
    → IsOutcome bytes (m >>= f)
bind-IsOutcome k f (took {a} {r'} h) next = next a r' h
bind-IsOutcome k f (refused n) next = thrown n

require-IsOutcome :
    {bytes : List ℕ} {x : Result Failure (Value × List ℕ)} (b : Bool) (e : Failure)
    → e ≢ out_of_fuel
    → IsOutcome bytes x
    → IsOutcome bytes (require b e >>= λ _. x)
require-IsOutcome true e n p = p
require-IsOutcome false e n p = thrown n

-- `deserialize` ends on every sequence of bytes, whatever its `static_cast` from double to float
-- does: it throws one of the errors of the code, or it returns a value and leaves at least three
-- bytes fewer than it was given.
pub deserialize-IsOutcome : (g : ℕ → ℕ) (bytes : List ℕ) → IsOutcome bytes (deserialize g bytes)
unfolding deserialize
deserialize-IsOutcome g bytes =
    let start : Reader = record { input = bytes; string_list = [] } in
    bind-IsOutcome 1 _ (read_word-Progresses start 1) λ first body h.
      require-IsOutcome _ invalid_start_marker (cc) (
        bind-IsOutcome 1 _ (object-Progresses g (2 * length bytes + 2) body (omega arith))
          λ v after k.
            bind-IsOutcome 1 _ (read_word-Progresses after 1)
              λ last rest l. require-IsOutcome _ invalid_end_marker (cc) (returned (omega arith)))
