-- ===== src/Serializer/Progress.antt =====
-- How far each step of `deserializeObject` in sqstdlib/sqstdserialization.cpp takes the reader.
use quirrel.Prelude.{ℕ, ◌+◌, ◌*◌, ◌≤◌, ◌≢◌, List, arith, Bool, true, false}
use quirrel.Prelude.{
  if◌then◌else◌, ltb, ◌==◌, length, length-drop, ok, err, ◌>>=◌, require, Bool-cases, inl, inr,
}
use quirrel.Prelude.{Option, some, none, get_elem?}
use quirrel.Serializer.Value.{
  Value, Failure, Reader, integer, float, string, invalid_integer, invalid_float, invalid_string,
  string_too_large, string_index_out_of_bounds, classes_not_set, class_index_out_of_bounds,
  out_of_fuel,
}
use quirrel.Prelude.Words.{from_word}
use quirrel.Serializer.Read.{
  Run, read, read_word, read_integer_of, read_integer, read_float, string_length, read_new_string,
  string_index, read_string_index, read_string, read_size, read_instance,
}

-- The run kept within its fuel: it took at least `least` bytes, or ended in an error of the code.
pub data Progresses {A : Type 0} (least : ℕ) (r : Reader) : Run A → Type 0 where
  took :
      {a : A} {r' : Reader}
      → length r'.input + least ≤ length r.input
      → Progresses least r (ok (a, r'))
  refused : {e : Failure} → e ≢ out_of_fuel → Progresses least r (err e)

module _ {A : Type 0} where
  pub if-Progresses :
      {least : ℕ} {r : Reader} {x y : Run A} (b : Bool)
      → Progresses least r x
      → Progresses least r y
      → Progresses least r (if b then x else y)
  if-Progresses true p q = p
  if-Progresses false p q = q

  require-Progresses :
      {least : ℕ} {r : Reader} {x : Run A} (b : Bool) (e : Failure)
      → e ≢ out_of_fuel
      → Progresses least r x
      → Progresses least r (require b e >>= λ _. x)
  require-Progresses true e n p = p
  require-Progresses false e n p = refused n

  pub bind-Progresses :
      {B : Type 0} {r : Reader} {m : Run A} (k least : ℕ) (f : A × Reader → Run B)
      → Progresses k r m
      → ((a : A) (r' : Reader)
          → length r'.input + k ≤ length r.input
          → Progresses least r (f (a, r')))
      → Progresses least r (m >>= f)
  bind-Progresses k least f (took {a} {r'} h) next = next a r' h
  bind-Progresses k least f (refused n) next = refused n

  -- From the bytes behind a prefix to the whole.
  pub after-Progresses :
      {r r' : Reader} {m : Run A} (k least whole : ℕ)
      → length r'.input + k ≤ length r.input
      → whole ≤ k + least
      → Progresses least r' m
      → Progresses whole r m
  after-Progresses k least whole h p (took q) = took (omega arith)
  after-Progresses k least whole h p (refused n) = refused n

module _ (r : Reader) where
  read-Progresses : (n : ℕ) → Progresses n r (read n r)
  unfolding read
  read-Progresses n = elim (Bool-cases (ltb (length r.input) n)) [
    | inl e ↦ rw e (refused (cc))
    | inr e ↦ rw e (took (ground (arith, length-drop n r.input)))
  ]

  pub read_word-Progresses : (n : ℕ) → Progresses n r (read_word n r)
  unfolding read_word
  read_word-Progresses n = bind-Progresses n n _ (read-Progresses n) (λ bytes rest h. took h)

  word_then :
      {A : Type 0} (n : ℕ) (f : ℕ × Reader → Run A)
      → ((a : ℕ) (r' : Reader) → length r'.input + n ≤ length r.input → Progresses 0 r (f (a, r')))
      → Progresses 0 r (read_word n r >>= f)
  word_then n f next = bind-Progresses n 0 f (read_word-Progresses n) next

  pub stay : {A : Type 0} (a : A) → Progresses 0 r (ok (a, r))
  stay a = took (omega arith)

  -- A word that is then made into a result.
  word_to :
      {A : Type 0} (n : ℕ) (make : ℕ → A)
      → Progresses 0 r (read_word n r >>= λ (x, s). ok (make x, s))
  word_to n make = bind-Progresses n 0 _ (read_word-Progresses n) (λ a s h. took (omega arith))

  word : (n : ℕ) → Progresses 0 r (read_word n r)
  word n = after-Progresses {r = r} 0 n 0 (omega arith) (omega arith) (read_word-Progresses n)

  pub stop : {A : Type 0} (e : Failure) → e ≢ out_of_fuel → Progresses {A = A} 0 r (err e)
  stop e n = refused n

  integer_of : (n : ℕ) → Progresses 0 r (read_integer_of n r)
  integer_of n = word_to n (λ x. integer (from_word (8 * n) x))

  pub integer_then : (v : ℕ) → Progresses 0 r (read_integer v r)
  unfolding read_integer
  integer_then v =
      search
        (
          if-Progresses,
          stay,
          integer_of 1,
          integer_of 2,
          integer_of 4,
          integer_of 8,
          stop invalid_integer (cc),
        )
        depth 12

  pub float_then : (g : ℕ → ℕ) (v : ℕ) → Progresses 0 r (read_float g v r)
  unfolding read_float
  float_then g v =
      search
        (
          if-Progresses,
          stay,
          word_to 4 float,
          word_to 8 (λ x. float (g x)),
          stop invalid_float (cc),
        )
        depth 14

  string_length-Progresses : (v : ℕ) → Progresses 0 r (string_length v r)
  unfolding string_length
  string_length-Progresses v = search (if-Progresses, word)

  string_index-Progresses : (v : ℕ) → Progresses 0 r (string_index v r)
  unfolding string_index
  string_index-Progresses v = search (if-Progresses, word, stop invalid_string (cc))

  size_word :
      (invalid : Failure) (v : ℕ)
      → invalid ≢ out_of_fuel
      → Progresses 0 r
          (if v == 1 then read_word 1 r else if v == 2 then read_word 4 r else err invalid)
  size_word invalid v p = search (if-Progresses, word, stop invalid p)

  pub size_then :
      (invalid too_large : Failure) (v : ℕ)
      → invalid ≢ out_of_fuel
      → too_large ≢ out_of_fuel
      → Progresses 0 r (read_size invalid too_large v r)
  unfolding read_size
  size_then invalid too_large v p q = if-Progresses (v == 0) (stay 0) (
      bind-Progresses 0 0 _ (size_word invalid v p)
        λ n s h. require-Progresses _ too_large q (took h))

-- An error behind a run of any kind.
then_refused :
    {A B : Type 0} {r s : Reader} {m : Run A} {k : ℕ} (e : Failure)
    → Progresses k s m
    → e ≢ out_of_fuel
    → Progresses {A = B} 0 r (m >>= λ _. err e)
then_refused e (took h) n = refused n
then_refused e (refused p) n = refused p

module _ (r : Reader) where
  pub instance_then : (v : ℕ) → Progresses 0 r (read_instance v r)
  unfolding read_instance
  instance_then v =
      if-Progresses (v == 15)
        (word_then r 1 _ λ n s h. then_refused classes_not_set (read-Progresses s n) (cc))
        (word_then r 1 _ λ n s h. stop r class_index_out_of_bounds (cc))

  new_string_then : (v : ℕ) → Progresses 0 r (read_new_string v r)
  unfolding read_new_string
  new_string_then v = bind-Progresses 0 0 _ (string_length-Progresses r v) λ n s h.
      require-Progresses _ string_too_large (cc) (
        bind-Progresses 0 0 _ (after-Progresses 0 n 0 h (omega arith) (read-Progresses s n))
          λ bytes t k. took k)

  found_then :
      (s : Reader) (o : Option (List ℕ))
      → length s.input + 0 ≤ length r.input
      → Progresses {A = Value} 0 r
          (elim o [ none ↦ err string_index_out_of_bounds | some bytes ↦ ok (string bytes, s) ])
  found_then s none h = refused (cc)
  found_then s (some bytes) h = took h

  pub string_then : (v : ℕ) → Progresses 0 r (read_string v r)
  unfolding read_string read_string_index
  string_then v = if-Progresses (v == 0) (stay r _) (
      if-Progresses (ltb v 4) (new_string_then v) (
        bind-Progresses 0 0 _ (string_index-Progresses r v)
          λ i s h. found_then s (get_elem? s.string_list i) h))
