-- ===== src/Blob/Reads.antt =====
-- Reading from an SQBlob of sqstdlib/sqstdblobimpl.h and moving in it.
use quirrel.Prelude.{
  ℕ, zero, suc, ◌+◌, ◌-◌, ◌≤◌, ◌<◌, ◌≡◌, refl, ap, sym, ◌∙◌, List, [], ◌∷◌, Bool, true, false,
  arith,
}
use quirrel.Prelude.{
  ltb, length, length-take, length-drop, take, drop, Bool-cases, inl, inr, ◌||◌, subst,
}
use quirrel.Prelude.Int.{ℤ, pos, negsuc, ◌+ℤ◌}
use quirrel.Blob.{
  Blob, can_advance, read, seek, move_to, Origin, seek_set, seek_cur, seek_end, other_origin,
}
use quirrel.Blob.Laws.{IsValid, content}
use quirrel.Blob.Splices.{take-take, take_nil}

-- What a read of `n` bytes from a blob that IsValid is.
pub record HasRead (n : ℕ) (b : Blob) (result : List ℕ × Blob) : Type 0 where
  pub valid : IsValid result.1
  pub bytes : result.0 ≡ take n (drop b.ptr (content b))
  pub moved : result.1.ptr ≡ b.ptr + length result.0
  pub kept : content result.1 ≡ content b

take-drop-take :
    (n p s : ℕ) (l : List ℕ) → p + n ≤ s → take n (drop p (take s l)) ≡ take n (drop p l)
take-drop-take n zero s l h = take-take n s l (omega arith)
take-drop-take n (suc p) zero l h = absurd (omega arith)
take-drop-take n (suc p) (suc s) [] h = refl
take-drop-take n (suc p) (suc s) (x ∷ l) h = take-drop-take n p s l (omega arith)

take-take_ge : {A : Type 0} (k n : ℕ) (l : List A) → k ≤ n → take n (take k l) ≡ take k l
take-take_ge zero zero l h = refl
take-take_ge zero (suc n) l h = refl
take-take_ge (suc k) zero l h = absurd (omega arith)
take-take_ge (suc k) (suc n) [] h = refl
take-take_ge (suc k) (suc n) (x ∷ l) h = ap (λ t. x ∷ t) (take-take_ge k n l (omega arith))

-- More than there is from the position on is all there is.
take-drop_rest :
    (k n p s : ℕ) (l : List ℕ) → p + k ≡ s → k ≤ n → take n (drop p (take s l)) ≡ take k (drop p l)
take-drop_rest k n zero s l e h =
    subst (λ t. take n (take t l) ≡ take k l) (omega arith) (take-take_ge k n l h)
take-drop_rest k n (suc p) zero l e h = absurd (omega arith)
take-drop_rest k n (suc p) (suc s) [] e h = take_nil n ∙ sym (take_nil k)
take-drop_rest k n (suc p) (suc s) (x ∷ l) e h = take-drop_rest k n p s l (omega arith) h

length-read : (k p : ℕ) (l : List ℕ) → p + k ≤ length l → length (take k (drop p l)) ≡ k
length-read k p l h = omega (arith, length-take k (drop p l), length-drop p l)

-- `read` gives the bytes from the position on, as many as asked for or as there are, moves the
-- position behind them, and changes nothing else.
pub read-HasRead : (n : ℕ) (b : Blob) → IsValid b → HasRead n b (read n b)
unfolding read can_advance
read-HasRead n b v = elim (Bool-cases (ltb b.size (b.ptr + n))) [
  | inr e ↦ rw e (record {
    valid = record { buffer = v.buffer; sized = v.sized; placed = ground arith };
    bytes = sym (take-drop-take n b.ptr b.size b.buf (ground arith));
    moved = omega (arith, length-read n b.ptr b.buf (ground arith));
    kept = refl;
  })
  | inl e ↦ elim (Bool-cases (ltb 0 (b.size - b.ptr))) [
    | inl f ↦
        rw (e, f)
          (record {
            valid = record { buffer = v.buffer; sized = v.sized; placed = ground arith };
            bytes = sym (
                take-drop_rest (b.size - b.ptr) n b.ptr b.size b.buf (ground arith) (ground arith));
            moved = omega (arith, length-read (b.size - b.ptr) b.ptr b.buf (ground arith));
            kept = refl;
          })
    | inr f ↦
        rw (e, f)
          (record {
            valid = v;
            bytes = sym (take-drop_rest 0 n b.ptr b.size b.buf (ground arith) (omega arith));
            moved = omega arith;
            kept = refl;
          })
  ]
]

-- What a move to `target` must be: it arrives where the blob reaches, and is refused elsewhere.
pub data HasMoved (target : ℤ) (b : Blob) : Blob × Bool → Type 0 where
  arrived : (p : ℕ) → target ≡ pos p → p ≤ b.size → HasMoved target b (record b { ptr = p }, true)
  past_end : (p : ℕ) → target ≡ pos p → b.size < p → HasMoved target b (b, false)
  before_start : (n : ℕ) → target ≡ negsuc n → HasMoved target b (b, false)

move_to-HasMoved : (target : ℤ) (b : Blob) → HasMoved target b (move_to target b)
move_to-HasMoved (pos p) b = elim (Bool-cases (ltb (b.size + 0) (p + 0))) [
  | inl e ↦ rw e (past_end p refl (ground arith))
  | inr e ↦ rw (e, not_before p) (arrived p refl (ground arith))
]
  where
    not_before : (n : ℕ) → ltb (n + 0) 0 ≡ false
    not_before n = ground arith
move_to-HasMoved (negsuc n) b = rw (is_before (b.size + suc n)) (before_start n refl)
  where
    is_before : (m : ℕ) → (ltb m 0 || ltb 0 (0 + suc n)) ≡ true
    is_before m = ground arith

-- The place that an origin and an offset name.
abbrev pub place : ℤ → Origin → Blob → ℤ
place offset seek_set b = offset
place offset seek_cur b = pos b.ptr +ℤ offset
place offset seek_end b = pos b.size +ℤ offset
place offset other_origin b = negsuc 0

-- `seek` moves exactly to the place named if it lies in the blob or at its end, and refuses
-- without a change everywhere else.
pub seek-HasMoved :
    (offset : ℤ) (origin : Origin) (b : Blob)
    → HasMoved (place offset origin b) b (seek offset origin b)
unfolding seek
seek-HasMoved offset seek_set b = move_to-HasMoved offset b
seek-HasMoved offset seek_cur b = move_to-HasMoved (pos b.ptr +ℤ offset) b
seek-HasMoved offset seek_end b = move_to-HasMoved (pos b.size +ℤ offset) b
seek-HasMoved offset other_origin b = before_start 0 refl
