-- ===== src/Blob.antt =====
-- sqstdlib/sqstdblobimpl.h: SQBlob, the in-memory stream.
pub mod Splices
pub mod Laws
pub mod Reads
use quirrel.Prelude.{
  ℕ, zero, suc, ◌+◌, ◌-◌, ◌*◌, List, [], ◌∷◌, ◌++◌, Bool, true, false, ltb, leb, if◌then◌else◌,
  length, take, drop, replicate, not, ◌==◌, ◌||◌,
}
use quirrel.Prelude.Int.{ℤ, pos, negsuc, ◌+ℤ◌, ltb_ℤ, pos_part}
use Prim.Native.Nat.{min}

-- `buf` has `_allocated` bytes. All fields are SQInteger that are never negative.
pub record Blob : Type 0 where
  pub size : ℕ
  pub allocated : ℕ
  pub ptr : ℕ
  pub buf : List ℕ

unfoldable pub new_blob : ℕ → Blob
new_blob size = record { size = size; allocated = size; ptr = 0; buf = replicate size 0 }

-- `memcpy(&buf[p], bytes, …)`; a copy past the end would lengthen the list.
unfoldable pub splice : ℕ → List ℕ → List ℕ → List ℕ
splice zero [] b = b
splice zero (x ∷ xs) [] = x ∷ splice zero xs []
splice zero (x ∷ xs) (y ∷ b) = x ∷ splice zero xs b
splice (suc p) xs [] = xs
splice (suc p) xs (y ∷ b) = y ∷ splice p xs b

unfoldable pub can_advance : ℕ → Blob → Bool
can_advance n b = not (ltb b.size (b.ptr + n))

-- `Resize` for an `n` that is not negative, the only case that GrowBufOf calls.
unfoldable pub resize : ℕ → Blob → Blob
resize n b = if n == b.allocated then b else record {
  size = if ltb n b.size then n else b.size;
  allocated = n;
  ptr = if ltb n b.ptr then n else b.ptr;
  buf = splice 0 (take (if ltb n b.size then n else b.size) b.buf) (replicate n 0);
}

unfoldable pub grow_buf_of : ℕ → Blob → Blob
unfolding resize
grow_buf_of n b =
    let room =
      if ltb b.allocated (b.size + n)
      then if ltb (b.size * 2) (b.size + n) then resize (b.size + n) b else resize (b.size * 2) b
      else b in
    record room { size = room.size + n }

-- The copy into a blob with room for it.
abbrev pub copy_in : List ℕ → Blob → Blob × ℕ
copy_in bytes b =
    (record b { buf = splice b.ptr bytes b.buf; ptr = b.ptr + length bytes }, length bytes)

unfoldable pub write : List ℕ → Blob → Blob × ℕ
unfolding can_advance
write bytes b =
    copy_in bytes
      (if can_advance (length bytes) b then b else grow_buf_of (b.ptr + length bytes - b.size) b)

-- `Read` of a size that is not negative (a negative one would be the huge size of a memcpy, which C++
-- does not define): the bytes read, fewer than asked for at the end, and the blob behind them.
unfoldable pub read : ℕ → Blob → List ℕ × Blob
unfolding can_advance
read n b =
    if can_advance n b
    then (take n (drop b.ptr b.buf), record b { ptr = b.ptr + n })
    else if ltb 0 (b.size - b.ptr)
    then (take (b.size - b.ptr) (drop b.ptr b.buf), record b { ptr = b.ptr + (b.size - b.ptr) })
    else ([], b)

pub data Origin : Type 0 where
  seek_set seek_cur seek_end other_origin : Origin

-- `ptr` moves to `target` if that lies in the blob. The result is true for the return of 0 and
-- false for -1.
abbrev pub move_to : ℤ → Blob → Blob × Bool
move_to target b =
    if ltb_ℤ (pos b.size) target || ltb_ℤ target (pos 0)
    then (b, false)
    else (record b { ptr = pos_part target }, true)

unfoldable pub seek : ℤ → Origin → Blob → Blob × Bool
seek offset seek_set b = move_to offset b
seek offset seek_cur b = move_to (pos b.ptr +ℤ offset) b
seek offset seek_end b = move_to (pos b.size +ℤ offset) b
seek offset other_origin b = (b, false)

unfoldable pub eos : Blob → Bool
eos b = b.ptr == b.size
