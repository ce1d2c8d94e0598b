-- ===== src/Blob/Laws.antt =====
-- Writing to an SQBlob of sqstdlib/sqstdblobimpl.h.
use quirrel.Prelude.{
  ℕ, ◌+◌, ◌-◌, ◌*◌, ◌≤◌, ◌<◌, ◌≡◌, refl, ap, ◌∙◌, sym, subst, List, ◌++◌, false, arith,
}
use quirrel.Prelude.{
  ltb, length, length-take, length-replicate, take, replicate, Bool-cases, inl, inr, ◌==◌,
}
use quirrel.Blob.{Blob, splice, can_advance, resize, grow_buf_of, copy_in, write}
use quirrel.Blob.Splices.{
  length-splice, overwrite, splice-eq, take-splice, take-take, take_front, take-append_two,
  overwrite-past_end,
}

-- The buffer has its allocated length, and position and size lie in order inside it.
pub record IsValid (b : Blob) : Type 0 where
  pub buffer : length b.buf ≡ b.allocated
  pub sized : b.size ≤ b.allocated
  pub placed : b.ptr ≤ b.size

-- The bytes of the stream.
abbrev pub content : Blob → List ℕ
content b = take b.size b.buf

length-zeros : (n : ℕ) → length (replicate {A = ℕ} n 0) ≡ n
length-zeros n = length-replicate n 0

-- A blob with more room and the same bytes.
record IsRoomier (n : ℕ) (b r : Blob) : Type 0 where
  valid : IsValid r
  fits : n ≤ r.allocated
  same_size : r.size ≡ b.size
  same_ptr : r.ptr ≡ b.ptr
  same_bytes : take b.size r.buf ≡ take b.size b.buf

resize-IsRoomier : (n : ℕ) (b : Blob) → IsValid b → b.size ≤ n → IsRoomier n b (resize n b)
unfolding resize
resize-IsRoomier n b v h = elim (Bool-cases (n == b.allocated)) [
  | inl e ↦ rw e (record {
    valid = v;
    fits = ground arith;
    same_size = refl;
    same_ptr = refl;
    same_bytes = refl;
  })
  | inr e ↦
      let no_cut : ltb n b.size ≡ false = ground arith in
      let no_move : ltb n b.ptr ≡ false = ground arith in
      let long : length (take b.size b.buf) ≡ b.size = omega (arith, length-take b.size b.buf) in
      rw (e, no_cut, no_move)
        (record {
          valid = record {
            buffer =
                length-splice 0 (take b.size b.buf) (replicate n 0) (omega (arith, length-zeros n))
                ∙ length-zeros n;
            sized = h;
            placed = v.placed;
          };
          fits = omega arith;
          same_size = refl;
          same_ptr = refl;
          same_bytes =
              rw (splice-eq 0 (take b.size b.buf) (replicate n 0) (omega (arith, length-zeros n)))
                (take_front b.size _ _ long);
        })
]

grow_buf_of-grows :
    (n : ℕ) (b : Blob)
    → IsValid b
    → (r : Blob) × IsRoomier (b.size + n) b r × (grow_buf_of n b ≡ record r { size = r.size + n })
unfolding grow_buf_of
grow_buf_of-grows n b v = elim (Bool-cases (ltb b.allocated (b.size + n))) [
  | inl p ↦ elim (Bool-cases (ltb (b.size * 2) (b.size + n))) [
    | inl q ↦ (resize (b.size + n) b, resize-IsRoomier (b.size + n) b v (omega arith), rw (p, q))
    | inr q ↦
        let more = resize-IsRoomier (b.size * 2) b v (omega arith) in
        (
          resize (b.size * 2) b,
          record {
            valid = more.valid;
            fits = ground (arith, more.fits);
            same_size = more.same_size;
            same_ptr = more.same_ptr;
            same_bytes = more.same_bytes;
          },
          rw (p, q),
        )
  ]
  | inr p ↦ (
    b,
    record { valid = v; fits = ground arith; same_size = refl; same_ptr = refl; same_bytes = refl },
    rw p,
  )
]

-- What `write` leaves: a blob that IsValid, with the bytes put over the old ones at the position,
-- lengthened where they go past the end, and the position behind them.
pub record Wrote (bytes : List ℕ) (b : Blob) (result : Blob × ℕ) : Type 0 where
  pub valid : IsValid result.0
  pub contents : content result.0 ≡ overwrite b.ptr bytes (content b)
  pub moved : result.0.ptr ≡ b.ptr + length bytes
  pub count : result.1 ≡ length bytes

abbrev grown_by : ℕ → List ℕ → Blob → Blob
grown_by n bytes r = record r {
  size = r.size + n;
  buf = splice r.ptr bytes r.buf;
  ptr = r.ptr + length bytes;
}

content-grown :
    (bytes : List ℕ) (b r : Blob) {n : ℕ}
    → IsValid b
    → b.size < b.ptr + length bytes
    → b.ptr + length bytes ≤ n
    → IsRoomier n b r
    → content (grown_by (b.ptr + length bytes - b.size) bytes r) ≡ overwrite b.ptr bytes (content b)
content-grown bytes b r v h room more =
    ap (take (r.size + (b.ptr + length bytes - b.size))) (splice-eq r.ptr bytes r.buf (omega arith))
    ∙ take-append_two (r.size + (b.ptr + length bytes - b.size)) (take r.ptr r.buf) bytes _
        (omega (arith, length-take r.ptr r.buf))
    ∙ ap (λ t. t ++ bytes) same_front
    ∙ sym (
        overwrite-past_end b.ptr bytes (take b.size b.buf)
          (omega (arith, length-take b.size b.buf)))
  where
    same_front : take r.ptr r.buf ≡ take b.ptr (take b.size b.buf)
    same_front =
        ap (λ p. take p r.buf) more.same_ptr
        ∙ sym (take-take b.ptr b.size r.buf v.placed)
        ∙ ap (take b.ptr) more.same_bytes

Wrote-grown :
    (bytes : List ℕ) (b r : Blob) {n : ℕ}
    → IsValid b
    → b.size < b.ptr + length bytes
    → b.ptr + length bytes ≤ n
    → IsRoomier n b r
    → Wrote bytes b (grown_by (b.ptr + length bytes - b.size) bytes r, length bytes)
Wrote-grown bytes b r v h room more = record {
  valid = record {
    buffer = length-splice r.ptr bytes r.buf (omega arith) ∙ more.valid.buffer;
    sized = omega arith;
    placed = omega arith;
  };
  contents = content-grown bytes b r v h room more;
  moved = omega arith;
  count = refl;
}

-- On a blob that IsValid, `write` never leaves the buffer, and it does what `Wrote` says.
pub write-Wrote : (bytes : List ℕ) (b : Blob) → IsValid b → Wrote bytes b (write bytes b)
unfolding write can_advance
write-Wrote bytes b v = elim (Bool-cases (ltb b.size (b.ptr + length bytes))) [
  | inr e ↦ rw e (record {
    valid = record {
      buffer = length-splice b.ptr bytes b.buf (ground arith) ∙ v.buffer;
      sized = v.sized;
      placed = ground arith;
    };
    contents =
        take-splice b.size b.ptr bytes b.buf (ground arith) (ground arith)
        ∙ splice-eq b.ptr bytes (take b.size b.buf) (omega (arith, length-take b.size b.buf));
    moved = refl;
    count = refl;
  })
  | inl e ↦
      let (r, more, same) = grow_buf_of-grows (b.ptr + length bytes - b.size) b v in
      rw e (
        subst (λ room. Wrote bytes b (copy_in bytes room)) (sym same)
          (Wrote-grown bytes b r v (ground arith) (ground arith) more))
]
