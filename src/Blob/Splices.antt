-- ===== src/Blob/Splices.antt =====
-- Lists under `splice`, `take` and `drop`, for the buffer of sqstdlib/sqstdblobimpl.h.
use quirrel.Prelude.{ℕ, zero, suc, ◌+◌, ◌≤◌, ◌≡◌, refl, ap, ◌∙◌, List, [], ◌∷◌, ◌++◌, arith}
use quirrel.Prelude.{length, length-drop, take, drop, take-length-append, append-nil}
use quirrel.Blob.{splice}

pub length-splice :
    (p : ℕ) (xs b : List ℕ) → p + length xs ≤ length b → length (splice p xs b) ≡ length b
unfolding splice
length-splice zero [] b h = refl
length-splice zero (x ∷ xs) [] h = absurd (omega arith)
length-splice zero (x ∷ xs) (y ∷ b) h = ap suc (length-splice zero xs b (omega arith))
length-splice (suc p) xs [] h = absurd (omega arith)
length-splice (suc p) xs (y ∷ b) h = ap suc (length-splice p xs b (omega arith))

-- A write at `p` as a file has it: what is before stays, and what is behind the bytes stays.
abbrev pub overwrite : ℕ → List ℕ → List ℕ → List ℕ
overwrite p xs c = take p c ++ (xs ++ drop (length xs) (drop p c))

pub take_nil : (n : ℕ) → take {A = ℕ} n [] ≡ []
take_nil zero = refl
take_nil (suc n) = refl

drop_nil : (n : ℕ) → drop {A = ℕ} n [] ≡ []
drop_nil zero = refl
drop_nil (suc n) = refl

pub splice-eq : (p : ℕ) (xs b : List ℕ) → p ≤ length b → splice p xs b ≡ overwrite p xs b
unfolding splice
splice-eq zero [] b h = refl
splice-eq zero (x ∷ xs) [] h =
    ap (λ t. x ∷ t) (splice-eq zero xs [] h ∙ ap (λ t. xs ++ t) (drop_nil (length xs)))
splice-eq zero (x ∷ xs) (y ∷ b) h = ap (λ t. x ∷ t) (splice-eq zero xs b (omega arith))
splice-eq (suc p) xs [] h = absurd (omega arith)
splice-eq (suc p) xs (y ∷ b) h = ap (λ t. y ∷ t) (splice-eq p xs b (omega arith))

pub take-splice :
    (n p : ℕ) (xs b : List ℕ)
    → p + length xs ≤ n
    → p ≤ length b
    → take n (splice p xs b) ≡ splice p xs (take n b)
unfolding splice
take-splice n zero [] b h k = refl
take-splice zero zero (x ∷ xs) b h k = absurd (omega arith)
take-splice (suc n) zero (x ∷ xs) [] h k =
    ap (λ t. x ∷ t) (take-splice n zero xs [] (omega arith) k ∙ rw (take_nil n))
take-splice (suc n) zero (x ∷ xs) (y ∷ b) h k =
    ap (λ t. x ∷ t) (take-splice n zero xs b (omega arith) (omega arith))
take-splice zero (suc p) xs b h k = absurd (omega arith)
take-splice (suc n) (suc p) xs [] h k = absurd (omega arith)
take-splice (suc n) (suc p) xs (y ∷ b) h k =
    ap (λ t. y ∷ t) (take-splice n p xs b (omega arith) (omega arith))

pub take-take : {A : Type 0} (p n : ℕ) (l : List A) → p ≤ n → take p (take n l) ≡ take p l
take-take zero n l h = refl
take-take (suc p) zero l h = absurd (omega arith)
take-take (suc p) (suc n) [] h = refl
take-take (suc p) (suc n) (x ∷ l) h = ap (λ t. x ∷ t) (take-take p n l (omega arith))

pub take_front : {A : Type 0} (n : ℕ) (xs ys : List A) → length xs ≡ n → take n (xs ++ ys) ≡ xs
take_front n xs ys h = rw (← h) (take-length-append xs ys)

pub drop_all : {A : Type 0} (n : ℕ) (l : List A) → length l ≤ n → drop n l ≡ []
drop_all zero [] h = refl
drop_all (suc n) [] h = refl
drop_all zero (x ∷ l) h = absurd (omega arith)
drop_all (suc n) (x ∷ l) h = drop_all n l (omega arith)

pub take-append_two :
    (n : ℕ) (xs ys zs : List ℕ) → n ≡ length xs + length ys → take n (xs ++ (ys ++ zs)) ≡ xs ++ ys
take-append_two n [] ys zs h = take_front n ys zs (omega arith)
take-append_two zero (x ∷ xs) ys zs h = absurd (omega arith)
take-append_two (suc n) (x ∷ xs) ys zs h =
    ap (λ t. x ∷ t) (take-append_two n xs ys zs (omega arith))

-- Bytes that reach the end leave nothing behind them.
pub overwrite-past_end :
    (p : ℕ) (xs c : List ℕ) → length c ≤ p + length xs → overwrite p xs c ≡ take p c ++ xs
overwrite-past_end p xs c h =
    rw (drop_all (length xs) (drop p c) (omega (arith, length-drop p c)), append-nil xs)
