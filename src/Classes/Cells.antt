-- ===== src/Classes/Cells.antt =====
-- A native field of an SQInstance (squirrel/sqclass.h) reads back as what was written, as far as its type
-- goes, and no other byte changes.
use quirrel.Prelude.{
  ℕ, zero, suc, ◌+◌, ◌/◌, ◌%◌, ◌^◌, ◌≤◌, ◌<◌, ◌≡◌, ◌≢◌, refl, sym, ap, ◌⊎◌, inl, inr, Bool, true,
  false, not, ◌==◌, Option, none, some, arith,
}
use native.Mathlib.Nat.{pow-suc}
use quirrel.Prelude.Words.{to_word, from_word, to_word-lt, four, eight}
use quirrel.Vm.Object.{Obj}
use quirrel.Vm.Object.{null, integer, float}
use quirrel.Classes.Class.{
  ObjectPtr, plain, closure, native_closure, weak_ref, size_of_type, sqnft_bool,
}
use quirrel.Classes.Instance.{
  FloatUnit, load_cell, store_cell, NativeType, float32, float64, int32, int64, bool, other,
  native_type, bytes_of, truth, is_zero, native_bits,
}

pub load_cell-congr :
    (n p : ℕ) (a b : ℕ → ℕ)
    → ((j : ℕ) → p ≤ j → j < p + n → a j ≡ b j)
    → load_cell n p a ≡ load_cell n p b
unfolding load_cell
load_cell-congr zero p a b h = refl
load_cell-congr (suc n) p a b h =
    rw
      (
        h p (omega arith) (omega arith),
        load_cell-congr n (p + 1) a b (λ j g l. h j (omega arith) (omega arith)),
      )
      refl

-- The bytes outside of the cell stay.
pub store_cell-outside :
    (n p x : ℕ) (ud : ℕ → ℕ) (j : ℕ) → (j < p) ⊎ (p + n ≤ j) → store_cell n p x ud j ≡ ud j
unfolding store_cell
store_cell-outside zero p x ud j h = refl
store_cell-outside (suc n) p x ud j (inl h) =
    ground (arith, store_cell-outside n (p + 1) (x / 256) ud j (inl (omega arith)))
store_cell-outside (suc n) p x ud j (inr h) =
    ground (arith, store_cell-outside n (p + 1) (x / 256) ud j (inr (omega arith)))

-- What was written is read.
pub load_cell-store_cell :
    (n p x : ℕ) (ud : ℕ → ℕ) → x < 256 ^ n → load_cell n p (store_cell n p x ud) ≡ x
unfolding load_cell store_cell
load_cell-store_cell zero p x ud h = omega arith
load_cell-store_cell (suc n) p x ud h =
    let tail =
      load_cell-congr n (p + 1) (store_cell (suc n) p x ud) (store_cell n (p + 1) (x / 256) ud)
        (λ j g l. ground arith) in
    let rest = load_cell-store_cell n (p + 1) (x / 256) ud (omega (arith, pow-suc 256 n)) in
    let first : store_cell (suc n) p x ud p ≡ x % 256 = ground arith in
    omega (arith, tail, rest, first)

module _ {F : Type 0} (u : FloatUnit F) where
  -- What a native field keeps of an object; none for the objects that its type does not take.
  abbrev pub narrowed : NativeType → Obj F → Option (Obj F)
  narrowed float32 (Obj.float f) = some (float (u.of_float32_bits (u.float32_bits f)))
  narrowed float32 (Obj.integer z) = some (float (u.of_float32_bits (u.float32_of_integer z)))
  narrowed float64 (Obj.float f) = some (float (u.of_float64_bits (u.float64_bits f)))
  narrowed float64 (Obj.integer z) = some (float (u.of_float64_bits (u.float64_of_integer z)))
  narrowed int32 (Obj.integer z) = some (integer (from_word 32 (to_word 32 z)))
  narrowed int32 (Obj.float f) = some (integer (from_word 32 (to_word 32 (u.to_int32 f))))
  narrowed int64 (Obj.integer z) = some (integer (from_word 64 (to_word 64 z)))
  narrowed int64 (Obj.float f) = some (integer (from_word 64 (to_word 64 (u.to_int64 f))))
  narrowed bool (Obj.bool b) = some (Obj.bool b)
  narrowed bool (Obj.integer z) = some (Obj.bool (not (is_zero z)))
  narrowed t o = none

  -- The same of any value: closures and weak references are refused.
  abbrev pub narrowed_value : NativeType → ObjectPtr F → Option (Obj F)
  narrowed_value t (plain o) = narrowed t o
  narrowed_value t (closure f b) = none
  narrowed_value t (native_closure f) = none
  narrowed_value t (weak_ref v) = none

  abbrev pub value_bits : NativeType → ObjectPtr F → Option ℕ
  value_bits t (plain o) = native_bits u t o
  value_bits t (closure f b) = none
  value_bits t (native_closure f) = none
  value_bits t (weak_ref v) = none

  -- What the bits of a cell stand for.
  abbrev pub of_bits : NativeType → ℕ → Obj F
  of_bits float32 x = float (u.of_float32_bits x)
  of_bits float64 x = float (u.of_float64_bits x)
  of_bits int32 x = integer (from_word 32 x)
  of_bits int64 x = integer (from_word 64 x)
  of_bits bool x = Obj.bool (not (x == 0))
  of_bits other x = null

  -- The bits fit the cell and stand for what the field keeps.
  abbrev pub Stands : NativeType → Option ℕ → Option (Obj F) → Type 0
  Stands t none o = o ≡ none
  Stands t (some x) o = (x < 256 ^ bytes_of t) × (o ≡ some (of_bits t x))

  truth-lt : (b : Bool) → truth b < 256 ^ 1
  truth-lt true = omega arith
  truth-lt false = omega arith

  of_truth : (b : Bool) → not (truth b == 0) ≡ b
  of_truth true = refl
  of_truth false = refl

  native_bits-Stands : (t : NativeType) (o : Obj F) → Stands t (native_bits u t o) (narrowed t o)
  unfolding native_bits
  native_bits-Stands float32 Obj.null = refl
  native_bits-Stands float32 (Obj.bool b) = refl
  native_bits-Stands float32 (Obj.integer z) = (omega (arith, u.float32_of_integer-lt z), refl)
  native_bits-Stands float32 (Obj.float f) = (omega (arith, u.float32_bits-lt f), refl)
  native_bits-Stands float32 (Obj.string s) = refl
  native_bits-Stands float32 (Obj.reference k p) = refl
  native_bits-Stands float64 Obj.null = refl
  native_bits-Stands float64 (Obj.bool b) = refl
  native_bits-Stands float64 (Obj.integer z) = (omega (arith, u.float64_of_integer-lt z), refl)
  native_bits-Stands float64 (Obj.float f) = (omega (arith, u.float64_bits-lt f), refl)
  native_bits-Stands float64 (Obj.string s) = refl
  native_bits-Stands float64 (Obj.reference k p) = refl
  native_bits-Stands int32 Obj.null = refl
  native_bits-Stands int32 (Obj.bool b) = refl
  native_bits-Stands int32 (Obj.integer z) = (to_word-lt four z, refl)
  native_bits-Stands int32 (Obj.float f) = (to_word-lt four (u.to_int32 f), refl)
  native_bits-Stands int32 (Obj.string s) = refl
  native_bits-Stands int32 (Obj.reference k p) = refl
  native_bits-Stands int64 Obj.null = refl
  native_bits-Stands int64 (Obj.bool b) = refl
  native_bits-Stands int64 (Obj.integer z) = (to_word-lt eight z, refl)
  native_bits-Stands int64 (Obj.float f) = (to_word-lt eight (u.to_int64 f), refl)
  native_bits-Stands int64 (Obj.string s) = refl
  native_bits-Stands int64 (Obj.reference k p) = refl
  native_bits-Stands bool Obj.null = refl
  native_bits-Stands bool (Obj.bool b) =
      (truth-lt b, ap (λ x. some (Obj.bool x)) (sym (of_truth b)))
  native_bits-Stands bool (Obj.integer z) =
      (truth-lt _, ap (λ x. some (Obj.bool x)) (sym (of_truth (not (is_zero z)))))
  native_bits-Stands bool (Obj.float f) = refl
  native_bits-Stands bool (Obj.string s) = refl
  native_bits-Stands bool (Obj.reference k p) = refl
  native_bits-Stands other Obj.null = refl
  native_bits-Stands other (Obj.bool b) = refl
  native_bits-Stands other (Obj.integer z) = refl
  native_bits-Stands other (Obj.float f) = refl
  native_bits-Stands other (Obj.string s) = refl
  native_bits-Stands other (Obj.reference k p) = refl

  pub value_bits-Stands :
      (t : NativeType) (v : ObjectPtr F) → Stands t (value_bits t v) (narrowed_value t v)
  value_bits-Stands t (plain o) = native_bits-Stands t o
  value_bits-Stands t (closure f b) = refl
  value_bits-Stands t (native_closure f) = refl
  value_bits-Stands t (weak_ref v) = refl

  -- The five types have the sizes that RegisterNativeField goes by.
  pub native_type-known :
      (t : ℕ)
      → t ≤ sqnft_bool
      → (native_type t ≢ other) × (bytes_of (native_type t) ≡ size_of_type t)
  unfolding native_type
  native_type-known zero h = (λ e. absurd (cc), refl)
  native_type-known (suc zero) h = (λ e. absurd (cc), refl)
  native_type-known (suc (suc zero)) h = (λ e. absurd (cc), refl)
  native_type-known (suc (suc (suc zero))) h = (λ e. absurd (cc), refl)
  native_type-known (suc (suc (suc (suc zero)))) h = (λ e. absurd (cc), refl)
  native_type-known (suc (suc (suc (suc (suc t))))) h = absurd (omega arith)
