-- ===== src/Classes/NativeFields.antt =====
-- GetNativeField behind SetNativeField of squirrel/sqclass.h.
use quirrel.Prelude.{
  ℕ, ◌+◌, ◌^◌, ◌≤◌, ◌<◌, ◌≡◌, ◌≢◌, refl, ◌⊎◌, inl, inr, Bool, true, false, Option, none, some,
  arith, Option-cases,
}
use quirrel.Vm.Object.{Obj}
use quirrel.Classes.Class.{
  ObjectPtr, NativeField, plain, closure, native_closure, weak_ref, size_of_type, sqnft_bool,
}
use quirrel.Classes.Instance.{
  FloatUnit, store_cell, NativeType, float32, float64, int32, int64, bool, other, native_type,
  is_other, bytes_of, native_bits, set_native_field, get_native_field,
}
use quirrel.Classes.Cells.{
  load_cell-store_cell, store_cell-outside, narrowed_value, value_bits, of_bits, Stands,
  value_bits-Stands, native_type-known,
}

byte : (p : ℕ) (ud : ℕ → ℕ) (x : ℕ) → x < 256 ^ 1 → store_cell 1 p x ud p ≡ x
unfolding store_cell
byte p ud x h = ground arith

known_type : (t : NativeType) → t ≢ other → is_other t ≡ false
known_type float32 h = refl
known_type float64 h = refl
known_type int32 h = refl
known_type int64 h = refl
known_type bool h = refl
known_type other h = absurd (h refl)

module _ {F : Type 0} (u : FloatUnit F) (d : NativeField) where
  typed_get :
      (t : NativeType) (old : ObjectPtr F) (ud : ℕ → ℕ) (x : ℕ)
      → native_type d.type_of ≡ t
      → t ≢ other
      → x < 256 ^ bytes_of t
      → get_native_field u d old (store_cell (bytes_of t) d.offset x ud) ≡ plain (of_bits u t x)
  unfolding get_native_field
  typed_get float32 old ud x e ne h =
      rw (get_native_field, e, load_cell-store_cell 4 d.offset x ud h) refl
  typed_get float64 old ud x e ne h =
      rw (get_native_field, e, load_cell-store_cell 8 d.offset x ud h) refl
  typed_get int32 old ud x e ne h =
      rw (get_native_field, e, load_cell-store_cell 4 d.offset x ud h) refl
  typed_get int64 old ud x e ne h =
      rw (get_native_field, e, load_cell-store_cell 8 d.offset x ud h) refl
  typed_get bool old ud x e ne h = rw (get_native_field, e, byte d.offset ud x h) refl
  typed_get other old ud x e ne h = absurd (ne refl)

  abbrev written : NativeType → Option ℕ → (ℕ → ℕ) → (ℕ → ℕ) × Bool
  written t (some x) ud = (store_cell (bytes_of t) d.offset x ud, true)
  written t none ud = (ud, false)

  set_native_field-written :
      (t : NativeType) (v : ObjectPtr F) (ud : ℕ → ℕ)
      → native_type d.type_of ≡ t
      → t ≢ other
      → set_native_field u d v ud ≡ written t (value_bits u t v) ud
  unfolding set_native_field
  set_native_field-written t (plain o) ud e ne = elim (Option-cases (native_bits u t o)) [
    | inl q ↦ simp (set_native_field, e, q, known_type t ne) refl
    | inr (x, q) ↦ simp (set_native_field, e, q) refl
  ]
  set_native_field-written t (closure f b) ud e ne =
      simp (set_native_field, e, known_type t ne) refl
  set_native_field-written t (native_closure f) ud e ne =
      simp (set_native_field, e, known_type t ne) refl
  set_native_field-written t (weak_ref w) ud e ne = simp (set_native_field, e, known_type t ne) refl

  -- SetNativeField into a field of one of the five types refuses the objects that the type does not take
  -- and then changes nothing. Otherwise GetNativeField reads what the type keeps of the object, whatever its
  -- result held, and only the bytes of the field have changed.
  pub set_native_field-get :
      (v old : ObjectPtr F) (ud : ℕ → ℕ)
      → d.type_of ≤ sqnft_bool
      → ((set_native_field u d v ud ≡ (ud, false))
          × (narrowed_value u (native_type d.type_of) v ≡ none))
        ⊎ ((ud' : ℕ → ℕ) × (o : Obj F) × (set_native_field u d v ud ≡ (ud', true))
            × (narrowed_value u (native_type d.type_of) v ≡ some o)
            × (get_native_field u d old ud' ≡ plain o)
            × ((j : ℕ) → (j < d.offset) ⊎ (d.offset + size_of_type d.type_of ≤ j) → ud' j ≡ ud j))
  set_native_field-get v old ud known =
      let (ne, size) = native_type-known u d.type_of known in
      let run = set_native_field-written (native_type d.type_of) v ud refl ne in
      go (value_bits u (native_type d.type_of) v) run
        (value_bits-Stands u (native_type d.type_of) v) ne size
    where
      go :
          (bits : Option ℕ)
          → set_native_field u d v ud ≡ written (native_type d.type_of) bits ud
          → Stands u (native_type d.type_of) bits (narrowed_value u (native_type d.type_of) v)
          → native_type d.type_of ≢ other
          → bytes_of (native_type d.type_of) ≡ size_of_type d.type_of
          → ((set_native_field u d v ud ≡ (ud, false))
              × (narrowed_value u (native_type d.type_of) v ≡ none))
            ⊎ ((ud' : ℕ → ℕ) × (o : Obj F) × (set_native_field u d v ud ≡ (ud', true))
                × (narrowed_value u (native_type d.type_of) v ≡ some o)
                × (get_native_field u d old ud' ≡ plain o)
                × ((j : ℕ)
                    → (j < d.offset) ⊎ (d.offset + size_of_type d.type_of ≤ j)
                    → ud' j ≡ ud j))
      go none run stands ne size = inl (run, stands)
      go (some x) run (fits, kept) ne size = inr (
        store_cell (bytes_of (native_type d.type_of)) d.offset x ud,
        of_bits u (native_type d.type_of) x,
        run,
        kept,
        typed_get (native_type d.type_of) old ud x refl ne fits,
        λ j h. store_cell-outside (bytes_of (native_type d.type_of)) d.offset x ud j (rw size h),
      )
