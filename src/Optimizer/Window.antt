-- ===== src/Optimizer/Window.antt =====
-- The windows that `SQOptimizer::optimizeConstFolding` of squirrel/compiler/optimizer.cpp rewrites.
use quirrel.Prelude.{ℕ, ◌≡◌, ◌≢◌, ◌⊎◌, inl, inr, refl, arith, some, ok, ◌>>=◌}
use quirrel.Prelude.Int.{◌+ℤ◌}
use quirrel.Prelude.Words.{Fits, wrap-eq}
use quirrel.Vm.Object.{Env, integer, float}
use quirrel.Vm.Arith.{Object, ArithOp, BitOp, arith_macro, float_arith}
use mathlib.Core.Path.{subst}
use quirrel.Prelude.{sym, Option-cases, ◌∙◌}
use quirrel.Optimizer.Code.{
  Instruction, target_of, load_int, load_float, load, arith as arith_of, bitw, add_i, Registers,
  put, execute,
}
use quirrel.Optimizer.Fold.{
  Constant, int_constant, float_constant, load_of, operands, fold_window, fold_add_i,
}
use quirrel.Optimizer.Folded.{add-Fits, object_of, IsInt32, fold_arith-Folds, fold_bitw-Folds}

module _ (env : Env) where
  load_of-eq :
      (r : ℕ) (c : Constant env) (regs : Registers env)
      → execute env (load_of env r c) regs ≡ ok (put env regs r (object_of env c))
  unfolding load_of execute
  load_of-eq r (int_constant z) regs = refl
  load_of-eq r (float_constant f) regs = refl

  -- The constants in operand order are what the two loads left in the operands' registers.
  operands-eq :
      (a : ℕ) (ca : Constant env) (b : ℕ) (cb : Constant env) (arg1 arg2 : ℕ) (l r : Constant env)
      (regs : Registers env)
      → operands env a ca b cb arg1 arg2 ≡ some (l, r)
      → let loaded = put env (put env regs a (object_of env ca)) b (object_of env cb) in
        (loaded arg2 ≡ object_of env l) × (loaded arg1 ≡ object_of env r)
  unfolding operands
  operands-eq a ca b cb arg1 arg2 l r regs h = (ground arith, ground arith)

  -- What the whole window computes, for the registers after the two loads.
  pub record IsFolded (a : ℕ) (ca : Constant env) (b : ℕ) (cb : Constant env)
      (operation i : Instruction env) (regs : Registers env) : Type 0 where
    pub value : Object env
    pub window :
        (execute env (load_of env a ca) regs >>= λ s.
        execute env (load_of env b cb) s >>= execute env operation)
        ≡ ok (
            put env
              (put env (put env regs a (object_of env ca)) b (object_of env cb))
              (target_of env operation)
              value)
    pub folded :
        (regs : Registers env)
        → execute env i regs ≡ ok (put env regs (target_of env operation) value)

  operands-cases :
      (a : ℕ) (ca : Constant env) (b : ℕ) (cb : Constant env) (arg1 arg2 : ℕ) (l r : Constant env)
      → operands env a ca b cb arg1 arg2 ≡ some (l, r)
      → ((l ≡ ca) × (r ≡ cb)) ⊎ ((l ≡ cb) × (r ≡ ca))
  unfolding operands
  operands-cases a ca b cb arg1 arg2 l r h = ground arith

  operands-IsInt32 :
      (a : ℕ) (ca : Constant env) (b : ℕ) (cb : Constant env) (arg1 arg2 : ℕ) (l r : Constant env)
      → operands env a ca b cb arg1 arg2 ≡ some (l, r)
      → IsInt32 env ca
      → IsInt32 env cb
      → IsInt32 env l × IsInt32 env r
  operands-IsInt32 a ca b cb arg1 arg2 l r h p q = elim (operands-cases a ca b cb arg1 arg2 l r h) [
    | inl (e, d) ↦ (subst (IsInt32 env) (sym e) p, subst (IsInt32 env) (sym d) q)
    | inr (e, d) ↦ (subst (IsInt32 env) (sym e) q, subst (IsInt32 env) (sym d) p)
  ]

  module _ (a : ℕ) (ca : Constant env) (b : ℕ) (cb : Constant env) (p : IsInt32 env ca)
      (q : IsInt32 env cb) (i : Instruction env) (regs : Registers env) where
    -- From a folded operation on the constants to the window.
    arith-IsFolded :
        (op : ArithOp) (t arg1 arg2 : ℕ)
        → fold_window env a ca b cb (arith_of op t arg1 arg2) ≡ some i
        → IsFolded a ca b cb (arith_of op t arg1 arg2) i regs
    unfolding fold_window execute
    arith-IsFolded op t arg1 arg2 h = elim (Option-cases (operands env a ca b cb arg1 arg2)) [
      | inl e ↦ absurd (ground arith)
      | inr ((l, r), e) ↦
          let (l32, r32) = operands-IsInt32 a ca b cb arg1 arg2 l r e p q in
          let f = fold_arith-Folds env op t l r i l32 r32 (ground arith) in
          let (left, right) = operands-eq a ca b cb arg1 arg2 l r regs e in
          record {
            value = f.value;
            window =
                rw (load_of-eq a ca regs, ◌>>=◌, load_of-eq b cb) (rw (left, right, f.returns));
            folded = f.writes;
          }
    ]

    bitw-IsFolded :
        (op : BitOp) (t arg1 arg2 : ℕ)
        → fold_window env a ca b cb (bitw op t arg1 arg2) ≡ some i
        → IsFolded a ca b cb (bitw op t arg1 arg2) i regs
    unfolding fold_window execute
    bitw-IsFolded op t arg1 arg2 h = elim (Option-cases (operands env a ca b cb arg1 arg2)) [
      | inl e ↦ absurd (ground arith)
      | inr ((l, r), e) ↦
          let (l32, r32) = operands-IsInt32 a ca b cb arg1 arg2 l r e p q in
          let f = fold_bitw-Folds env op t l r i l32 r32 (ground arith) in
          let (left, right) = operands-eq a ca b cb arg1 arg2 l r regs e in
          record {
            value = f.value;
            window =
                rw (load_of-eq a ca regs, ◌>>=◌, load_of-eq b cb) (rw (left, right, f.returns));
            folded = f.writes;
          }
    ]

    window-IsFolded :
        (operation : Instruction env)
        → fold_window env a ca b cb operation ≡ some i
        → IsFolded a ca b cb operation i regs
    window-IsFolded (arith_of op t arg1 arg2) h = arith-IsFolded op t arg1 arg2 h
    window-IsFolded (bitw op t arg1 arg2) h = bitw-IsFolded op t arg1 arg2 h
    window-IsFolded (load_int t z) h = absurd (unfold fold_window in cc)
    window-IsFolded (load_float t f) h = absurd (unfold fold_window in cc)
    window-IsFolded (load t o) h = absurd (unfold fold_window in cc)
    window-IsFolded (add_i t z r) h = absurd (unfold fold_window in cc)

  -- Where the loads stay, replacing the operation by the folded instruction changes nothing: the
  -- three instructions leave the same registers, from any registers, for 32-bit integer constants
  -- and any floats.
  pub fold_window-kept :
      (a : ℕ) (ca : Constant env) (b : ℕ) (cb : Constant env) (operation i : Instruction env)
      (regs : Registers env)
      → IsInt32 env ca
      → IsInt32 env cb
      → fold_window env a ca b cb operation ≡ some i
      → (execute env (load_of env a ca) regs >>= λ s.
          execute env (load_of env b cb) s >>= execute env operation)
        ≡ (execute env (load_of env a ca) regs >>= λ s.
            execute env (load_of env b cb) s >>= execute env i)
  fold_window-kept a ca b cb operation i regs p q h =
      let w = window-IsFolded a ca b cb p q i regs operation h in
      w.window ∙ sym (rw (load_of-eq a ca regs, ◌>>=◌, load_of-eq b cb) (w.folded _))

  -- The registers agree, but for the two that the loads wrote.
  abbrev pub AgreeBut : ℕ → ℕ → Registers env → Registers env → Type 0
  AgreeBut a b s t = (r : ℕ) → r ≢ a → r ≢ b → s r ≡ t r

  -- Where the loads are cut as well, the folded instruction alone succeeds as the three did, for
  -- 32-bit integer constants and any floats. It leaves the same value in the operation's target, also where
  -- that is a temporary of the loads, and in every other register but these two temporaries.
  pub fold_window-alone :
      (a : ℕ) (ca : Constant env) (b : ℕ) (cb : Constant env) (operation i : Instruction env)
      (regs : Registers env)
      → IsInt32 env ca
      → IsInt32 env cb
      → fold_window env a ca b cb operation ≡ some i
      → (s : Registers env) × (t : Registers env) × ((execute env (load_of env a ca) regs >>= λ s.
            execute env (load_of env b cb) s >>= execute env operation)
          ≡ ok s)
        × (execute env i regs ≡ ok t)
        × (s (target_of env operation) ≡ t (target_of env operation))
        × AgreeBut a b s t
  fold_window-alone a ca b cb operation i regs p q h =
      let w = window-IsFolded a ca b cb p q i regs operation h in
      (_, _, w.window, w.folded regs, ground arith, λ r m n. ground arith)

  -- The immediate of `_OP_ADDI` is an SQInt32.
  abbrev pub IsInt32Immediate : Instruction env → Type 0
  IsInt32Immediate (add_i t rv arg2) = Fits 32 rv
  IsInt32Immediate _ = Unit

  -- The window of a load and `_OP_ADDI`, for a 32-bit constant or a float and a 32-bit immediate: the two
  -- succeed, the folded instruction in place of `_OP_ADDI` leaves the same registers, and in place of both it
  -- leaves the same in the operation's target and in every register but the load's.
  pub fold_add_i_lem :
      (a : ℕ) (ca : Constant env) (operation i : Instruction env) (regs : Registers env)
      → IsInt32 env ca
      → IsInt32Immediate operation
      → fold_add_i env a ca operation ≡ some i
      → (s : Registers env) × (t : Registers env) × ((execute env (load_of env a ca) regs
            >>= execute env operation)
          ≡ ok s)
        × ((execute env (load_of env a ca) regs >>= execute env i) ≡ ok s)
        × (execute env i regs ≡ ok t)
        × (s (target_of env operation) ≡ t (target_of env operation))
        × ((r : ℕ) → r ≢ a → s r ≡ t r)
  unfolding fold_add_i load_of execute arith_macro float_arith
  fold_add_i_lem a (int_constant lv) (add_i t rv arg2) i regs p q h =
      let sum = wrap-eq (lv +ℤ rv) (add-Fits lv rv p q) in
      (
        put env (put env regs a (integer lv)) t (integer (lv +ℤ rv)),
        put env regs t (integer (lv +ℤ rv)),
        ground arith,
        ground arith,
        ground arith,
        ground arith,
        λ r m. ground arith,
      )
  fold_add_i_lem a (float_constant lv) (add_i t rv arg2) i regs p q h = (
    put env (put env regs a (float lv)) t (float (env.fadd lv (env.of_int rv))),
    put env regs t (float (env.fadd lv (env.of_int rv))),
    ground arith,
    ground arith,
    ground arith,
    ground arith,
    λ r m. ground arith,
  )
  fold_add_i_lem a (int_constant lv) _ i regs p q h = absurd (cc)
  fold_add_i_lem a (float_constant lv) _ i regs p q h = absurd (cc)
