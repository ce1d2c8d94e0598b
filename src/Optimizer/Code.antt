-- ===== src/Optimizer/Code.antt =====
-- The instructions that constant folding reads and writes, and what the VM does with them:
-- squirrel/sqvm.cpp, `SQVM::Execute`, on the registers of one stack frame.
use quirrel.Prelude.{ℕ, ◌==◌, if◌then◌else◌, Result, ok, ◌>>=◌}
use quirrel.Prelude.Int.{ℤ}
use quirrel.Vm.Object.{Env, VmError, integer, float}
use quirrel.Vm.Arith.{
  ArithOp, BitOp, Object, add, sub, mul, div, modulo, arith_macro, arith_nozero, arith_op, bw_op,
}

module _ (env : Env) where
  -- `load` takes the literal at its index. The arguments are `_arg0`, `_arg1`, `_arg2` in order.
  pub data Instruction : Type 0 where
    load_int : ℕ → ℤ → Instruction
    load_float : ℕ → env.Float → Instruction
    load : ℕ → Object env → Instruction
    arith : ArithOp → ℕ → ℕ → ℕ → Instruction
    bitw : BitOp → ℕ → ℕ → ℕ → Instruction
    add_i : ℕ → ℤ → ℕ → Instruction

  -- `_arg0`, the register that the instruction writes.
  abbrev pub target_of : Instruction → ℕ
  target_of (load_int t z) = t
  target_of (load_float t f) = t
  target_of (load t o) = t
  target_of (arith op t a b) = t
  target_of (bitw op t a b) = t
  target_of (add_i t z b) = t

  -- `_stkbase[i]`
  abbrev pub Registers : Type 0
  Registers = ℕ → Object env

  abbrev pub put : Registers → ℕ → Object env → Registers
  put regs t o r = if r == t then o else regs r

  -- The operand on the left is `_arg2`.
  unfoldable pub operate : ArithOp → Object env → Object env → Result VmError (Object env)
  operate add a b = arith_macro env add a b
  operate sub a b = arith_macro env sub a b
  operate mul a b = arith_macro env mul a b
  operate div a b = arith_nozero env a b
  operate modulo a b = arith_op env modulo a b

  unfoldable pub execute : Instruction → Registers → Result VmError Registers
  execute (load_int t z) regs = ok (put regs t (integer z))
  execute (load_float t f) regs = ok (put regs t (float f))
  execute (load t o) regs = ok (put regs t o)
  execute (arith op t a b) regs = operate op (regs b) (regs a) >>= λ o. ok (put regs t o)
  execute (bitw op t a b) regs = bw_op env op (regs b) (regs a) >>= λ o. ok (put regs t o)
  execute (add_i t z b) regs = arith_macro env add (regs b) (integer z) >>= λ o. ok (put regs t o)
