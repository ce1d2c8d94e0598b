-- ===== src/Types/Masks.antt =====
-- `CodeGenVisitor::inferExprTypeMaskImpl` of squirrel/compiler/typeinference.cpp. A mask is an
-- `unsigned` of 32 bits with the `_RT_…` bits of the types that a value may have.
use Prim.Native.Nat.{bit_and, bit_or}
use quirrel.Prelude.{ℕ, ◌-◌, ◌^◌, Bool, true, false, not, ◌&&◌, ◌||◌, ◌==◌, if◌then◌else◌}

-- `~0u`: nothing is known.
abbrev pub unknown : ℕ
unknown = 2 ^ 32 - 1

abbrev pub rt_null : ℕ
rt_null = 0x1

abbrev pub rt_integer : ℕ
rt_integer = 0x2

abbrev pub rt_float : ℕ
rt_float = 0x4

abbrev pub rt_bool : ℕ
rt_bool = 0x8

abbrev pub rt_string : ℕ
rt_string = 0x10

abbrev pub rt_instance : ℕ
rt_instance = 0x8000

-- `_RT_INTEGER | _RT_FLOAT`
abbrev pub number : ℕ
number = 0x6

-- `~mask`
abbrev pub complement : ℕ → ℕ
complement mask = 2 ^ 32 - 1 - mask

-- `mask & bits` as a condition.
abbrev pub has : ℕ → ℕ → Bool
has mask bits = not (bit_and mask bits == 0)

-- TO_NEG and TO_INC.
unfoldable pub negated_mask : ℕ → ℕ
negated_mask arg =
    if arg == unknown then unknown else if has arg rt_instance then unknown else bit_and arg number

-- TO_MUL, TO_DIV, TO_SUB and TO_MOD.
unfoldable pub arithmetic_mask : ℕ → ℕ → ℕ
arithmetic_mask lm rm =
    if lm == unknown || rm == unknown
    then unknown
    else if has (bit_or lm rm) rt_instance
    then unknown
    else if has lm (complement number) || has rm (complement number)
    then unknown
    else if lm == rt_integer && rm == rt_integer
    then rt_integer
    else if has lm number && has rm number
    then (if has lm rt_float || has rm rt_float then rt_float else number)
    else number

-- TO_ADD.
unfoldable pub sum_mask : ℕ → ℕ → ℕ
sum_mask lm rm =
    if lm == unknown || rm == unknown
    then unknown
    else if has (bit_or lm rm) rt_instance
    then unknown
    else if lm == rt_string || rm == rt_string
    then rt_string
    else if has lm (complement number) || has rm (complement number)
    then unknown
    else if lm == rt_integer && rm == rt_integer
    then rt_integer
    else if has lm rt_float || has rm rt_float
    then rt_float
    else number

-- TO_OROR and TO_ANDAND, and the branches of TO_TERNARY.
unfoldable pub either_mask : ℕ → ℕ → ℕ
either_mask lm rm = if lm == unknown || rm == unknown then unknown else bit_or lm rm

-- TO_NULLC.
unfoldable pub null_coalesce_mask : ℕ → ℕ → ℕ
null_coalesce_mask lm rm =
    if lm == unknown || rm == unknown then unknown else bit_or (bit_and lm (complement rt_null)) rm

pub data LiteralKind : Type 0 where
  lk_int lk_float lk_string lk_bool lk_null : LiteralKind

-- `equals` is TO_EQ and `differs` TO_NE; `compares` is TO_GT to TO_IN. `works_on_bits` is TO_3CMP and
-- the bit operations. `wraps` is TO_PAREN, and TO_CLONE, TO_STATIC_MEMO and TO_INLINE_CONST are
-- `passes`. `masked` is an expression whose mask comes from the scope or from a declaration.
pub data Expr : Type 0 where
  literal : LiteralKind → Expr
  type_of negates increments inverts_bits inverts wraps passes : Expr → Expr
  equals differs compares works_on_bits : Expr → Expr → Expr
  adds computes either null_coalesces : Expr → Expr → Expr
  ternary : Expr → Expr → Expr → Expr
  masked : ℕ → Expr

unfoldable pub literal_mask : LiteralKind → ℕ
literal_mask lk_int = rt_integer
literal_mask lk_float = rt_float
literal_mask lk_string = rt_string
literal_mask lk_bool = rt_bool
literal_mask lk_null = rt_null

unfoldable pub deparen : Expr → Expr
deparen (wraps e) = deparen e
deparen e = e

unfoldable pub is_null_literal : Expr → Bool
is_null_literal (literal lk_null) = true
is_null_literal _ = false

abbrev pub without_null : Bool → ℕ → ℕ
without_null drops mask = if drops then bit_and mask (complement rt_null) else mask

-- The masks of the branches, by a condition without its parentheses.
unfoldable pub narrowed : Expr → ℕ → ℕ → ℕ
narrowed (differs l r) bm cm = bit_or (without_null (is_null_literal l || is_null_literal r) bm) cm
narrowed (equals l r) bm cm = bit_or bm (without_null (is_null_literal l || is_null_literal r) cm)
narrowed _ bm cm = bit_or bm cm

unfoldable pub infer_expr_type_mask : Expr → ℕ
infer_expr_type_mask (literal k) = literal_mask k
infer_expr_type_mask (type_of e) = rt_string
infer_expr_type_mask (negates e) = negated_mask (infer_expr_type_mask e)
infer_expr_type_mask (increments e) = negated_mask (infer_expr_type_mask e)
infer_expr_type_mask (inverts_bits e) = rt_integer
infer_expr_type_mask (inverts e) = rt_bool
infer_expr_type_mask (wraps e) = infer_expr_type_mask e
infer_expr_type_mask (passes e) = infer_expr_type_mask e
infer_expr_type_mask (equals l r) = rt_bool
infer_expr_type_mask (differs l r) = rt_bool
infer_expr_type_mask (compares l r) = rt_bool
infer_expr_type_mask (works_on_bits l r) = rt_integer
infer_expr_type_mask (adds l r) = sum_mask (infer_expr_type_mask l) (infer_expr_type_mask r)
infer_expr_type_mask (computes l r) =
    arithmetic_mask (infer_expr_type_mask l) (infer_expr_type_mask r)
infer_expr_type_mask (either l r) = either_mask (infer_expr_type_mask l) (infer_expr_type_mask r)
infer_expr_type_mask (null_coalesces l r) =
    null_coalesce_mask (infer_expr_type_mask l) (infer_expr_type_mask r)
infer_expr_type_mask (ternary a b c) =
    let bm = infer_expr_type_mask b in
    let cm = infer_expr_type_mask c in
    if bm == unknown || cm == unknown then unknown else narrowed (deparen a) bm cm
infer_expr_type_mask (masked m) = m

-- `checkInferredType`: its result, which lets the caller leave out the check at run time, and whether
-- it reports a mismatch.
unfoldable pub check_inferred_type : Expr → ℕ → Bool × Bool
check_inferred_type e declared =
    if declared == unknown
    then (false, false)
    else let inferred = infer_expr_type_mask e in
      if not (inferred == unknown) && has inferred (complement declared)
      then (false, true)
      else (not (inferred == unknown), false)
