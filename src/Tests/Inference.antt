-- ===== src/Tests/Inference.antt =====
-- squirrel/compiler/typeinference.cpp at concrete operands.
use quirrel.Prelude.{[], ◌∷◌, ◌≡◌, ◌⊎◌, refl, ok}
use quirrel.Prelude.Int.{pos, ◌*ℤ◌}
use quirrel.Vm.Object.{integer, float, string, type_bit}
use quirrel.Vm.Arith.{add, mul, arith_op, float_arith, arith_other, string_cat, to_string}
use quirrel.Tests.Machine.{toy}
use quirrel.Types.Masks.{unknown, arithmetic_mask, sum_mask}
use quirrel.Types.Numbers.{arithmetic_mask-arith_op}
use quirrel.Types.Sums.{sum_mask-arith_op}

product : arith_op toy mul (integer (pos 6)) (float (pos 7)) ≡ ok (float (pos 6 *ℤ pos 7))
unfolding arith_op float_arith
product = refl

arithmetic_mask-arith_op_example :
    (arithmetic_mask
        (type_bit {F = toy.Float} (integer (pos 6)))
        (type_bit {F = toy.Float} (float (pos 7)))
      ≡ unknown)
    ⊎ (arithmetic_mask
          (type_bit {F = toy.Float} (integer (pos 6)))
          (type_bit {F = toy.Float} (float (pos 7)))
        ≡ type_bit {F = toy.Float} (float (pos 6 *ℤ pos 7)))
arithmetic_mask-arith_op_example =
    arithmetic_mask-arith_op toy mul (integer (pos 6)) (float (pos 7)) (float (pos 6 *ℤ pos 7))
      product

text_and_number : arith_op toy add (string (b'n' ∷ [])) (integer (pos 7)) ≡ ok (string (b'n' ∷ []))
unfolding arith_op arith_other string_cat to_string
text_and_number = refl

sum_mask-arith_op_example :
    (sum_mask
        (type_bit {F = toy.Float} (string (b'n' ∷ [])))
        (type_bit {F = toy.Float} (integer (pos 7)))
      ≡ unknown)
    ⊎ (sum_mask
          (type_bit {F = toy.Float} (string (b'n' ∷ [])))
          (type_bit {F = toy.Float} (integer (pos 7)))
        ≡ type_bit {F = toy.Float} (string (b'n' ∷ [])))
sum_mask-arith_op_example =
    sum_mask-arith_op toy (string (b'n' ∷ [])) (integer (pos 7)) (string (b'n' ∷ []))
      text_and_number
