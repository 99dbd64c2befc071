-- ===== src/Tests/Debugging.antt =====
-- Rules on the ids of a program, run and checked, with triton_util/triton_util/debugging.py.
use mcu.Base.{ℕ, ◌≡◌, refl, Bool, true, false, ◌&&◌, ◌||◌, [], ◌∷◌}
use mcu.Base.{arith, leb, ◌==◌, nat_eq, ok, err, value_error}
use mcu.Base.Text.{codes, decimal_value}
use mcu.TritonUtil.Debugging.{Op, test_pid_conds, holds}
use mcu.TritonUtil.Debugging.Laws.{test_pid_conds_lem}
use mcu.TritonUtil.Debugging.Texts.{rule, IsAscii}
use mcu.Tests.Cli.{decimal}

abbrev space : ℕ → Bool
space c = c == 32 || (leb 9 c && leb c 13)

ascii : IsAscii decimal space
ascii = record {
  decimal_digit = λ d h. ground arith;
  space_digit = λ d h. ground arith;
  space_minus = refl;
}

-- Rules with a negative threshold, with two operators that do not exist, and with no number.
negative_test : test_pid_conds decimal space (codes ">= -1") 0 0 0 ≡ ok true
unfolding test_pid_conds
negative_test = refl

fourth_test : test_pid_conds decimal space (codes ",,,nonsense") 0 0 0 ≡ ok true
unfolding test_pid_conds
fourth_test = refl

reversed_op_test : test_pid_conds decimal space (codes "=<5") 0 0 0 ≡ err value_error
unfolding test_pid_conds
reversed_op_test = refl

-- A rule is not read where an earlier one fails.
early_end_test : test_pid_conds decimal space (codes ">0,nonsense") 0 0 0 ≡ ok false
unfolding test_pid_conds
early_end_test = refl

test_pid_conds_example : test_pid_conds decimal space (codes "> 0, =1") 1 1 0 ≡ ok true
unfolding holds decimal_value
test_pid_conds_example =
    test_pid_conds_lem decimal space ascii (rule Op.greater false (0 ∷ []))
      (rule Op.equal false (1 ∷ []) ∷ []) (codes "> 0, =1") 1 1 0
      (omega arith, omega arith, (omega arith, tt))
      ((omega arith, omega arith, (omega arith, tt)), tt) refl
