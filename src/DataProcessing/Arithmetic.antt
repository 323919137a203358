-- ===== src/DataProcessing/Arithmetic.antt =====
-- The arithmetic of `calcs_procedure` beside the adder of the architecture manual.
pub mod Whole
use projet_s5_prog.Base.{ℕ, ◌+◌, ◌%◌, ◌^◌, ◌<◌, ◌≡◌, arith, true}
use projet_s5_prog.Base.{◌==◌, ◌||◌, if◌then◌else◌, not32}
use projet_s5_prog.Util.{Undefined}
use projet_s5_prog.Core.{ArmCore}
use projet_s5_prog.DataProcessing.Fields.{get_opcode, get_cflag}
use projet_s5_prog.DataProcessing.{calcs_result, is_adds, is_subs}

-- the adder: two words and a carry
abbrev pub add_with_carry : ℕ → ℕ → ℕ → ℕ
add_with_carry x y c = (x + y + c) % 2 ^ 32

-- what the manual gives each of the six opcodes to add
abbrev pub adder_result : ℕ → ℕ → ℕ → ℕ → ℕ
adder_result opcode rn operand carry =
    if opcode == 2
    then add_with_carry rn (not32 operand) 1
    else if opcode == 3
    then add_with_carry operand (not32 rn) 1
    else if opcode == 4
    then add_with_carry rn operand 0
    else if opcode == 5
    then add_with_carry rn operand carry
    else if opcode == 6
    then add_with_carry rn (not32 operand) carry
    else add_with_carry operand (not32 rn) carry

-- On 32-bit operands and an opcode from SUB, RSB, ADD, ADC, SBC and RSC, the result that
-- `calcs_procedure` computes is that of one adder, which adds the complement of the subtrahend and
-- a carry: 1 for SUB and RSB, 0 for ADD, the carry flag for ADC, SBC and RSC.
pub calcs_result-adder_result :
    (u : Undefined) (p : ArmCore) (ins rn operand : ℕ)
    → rn < 2 ^ 32
    → operand < 2 ^ 32
    → (is_adds ins || is_subs ins) ≡ true
    → calcs_result u p ins rn operand ≡ adder_result (get_opcode ins) rn operand (get_cflag p)
unfolding calcs_result get_cflag
calcs_result-adder_result u p ins rn operand hr ho arithmetic = ground arith
