-- ===== src/DataProcessing/Serial.antt =====
-- A shift register that moves by one bit at a time, to describe the operands of addressing mode 1
-- independently of `Shifter`: a word, and the carry that left it last.
pub mod Closed
pub mod Cycle
pub mod Amount
pub mod Shifts
pub mod Operand
pub mod Bounds
use projet_s5_prog.Base.{ℕ, zero, suc, ◌+◌, ◌*◌, ◌/◌, ◌%◌, ◌^◌, ◌==◌, if◌then◌else◌, u8}
use projet_s5_prog.Util.{get_bit, get_bits}
use projet_s5_prog.Core.{ArmCore, arm_read_register}
use projet_s5_prog.DataProcessing.Fields.{get_cflag}

abbrev pub left : ℕ × ℕ → ℕ × ℕ
left (x, c) = (x * 2 % 2 ^ 32, x / 2 ^ 31)

abbrev pub right : ℕ × ℕ → ℕ × ℕ
right (x, c) = (x / 2, x % 2)

-- to the right, with the sign bit kept
abbrev pub signed_right : ℕ × ℕ → ℕ × ℕ
signed_right (x, c) = (x / 2 + x / 2 ^ 31 * 2 ^ 31, x % 2)

-- to the right, with the bit that leaves put on top
abbrev pub around : ℕ × ℕ → ℕ × ℕ
around (x, c) = (x / 2 + x % 2 * 2 ^ 31, x % 2)

-- to the right, with the carry put on top
abbrev pub through_carry : ℕ × ℕ → ℕ × ℕ
through_carry (x, c) = (x / 2 + c * 2 ^ 31, x % 2)

abbrev pub times : ℕ → (ℕ × ℕ → ℕ × ℕ) → ℕ × ℕ → ℕ × ℕ
times zero move s = s
times (suc n) move s = move (times n move s)

-- the moves of the four types of shift
abbrev pub move_of : ℕ → ℕ × ℕ → ℕ × ℕ
move_of type =
    if type == 0
    then left
    else if type == 1
    then right
    else if type == 2
    then signed_right
    else around

-- the manual's reading of an immediate amount 0: 32 moves to the right, or one through the carry
abbrev pub by_immediate : ℕ → ℕ → ℕ × ℕ → ℕ × ℕ
by_immediate type amount s =
    if amount == 0
    then (if type == 0 then s else if type == 3 then through_carry s else times 32 (move_of type) s)
    else times amount (move_of type) s

-- the operand and the carry of a data-processing instruction
abbrev pub serial_operand : ArmCore → ℕ → ℕ × ℕ
serial_operand p ins =
    let rm : ℕ × ℕ = (arm_read_register p (get_bits ins 3 0), get_cflag p) in
    let type = get_bits ins 6 5 in
    if get_bits ins 27 25 == 1
    then times (2 * get_bits ins 11 8) around (get_bits ins 7 0, get_cflag p)
    else if get_bit ins 4 == 0
    then by_immediate type (get_bits ins 11 7) rm
    else times (u8 (arm_read_register p (get_bits ins 11 8))) (move_of type) rm
