-- ===== src/DataProcessing/Serial/Bounds.antt =====
-- The shift register holds a word and a binary digit.
use projet_s5_prog.Base.{ℕ, zero, suc, ◌*◌, ◌^◌, ◌<◌, arith}
use projet_s5_prog.Base.{◌==◌, if_both, u8}
use projet_s5_prog.Util.{get_bit, get_bits}
use projet_s5_prog.Core.{ArmCore, arm_read_register}
use projet_s5_prog.DataProcessing.Fields.{get_cflag}
use projet_s5_prog.DataProcessing.Serial.{around, through_carry}
use projet_s5_prog.DataProcessing.Serial.{times, move_of, serial_operand}
use projet_s5_prog.Invariant.{IsValid}
use projet_s5_prog.Invariant.Access.{read_register-lt}
use projet_s5_prog.Invariant.Shifted.{get_cflag-lt}

abbrev pub IsShiftRegister : ℕ × ℕ → Type 0
IsShiftRegister s = (s.0 < 2 ^ 32) × (s.1 < 2)

abbrev Keeps : (ℕ × ℕ → ℕ × ℕ) → Type 0
Keeps move = (s : ℕ × ℕ) → IsShiftRegister s → IsShiftRegister (move s)

move_of-Keeps : (type : ℕ) → Keeps (move_of type)
move_of-Keeps type =
    if_both Keeps (type == 0) (λ (x, c) h. omega arith)
      (if_both Keeps (type == 1) (λ (x, c) h. omega arith)
        (if_both Keeps (type == 2) (λ (x, c) h. omega arith) (λ (x, c) h. omega arith)))

times-Keeps : (n : ℕ) (move : ℕ × ℕ → ℕ × ℕ) → Keeps move → Keeps (times n move)
times-Keeps zero move keeps s h = h
times-Keeps (suc n) move keeps s h = keeps (times n move s) (times-Keeps n move keeps s h)

through_carry-Keeps : Keeps through_carry
through_carry-Keeps (x, c) h = omega arith

around-Keeps : Keeps around
around-Keeps (x, c) h = omega arith

pub serial_operand_bounds :
    {t n e : ℕ} (p : ArmCore) (ins : ℕ) → IsValid t n e p → IsShiftRegister (serial_operand p ins)
serial_operand_bounds p ins valid =
    let type = get_bits ins 6 5 in
    let start : IsShiftRegister (arm_read_register p (get_bits ins 3 0), get_cflag p) =
      (read_register-lt valid (get_bits ins 3 0), get_cflag-lt p) in
    let moved = λ (n : ℕ). times-Keeps n (move_of type) (move_of-Keeps type) _ start in
    if_both IsShiftRegister (get_bits ins 27 25 == 1)
      (times-Keeps (2 * get_bits ins 11 8) around around-Keeps _ (omega arith, get_cflag-lt p))
      (if_both IsShiftRegister (get_bit ins 4 == 0)
        (if_both IsShiftRegister (get_bits ins 11 7 == 0)
          (if_both IsShiftRegister (type == 0) start
            (if_both IsShiftRegister (type == 3) (through_carry-Keeps _ start) (moved 32)))
          (moved (get_bits ins 11 7)))
        (moved (u8 (arm_read_register p (get_bits ins 11 8)))))
