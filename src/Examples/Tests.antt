-- ===== src/Examples/Tests.antt =====
-- Runs of whole instructions.
use projet_s5_prog.Base.{◌≡◌, refl}
use projet_s5_prog.Examples.Data.{zeros, core_of, program}
use projet_s5_prog.Memory.{memory_create, memory_read_word, memory_read_byte}
use projet_s5_prog.Registers.{registers_create, read_register, write_register, write_usr_register}
use projet_s5_prog.Registers.{write_cpsr, read_cpsr, get_mode}
use projet_s5_prog.Exception.{arm_create, arm_exception}
use projet_s5_prog.Core.{arm_read_register, arm_fetch, arm_write_cpsr, arm_write_register}
use projet_s5_prog.Core.{arm_write_usr_register, condition_passed, arm_read_cpsr, rotate_right}
use projet_s5_prog.DataProcessing.Fields.{get_shifter_operand, packing_shifter, get_cflag}
use projet_s5_prog.DataProcessing.Shifter.{get_operande_and_carry_out, imm}
use projet_s5_prog.DataProcessing.{arm_data_processing, calcs_procedure, calcs_result}
use projet_s5_prog.Instruction.{arm_step, arm_execute_instruction, execute_class, raise}

-- `ADD R0, R0, #1` after a reset
add_one :
    arm_read_register (core_of (arm_step zeros (arm_create 7 (memory_create program 64 0)))) 0 ≡ 1
unfolding arm_step raise arm_execute_instruction execute_class arm_fetch arm_read_register
    read_register memory_create memory_read_word memory_read_byte arm_create arm_exception
    arm_write_cpsr arm_write_usr_register write_usr_register write_cpsr registers_create
    arm_data_processing calcs_procedure calcs_result get_operande_and_carry_out imm
    get_shifter_operand packing_shifter get_cflag condition_passed arm_read_cpsr read_cpsr
    arm_write_register write_register get_mode rotate_right
add_one = refl
