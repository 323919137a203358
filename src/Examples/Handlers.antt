-- ===== src/Examples/Handlers.antt =====
-- The properties of the decoders and of the steps at concrete inputs.
use projet_s5_prog.Base.{ℕ, ◌+◌, ◌*◌, ◌/◌, ◌%◌, ◌^◌, ◌≡◌, ◌↔◌, arith, refl}
use projet_s5_prog.Base.{◌==◌, if◌then◌else◌, add32, int_of}
use projet_s5_prog.Memory.{memory_create, memory_read_word, memory_read_byte}
use projet_s5_prog.Registers.{read_cpsr, read_register, write_usr_register, write_cpsr}
use projet_s5_prog.Registers.{registers_create}
use projet_s5_prog.Core.{ArmCore, arm_fetch, arm_read_register, condition_passed}
use projet_s5_prog.Core.{arm_read_cpsr, arm_write_cpsr, arm_write_usr_register}
use projet_s5_prog.Exception.{arm_create, arm_exception}
use projet_s5_prog.DataProcessing.{arm_data_processing}
use projet_s5_prog.DataProcessing.Compared.{first_operand, second_operand, cmp_then_eq}
use projet_s5_prog.LoadStore.Multiple.{get_start_address, get_end_address, update_rn, stm1}
use projet_s5_prog.LoadStore.Count.{ones, end_address_start_address}
use projet_s5_prog.LoadStore.Stored.{words_stored, stm1_stores_all}
use projet_s5_prog.Branch.{ran, exited, arm_branch}
use projet_s5_prog.Branch.Targets.{arm_branch_target, blx1_adds_twice}
use projet_s5_prog.Instruction.{execute_class, arm_execute_instruction, raise, arm_step}
use projet_s5_prog.Instruction.Skipped.{condition_failed_skips}
use projet_s5_prog.Instruction.Outcomes.{Ends, arm_step_returns_zero, arm_step_exits}
use projet_s5_prog.Invariant.{IsValid}
use projet_s5_prog.Invariant.Run.{Sound, stop, step, arm_step-Sound, reached-IsValid}
use projet_s5_prog.Examples.Data.{zeros, machine, machine-IsValid, program, program-lt, core_of}

-- the machine's Z flag is clear, so EQ fails and AL passes
eq_fails : condition_passed machine 0 ≡ 0
unfolding condition_passed arm_read_cpsr read_cpsr
eq_fails = refl

al_passes : (ins : ℕ) → ins / 2 ^ 28 % 16 ≡ 14 → condition_passed machine ins ≡ 1
unfolding condition_passed
al_passes ins e = rw e

abbrev start : ArmCore
start = arm_create 7 (memory_create program 64 0)

first_step : arm_step zeros start ≡ ran 0 (core_of (arm_step zeros start))
unfolding arm_step raise arm_execute_instruction execute_class arm_fetch arm_read_register
    read_register memory_create memory_read_word memory_read_byte arm_create arm_exception
    arm_write_cpsr arm_write_usr_register write_usr_register write_cpsr registers_create
first_step = refl

reached-IsValid_example : IsValid 1 64 0 (core_of (arm_step zeros start))
reached-IsValid_example =
    reached-IsValid zeros 7 program 64 0 1 (core_of (arm_step zeros start)) program-lt
      (step 0 first_step stop)

arm_step-Sound_example : Sound 1 64 0 (arm_step zeros machine)
arm_step-Sound_example = arm_step-Sound zeros machine machine-IsValid

condition_failed_skips_example : execute_class zeros machine 0 ≡ ran 0 machine
condition_failed_skips_example = condition_failed_skips zeros machine 0 eq_fails (omega arith)

-- `CMP R1, #5`, then a word under EQ
cmp_then_eq_example :
    condition_passed (arm_data_processing zeros machine 0xE351_0005).1 0
    ≡ int_of (first_operand zeros machine 0xE351_0005 == second_operand zeros machine 0xE351_0005)
cmp_then_eq_example =
    cmp_then_eq zeros 0 64 0 machine 0xE351_0005 0 machine-IsValid refl refl
      (omega (arith, al_passes 0xE351_0005 refl)) (omega arith)

-- `BL` forward by 4 words
arm_branch_target_example :
    (arm_branch machine 0xEB00_0004).1.reg 30 ≡ (arm_read_register machine 15 + 16) % 2 ^ 32
arm_branch_target_example =
    arm_branch_target machine 0xEB00_0004 refl (omega (arith, al_passes 0xEB00_0004 refl))
      (omega arith)

blx1_adds_twice_example :
    (arm_branch machine 0xFA00_0004).1.reg 30 ≡ (arm_read_register machine 15 + 32) % 2 ^ 32
blx1_adds_twice_example = blx1_adds_twice machine 0xFA00_0004 refl refl refl

end_address_start_address_example :
    add32 (get_end_address machine 0xE8BD_8013) 4
    ≡ add32 (get_start_address machine 0xE8BD_8013) (4 * ones 16 0x8013)
end_address_start_address_example = end_address_start_address machine 0xE8BD_8013

-- `STMIA R1, {R0, R1}`
stm1_stores_all_example :
    (stm1 machine 0xE881_0003 ≡ (
      if ones 16 3 == 16
      then (
        0,
        update_rn (words_stored machine (get_start_address machine 0xE881_0003) 16) 0xE881_0003,
      )
      else (1, words_stored machine (get_start_address machine 0xE881_0003) 16)))
    × ((words_stored machine (get_start_address machine 0xE881_0003) 16).reg ≡ machine.reg)
stm1_stores_all_example =
    stm1_stores_all 0 64 0 machine 0xE881_0003 machine-IsValid
      (omega (arith, al_passes 0xE881_0003 refl))

arm_step_returns_zero_example : Ends (arm_step zeros machine)
arm_step_returns_zero_example = arm_step_returns_zero zeros machine

arm_step_exits_example :
    (arm_step zeros machine ≡ exited 0) ↔ ((arm_fetch machine).value % 2 ^ 28 ≡ 0xF12_3456)
arm_step_exits_example = arm_step_exits zeros machine
