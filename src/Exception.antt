-- ===== src/Exception.antt =====
-- arm_exception.c, and `arm_create` of arm_core.c, which resets the processor through it.
use projet_s5_prog.Base.{ℕ, ◌==◌, if◌then◌else◌}
use projet_s5_prog.Memory.{Memory}
use projet_s5_prog.Registers.{registers_create}
use projet_s5_prog.Core.{ArmCore, arm_write_cpsr, arm_write_usr_register}

-- `RESET` and the two exceptions that the decoders return, of arm_constants.h
abbrev pub reset : ℕ
reset = 1

abbrev pub undefined_instruction : ℕ
undefined_instruction = 2

abbrev pub software_interrupt : ℕ
software_interrupt = 3

-- `Exception_bit_9` is 0.
unfoldable pub arm_exception : ArmCore → ℕ → ArmCore
arm_exception p exception =
    if exception == reset then arm_write_usr_register (arm_write_cpsr p 0x1d3) 15 0 else p

-- `malloc` leaves the cycle count as it finds it until the last line; it is taken to succeed.
unfoldable pub arm_create : ℕ → Memory → ArmCore
arm_create found mem =
    let p : ArmCore = record { cycle_count = found; reg = registers_create; mem = mem } in
    let p' = arm_exception p reset in record p' { cycle_count = 0 }
