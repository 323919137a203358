-- ===== src/Examples/Accesses.antt =====
-- The properties of memory.c, registers.c, arm_core.c and arm_exception.c at concrete inputs.
use projet_s5_prog.Base.{◌≡◌, arith}
use projet_s5_prog.Memory.{memory_read_word}
use projet_s5_prog.Memory.{memory_write_word}
use projet_s5_prog.Memory.Words.{read_word-write_word}
use projet_s5_prog.Registers.{read_register, write_register}
use projet_s5_prog.Registers.Banks.{read_register-write_register}
use projet_s5_prog.Registers.Aliases.{in_mode, link_registers_shared}
use projet_s5_prog.Examples.Data.{small_memory, small_registers}

read_word-write_word_example :
    memory_read_word (memory_write_word small_memory 60 0x1234_5678).1 60 ≡ (1, 0x1234_5678)
read_word-write_word_example =
    read_word-write_word small_memory 60 0x1234_5678 (omega arith) (omega arith) (omega arith)

read_register-write_register_example : read_register (write_register small_registers 14 9) 14 ≡ 9
read_register-write_register_example =
    read_register-write_register small_registers 14 14 9 (omega arith) (omega arith)

link_registers_shared_example :
    (read_register (in_mode 27 (write_register (in_mode 19 small_registers) 14 9)) 13 ≡ 9)
    × (read_register (in_mode 18 (write_register (in_mode 23 small_registers) 14 9)) 13 ≡ 9)
    × (read_register (in_mode 17 (write_register (in_mode 27 small_registers) 14 9)) 13 ≡ 9)
    × (read_register (in_mode 16 (write_register (in_mode 18 small_registers) 14 9)) 14 ≡ 9)
link_registers_shared_example = link_registers_shared small_registers 9
