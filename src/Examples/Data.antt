-- ===== src/Examples/Data.antt =====
-- A small machine: 64 bytes of memory, supervisor mode, an aligned program counter.
use projet_s5_prog.Base.{ℕ, ◌%◌, ◌<◌, arith, refl}
use projet_s5_prog.Base.{◌==◌, if◌then◌else◌}
use projet_s5_prog.Util.{Undefined}
use projet_s5_prog.Memory.{Memory}
use projet_s5_prog.Registers.{Registers}
use projet_s5_prog.Core.{ArmCore}
use projet_s5_prog.Branch.{Outcome, ran, exited}
use projet_s5_prog.Invariant.{IsValid}

-- a machine whose wide shifts give 0
abbrev pub zeros : Undefined
zeros = record {
  shift_left = λ x k. 0;
  shift_right = λ x k. 0;
  local = 0;
  second_local = 0;
  third_local = 0;
}

abbrev pub small_memory : Memory
small_memory = record { mem_data = λ a. a % 256; endianess = 0; size = 64 }

abbrev pub small_registers : Registers
small_registers = λ k. if k == 31 then 0x1d3 else if k == 30 then 8 else if k == 1 then 5 else 0

abbrev pub machine : ArmCore
machine = record { cycle_count = 0; reg = small_registers; mem = small_memory }

pub machine-IsValid : IsValid 0 64 0 machine
machine-IsValid = record {
  counted = refl;
  words = λ k. ground arith;
  bytes = λ a. omega arith;
  same_size = refl;
  same_order = refl;
}

-- `ADD R0, R0, #1` at address 0, low byte first
abbrev pub program : ℕ → ℕ
program a = if a == 0 then 1 else if a == 2 then 0x80 else if a == 3 then 0xE2 else 0

pub program-lt : (a : ℕ) → program a < 256
program-lt a = ground arith

abbrev pub core_of : Outcome → ArmCore
core_of (ran code p) = p
core_of (exited status) = machine
