-- ===== src/Fetch.antt =====
-- What a fetch does, and the state after a reset.
use projet_s5_prog.Base.{ℕ, ◌%◌, ◌^◌, ◌<◌, ◌≡◌, ◌≢◌, refl, arith}
use projet_s5_prog.Base.{==_ne, add32, sub32}
use projet_s5_prog.Base.Mask.{clear_bit_one}
use projet_s5_prog.Memory.{Memory, memory_read_word}
use projet_s5_prog.Exception.{arm_create, arm_exception}
use projet_s5_prog.Registers.{
  read_register, write_register, get_mode, read_cpsr, write_cpsr, registers_create,
  write_usr_register, in_a_privileged_mode,
}
use projet_s5_prog.Core.{
  ArmCore, arm_fetch, arm_read_register, arm_write_register, seen_pc, arm_read_cpsr, arm_write_cpsr,
  arm_write_usr_register, arm_in_a_privileged_mode, arm_get_cycle_count,
}

-- the program counter as it is stored: the address of the next instruction
abbrev pub stored_pc : ArmCore → ℕ
stored_pc p = p.reg 30

pub seen_pc_aligned : (x : ℕ) → x < 2 ^ 32 → x % 4 ≡ 0 → seen_pc x ≡ add32 x 4
seen_pc_aligned x small aligned = omega (arith, clear_bit_one (add32 x 4))

pub minus_four : (x : ℕ) → x < 2 ^ 32 → x % 4 ≡ 0 → sub32 (seen_pc x) 4 ≡ x
minus_four x small aligned = rw (seen_pc_aligned x small aligned) (omega arith)

seen_next : (x : ℕ) → x < 2 ^ 32 → x % 4 ≡ 0 → seen_pc (add32 x 4) ≡ add32 x 8
seen_next x small aligned =
    rw (seen_pc_aligned (add32 x 4) (omega arith) (omega arith)) (omega arith)

-- From an aligned program counter, `arm_fetch` reads the word that it points to, moves it on by 4
-- so that the instruction reads its own address plus 8 from R15, counts one cycle, and leaves the
-- memory and every register word but the program counter alone.
arm_fetch_aligned :
    (p : ArmCore) (k : ℕ)
    → stored_pc p < 2 ^ 32
    → stored_pc p % 4 ≡ 0
    → k ≢ 30
    → let f = arm_fetch p in
      (f.value ≡ (memory_read_word p.mem (stored_pc p)).1)
      × (stored_pc f.core ≡ add32 (stored_pc p) 4)
      × (arm_read_register f.core 15 ≡ add32 (stored_pc p) 8)
      × (f.core.cycle_count ≡ add32 p.cycle_count 1)
      × (f.core.mem ≡ p.mem)
      × (f.core.reg k ≡ p.reg k)
unfolding arm_fetch arm_read_register arm_write_register read_register write_register
arm_fetch_aligned p k small aligned other =
    rw (minus_four (p.reg 30) small aligned)
      (refl, refl, seen_next (p.reg 30) small aligned, refl, refl, rw (==_ne k 30 other))

-- `arm_create` starts in the supervisor mode with both interrupts masked, a cleared program
-- counter, and no cycle counted, whatever its memory and the word that `malloc` hands it hold; the
-- first fetch then reads the word at address 0.
arm_create_reset :
    (found : ℕ) (mem : Memory)
    → let p = arm_create found mem in
      (arm_read_cpsr p ≡ 0x1d3)
      × (get_mode p.reg ≡ 0x13)
      × (arm_in_a_privileged_mode p ≡ 1)
      × (arm_get_cycle_count p ≡ 0)
      × ((arm_fetch p).value ≡ (memory_read_word mem 0).1)
unfolding arm_create arm_exception arm_write_cpsr arm_write_usr_register write_usr_register
    write_cpsr get_mode arm_read_cpsr read_cpsr arm_in_a_privileged_mode in_a_privileged_mode
    arm_get_cycle_count arm_fetch arm_read_register read_register registers_create
arm_create_reset found mem = (refl, refl, refl, refl, refl)
