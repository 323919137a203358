-- ===== src/Registers/Aliases.antt =====
-- How the banks of registers.c share words between the modes.
use projet_s5_prog.Base.{ℕ, ◌≤◌, ◌<◌, ◌≡◌, refl, arith}
use projet_s5_prog.Registers.{Registers, get_mode, read_register, write_register}
use projet_s5_prog.Registers.{read_usr_register, write_cpsr}
use projet_s5_prog.Registers.Slot.{slot, fiq_shift, stack_bounds}
use projet_s5_prog.Registers.Slot.{write_register-slot, read_usr_register-slot}

-- the register file after the CPSR is set to a mode, all other bits clear
abbrev pub in_mode : ℕ → Registers → Registers
in_mode mode r = write_cpsr r mode

-- Whatever the registers hold, a link register that is written in one exception mode is read as
-- another register in another mode: that of the supervisor as the stack pointer of the undefined
-- mode, that of the abort mode as the stack pointer of the interrupt mode, that of the undefined
-- mode as the stack pointer of the fast interrupt mode, and that of the interrupt mode as the
-- link register of the user.
pub link_registers_shared :
    (r : Registers) (value : ℕ)
    → (read_register (in_mode 27 (write_register (in_mode 19 r) 14 value)) 13 ≡ value)
      × (read_register (in_mode 18 (write_register (in_mode 23 r) 14 value)) 13 ≡ value)
      × (read_register (in_mode 17 (write_register (in_mode 27 r) 14 value)) 13 ≡ value)
      × (read_register (in_mode 16 (write_register (in_mode 18 r) 14 value)) 14 ≡ value)
unfolding read_register write_register write_cpsr
link_registers_shared r value = (refl, refl, refl, refl)

-- The fast interrupt mode has R8 to R12 to itself: writing one of them changes no user register.
fast_registers_apart :
    (r : Registers) (reg other value : ℕ)
    → get_mode r ≡ 17
    → 8 ≤ reg
    → reg < 13
    → read_usr_register (write_register r reg value) other ≡ read_usr_register r other
unfolding slot fiq_shift
fast_registers_apart r reg other value fast low high =
    rw (read_usr_register-slot, read_usr_register-slot, write_register-slot, fast)
      (ground (arith, stack_bounds 16))
