-- ===== src/Registers/Banks.antt =====
-- What one register access of registers.c sees of another, within one processor mode.
use projet_s5_prog.Base.{ℕ, ◌%◌, ◌≤◌, ◌<◌, ◌≡◌, arith}
use projet_s5_prog.Base.{◌==◌, if◌then◌else◌, Bool, ◌||◌, ap}
use projet_s5_prog.Registers.{Registers, get_mode, read_register, write_register}
use projet_s5_prog.Registers.{read_usr_register, write_usr_register, read_spsr, write_spsr}
use projet_s5_prog.Registers.Slot.{slot-lt, slot_injective, read_register-slot}
use projet_s5_prog.Registers.Slot.{write_register-slot, read_usr_register-slot}
use projet_s5_prog.Registers.Slot.{write_usr_register-slot}

-- Writing a register leaves the CPSR, every SPSR and what lies beyond the 37 words alone, and so
-- does writing a user register.
write_register_above :
    (r : Registers) (reg value k : ℕ)
    → 31 ≤ k
    → (write_register r reg value k ≡ r k) × (write_usr_register r reg value k ≡ r k)
write_register_above r reg value k h = (
  rw write_register-slot (ground (arith, slot-lt (get_mode r) reg)),
  rw write_usr_register-slot (ground (arith, slot-lt 16 reg)),
)

pub get_mode-write_register :
    (r : Registers) (reg value : ℕ) → get_mode (write_register r reg value) ≡ get_mode r
unfolding get_mode
get_mode-write_register r reg value =
    ap (λ (c : ℕ). c % 32) (write_register_above r reg value 31 (omega arith)).0

pub get_mode-write_usr_register :
    (r : Registers) (reg value : ℕ) → get_mode (write_usr_register r reg value) ≡ get_mode r
unfolding get_mode
get_mode-write_usr_register r reg value =
    ap (λ (c : ℕ). c % 32) (write_register_above r reg value 31 (omega arith)).1

-- After a write to register `reg`, register `other` reads as the new value if it is the same and as
-- before otherwise, in every mode, for registers below 16.
pub read_register-write_register :
    (r : Registers) (reg other value : ℕ)
    → reg < 16
    → other < 16
    → read_register (write_register r reg value) other
      ≡ (if other == reg then value else read_register r other)
read_register-write_register r reg other value h k =
    rw (read_register-slot, read_register-slot, get_mode-write_register, write_register-slot)
      (ground (arith, slot_injective (get_mode r) other reg))

-- The same of the user registers, whatever the mode.
read_usr_register-write_usr_register :
    (r : Registers) (reg other value : ℕ)
    → reg < 16
    → other < 16
    → read_usr_register (write_usr_register r reg value) other
      ≡ (if other == reg then value else read_usr_register r other)
read_usr_register-write_usr_register r reg other value h k =
    rw (read_usr_register-slot, read_usr_register-slot, write_usr_register-slot)
      (ground (arith, slot_injective 16 other reg))

-- the modes that have an SPSR of their own
abbrev pub has_bank : ℕ → Bool
has_bank mode = mode == 17 || mode == 18 || mode == 19 || mode == 23 || mode == 27

-- In the five exception modes the SPSR reads as it was written; in any other mode it reads as
-- 0xFFFFFFFF and the write changes nothing. No write to an SPSR changes a register or the CPSR.
read_spsr-write_spsr :
    (r : Registers) (value k : ℕ)
    → k < 32
    → (read_spsr (write_spsr r value) ≡ (if has_bank (get_mode r) then value else 0xFFFF_FFFF))
      × (write_spsr r value k ≡ r k)
unfolding read_spsr write_spsr get_mode
read_spsr-write_spsr r value k h = (ground arith, ground arith)
