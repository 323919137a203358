-- ===== src/DataProcessing/FlagsKept.antt =====
-- The CPSR under a write to a register, and the registers under a write of the flags.
use projet_s5_prog.Base.{ℕ, ◌%◌, ◌^◌, ◌<◌, ◌≡◌, ◌∙◌, refl, arith}
use projet_s5_prog.Registers.{Registers, get_mode, store_word, read_cpsr, write_cpsr}
use projet_s5_prog.Registers.Slot.{slot, slot-lt, read_register-slot, write_register-slot}
use projet_s5_prog.Core.{ArmCore, arm_read_register, arm_read_cpsr, arm_write_register}
use projet_s5_prog.Core.{arm_write_cpsr}
use projet_s5_prog.DataProcessing.Fields.{modify_nzcv}
use projet_s5_prog.DataProcessing.Flags.{modify_nzcv_cpsr}

-- The CPSR does not stand among the registers, and its low bits choose the bank.
pub cpsr-write_register :
    (p : ArmCore) (reg v : ℕ) → arm_read_cpsr (arm_write_register p reg v) ≡ arm_read_cpsr p
unfolding arm_read_cpsr arm_write_register read_cpsr
cpsr-write_register p reg v =
    rw (write_register-slot p.reg reg v) (ground (arith, slot-lt (get_mode p.reg) reg))

banked-write_cpsr :
    (r : Registers) (v reg : ℕ)
    → v % 2 ^ 5 ≡ r 31 % 2 ^ 5
    → store_word r 31 v (slot (get_mode (store_word r 31 v)) reg) ≡ r (slot (get_mode r) reg)
unfolding get_mode
banked-write_cpsr r v reg e = rw e (ground (arith, slot-lt (r 31 % 2 ^ 5) reg))

register-write_cpsr :
    (p : ArmCore) (v reg : ℕ)
    → v % 2 ^ 5 ≡ arm_read_cpsr p % 2 ^ 5
    → arm_read_register (arm_write_cpsr p v) reg ≡ arm_read_register p reg
unfolding arm_read_register arm_write_cpsr write_cpsr arm_read_cpsr read_cpsr
register-write_cpsr p v reg e =
    rw
      (
        read_register-slot (store_word p.reg 31 v) reg,
        read_register-slot p.reg reg,
        banked-write_cpsr p.reg v reg e,
      )
      refl

modify_nzcv-written :
    (p : ArmCore) (n z c v reg : ℕ)
    → arm_read_register (modify_nzcv p n z c v) reg
      ≡ arm_read_register (arm_write_cpsr p (arm_read_cpsr (modify_nzcv p n z c v))) reg
unfolding modify_nzcv arm_write_cpsr arm_read_cpsr read_cpsr write_cpsr
modify_nzcv-written p n z c v reg = refl

pub register-modify_nzcv :
    (p : ArmCore) (n z c v reg : ℕ)
    → n < 2
    → z < 2
    → c < 2
    → v < 2
    → arm_read_register (modify_nzcv p n z c v) reg ≡ arm_read_register p reg
register-modify_nzcv p n z c v reg hn hz hc hv =
    let flags = modify_nzcv_cpsr p n z c v hn hz hc hv in
    modify_nzcv-written p n z c v reg
    ∙ register-write_cpsr p (arm_read_cpsr (modify_nzcv p n z c v)) reg (omega arith)
