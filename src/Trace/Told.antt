-- ===== src/Trace/Told.antt =====
-- Each access of arm_core.c prints what it does.
use projet_s5_prog.Base.{ℕ, some, ◌≡◌, ◌≢◌, refl, ap, arith, ◌<◌}
use projet_s5_prog.Base.{==_refl, ==_ne}
use projet_s5_prog.Registers.{
  Registers, store_word, get_mode, read_spsr, write_spsr, read_cpsr, write_cpsr,
}
use projet_s5_prog.Registers.Slot.{slot, slot-lt, read_register-slot, write_register-slot}
use projet_s5_prog.Registers.Slot.{read_usr_register-slot, write_usr_register-slot}
use projet_s5_prog.Core.{
  ArmCore, arm_read_register, arm_write_register, arm_read_usr_register, arm_write_usr_register,
}
use projet_s5_prog.Core.{arm_read_cpsr, arm_write_cpsr, arm_read_spsr, arm_write_spsr}
use projet_s5_prog.Trace.Accesses.{Traced, print_register, read, write, cpsr, spsr}
use projet_s5_prog.Trace.Accesses.{
  traced_read_register, traced_read_usr_register, traced_read_cpsr, traced_read_spsr,
}
use projet_s5_prog.Trace.Accesses.{
  traced_write_register, traced_write_usr_register, traced_write_cpsr, traced_write_spsr,
}
use projet_s5_prog.Trace.Replay.{replay_write, shown}
use projet_s5_prog.Trace.Names.{usr}
use projet_s5_prog.Trace.Explained.{Tracing, Explained, register_Explained}

-- R15 stands in word 30.
slot-pc : (mode : ℕ) → slot mode 15 ≡ 30
unfolding slot
slot-pc mode = refl

shown-register :
    (p : ArmCore) (reg : ℕ) → reg < 16 → arm_read_register p reg ≡ shown p.reg (get_mode p.reg) reg
unfolding arm_read_register
shown-register p reg h = ground (arith, read_register-slot p.reg reg, slot-pc (get_mode p.reg))

shown-usr_register :
    (p : ArmCore) (reg : ℕ) → reg < 16 → arm_read_usr_register p reg ≡ shown p.reg usr reg
unfolding arm_read_usr_register
shown-usr_register p reg h = ground (arith, read_usr_register-slot p.reg reg, slot-pc usr)

shown-cpsr : (p : ArmCore) → arm_read_cpsr p ≡ shown p.reg 0 cpsr
unfolding arm_read_cpsr read_cpsr
shown-cpsr p = refl

shown-spsr : (p : ArmCore) → arm_read_spsr p ≡ shown p.reg (get_mode p.reg) spsr
unfolding arm_read_spsr read_spsr
shown-spsr p = ground arith

-- A write leaves the mode.
mode-store_word :
    (r : Registers) (k value : ℕ) → k ≢ 31 → get_mode (store_word r k value) ≡ get_mode r
unfolding get_mode
mode-store_word r k value h = ground arith

told_write :
    (p : ArmCore) (reg value : ℕ)
    → reg < 16
    → replay_write p.reg (get_mode (arm_write_register p reg value).reg) reg value
      ≡ (arm_write_register p reg value).reg
unfolding arm_write_register
told_write p reg value h =
    rw
      (
        write_register-slot p.reg reg value,
        mode-store_word p.reg (slot (get_mode p.reg) reg) value
            (omega (arith, slot-lt (get_mode p.reg) reg)),
        ==_ne reg cpsr (omega arith),
        ==_ne reg spsr (omega arith),
      )
      refl

told_write_usr :
    (p : ArmCore) (reg value : ℕ)
    → reg < 16
    → replay_write p.reg usr reg value ≡ (arm_write_usr_register p reg value).reg
unfolding arm_write_usr_register
told_write_usr p reg value h =
    rw
      (
        write_usr_register-slot p.reg reg value,
        ==_ne reg cpsr (omega arith),
        ==_ne reg spsr (omega arith),
      )
      refl

mode-write_spsr : (r : Registers) (value : ℕ) → get_mode (write_spsr r value) ≡ get_mode r
unfolding write_spsr get_mode
mode-write_spsr r value = ground arith

spsr_written :
    (r : Registers) (value : ℕ) → replay_write r (get_mode r) spsr value ≡ write_spsr r value
unfolding write_spsr
spsr_written r value = ground arith

told_write_spsr :
    (p : ArmCore) (value : ℕ)
    → replay_write p.reg (get_mode (arm_write_spsr p value).reg) spsr value
      ≡ (arm_write_spsr p value).reg
unfolding arm_write_spsr
told_write_spsr p value = rw (mode-write_spsr p.reg value) (spsr_written p.reg value)

module _ (s : Traced) (on : Tracing s.tracer) where
  -- a line of a reading, and of a write
  reading_Explained :
      (reg mode value : ℕ)
      → value ≡ shown s.core.reg mode reg
      → Explained s (print_register s read reg mode value)
  reading_Explained reg mode value e =
      register_Explained s on s.core read reg mode value (rw (← e, ==_refl value) refl)

  pub read_register-Explained : (reg : ℕ) → reg < 16 → Explained s (traced_read_register s reg).1
  unfolding traced_read_register
  read_register-Explained reg h = reading_Explained reg _ _ (shown-register s.core reg h)

  pub read_usr_register-Explained :
      (reg : ℕ) → reg < 16 → Explained s (traced_read_usr_register s reg).1
  unfolding traced_read_usr_register
  read_usr_register-Explained reg h = reading_Explained reg _ _ (shown-usr_register s.core reg h)

  pub read_cpsr-Explained : Explained s (traced_read_cpsr s).1
  unfolding traced_read_cpsr
  read_cpsr-Explained = reading_Explained cpsr 0 _ (shown-cpsr s.core)

  pub read_spsr-Explained : Explained s (traced_read_spsr s).1
  unfolding traced_read_spsr
  read_spsr-Explained = reading_Explained spsr _ _ (shown-spsr s.core)

  pub write_register-Explained :
      (reg value : ℕ) → reg < 16 → Explained s (traced_write_register s reg value)
  unfolding traced_write_register arm_write_register
  write_register-Explained reg value h =
      register_Explained s on (arm_write_register s.core reg value) write reg _ value
        (ap (λ (r : Registers). some (r, s.core.mem)) (told_write s.core reg value h))

  pub write_usr_register-Explained :
      (reg value : ℕ) → reg < 16 → Explained s (traced_write_usr_register s reg value)
  unfolding traced_write_usr_register arm_write_usr_register
  write_usr_register-Explained reg value h =
      register_Explained s on (arm_write_usr_register s.core reg value) write reg usr value
        (ap (λ (r : Registers). some (r, s.core.mem)) (told_write_usr s.core reg value h))

  pub write_cpsr-Explained : (value : ℕ) → Explained s (traced_write_cpsr s value)
  unfolding traced_write_cpsr arm_write_cpsr write_cpsr
  write_cpsr-Explained value =
      register_Explained s on (arm_write_cpsr s.core value) write cpsr 0 value refl

  pub write_spsr-Explained : (value : ℕ) → Explained s (traced_write_spsr s value)
  unfolding traced_write_spsr arm_write_spsr
  write_spsr-Explained value =
      register_Explained s on (arm_write_spsr s.core value) write spsr _ value
        (ap (λ (r : Registers). some (r, s.core.mem)) (told_write_spsr s.core value))
