-- ===== src/Core/Written.antt =====
-- A register other than R15, read after it is written through arm_core.c.
use projet_s5_prog.Base.{ℕ, ◌<◌, ◌≡◌, ◌≢◌, ==_ne, ==_refl}
use projet_s5_prog.Registers.Banks.{read_register-write_register}
use projet_s5_prog.Core.{ArmCore, arm_read_register, arm_write_register}

pub written_register :
    (p : ArmCore) (reg v : ℕ)
    → reg < 16
    → reg ≢ 15
    → arm_read_register (arm_write_register p reg v) reg ≡ v
unfolding arm_read_register arm_write_register
written_register p reg v h other =
    rw (==_ne reg 15 other, read_register-write_register p.reg reg reg v h h, ==_refl reg)
