-- ===== src/Invariant/Block.antt =====
-- The invariant across the block transfers of arm_load_store.c.
use projet_s5_prog.Base.{ℕ, zero, suc, ◌^◌, ◌<◌, arith}
use projet_s5_prog.Base.{Bool, not, ◌==◌, ◌&&◌, if◌then◌else◌, if_both, truthy, sub32}
use projet_s5_prog.Util.{get_bit}
use projet_s5_prog.Core.{ArmCore, condition_passed, arm_read_register, arm_write_register}
use projet_s5_prog.Core.{arm_read_usr_register, arm_write_usr_register, arm_read_word}
use projet_s5_prog.Core.{arm_current_mode_has_spsr, arm_write_cpsr, arm_read_spsr}
use projet_s5_prog.LoadStore.Multiple.{ldm_loop, stm_loop, update_rn, finish, get_start_address}
use projet_s5_prog.LoadStore.Multiple.{get_end_address, ldm1, ldm2, ldm3, stm1, stm2}
use projet_s5_prog.LoadStore.Multiple.{arm_load_store_multiple}
use projet_s5_prog.Invariant.{IsValid}
use projet_s5_prog.Invariant.Data.{Keeps}
use projet_s5_prog.Invariant.Single.{load_to_pc-IsValid}
use projet_s5_prog.Invariant.Access.{write_register-IsValid, write_usr_register-IsValid}
use projet_s5_prog.Invariant.Access.{write_cpsr-IsValid, write_word-IsValid, read_word-lt}
use projet_s5_prog.Invariant.Access.{read_spsr-lt}

-- a write of a word to a register, that preserves the invariant
abbrev Writes : ℕ → ℕ → ℕ → (ArmCore → ℕ → ℕ → ArmCore) → Type 0
Writes t n e write =
    (p : ArmCore) (reg v : ℕ) → IsValid t n e p → v < 2 ^ 32 → IsValid t n e (write p reg v)

module _ {t n e : ℕ} (ins : ℕ) where
  ldm_loop-IsValid :
      (write : ArmCore → ℕ → ℕ → ArmCore) (left i curr_addr : ℕ) (p : ArmCore)
      → Writes t n e write
      → IsValid t n e p
      → Keeps t n e (ldm_loop write ins left i curr_addr p)
  unfolding ldm_loop
  ldm_loop-IsValid write zero i curr_addr p w h = h
  ldm_loop-IsValid write (suc left) i curr_addr p w h = ldm_loop-IsValid write left _ _ _ w (
      if_both (IsValid t n e) (get_bit ins i == 1)
        (w p i (arm_read_word p curr_addr).1 h (read_word-lt h curr_addr)) h)

  stm_loop-IsValid :
      (read : ArmCore → ℕ → ℕ) (left i curr_addr : ℕ) (p : ArmCore)
      → IsValid t n e p
      → Keeps t n e (stm_loop read left i curr_addr p)
  unfolding stm_loop
  stm_loop-IsValid read zero i curr_addr p h = h
  stm_loop-IsValid read (suc left) i curr_addr p h =
      stm_loop-IsValid read left _ _ _ (write_word-IsValid h curr_addr (read p i))

  update_rn-IsValid : (p : ArmCore) → IsValid t n e p → IsValid t n e (update_rn p ins)
  unfolding update_rn
  update_rn-IsValid p h =
      if_both (IsValid t n e) (get_bit ins 21 == 1) (write_register-IsValid h _ _ (omega arith)) h

  finish-IsValid :
      (curr_addr : ℕ) (p : ArmCore) → IsValid t n e p → Keeps t n e (finish curr_addr p ins)
  unfolding finish
  finish-IsValid curr_addr p h =
      if_both (Keeps t n e) (not (sub32 curr_addr 4 == get_end_address p ins)) h
        (update_rn-IsValid p h)

  module _ (p : ArmCore) (h : IsValid t n e p) where
    abbrev passed : Bool
    passed = truthy (condition_passed p ins)

    abbrev loaded : ℕ × ArmCore
    loaded = ldm_loop arm_write_register ins 15 0 (get_start_address p ins) p

    loaded-IsValid : Keeps t n e loaded
    loaded-IsValid =
        ldm_loop-IsValid arm_write_register 15 0 _ p (λ q reg v hq. write_register-IsValid hq reg v)
          h

    ldm1-IsValid : Keeps t n e (ldm1 p ins)
    unfolding ldm1
    ldm1-IsValid =
        if_both (Keeps t n e) passed
          (if_both (Keeps t n e) (get_bit ins 15 == 1)
            (finish-IsValid _ _
              (load_to_pc-IsValid loaded-IsValid _ (read_word-lt loaded-IsValid _)))
            (finish-IsValid _ _ loaded-IsValid))
          h

    ldm2-IsValid : Keeps t n e (ldm2 p ins)
    unfolding ldm2
    ldm2-IsValid =
        if_both (Keeps t n e) passed
          (finish-IsValid _ _ (
            ldm_loop-IsValid arm_write_usr_register 15 0 _ p
              (λ q reg v hq. write_usr_register-IsValid hq reg v) h))
          h

    ldm3-IsValid : Keeps t n e (ldm3 p ins)
    unfolding ldm3
    ldm3-IsValid =
        if_both (Keeps t n e) passed
          (finish-IsValid _ _ (write_register-IsValid restored 15 _ (read_word-lt restored _))) h
      where
        restored : IsValid t n e (
            if truthy (arm_current_mode_has_spsr loaded.1)
            then arm_write_cpsr loaded.1 (arm_read_spsr loaded.1)
            else loaded.1)
        restored =
            if_both (IsValid t n e) (truthy (arm_current_mode_has_spsr loaded.1))
              (write_cpsr-IsValid loaded-IsValid _ (read_spsr-lt loaded-IsValid)) loaded-IsValid

    stm1-IsValid : Keeps t n e (stm1 p ins)
    unfolding stm1
    stm1-IsValid =
        if_both (Keeps t n e) passed
          (finish-IsValid _ _ (stm_loop-IsValid arm_read_register 16 0 _ p h)) h

    stm2-IsValid : Keeps t n e (stm2 p ins)
    unfolding stm2
    stm2-IsValid =
        if_both (Keeps t n e) passed
          (finish-IsValid _ _ (stm_loop-IsValid arm_read_usr_register 16 0 _ p h)) h

    pub load_store_multiple-IsValid : Keeps t n e (arm_load_store_multiple p ins)
    unfolding arm_load_store_multiple
    load_store_multiple-IsValid =
        if_both (Keeps t n e) ((get_bit ins 22 == 0) && (get_bit ins 20 == 1)) ldm1-IsValid (
          if_both (Keeps t n e)
            ((get_bit ins 22 == 1) && (get_bit ins 20 == 1) && (get_bit ins 15 == 0)) ldm2-IsValid
            (if_both (Keeps t n e)
              ((get_bit ins 22 == 1) && (get_bit ins 20 == 1) && (get_bit ins 15 == 1)) ldm3-IsValid
              (if_both (Keeps t n e) ((get_bit ins 22 == 0) && (get_bit ins 20 == 0)) stm1-IsValid (
                if_both (Keeps t n e)
                  ((get_bit ins 22 == 1) && (get_bit ins 21 == 0) && (get_bit ins 20 == 0))
                  stm2-IsValid h))))
