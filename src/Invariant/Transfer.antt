-- ===== src/Invariant/Transfer.antt =====
-- The invariant across the addressing modes of arm_load_store.c.
use projet_s5_prog.Base.{ℕ, ◌^◌, ◌<◌, arith}
use projet_s5_prog.Base.{if_both, truthy}
use projet_s5_prog.Util.{Undefined}
use projet_s5_prog.Core.{ArmCore, condition_passed}
use projet_s5_prog.LoadStore.Address.{addr_imm_offset, addr_reg_offset, addr_sca_offset}
use projet_s5_prog.LoadStore.Address.{misc_imm_offset, misc_reg_offset, by_index, write_back}
use projet_s5_prog.LoadStore.Address.{get_addr_by_offset, refresh_rn_by_offset}
use projet_s5_prog.LoadStore.Address.{refresh_rn_of_trans, get_misc_addr_by_offset}
use projet_s5_prog.LoadStore.Address.{refresh_misc_rn_by_offset}
use projet_s5_prog.LoadStore.Address.{is_immediate_offset, is_register_offset, is_scaled_offset}
use projet_s5_prog.LoadStore.Address.{is_pre_indexed, is_post_indexed, is_normal_indexed}
use projet_s5_prog.LoadStore.Address.{is_misc_imm_offset, is_misc_reg_offset}
use projet_s5_prog.Invariant.{IsValid}
use projet_s5_prog.Invariant.Access.{write_register-IsValid, read_register-lt}

addr_imm_offset-lt : (p : ArmCore) (ins : ℕ) → addr_imm_offset p ins < 2 ^ 32
unfolding addr_imm_offset
addr_imm_offset-lt p ins = ground arith

addr_reg_offset-lt : (p : ArmCore) (ins : ℕ) → addr_reg_offset p ins < 2 ^ 32
unfolding addr_reg_offset
addr_reg_offset-lt p ins = ground arith

addr_sca_offset-lt : (u : Undefined) (p : ArmCore) (ins : ℕ) → addr_sca_offset u p ins < 2 ^ 32
unfolding addr_sca_offset
addr_sca_offset-lt u p ins = ground arith

misc_imm_offset-lt : (p : ArmCore) (ins : ℕ) → misc_imm_offset p ins < 2 ^ 32
unfolding misc_imm_offset
misc_imm_offset-lt p ins = ground arith

misc_reg_offset-lt : (p : ArmCore) (ins : ℕ) → misc_reg_offset p ins < 2 ^ 32
unfolding misc_reg_offset
misc_reg_offset-lt p ins = ground arith

module _ {t n e : ℕ} {p : ArmCore} (h : IsValid t n e p) (ins : ℕ) where
  by_index-lt : (offset : ArmCore → ℕ → ℕ) → offset p ins < 2 ^ 32 → by_index offset p ins < 2 ^ 32
  by_index-lt offset ho =
      if_both (λ x. x < 2 ^ 32) (is_post_indexed ins) (read_register-lt h _)
        (if_both (λ x. x < 2 ^ 32) (is_pre_indexed ins) ho
          (if_both (λ x. x < 2 ^ 32) (is_normal_indexed ins) ho (omega arith)))

  write_back-IsValid :
      (offset : ArmCore → ℕ → ℕ) (addr : ℕ)
      → offset p ins < 2 ^ 32
      → addr < 2 ^ 32
      → IsValid t n e (write_back offset p ins addr)
  write_back-IsValid offset addr ho ha =
      if_both (IsValid t n e) (is_pre_indexed ins) (write_register-IsValid h _ _ ha)
        (if_both (IsValid t n e) (is_post_indexed ins) (write_register-IsValid h _ _ ho) h)

  pub addr_by_offset-lt : (u : Undefined) → get_addr_by_offset u p ins < 2 ^ 32
  unfolding get_addr_by_offset
  addr_by_offset-lt u =
      if_both (λ x. x < 2 ^ 32) (is_immediate_offset ins)
        (by_index-lt addr_imm_offset (addr_imm_offset-lt p ins))
        (if_both (λ x. x < 2 ^ 32) (is_register_offset ins)
          (by_index-lt addr_reg_offset (addr_reg_offset-lt p ins))
          (if_both (λ x. x < 2 ^ 32) (is_scaled_offset ins)
            (by_index-lt (addr_sca_offset u) (addr_sca_offset-lt u p ins)) (omega arith)))

  pub misc_addr_by_offset-lt : get_misc_addr_by_offset p ins < 2 ^ 32
  unfolding get_misc_addr_by_offset
  misc_addr_by_offset-lt =
      if_both (λ x. x < 2 ^ 32) (is_misc_imm_offset ins)
        (by_index-lt misc_imm_offset (misc_imm_offset-lt p ins))
        (if_both (λ x. x < 2 ^ 32) (is_misc_reg_offset ins)
          (by_index-lt misc_reg_offset (misc_reg_offset-lt p ins)) (omega arith))

  pub refresh_rn-IsValid :
      (u : Undefined) (addr : ℕ) → addr < 2 ^ 32 → IsValid t n e (refresh_rn_by_offset u p ins addr)
  unfolding refresh_rn_by_offset
  refresh_rn-IsValid u addr ha =
      if_both (IsValid t n e) (truthy (condition_passed p ins))
        (if_both (IsValid t n e) (is_immediate_offset ins)
          (write_back-IsValid addr_imm_offset addr (addr_imm_offset-lt p ins) ha)
          (if_both (IsValid t n e) (is_register_offset ins)
            (write_back-IsValid addr_reg_offset addr (addr_reg_offset-lt p ins) ha)
            (if_both (IsValid t n e) (is_scaled_offset ins)
              (write_back-IsValid (addr_sca_offset u) addr (addr_sca_offset-lt u p ins) ha) h)))
        h

  pub refresh_trans-IsValid : (u : Undefined) → IsValid t n e (refresh_rn_of_trans u p ins)
  unfolding refresh_rn_of_trans
  refresh_trans-IsValid u =
      if_both (IsValid t n e) (truthy (condition_passed p ins))
        (if_both (IsValid t n e) (is_immediate_offset ins)
          (write_register-IsValid h _ _ (addr_imm_offset-lt p ins))
          (if_both (IsValid t n e) (is_register_offset ins)
            (write_register-IsValid h _ _ (addr_reg_offset-lt p ins))
            (if_both (IsValid t n e) (is_scaled_offset ins)
              (write_register-IsValid h _ _ (addr_sca_offset-lt u p ins)) h)))
        h

  pub refresh_misc_rn-IsValid :
      (addr : ℕ) → addr < 2 ^ 32 → IsValid t n e (refresh_misc_rn_by_offset p ins addr)
  unfolding refresh_misc_rn_by_offset
  refresh_misc_rn-IsValid addr ha =
      if_both (IsValid t n e) (truthy (condition_passed p ins))
        (if_both (IsValid t n e) (is_misc_imm_offset ins)
          (write_back-IsValid misc_imm_offset addr (misc_imm_offset-lt p ins) ha)
          (if_both (IsValid t n e) (is_misc_reg_offset ins)
            (write_back-IsValid misc_reg_offset addr (misc_reg_offset-lt p ins) ha) h))
        h
