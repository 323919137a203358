-- ===== src/LoadStore/RoundTrip.antt =====
-- STR and LDR at one address.
use projet_s5_prog.Base.{ℕ, ◌+◌, ◌^◌, ◌≤◌, ◌≡◌, ◌≢◌, arith, refl}
use projet_s5_prog.Base.{==_ne, ap}
use projet_s5_prog.Util.{get_bit, Undefined}
use projet_s5_prog.Memory.{memory_write_word, memory_read_word}
use projet_s5_prog.Memory.Words.{read_word-write_word}
use projet_s5_prog.Core.Written.{written_register}
use projet_s5_prog.Core.{ArmCore, condition_passed, arm_read_register, arm_read_cpsr}
use projet_s5_prog.Core.{arm_write_word, arm_read_word, arm_write_register}
use projet_s5_prog.LoadStore.Address.{get_rd, get_addr_by_offset, addr_imm_offset}
use projet_s5_prog.LoadStore.Address.{addr_reg_offset, addr_sca_offset, scaled_index}
use projet_s5_prog.LoadStore.Address.{refresh_rn_by_offset}
use projet_s5_prog.LoadStore.Single.{load_word, store_word}
use projet_s5_prog.Invariant.{IsValid}
use projet_s5_prog.Invariant.Access.{read_register-lt}

module _ (u : Undefined) (p : ArmCore) (ins : ℕ) where
  -- offset addressing writes no base register back
  pub refresh_rn_after :
      (q : ArmCore) (a : ℕ)
      → get_bit ins 24 ≡ 1
      → get_bit ins 21 ≡ 0
      → refresh_rn_by_offset u q ins a ≡ q
  unfolding refresh_rn_by_offset
  refresh_rn_after q a p_bit w_bit = rw (p_bit, w_bit) (ground arith)

  -- the address and the condition are read off the registers
  address_same :
      (a v : ℕ) → get_addr_by_offset u (arm_write_word p a v).1 ins ≡ get_addr_by_offset u p ins
  unfolding get_addr_by_offset addr_imm_offset addr_reg_offset addr_sca_offset scaled_index
      arm_read_register arm_read_cpsr arm_write_word
  address_same a v = refl

  condition_same :
      (a v : ℕ) → condition_passed (arm_write_word p a v).1 ins ≡ condition_passed p ins
  unfolding condition_passed arm_read_cpsr arm_write_word
  condition_same a v = refl

  store_word_effect :
      condition_passed p ins ≢ 0
      → get_bit ins 24 ≡ 1
      → get_bit ins 21 ≡ 0
      → (store_word u p ins).1
        ≡ (arm_write_word p (get_addr_by_offset u p ins) (arm_read_register p (get_rd ins))).1
  unfolding store_word
  store_word_effect passed p_bit w_bit = rw (==_ne _ 0 passed) (refresh_rn_after _ _ p_bit w_bit)

  load_word_effect :
      condition_passed p ins ≢ 0
      → get_bit ins 24 ≡ 1
      → get_bit ins 21 ≡ 0
      → get_rd ins ≢ 15
      → (load_word u p ins).1
        ≡ arm_write_register p (get_rd ins) (arm_read_word p (get_addr_by_offset u p ins)).1
  unfolding load_word
  load_word_effect passed p_bit w_bit other =
      rw (==_ne _ 0 passed, ==_ne _ 15 other) (refresh_rn_after _ _ p_bit w_bit)

-- STR and then LDR with offset addressing (P set, W clear), under conditions that hold, at the same
-- address inside the memory: the register that LDR loads, other than R15, reads as the register
-- that STR stored did before.
pub store_word-load_word :
    (u : Undefined) (t n e : ℕ) (p : ArmCore) (st ld : ℕ)
    → IsValid t n e p
    → n ≤ 2 ^ 32
    → (condition_passed p st ≢ 0) × (get_bit st 24 ≡ 1) × (get_bit st 21 ≡ 0)
    → (condition_passed p ld ≢ 0) × (get_bit ld 24 ≡ 1) × (get_bit ld 21 ≡ 0)
    → get_rd ld ≢ 15
    → get_addr_by_offset u p ld ≡ get_addr_by_offset u p st
    → get_addr_by_offset u p st + 4 ≤ n
    → arm_read_register (load_word u (store_word u p st).1 ld).1 (get_rd ld)
      ≡ arm_read_register p (get_rd st)
unfolding arm_write_word arm_read_word
store_word-load_word u t n e p st ld h small (sp, s24, s21) (lp, l24, l21) other same inside =
    rw
      (
        load_word_effect u (store_word u p st).1 ld stored_passed l24 l21 other,
        written_register (store_word u p st).1 (get_rd ld)
            (arm_read_word (store_word u p st).1 (get_addr_by_offset u (store_word u p st).1 ld)).1
            (omega arith) other,
        store_word_effect u p st sp s24 s21,
        address_same u p ld (get_addr_by_offset u p st) (arm_read_register p (get_rd st)),
        same,
      )
      (ap (λ (r : ℕ × ℕ). r.1) read_back)
  where
    stored_passed : condition_passed (store_word u p st).1 ld ≢ 0
    stored_passed =
        rw
          (
            store_word_effect u p st sp s24 s21,
            condition_same u p ld (get_addr_by_offset u p st) (arm_read_register p (get_rd st)),
          )
          lp

    read_back :
        memory_read_word
          (memory_write_word p.mem (get_addr_by_offset u p st) (arm_read_register p (get_rd st))).1
          (get_addr_by_offset u p st)
        ≡ (1, arm_read_register p (get_rd st))
    read_back =
        read_word-write_word p.mem (get_addr_by_offset u p st) (arm_read_register p (get_rd st))
          (omega (arith, h.same_size)) (omega (arith, h.same_size)) (read_register-lt h (get_rd st))
