-- ===== src/Invariant/Data.antt =====
-- The invariant across arm_data_processing.c.
use projet_s5_prog.Base.{ℕ, ◌*◌, ◌^◌, ◌<◌, arith, bit_or, bit_and}
use projet_s5_prog.Base.{zero, suc, ◌==◌, ◌&&◌, ◌||◌, if◌then◌else◌, if_both, truthy, not32}
use projet_s5_prog.Base.Bits.{bit_or-lt, bit_and-lt, bit_xor-lt}
use projet_s5_prog.Base.Mask.{bit_and_mask}
use projet_s5_prog.Util.{Undefined}
use projet_s5_prog.Core.{ArmCore, arm_read_cpsr, arm_read_register, arm_current_mode_has_spsr}
use projet_s5_prog.Core.{condition_passed, arm_write_register}
use projet_s5_prog.DataProcessing.Fields.{modify_nzcv, get_opcode, get_s_bit, get_rd, get_rn}
use projet_s5_prog.DataProcessing.Fields.{get_shifter_carry_out, get_shifter_operand}
use projet_s5_prog.DataProcessing.Shifter.{get_operande_and_carry_out}
use projet_s5_prog.DataProcessing.{restore_cpsr, calcs_result, bitwise_result}
use projet_s5_prog.DataProcessing.{calcs_carry, get_carry, get_borrow, get_overflow_flag}
use projet_s5_prog.DataProcessing.{calcs_procedure, bitwise_procedure, cmptst_procedure}
use projet_s5_prog.DataProcessing.{arm_data_processing, is_adds, is_subs, is_bitwises, is_comp}
use projet_s5_prog.DataProcessing.{is_test}
use projet_s5_prog.Invariant.{IsValid}
use projet_s5_prog.Invariant.Access.{write_register-IsValid, write_cpsr-IsValid}
use projet_s5_prog.Invariant.Access.{read_register-lt, read_spsr-lt}
use projet_s5_prog.Invariant.Shifted.{get_shifter_operand-lt, shifter_carry-lt}

pub get_carry-lt : (p : ArmCore) (a b c : ℕ) → get_carry p a b c < 2
unfolding get_carry
get_carry-lt p a b c = ground arith

get_borrow-lt : (p : ArmCore) (a b c : ℕ) → get_borrow p a b c < 2
unfolding get_borrow
get_borrow-lt p a b c = ground arith

product-lt : (a b c : ℕ) → a < 2 → b < 2 → c < 2 → a * b * c < 2
product-lt zero b c ha hb hc = omega arith
product-lt (suc zero) zero c ha hb hc = omega arith
product-lt (suc zero) (suc zero) c ha hb hc = omega arith
product-lt (suc zero) (suc (suc b)) c ha hb hc = absurd (omega arith)
product-lt (suc (suc a)) b c ha hb hc = absurd (omega arith)

pub get_overflow_flag-lt : (a b c : ℕ) → get_overflow_flag a b c < 2
unfolding get_overflow_flag
get_overflow_flag-lt a b c =
    bit_or-lt 1 _ _ (product-lt _ _ _ (omega arith) (omega arith) (omega arith))
      (product-lt _ _ _ (omega arith) (omega arith) (omega arith))

module _ (u : Undefined) where
  calcs_result-lt : (p : ArmCore) (ins a b : ℕ) → calcs_result u p ins a b < 2 ^ 32
  unfolding calcs_result
  calcs_result-lt p ins a b = ground arith

  pub calcs_carry-lt : (p : ArmCore) (ins a b : ℕ) → calcs_carry u p ins a b < 2
  unfolding calcs_carry
  calcs_carry-lt p ins a b = ground (arith, get_carry-lt p a b 1, get_carry-lt p a b 2)

  bitwise_result-lt : (ins a b : ℕ) → a < 2 ^ 32 → b < 2 ^ 32 → bitwise_result u ins a b < 2 ^ 32
  unfolding bitwise_result
  bitwise_result-lt ins a b ha hb = ground (
    arith,
    bit_and-lt 32 a b ha hb,
    bit_or-lt 32 a b ha hb,
    bit_xor-lt 32 a b ha hb,
    bit_and-lt 32 a (not32 b) ha,
  )

nzcv-lt :
    (n z c v s : ℕ)
    → n < 2
    → z < 2
    → c < 2
    → v < 2
    → bit_or
        (bit_or (bit_or (bit_or (n * 2 ^ 31) (z * 2 ^ 30)) (c * 2 ^ 29)) (v * 2 ^ 28))
        (bit_and s 0xFFF_FFFF)
      < 2 ^ 32
nzcv-lt n z c v s hn hz hc hv =
    bit_or-lt 32 _ _
      (bit_or-lt 32 _ _
        (bit_or-lt 32 _ _ (bit_or-lt 32 _ _ (omega arith) (omega arith)) (omega arith))
        (omega arith))
      (omega (arith, bit_and_mask 28 s))

module _ {t n e : ℕ} {p : ArmCore} (h : IsValid t n e p) where
  restore_cpsr-IsValid : IsValid t n e (restore_cpsr p)
  restore_cpsr-IsValid =
      if_both (IsValid t n e) (truthy (arm_current_mode_has_spsr p))
        (write_cpsr-IsValid h _ (read_spsr-lt h)) h

  modify_nzcv-IsValid :
      (n' z c v : ℕ) → n' < 2 → z < 2 → c < 2 → v < 2 → IsValid t n e (modify_nzcv p n' z c v)
  unfolding modify_nzcv
  modify_nzcv-IsValid n' z c v hn hz hc hv =
      write_cpsr-IsValid h _ (nzcv-lt n' z c v (arm_read_cpsr p) hn hz hc hv)

-- a handler's result with a valid core
abbrev pub Keeps : ℕ → ℕ → ℕ → ℕ × ArmCore → Type 0
Keeps t n e r = IsValid t n e r.1

module _ (u : Undefined) {t n e : ℕ} {p : ArmCore} (h : IsValid t n e p) (ins : ℕ) where
  abbrev operand : ℕ
  operand = get_shifter_operand (get_operande_and_carry_out u p ins)

  abbrev rn_data : ℕ
  rn_data = arm_read_register p (get_rn ins)

  calcs_procedure-IsValid : Keeps t n e (calcs_procedure u p ins)
  unfolding calcs_procedure
  calcs_procedure-IsValid =
      if_both (Keeps t n e) (truthy (condition_passed p ins))
        (if_both (Keeps t n e) (get_s_bit ins == 1 && get_rd ins == 15)
          (restore_cpsr-IsValid written)
          (if_both (Keeps t n e) (get_s_bit ins == 1)
            (modify_nzcv-IsValid written _ _ _ _ (omega arith) (ground arith)
              (calcs_carry-lt u _ ins rn_data operand) (get_overflow_flag-lt rn_data operand _))
            written))
        h
    where
      written :
          IsValid t n e (arm_write_register p (get_rd ins) (calcs_result u p ins rn_data operand))
      written = write_register-IsValid h _ _ (calcs_result-lt u p ins rn_data operand)

  bitwise_procedure-IsValid : Keeps t n e (bitwise_procedure u p ins)
  unfolding bitwise_procedure
  bitwise_procedure-IsValid =
      if_both (Keeps t n e) (truthy (condition_passed p ins))
        (if_both (Keeps t n e) (get_s_bit ins == 1 && get_rd ins == 15)
          (restore_cpsr-IsValid written)
          (if_both (Keeps t n e) (get_s_bit ins == 1)
            (modify_nzcv-IsValid written _ _ _ _ (omega arith) (ground arith)
              (shifter_carry-lt u p ins) (omega arith))
            written))
        h
    where
      written :
          IsValid t n e (arm_write_register p (get_rd ins) (bitwise_result u ins rn_data operand))
      written = write_register-IsValid h _ _ (
          bitwise_result-lt u ins rn_data operand (read_register-lt h _) (get_shifter_operand-lt _))

  cmptst_procedure-IsValid : Keeps t n e (cmptst_procedure u p ins)
  unfolding cmptst_procedure
  cmptst_procedure-IsValid =
      if_both (Keeps t n e) (truthy (condition_passed p ins))
        (modify_nzcv-IsValid h _ _ _ _ (omega arith) (ground arith) carry-lt (omega arith)) h
    where
      carry-lt :
          (if is_test ins
            then get_shifter_carry_out (get_operande_and_carry_out u p ins)
            else if get_opcode ins == 10
            then get_carry p rn_data operand 2
            else get_borrow p rn_data operand 1)
          < 2
      carry-lt =
          if_both (λ c. c < 2) (is_test ins) (shifter_carry-lt u p ins)
            (if_both (λ c. c < 2) (get_opcode ins == 10) (get_carry-lt p _ _ 2)
              (get_borrow-lt p _ _ 1))

  pub data_processing-IsValid : Keeps t n e (arm_data_processing u p ins)
  unfolding arm_data_processing
  data_processing-IsValid =
      if_both (Keeps t n e) (is_adds ins || is_subs ins) calcs_procedure-IsValid (
        if_both (Keeps t n e) (is_bitwises ins) bitwise_procedure-IsValid
          (if_both (Keeps t n e) (is_comp ins || is_test ins) cmptst_procedure-IsValid h))
