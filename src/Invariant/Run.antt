-- ===== src/Invariant/Run.antt =====
-- The invariant across arm_branch_other.c, arm_exception.c, the steps of arm_instruction.c, and runs
-- of steps.
use projet_s5_prog.Base.{
  ℕ, suc, ◌+◌, add32, ◌%◌, ◌^◌, ◌<◌, ◌≡◌, refl, subst, arith, bit_or, bit_and,
}
use projet_s5_prog.Base.{◌==◌, ◌&&◌, if◌then◌else◌, if_both, truthy, sub32, u8}
use projet_s5_prog.Base.Bits.{bit_or-lt, bit_and-lt}
use projet_s5_prog.Util.{get_bit, get_bits, Undefined}
use projet_s5_prog.Memory.{memory_create}
use projet_s5_prog.Registers.{registers_create, write_cpsr, write_usr_register}
use projet_s5_prog.Core.{ArmCore, arm_fetch, condition_passed, arm_read_register}
use projet_s5_prog.Core.{arm_write_register, arm_write_cpsr}
use projet_s5_prog.Core.{arm_write_usr_register}
use projet_s5_prog.Exception.{arm_exception, arm_create, reset}
use projet_s5_prog.Branch.{branch_first, branch_exchange, blx1_procedure, blx2_procedure}
use projet_s5_prog.Branch.{
  arm_branch, arm_branch_misc, mrs_procedure, arm_miscellaneous, get_bit_24,
}
use projet_s5_prog.Branch.{Outcome, ran, exited, arm_coprocessor_others_swi}
use projet_s5_prog.Instruction.{execute_class_zero, execute_class, arm_execute_instruction}
use projet_s5_prog.Instruction.{drop_code, raise, arm_step}
use projet_s5_prog.Invariant.{IsValid}
use projet_s5_prog.Invariant.Access.{write_register-IsValid, write_cpsr-IsValid, read_cpsr-lt}
use projet_s5_prog.Invariant.Access.{read_register-lt, read_spsr-lt, fetch-IsValid}
use projet_s5_prog.Invariant.Access.{write_usr_register-IsValid}
use projet_s5_prog.Invariant.Data.{Keeps, data_processing-IsValid}
use projet_s5_prog.Invariant.Single.{load_store-IsValid}
use projet_s5_prog.Invariant.Extra.{load_store_extra-IsValid}
use projet_s5_prog.Invariant.Block.{load_store_multiple-IsValid}

module _ {t n e : ℕ} {p : ArmCore} (h : IsValid t n e p) (ins : ℕ) where
  branch_first-IsValid : (pc : ℕ) → Keeps t n e (branch_first p ins pc)
  unfolding branch_first
  branch_first-IsValid pc =
      if_both (Keeps t n e) (truthy (condition_passed p ins))
        (write_register-IsValid
          (if_both (IsValid t n e) (truthy (get_bit_24 ins))
            (write_register-IsValid h 14 _ (omega arith)) h)
          15 _ (omega arith))
        h

  masked-lt : (x m y : ℕ) → x < 2 ^ 32 → m < 2 ^ 32 → y < 2 ^ 32 → bit_or (bit_and x m) y < 2 ^ 32
  masked-lt x m y hx hm hy = bit_or-lt 32 _ _ (bit_and-lt 32 x m hx hm) hy

  branch_exchange-IsValid : (pc : ℕ) → IsValid t n e (branch_exchange p ins pc)
  unfolding branch_exchange
  branch_exchange-IsValid pc =
      if_both (IsValid t n e) (condition_passed p ins == 15)
        (write_register-IsValid
          (write_cpsr-IsValid linked _
            (masked-lt _ _ _ (read_cpsr-lt linked) (omega arith) (omega arith)))
          15 _ (omega arith))
        h
    where
      linked : IsValid t n e (arm_write_register p 14 (sub32 pc 4))
      linked = write_register-IsValid h 14 _ (omega arith)

  blx2-IsValid : Keeps t n e (blx2_procedure p ins)
  unfolding blx2_procedure
  blx2-IsValid =
      if_both (Keeps t n e) (truthy (condition_passed p ins))
        (write_register-IsValid
          (write_cpsr-IsValid linked _
            (masked-lt _ _ _ (read_cpsr-lt linked) (omega arith) (omega arith)))
          15 _ (bit_and-lt 32 _ 0xFFFF_FFFE (read_register-lt h _) (omega arith)))
        h
    where
      linked :
          IsValid t n e
            (if get_bit ins 5 == 1 then arm_write_register p 14 (arm_read_register p 15) else p)
      linked =
          if_both (IsValid t n e) (get_bit ins 5 == 1)
            (write_register-IsValid h 14 _ (read_register-lt h 15)) h

  branch_misc-IsValid : Keeps t n e (arm_branch_misc p ins)
  unfolding arm_branch_misc
  branch_misc-IsValid = if_both (Keeps t n e) (get_bits ins 27 20 == 0x12) blx2-IsValid h

  mrs-IsValid : Keeps t n e (mrs_procedure p ins)
  unfolding mrs_procedure
  mrs-IsValid =
      if_both (Keeps t n e) (truthy (condition_passed p ins))
        (write_register-IsValid h _ _
          (if_both (λ x. x < 2 ^ 32) (get_bit ins 22 == 1) (read_spsr-lt h) (read_cpsr-lt h)))
        h

  miscellaneous-IsValid : Keeps t n e (arm_miscellaneous p ins)
  unfolding arm_miscellaneous
  miscellaneous-IsValid =
      if_both (Keeps t n e) ((get_bits ins 27 23 == 2) && (get_bits ins 21 20 == 0)) mrs-IsValid h

module _ {t n e : ℕ} {p : ArmCore} (h : IsValid t n e p) (ins : ℕ) where
  branch-IsValid : Keeps t n e (arm_branch p ins)
  unfolding arm_branch blx1_procedure
  branch-IsValid =
      if_both (Keeps t n e) (get_bits ins 27 25 == 5)
        (branch_exchange-IsValid (branch_first-IsValid h ins (arm_read_register p 15)) ins _) h

-- an outcome whose core, if any, is valid
abbrev pub Sound : ℕ → ℕ → ℕ → Outcome → Type 0
Sound t n e (ran _ p) = IsValid t n e p
Sound t n e (exited status) = status ≡ 0

module _ (u : Undefined) {t n e : ℕ} {p : ArmCore} (h : IsValid t n e p) (ins : ℕ) where
  class_zero-IsValid : Keeps t n e (execute_class_zero u p ins)
  unfolding execute_class_zero
  class_zero-IsValid =
      if_both (Keeps t n e) (truthy (get_bit ins 7) && truthy (get_bit ins 4))
        (load_store_extra-IsValid h ins u)
        (if_both (Keeps t n e) ((get_bits ins 24 23 == 2) && (get_bit ins 4 == 0))
          (if_both (Keeps t n e) (get_bit ins 20 == 0) (miscellaneous-IsValid h ins)
            (data_processing-IsValid u h ins))
          (if_both (Keeps t n e)
            ((get_bits ins 24 23 == 2) && (get_bit ins 4 == 1) && (get_bit ins 7 == 0))
            (branch_misc-IsValid h ins) (data_processing-IsValid u h ins)))

  swi-Sound : Sound t n e (drop_code (arm_coprocessor_others_swi p ins))
  unfolding arm_coprocessor_others_swi drop_code
  swi-Sound =
      if_both (λ o. Sound t n e (drop_code o)) (truthy (get_bit ins 24))
        (if_both (λ o. Sound t n e (drop_code o)) (ins % 2 ^ 24 == 0x12_3456) refl h) h

  class-Sound : Sound t n e (execute_class u p ins)
  unfolding execute_class
  class-Sound = if_both (Sound t n e) (get_bits ins 27 25 == 0) class_zero-IsValid (
      if_both (Sound t n e) (get_bits ins 27 25 == 1) (data_processing-IsValid u h ins) (
        if_both (Sound t n e) (get_bits ins 27 25 == 4) (load_store_multiple-IsValid ins p h) (
          if_both (Sound t n e) (get_bits ins 27 25 == 5) (branch-IsValid h ins) (
            if_both (Sound t n e) (get_bits ins 27 25 == 6) h (
              if_both (Sound t n e) (get_bits ins 27 25 == 7) swi-Sound
                (load_store-IsValid u h ins))))))

pub exception-IsValid :
    {t n e : ℕ} {p : ArmCore} (exception : ℕ)
    → IsValid t n e p
    → IsValid t n e (arm_exception p exception)
unfolding arm_exception
exception-IsValid {t = t} {n = n} {e = e} exception h =
    if_both (IsValid t n e) (exception == reset)
      (write_usr_register-IsValid (write_cpsr-IsValid h 0x1d3 (omega arith)) 15 0 (omega arith)) h

raise-Sound : (t n e : ℕ) (o : Outcome) → Sound t n e o → Sound t n e (raise o)
unfolding raise
raise-Sound t n e (ran result p) h =
    if_both (IsValid t n e) (truthy result) (exception-IsValid (u8 result) h) h
raise-Sound t n e (exited status) h = h

-- From a valid core, whatever the instruction, a step either exits with status 0 or leaves a core in
-- which the registers are 32-bit words, the memory holds bytes and keeps its size and byte order,
-- and the cycle count is one more, modulo 2 ^ 32.
pub arm_step-Sound :
    (u : Undefined) {t n e : ℕ} (p : ArmCore)
    → IsValid t n e p
    → Sound (add32 t 1) n e (arm_step u p)
unfolding arm_step arm_execute_instruction
arm_step-Sound u {t = t} {n = n} {e = e} p h =
    raise-Sound (add32 t 1) n e _ (class-Sound u (fetch-IsValid h) (arm_fetch p).value)

-- `Steps u k p q`: `k` calls of `arm_step`, none of which exits, lead from `p` to `q`.
pub data Steps (u : Undefined) : ℕ → ArmCore → ArmCore → Type 0 where
  stop : {p : ArmCore} → Steps u 0 p p
  step :
      {k : ℕ} {p q r : ArmCore} (code : ℕ)
      → arm_step u p ≡ ran code q
      → Steps u k q r
      → Steps u (suc k) p r

stepped :
    {t n e code : ℕ} {q : ArmCore} (o : Outcome) → Sound t n e o → o ≡ ran code q → IsValid t n e q
stepped {t = t} {n = n} {e = e} o h same = subst (Sound t n e) same h

same_count : (t : ℕ) → t % 2 ^ 32 ≡ (t + 0) % 2 ^ 32
same_count t = omega arith

next_count : (t : ℕ) → add32 (t % 2 ^ 32) 1 ≡ (t + 1) % 2 ^ 32
next_count t = omega arith

later_count : (t k : ℕ) → (t + 1 + k) % 2 ^ 32 ≡ (t + suc k) % 2 ^ 32
later_count t k = omega arith

from_zero : (k : ℕ) → (0 + k) % 2 ^ 32 ≡ k % 2 ^ 32
from_zero k = omega arith

recount : {c d n e : ℕ} {p : ArmCore} → c ≡ d → IsValid c n e p → IsValid d n e p
recount {n = n} {e = e} {p = p} same h = subst (λ x. IsValid x n e p) same h

Steps-IsValid :
    (u : Undefined) (t : ℕ) {n e k : ℕ} {p q : ArmCore}
    → IsValid (t % 2 ^ 32) n e p
    → Steps u k p q
    → IsValid ((t + k) % 2 ^ 32) n e q
Steps-IsValid u t h stop = recount (same_count t) h
Steps-IsValid u t {p = p} h (step {k = k} code same rest) =
    recount (later_count t k) (
      Steps-IsValid u (t + 1) (recount (next_count t) (stepped _ (arm_step-Sound u p h) same)) rest)

-- the start of the simulator, over a memory of bytes
pub created-IsValid :
    (cycles : ℕ) (found : ℕ → ℕ) (size order : ℕ)
    → ((a : ℕ) → found a < 256)
    → IsValid 0 size (order % 2 ^ 8) (arm_create cycles (memory_create found size order))
unfolding arm_create arm_exception arm_write_cpsr arm_write_usr_register write_usr_register
    write_cpsr registers_create memory_create
created-IsValid cycles found size order bytes = record {
  counted = refl;
  words = λ k. ground arith;
  bytes = bytes;
  same_size = refl;
  same_order = refl;
}

-- Every core that `k` calls of `arm_step`, none of which exits, reach from `arm_create`, over a
-- memory of bytes that `memory_create` made, keeps the invariant: its register words are 32-bit
-- words, its memory cells are bytes, its memory has the size and the byte order it was created with,
-- and its cycle count is `k` modulo 2 ^ 32.
pub reached-IsValid :
    (u : Undefined) (cycles : ℕ) (found : ℕ → ℕ) (size order k : ℕ) (q : ArmCore)
    → ((a : ℕ) → found a < 256)
    → Steps u k (arm_create cycles (memory_create found size order)) q
    → IsValid (k % 2 ^ 32) size (order % 2 ^ 8) q
reached-IsValid u cycles found size order k q bytes steps =
    recount (from_zero k) (Steps-IsValid u 0 (created-IsValid cycles found size order bytes) steps)
