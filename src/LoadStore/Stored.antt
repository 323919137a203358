-- ===== src/LoadStore/Stored.antt =====
-- What STM (1) does to the address, to the registers and to the memory.
use projet_s5_prog.Base.{ℕ, zero, suc, ◌+◌, ◌*◌, ◌%◌, ◌^◌, ◌<◌, ◌≡◌, ◌≢◌, arith}
use projet_s5_prog.Base.{add32, sub32, refl, ap, ◌∙◌, subst, Bool, true, false, not, truthy}
use projet_s5_prog.Base.{◌==◌, if◌then◌else◌}
use projet_s5_prog.Registers.{Registers}
use projet_s5_prog.Core.{ArmCore, arm_read_register, arm_write_word, condition_passed}
use projet_s5_prog.LoadStore.Multiple.{
  stm_loop, stm1, finish, get_start_address, get_end_address, update_rn,
}
use projet_s5_prog.LoadStore.Address.{get_rn}
use projet_s5_prog.Invariant.{IsValid}
use projet_s5_prog.Invariant.Access.{read_register-lt}
use projet_s5_prog.LoadStore.Count.{ones, end_address_start_address, ones-le}

abbrev SameRegisters : Registers → ℕ × ArmCore → Type 0
SameRegisters r res = res.1.reg ≡ r

stm_loop-reg :
    (read : ArmCore → ℕ → ℕ) (left i a : ℕ) (p : ArmCore) → (stm_loop read left i a p).1.reg ≡ p.reg
unfolding stm_loop arm_write_word
stm_loop-reg read zero i a p = refl
stm_loop-reg read (suc left) i a p = stm_loop-reg read left _ _ _

stm_loop-address :
    (read : ArmCore → ℕ → ℕ) (left i a : ℕ) (p : ArmCore)
    → (stm_loop read left i a p).0 % 2 ^ 32 ≡ (a + 4 * left) % 2 ^ 32
unfolding stm_loop
stm_loop-address read zero i a p = omega arith
stm_loop-address read (suc left) i a p =
    omega (arith, stm_loop-address read left (i + 1) (add32 a 4) (arm_write_word p a (read p i)).1)

end_address_reg :
    (p q : ArmCore) (ins : ℕ) → q.reg ≡ p.reg → get_end_address q ins ≡ get_end_address p ins
unfolding get_end_address arm_read_register
end_address_reg p q ins same = rw same

module _ {t n e : ℕ} {p : ArmCore} (h : IsValid t n e p) (ins : ℕ) where
  end_address-lt : get_end_address p ins < 2 ^ 32
  unfolding get_end_address
  end_address-lt = ground (arith, read_register-lt h (get_rn ins))

  start_address-lt : get_start_address p ins < 2 ^ 32
  unfolding get_start_address
  start_address-lt = ground (arith, read_register-lt h (get_rn ins))

-- the registers R0 to R(n-1) in n words from the address `a` on, each as it was in `p`
abbrev pub words_stored : ArmCore → ℕ → ℕ → ArmCore
words_stored p a zero = p
words_stored p a (suc n) =
    (arm_write_word (words_stored p a n) ((a + 4 * n) % 2 ^ 32) (arm_read_register p n)).1

words_stored-reg : (p : ArmCore) (a n : ℕ) → (words_stored p a n).reg ≡ p.reg
unfolding arm_write_word
words_stored-reg p a zero = refl
words_stored-reg p a (suc n) = words_stored-reg p a n

same_read : (p q : ArmCore) (i : ℕ) → q.reg ≡ p.reg → arm_read_register q i ≡ arm_read_register p i
unfolding arm_read_register
same_read p q i same = rw same refl

one_more :
    (p : ArmCore) (a i : ℕ)
    → (arm_write_word
        (words_stored p a i)
        ((a + 4 * i) % 2 ^ 32)
        (arm_read_register (words_stored p a i) i)).1
      ≡ words_stored p a (suc i)
one_more p a i = rw (same_read p (words_stored p a i) i (words_stored-reg p a i)) refl

next_address : (a i : ℕ) → add32 ((a + 4 * i) % 2 ^ 32) 4 ≡ (a + 4 * suc i) % 2 ^ 32
next_address a i = omega arith

plus_one : (i : ℕ) → i + 1 ≡ suc i
plus_one i = omega arith

loop_end : (i a : ℕ) (q : ArmCore) → (stm_loop arm_read_register 0 i a q).1 ≡ q
unfolding stm_loop
loop_end i a q = refl

stm_loop_step :
    (left i a : ℕ) (q : ArmCore)
    → stm_loop arm_read_register (suc left) i a q
      ≡ stm_loop arm_read_register left
          (i + 1)
          (add32 a 4)
          (arm_write_word q a (arm_read_register q i)).1
unfolding stm_loop
stm_loop_step left i a q = refl

stm_loop-words_stored :
    (p : ArmCore) (a left i j : ℕ)
    → i + left ≡ j
    → (stm_loop arm_read_register left i ((a + 4 * i) % 2 ^ 32) (words_stored p a i)).1
      ≡ words_stored p a j
stm_loop-words_stored p a zero i j e =
    let same : i ≡ j = omega arith in
    loop_end i ((a + 4 * i) % 2 ^ 32) (words_stored p a i) ∙ ap (words_stored p a) same
stm_loop-words_stored p a (suc left) i j e =
    rw
      (
        stm_loop_step left i ((a + 4 * i) % 2 ^ 32) (words_stored p a i),
        one_more p a i,
        next_address a i,
        plus_one i,
      )
      (stm_loop-words_stored p a left (suc i) j (omega arith))

first_address : (a : ℕ) → a < 2 ^ 32 → (a + 4 * 0) % 2 ^ 32 ≡ a
first_address a h = omega arith

all_stored :
    (p : ArmCore) (a : ℕ)
    → a < 2 ^ 32
    → (stm_loop arm_read_register 16 0 a p).1 ≡ words_stored p a 16
all_stored p a h =
    subst (λ b. (stm_loop arm_read_register 16 0 b p).1 ≡ words_stored p a 16) (first_address a h)
      (stm_loop-words_stored p a 16 0 16 refl)

module _ {t n e : ℕ} {p : ArmCore} (h : IsValid t n e p) (ins : ℕ) where
  -- the test behind the loop
  end_reached :
      (sub32 (stm_loop arm_read_register 16 0 (get_start_address p ins) p).0 4
        == get_end_address (words_stored p (get_start_address p ins) 16) ins)
      ≡ (ones 16 (ins % 2 ^ 16) == 16)
  end_reached = ground (
    arith,
    stm_loop-address arm_read_register 16 0 (get_start_address p ins) p,
    end_address_reg p (words_stored p (get_start_address p ins) 16) ins
        (words_stored-reg p (get_start_address p ins) 16),
    end_address_start_address p ins,
    end_address-lt h ins,
    ones-le 16 (ins % 2 ^ 16),
  )

-- In a valid core, STM (1) with a condition that holds stores all 16 registers in 16 words from the
-- start address on, whatever its list says, and keeps the registers until then. Where the list
-- names all 16 the write-back follows and the code is 0; for every shorter list the code is 1 and
-- the base register is not written back.
pub stm1_stores_all :
    (t n e : ℕ) (p : ArmCore) (ins : ℕ)
    → IsValid t n e p
    → condition_passed p ins ≢ 0
    → (stm1 p ins ≡ (
        if ones 16 (ins % 2 ^ 16) == 16
        then (0, update_rn (words_stored p (get_start_address p ins) 16) ins)
        else (1, words_stored p (get_start_address p ins) 16)))
      × ((words_stored p (get_start_address p ins) 16).reg ≡ p.reg)
unfolding stm1 finish
stm1_stores_all t n e p ins h passed = (
  rw
      (
        truthy_passed (condition_passed p ins) passed,
        all_stored p (get_start_address p ins) (start_address-lt h ins),
        end_reached h ins,
      )
      (chosen (ones 16 (ins % 2 ^ 16) == 16) _ _),
  words_stored-reg p (get_start_address p ins) 16,
)
  where
    truthy_passed : (c : ℕ) → c ≢ 0 → truthy c ≡ true
    truthy_passed c h = ground arith

    chosen : {A : Type 0} (b : Bool) (x y : A) → (if not b then x else y) ≡ (if b then y else x)
    chosen true x y = refl
    chosen false x y = refl
