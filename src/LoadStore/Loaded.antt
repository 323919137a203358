-- ===== src/LoadStore/Loaded.antt =====
-- The address that the loops of LDM reach, and the write-back of the block transfers.
use projet_s5_prog.Base.{ℕ, zero, suc, ◌+◌, ◌*◌, ◌/◌, ◌%◌, ◌^◌, ◌<◌, ◌≡◌, ◌≢◌, arith, ap, ◌∙◌, sym}
use projet_s5_prog.Base.{◌==◌, if◌then◌else◌, add32}
use native.Mathlib.Nat.{pow-suc, div-div-eq-div-mul}
use projet_s5_prog.Util.{get_bit, get_bits}
use projet_s5_prog.Core.Written.{written_register}
use projet_s5_prog.Core.{ArmCore, arm_read_word, arm_read_register}
use projet_s5_prog.LoadStore.Multiple.{ldm_loop, update_rn}
use projet_s5_prog.LoadStore.Count.{ones, nb_set_bits-ones}

plus_one : (i : ℕ) → 2 ^ (i + 1) ≡ 2 ^ suc i
plus_one i = ap (λ (k : ℕ). 2 ^ k) (omega arith)

shift_next : (x i : ℕ) → x / 2 ^ (i + 1) ≡ x / 2 ^ i / 2
shift_next x i =
    ap (λ (d : ℕ). x / d) (plus_one i ∙ pow-suc 2 i) ∙ sym (div-div-eq-div-mul x (2 ^ i) 2)

-- The loop of LDM over `left` registers from register `i` on, with any way to write a register,
-- moves the address on by 4 bytes for each register of those in the list.
ldm_loop-address :
    (write : ArmCore → ℕ → ℕ → ArmCore) (ins left i a : ℕ) (p : ArmCore)
    → a < 2 ^ 32
    → (ldm_loop write ins left i a p).0 ≡ (a + 4 * ones left (ins / 2 ^ i)) % 2 ^ 32
unfolding ldm_loop ones
ldm_loop-address write ins zero i a p h = omega arith
ldm_loop-address write ins (suc left) i a p h =
    ldm_loop-address write ins left (i + 1) next next_core next-lt ∙ rw (shift_next ins i) counted
  where
    next : ℕ
    next = if get_bit ins i == 1 then add32 a 4 else a

    next_core : ArmCore
    next_core = if get_bit ins i == 1 then write p i (arm_read_word p a).1 else p

    next-lt : (if get_bit ins i == 1 then add32 a 4 else a) < 2 ^ 32
    next-lt = ground arith

    counted :
        ((if get_bit ins i == 1 then add32 a 4 else a) + 4 * ones left (ins / 2 ^ i / 2)) % 2 ^ 32
        ≡ (a + 4 * (ins / 2 ^ i % 2 + ones left (ins / 2 ^ i / 2))) % 2 ^ 32
    counted = ground arith

-- With the W bit set and a base register other than R15, `updateRn` adds 4 for each register in the
-- list to the base register, whatever the addressing mode: also in the two that decrement.
pub update_rn_adds :
    (p : ArmCore) (ins : ℕ)
    → get_bit ins 21 ≡ 1
    → get_bits ins 19 16 ≢ 15
    → arm_read_register (update_rn p ins) (get_bits ins 19 16)
      ≡ (arm_read_register p (get_bits ins 19 16) + 4 * ones 16 (ins % 2 ^ 16)) % 2 ^ 32
unfolding update_rn
update_rn_adds p ins w other = rw w (
    written_register p (get_bits ins 19 16) _ (omega arith) other
    ∙ rw (nb_set_bits-ones ins) (ground arith))
