-- ===== src/DataProcessing/Logical.antt =====
-- The results of the bitwise instructions: AND, BIC, EOR, ORR, MVN and MOV. `Whole` is about the
-- instructions.
pub mod Whole
use projet_s5_prog.Base.{
  ℕ, zero, suc, refl, ◌+◌, ◌-◌, ◌*◌, ◌/◌, ◌%◌, ◌^◌, ◌<◌, ◌≡◌, ◌≢◌, ◌∙◌, sym, ap, arith, Bool, true,
  false, not, ◌&&◌, ◌||◌,
}
use projet_s5_prog.Base.{
  ◌==◌, ==_ne, if◌then◌else◌, int_of, not32, bit_and, bit_or, bit_xor, truthy, u32, ◌⊎◌, inl, inr,
}
use projet_s5_prog.Base.OneBit.{bit_and-bit, bit_or-bit, bit_xor-bit, complement-bit}
use Prim.Native.Nat.{min, max, differ}
use projet_s5_prog.Util.{get_bit, get_bits, Undefined}
use projet_s5_prog.DataProcessing.Fields.{get_opcode, get_rn, get_rd, get_s_bit, modify_nzcv}
use projet_s5_prog.DataProcessing.{
  is_bitwises, bitwise_result, bitwise_procedure, arm_data_processing,
}

-- a bit of the result of a bitwise instruction, from those of its two operands
abbrev pub bit_of_opcode : ℕ → ℕ → ℕ → ℕ
bit_of_opcode opcode a b =
    if opcode == 0
    then int_of (a == 1 && b == 1)
    else if opcode == 14
    then int_of (a == 1 && b == 0)
    else if opcode == 1
    then int_of (not (a == b))
    else if opcode == 12
    then int_of (a == 1 || b == 1)
    else if opcode == 15
    then int_of (b == 0)
    else int_of (b == 1)

differ_bits : (a b : ℕ) → a < 2 → b < 2 → differ a b ≡ int_of (not (a == b))
differ_bits zero zero h k = refl
differ_bits zero (suc b) h k = ground arith
differ_bits (suc a) zero h k = ground arith
differ_bits (suc zero) (suc zero) h k = refl
differ_bits (suc zero) (suc (suc b)) h k = absurd (omega arith)
differ_bits (suc (suc a)) (suc b) h k = absurd (omega arith)

min_bits : (a b : ℕ) → a < 2 → b < 2 → min a b ≡ int_of (a == 1 && b == 1)
min_bits zero b h k = omega arith
min_bits (suc zero) zero h k = refl
min_bits (suc zero) (suc zero) h k = refl
min_bits (suc zero) (suc (suc b)) h k = absurd (omega arith)
min_bits (suc (suc a)) b h k = absurd (omega arith)

max_bits : (a b : ℕ) → a < 2 → b < 2 → max a b ≡ int_of (a == 1 || b == 1)
max_bits zero zero h k = refl
max_bits zero (suc zero) h k = refl
max_bits zero (suc (suc b)) h k = absurd (omega arith)
max_bits (suc zero) zero h k = refl
max_bits (suc zero) (suc zero) h k = refl
max_bits (suc zero) (suc (suc b)) h k = absurd (omega arith)
max_bits (suc (suc a)) b h k = absurd (omega arith)

clear_bits : (a b : ℕ) → a < 2 → b < 2 → min a (1 - b) ≡ int_of (a == 1 && b == 0)
clear_bits a b h k = min_bits a (1 - b) h (omega arith) ∙ ground arith

-- the six opcodes
bitwises-cases :
    (ins : ℕ)
    → is_bitwises ins ≡ true
    → (get_opcode ins ≡ 0)
      ⊎ (get_opcode ins ≡ 14)
      ⊎ (get_opcode ins ≡ 1)
      ⊎ (get_opcode ins ≡ 12)
      ⊎ (get_opcode ins ≡ 15)
      ⊎ (get_opcode ins ≡ 13)
bitwises-cases ins one = ground arith

module _ (u : Undefined) (ins a b i : ℕ) (h : b < 2 ^ 32) (k : i < 32) where
  pub bitwise_result_bits :
      is_bitwises ins ≡ true
      → get_bit (bitwise_result u ins a b) i
        ≡ bit_of_opcode (get_opcode ins) (get_bit a i) (get_bit b i)
  unfolding bitwise_result
  bitwise_result_bits one = elim (bitwises-cases ins one) [
    | inl e ↦
        rw e (bit_and-bit i a b ∙ min_bits (get_bit a i) (get_bit b i) (omega arith) (omega arith))
    | inr (inl e) ↦ rw e (clear)
    | inr (inr (inl e)) ↦
        rw e
          (bit_xor-bit i a b ∙ differ_bits (get_bit a i) (get_bit b i) (omega arith) (omega arith))
    | inr (inr (inr (inl e))) ↦
        rw e (bit_or-bit i a b ∙ max_bits (get_bit a i) (get_bit b i) (omega arith) (omega arith))
    | inr (inr (inr (inr (inl e)))) ↦ rw e (complement-bit i 32 b h k ∙ ground arith)
    | inr (inr (inr (inr (inr e)))) ↦ rw e (ground arith)
  ]
    where
      clear : get_bit (bit_and a (not32 b)) i ≡ int_of (get_bit a i == 1 && get_bit b i == 0)
      clear =
          bit_and-bit i a (not32 b)
          ∙ ap (min (get_bit a i)) (complement-bit i 32 b h k)
          ∙ clear_bits (get_bit a i) (get_bit b i) (omega arith) (omega arith)
