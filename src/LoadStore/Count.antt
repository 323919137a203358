-- ===== src/LoadStore/Count.antt =====
-- `nbSetBits` and the address range of a block transfer.
use projet_s5_prog.Base.{ℕ, zero, suc, ◌+◌, ◌-◌, ◌*◌, ◌/◌, ◌%◌, ◌^◌, ◌≤◌, ◌<◌, ◌≡◌, arith, bit_and}
use projet_s5_prog.Base.{add32, refl, inl, inr, bit-cases}
use native.Mathlib.Nat.{pow-suc}
use projet_s5_prog.Base.Digits.{bit_and_digit}
use projet_s5_prog.Base.Bits.{bit_and-lt}
use projet_s5_prog.Base.Mask.{bit_and-zero}
use projet_s5_prog.Core.{ArmCore}
use projet_s5_prog.LoadStore.Multiple.{count_set, nb_set_bits, get_start_address, get_end_address}

-- how many of the lowest `k` bits of a number are set
unfoldable pub ones : ℕ → ℕ → ℕ
ones zero number = 0
ones (suc k) number = number % 2 + ones k (number / 2)

and_self_upto : (n a : ℕ) → a ≤ n → bit_and a a ≡ a
and_self_upto zero a h = rw (below_zero a h) (bit_and-zero 0)
  where
    below_zero : (a : ℕ) → a ≤ 0 → a ≡ 0
    below_zero a h = omega arith
and_self_upto (suc n) zero h = bit_and-zero 0
and_self_upto (suc n) (suc a) h =
    omega (arith, bit_and_digit (suc a) (suc a), and_self_upto n (suc a / 2) (omega arith))

-- clearing the lowest set bit takes one from the count
ones_clear : (k x : ℕ) → x < 2 ^ k → 1 ≤ x → ones k x ≡ ones k (bit_and x (x - 1)) + 1
unfolding ones
ones_clear zero x h pos = absurd (omega arith)
ones_clear (suc k) x h pos = elim (bit-cases (x % 2) (omega arith)) [
  | inl even ↦
      rw (even_clear even, half_double (bit_and (x / 2) (x / 2 - 1)))
        (omega (arith, ones_clear k (x / 2) (omega (arith, pow-suc 2 k)) (omega arith)))
  | inr odd ↦ rw (odd_clear odd, half_double (x / 2)) (omega arith)
]
  where
    half_double : (y : ℕ) → y * 2 / 2 ≡ y
    half_double y = omega arith

    same_half : x % 2 ≡ 1 → (x - 1) / 2 ≡ x / 2
    same_half odd = omega arith

    less_half : x % 2 ≡ 0 → (x - 1) / 2 ≡ x / 2 - 1
    less_half even = omega arith

    odd_clear : x % 2 ≡ 1 → bit_and x (x - 1) ≡ x / 2 * 2
    odd_clear odd =
        ground (
          arith,
          bit_and_digit x (x - 1),
          and_self_upto (x / 2) (x / 2) (omega arith),
          same_half odd,
        )

    even_clear : x % 2 ≡ 0 → bit_and x (x - 1) ≡ bit_and (x / 2) (x / 2 - 1) * 2
    even_clear even = ground (arith, bit_and_digit x (x - 1), less_half even)

pub ones-le : (k x : ℕ) → ones k x ≤ k
unfolding ones
ones-le zero x = omega arith
ones-le (suc k) x = omega (arith, ones-le k (x / 2))

ones-zero : (k : ℕ) → ones k 0 ≡ 0
unfolding ones
ones-zero zero = refl
ones-zero (suc k) = omega (arith, ones-zero k)

-- more rounds than bits end the loop with the count
count_set-ones : (fuel k x c : ℕ) → x < 2 ^ k → ones k x < fuel → count_set fuel x c ≡ c + ones k x
unfolding count_set
count_set-ones zero k x c h enough = absurd (omega arith)
count_set-ones (suc fuel) k zero c h enough = omega (arith, ones-zero k)
count_set-ones (suc fuel) k (suc x) c h enough = ground (
  arith,
  ones_clear k (suc x) h (omega arith),
  count_set-ones fuel k (bit_and (suc x) (suc x - 1)) (c + 1) (cleared-lt (suc x) (omega arith))
      fewer,
)
  where
    cleared-lt : (y : ℕ) → y < 2 ^ k → bit_and y (y - 1) < 2 ^ k
    cleared-lt y hy = bit_and-lt k y (y - 1) hy (omega arith)

    fewer : ones k (bit_and (suc x) (suc x - 1)) < fuel
    fewer = omega (arith, ones_clear k (suc x) h (omega arith))

-- `nbSetBits`, whose loop clears the lowest set bit in each round, returns the number of registers
-- in the list: how many of the lowest 16 bits of the instruction are set. So the 17 rounds of fuel
-- are enough.
pub nb_set_bits-ones : (ins : ℕ) → nb_set_bits ins ≡ ones 16 (ins % 2 ^ 16)
unfolding nb_set_bits
nb_set_bits-ones ins = omega (
  arith,
  count_set-ones 17 16 (ins % 2 ^ 16) 0 (omega arith) (omega (arith, ones-le 16 (ins % 2 ^ 16))),
)

-- In all four addressing modes the end address is the address of the last of as many words as the
-- list has registers, the first of which stands at the start address.
pub end_address_start_address :
    (p : ArmCore) (ins : ℕ)
    → add32 (get_end_address p ins) 4 ≡ add32 (get_start_address p ins) (4 * ones 16 (ins % 2 ^ 16))
unfolding get_end_address get_start_address
end_address_start_address p ins = rw (nb_set_bits-ones ins) (ground arith)
