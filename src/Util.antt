-- ===== src/Util.antt =====
-- util.h and util.c: bit fields, byte reversal and shifts.
-- The macros build their masks by shifting `~0`, an `int`, to the right and to the left again; with
-- the arithmetic right shift that leaves the ones above the field, so that the mask of `get_bits`
-- is the field's own ones and `&` with it is a remainder.
use projet_s5_prog.Base.{ℕ, ◌+◌, ◌-◌, ◌*◌, ◌/◌, ◌%◌, ◌^◌, bit_or}
use projet_s5_prog.Base.{ltb, ◌==◌, if◌then◌else◌, u32, word, shl32, shr32, sub32}

-- `get_bit(x, i)`
abbrev pub get_bit : ℕ → ℕ → ℕ
get_bit x i = x / 2 ^ i % 2

-- `get_bits(x, h, l)`
abbrev pub get_bits : ℕ → ℕ → ℕ → ℕ
get_bits x h l = x / 2 ^ l % 2 ^ (h - l + 1)

-- `reverse_2(x)` and `reverse_4(x)`
unfoldable pub reverse_2 : ℕ → ℕ
reverse_2 x = bit_or (x % 2 ^ 8 * 2 ^ 8) (x / 2 ^ 8 % 2 ^ 8)

unfoldable pub reverse_4 : ℕ → ℕ
reverse_4 x =
    bit_or
      (bit_or (bit_or (x % 2 ^ 8 * 2 ^ 24) (x / 2 ^ 8 % 2 ^ 8 * 2 ^ 16))
        (x / 2 ^ 16 % 2 ^ 8 * 2 ^ 8))
      (x / 2 ^ 24 % 2 ^ 8)

-- What C leaves open: the value of `x << k` and of `x >> k` on a `uint32_t` where k is 32 or more,
-- and the values found in local variables that were never assigned: one, or up to three where a
-- function has as many.
pub record Undefined : Type 0 where
  pub shift_left : ℕ → ℕ → ℕ
  pub shift_right : ℕ → ℕ → ℕ
  pub local : ℕ
  pub second_local : ℕ
  pub third_local : ℕ

module _ (u : Undefined) where
  -- `x << k` and `x >> k` with any `k`
  abbrev pub shl : ℕ → ℕ → ℕ
  shl x k = if ltb k 32 then shl32 x k else u32 (u.shift_left x k)

  abbrev pub shr : ℕ → ℕ → ℕ
  shr x k = if ltb k 32 then shr32 x k else u32 (u.shift_right x k)

  -- `asr(value, shift)`; `~0 << (32 - shift)` keeps the high `shift` ones of a word.
  unfoldable pub asr : ℕ → ℕ → ℕ
  asr value shift =
      bit_or (shr value shift)
        (if get_bit value 31 == 1 then shl (word - 1) (sub32 32 shift) else 0)

  -- `ror(value, rotation)`
  unfoldable pub ror : ℕ → ℕ → ℕ
  ror value rotation = bit_or (shr value rotation) (shl value (sub32 32 rotation))
