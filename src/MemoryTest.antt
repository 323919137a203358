-- ===== src/MemoryTest.antt =====
-- memory_test.c: the tests of memory.c on the machine that runs them, `host` being its byte order.
-- What it prints besides the results is left out.
pub mod Passed
use projet_s5_prog.Base.{
  ℕ, zero, suc, ◌+◌, ◌-◌, ◌*◌, ◌/◌, ◌%◌, ◌^◌, Bool, true, false, List, [], ◌∷◌, not,
}
use projet_s5_prog.Base.{◌==◌, if◌then◌else◌}
use projet_s5_prog.Memory.{Memory, memory_create, memory_read_byte, memory_read_half}
use projet_s5_prog.Memory.{memory_read_word, memory_write_byte, memory_write_half}
use projet_s5_prog.Memory.{memory_write_word}
use projet_s5_prog.Gdb.Number.{byte_of, is_big_endian}

-- the two bytes of a half-word in the host's order
abbrev pub half_byte_of : Bool → ℕ → ℕ → ℕ
half_byte_of host value i =
    if host then value / 2 ^ (8 * (1 - i)) % 2 ^ 8 else value / 2 ^ (8 * i) % 2 ^ 8

-- `j`, before the loops and after a step; the -1 that it ends with the other way round is not used.
abbrev pub first_j : Bool → ℕ → ℕ
first_j reverse size = if reverse then size - 1 else 0

abbrev pub next_j : Bool → ℕ → ℕ
next_j reverse j = if reverse then j - 1 else j + 1

-- the loop of `compare`, with the number of bytes left
unfoldable pub compare_from : (ℕ → ℕ) → (ℕ → ℕ) → Bool → ℕ → ℕ → ℕ → ℕ
compare_from a b reverse zero i j = 1
compare_from a b reverse (suc left) i j =
    let rest = compare_from a b reverse left (i + 1) (next_j reverse j) in
    if not (a i == b j) then 0 else rest

unfoldable pub compare : (ℕ → ℕ) → (ℕ → ℕ) → ℕ → Bool → ℕ
compare a b size reverse = compare_from a b reverse size 0 (first_j reverse size)

-- the loop of `compare_with_sim`, with `value`
unfoldable pub compare_sim_from : (ℕ → ℕ) → Memory → Bool → ℕ → ℕ → ℕ → ℕ → ℕ
compare_sim_from a m reverse zero i j value = 1
compare_sim_from a m reverse (suc left) i j value =
    let value' = (memory_read_byte m j value).1 in
    let rest = compare_sim_from a m reverse left (i + 1) (next_j reverse j) value' in
    if not (a i == value') then 0 else rest

-- `local` is what stands in `value` at first.
unfoldable pub compare_with_sim : ℕ → (ℕ → ℕ) → Memory → ℕ → Bool → ℕ
compare_with_sim local a m size reverse =
    compare_sim_from a m reverse size 0 (first_j reverse size) local

-- `memory_write_byte(m, i, *(position + i))` for i = 0, 1, 2, 3
unfoldable pub write_position : Memory → (ℕ → ℕ) → Memory
write_position m position =
    let m1 = (memory_write_byte m 0 (position 0)).1 in
    let m2 = (memory_write_byte m1 1 (position 1)).1 in
    let m3 = (memory_write_byte m2 2 (position 2)).1 in (memory_write_byte m3 3 (position 3)).1

-- the results of the eight tests for two values, `m[is_big_endian()]` and `m[1-is_big_endian()]`
unfoldable pub test_results : Bool → ℕ → ℕ → ℕ → Memory → Memory → List ℕ
test_results host local word_value half_value m_same m_other =
    let word_bytes = byte_of host word_value in
    let half_bytes = half_byte_of host half_value in
    let same = write_position m_same word_bytes in
    let other = write_position m_other word_bytes in
    let same_word = (memory_write_word same 0 word_value).1 in
    let same_half = (memory_write_half same_word 0 half_value).1 in
    let other_word = (memory_write_word other 0 word_value).1 in
    let other_half = (memory_write_half other_word 0 half_value).1 in
    compare word_bytes (byte_of host (memory_read_word same 0).1) 4 false
    ∷ compare word_bytes (half_byte_of host (memory_read_half same 0).1) 2 false
    ∷ compare word_bytes (byte_of host (memory_read_word other 0).1) 4 true
    ∷ compare word_bytes (half_byte_of host (memory_read_half other 0).1) 2 true
    ∷ compare_with_sim local word_bytes same_word 4 false
    ∷ compare_with_sim local half_bytes same_half 2 false
    ∷ compare_with_sim local word_bytes other_word 4 true
    ∷ compare_with_sim local half_bytes other_half 2 true
    ∷ []

-- `found` is what `malloc` finds for each of the two memories.
unfoldable pub test_main : Bool → ℕ → (ℕ → ℕ → ℕ) → ℕ → ℕ → List ℕ
test_main host local found word_value half_value =
    let m = λ (i : ℕ). memory_create (found i) 4 i in
    test_results host local word_value half_value (m (is_big_endian host))
      (m (1 - is_big_endian host))
