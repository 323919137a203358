-- ===== src/MemoryTest/Passed.antt =====
-- The tests of memory_test.c succeed.
use projet_s5_prog.Base.{ℕ, ◌-◌, ◌<◌, ◌≡◌, refl, arith, Bool, true, false, [], ◌∷◌}
use projet_s5_prog.Base.{if◌then◌else◌}
use projet_s5_prog.Memory.{Memory, memory_create, memory_read_byte, memory_read_half}
use projet_s5_prog.Memory.{
  memory_read_word, memory_write_byte, memory_write_half, memory_write_word,
}
use projet_s5_prog.Gdb.Number.{byte_of, is_big_endian}
use projet_s5_prog.MemoryTest.{compare, compare_from, compare_with_sim, compare_sim_from}
use projet_s5_prog.MemoryTest.{half_byte_of, write_position, test_results, test_main}

compare_two :
    (a b : ℕ → ℕ) (reverse : Bool)
    → (if reverse then (a 0 ≡ b 1) × (a 1 ≡ b 0) else (a 0 ≡ b 0) × (a 1 ≡ b 1))
    → compare a b 2 reverse ≡ 1
unfolding compare compare_from
compare_two a b true e = ground arith
compare_two a b false e = ground arith

compare_four :
    (a b : ℕ → ℕ) (reverse : Bool)
    → (if reverse
        then (a 0 ≡ b 3) × (a 1 ≡ b 2) × (a 2 ≡ b 1) × (a 3 ≡ b 0)
        else (a 0 ≡ b 0) × (a 1 ≡ b 1) × (a 2 ≡ b 2) × (a 3 ≡ b 3))
    → compare a b 4 reverse ≡ 1
unfolding compare compare_from
compare_four a b true e = ground arith
compare_four a b false e = ground arith

-- a memory of four bytes in the byte order `e`, with the bytes of a word in it
record Holds (e : ℕ) (b : ℕ → ℕ) (m : Memory) : Type 0 where
  order : m.endianess ≡ e
  four : m.size ≡ 4
  held : (m.mem_data 0 ≡ b 0) × (m.mem_data 1 ≡ b 1) × (m.mem_data 2 ≡ b 2) × (m.mem_data 3 ≡ b 3)

written_Holds :
    (found : ℕ → ℕ) (e : ℕ) (b : ℕ → ℕ)
    → e < 2
    → Holds e b (write_position (memory_create found 4 e) b)
unfolding write_position memory_create memory_write_byte
written_Holds found e b h = record { order = omega arith; four = refl; held = ground arith }

compare_sim_two :
    (local : ℕ) (a : ℕ → ℕ) (m : Memory) (reverse : Bool)
    → m.size ≡ 4
    → (if reverse
        then (a 0 ≡ m.mem_data 1) × (a 1 ≡ m.mem_data 0)
        else (a 0 ≡ m.mem_data 0) × (a 1 ≡ m.mem_data 1))
    → compare_with_sim local a m 2 reverse ≡ 1
unfolding compare_with_sim compare_sim_from memory_read_byte
compare_sim_two local a m true size e = ground arith
compare_sim_two local a m false size e = ground arith

compare_sim_four :
    (local : ℕ) (a : ℕ → ℕ) (m : Memory) (reverse : Bool)
    → m.size ≡ 4
    → (if reverse
        then (a 0 ≡ m.mem_data 3)
          × (a 1 ≡ m.mem_data 2)
          × (a 2 ≡ m.mem_data 1)
          × (a 3 ≡ m.mem_data 0)
        else (a 0 ≡ m.mem_data 0)
          × (a 1 ≡ m.mem_data 1)
          × (a 2 ≡ m.mem_data 2)
          × (a 3 ≡ m.mem_data 3))
    → compare_with_sim local a m 4 reverse ≡ 1
unfolding compare_with_sim compare_sim_from memory_read_byte
compare_sim_four local a m true size e = ground arith
compare_sim_four local a m false size e = ground arith

-- the readings of the bytes that were written, in the host's order and in the other one
module _ (w : ℕ) (m : Memory) where
  word_same :
      (host : Bool)
      → Holds (is_big_endian host) (byte_of host w) m
      → compare (byte_of host w) (byte_of host (memory_read_word m 0).1) 4 false ≡ 1
  unfolding memory_read_word memory_read_byte is_big_endian
  word_same true h = compare_four _ _ false (ground (arith, h.order, h.four, h.held))
  word_same false h = compare_four _ _ false (ground (arith, h.order, h.four, h.held))

  word_other :
      (host : Bool)
      → Holds (1 - is_big_endian host) (byte_of host w) m
      → compare (byte_of host w) (byte_of host (memory_read_word m 0).1) 4 true ≡ 1
  unfolding memory_read_word memory_read_byte is_big_endian
  word_other true h = compare_four _ _ true (ground (arith, h.order, h.four, h.held))
  word_other false h = compare_four _ _ true (ground (arith, h.order, h.four, h.held))

  half_same :
      (host : Bool)
      → Holds (is_big_endian host) (byte_of host w) m
      → compare (byte_of host w) (half_byte_of host (memory_read_half m 0).1) 2 false ≡ 1
  unfolding memory_read_half memory_read_byte is_big_endian
  half_same true h = compare_two _ _ false (ground (arith, h.order, h.four, h.held))
  half_same false h = compare_two _ _ false (ground (arith, h.order, h.four, h.held))

  half_other :
      (host : Bool)
      → Holds (1 - is_big_endian host) (byte_of host w) m
      → compare (byte_of host w) (half_byte_of host (memory_read_half m 0).1) 2 true ≡ 1
  unfolding memory_read_half memory_read_byte is_big_endian
  half_other true h = compare_two _ _ true (ground (arith, h.order, h.four, h.held))
  half_other false h = compare_two _ _ true (ground (arith, h.order, h.four, h.held))

-- a memory of four bytes in the byte order `e`, whatever is in it
record Sized (e : ℕ) (m : Memory) : Type 0 where
  order : m.endianess ≡ e
  four : m.size ≡ 4

word_written_Sized : (e v : ℕ) (m : Memory) → Sized e m → Sized e (memory_write_word m 0 v).1
unfolding memory_write_word memory_write_byte
word_written_Sized e v m h = record {
  order = ground (arith, h.order, h.four);
  four = ground (arith, h.order, h.four);
}

-- the bytes that a word and a half-word leave
module _ (local v : ℕ) (m : Memory) where
  word_written_same :
      (host : Bool)
      → Sized (is_big_endian host) m
      → compare_with_sim local (byte_of host v) (memory_write_word m 0 v).1 4 false ≡ 1
  unfolding memory_write_word memory_write_byte is_big_endian
  word_written_same true h =
      compare_sim_four local _ _ false (ground (arith, h.order, h.four))
        (ground (arith, h.order, h.four))
  word_written_same false h =
      compare_sim_four local _ _ false (ground (arith, h.order, h.four))
        (ground (arith, h.order, h.four))

  word_written_other :
      (host : Bool)
      → Sized (1 - is_big_endian host) m
      → compare_with_sim local (byte_of host v) (memory_write_word m 0 v).1 4 true ≡ 1
  unfolding memory_write_word memory_write_byte is_big_endian
  word_written_other true h =
      compare_sim_four local _ _ true (ground (arith, h.order, h.four))
        (ground (arith, h.order, h.four))
  word_written_other false h =
      compare_sim_four local _ _ true (ground (arith, h.order, h.four))
        (ground (arith, h.order, h.four))

  half_written_same :
      (host : Bool)
      → Sized (is_big_endian host) m
      → compare_with_sim local (half_byte_of host v) (memory_write_half m 0 v).1 2 false ≡ 1
  unfolding memory_write_half memory_write_byte is_big_endian
  half_written_same true h =
      compare_sim_two local _ _ false (ground (arith, h.order, h.four))
        (ground (arith, h.order, h.four))
  half_written_same false h =
      compare_sim_two local _ _ false (ground (arith, h.order, h.four))
        (ground (arith, h.order, h.four))

  half_written_other :
      (host : Bool)
      → Sized (1 - is_big_endian host) m
      → compare_with_sim local (half_byte_of host v) (memory_write_half m 0 v).1 2 true ≡ 1
  unfolding memory_write_half memory_write_byte is_big_endian
  half_written_other true h =
      compare_sim_two local _ _ true (ground (arith, h.order, h.four))
        (ground (arith, h.order, h.four))
  half_written_other false h =
      compare_sim_two local _ _ true (ground (arith, h.order, h.four))
        (ground (arith, h.order, h.four))

Holds-Sized : {e : ℕ} {b : ℕ → ℕ} {m : Memory} → Holds e b m → Sized e m
Holds-Sized h = record { order = h.order; four = h.four }

big_endian-lt : (host : Bool) → is_big_endian host < 2
unfolding is_big_endian
big_endian-lt true = omega arith
big_endian-lt false = omega arith

-- On a machine of either byte order, whatever `malloc` and the local variable hold before, and for
-- any two values in the place of the word and the half-word of memory_test.c, all its eight tests of
-- the simulated memories succeed.
pub test_main_passes :
    (host : Bool) (local : ℕ) (found : ℕ → ℕ → ℕ) (word_value half_value : ℕ)
    → test_main host local found word_value half_value ≡ 1 ∷ 1 ∷ 1 ∷ 1 ∷ 1 ∷ 1 ∷ 1 ∷ 1 ∷ []
unfolding test_main test_results
test_main_passes host local found word_value half_value =
    let b = byte_of host word_value in
    let big = is_big_endian host in
    let same = written_Holds (found big) big b (big_endian-lt host) in
    let other = written_Holds (found (1 - big)) (1 - big) b (omega arith) in
    let m = write_position (memory_create (found big) 4 big) b in
    let n = write_position (memory_create (found (1 - big)) 4 (1 - big)) b in
    rw
      (
        word_same word_value m host same,
        half_same word_value m host same,
        word_other word_value n host other,
        half_other word_value n host other,
        word_written_same local word_value m host (Holds-Sized same),
        half_written_same local half_value (memory_write_word m 0 word_value).1 host
            (word_written_Sized big word_value m (Holds-Sized same)),
        word_written_other local word_value n host (Holds-Sized other),
        half_written_other local half_value (memory_write_word n 0 word_value).1 host
            (word_written_Sized (1 - big) word_value n (Holds-Sized other)),
      )
      refl
