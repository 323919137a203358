-- ===== src/Memory/Words.antt =====
-- Word and half-word accesses of memory.c that lie inside the memory.
use projet_s5_prog.Base.{ℕ, ◌+◌, ◌*◌, ◌/◌, ◌%◌, ◌^◌, ◌≤◌, ◌<◌, ◌≡◌, arith, ◌==◌}
use projet_s5_prog.Base.{if◌then◌else◌, add32, u32, ◌⊎◌, inl, inr, Bool-cases}
use projet_s5_prog.Base.Mask.{bit_or_fields}
use projet_s5_prog.Util.{reverse_4}
use projet_s5_prog.Memory.{Memory, memory_read_byte, memory_write_byte, memory_write_half}
use projet_s5_prog.Memory.{memory_read_half, memory_read_word, memory_write_word, store_byte}
use projet_s5_prog.Memory.{write_bytes, read_res}

-- four bytes in a row
abbrev store_four : (ℕ → ℕ) → ℕ → ℕ → ℕ → ℕ → ℕ → ℕ → ℕ
store_four d a b1 b2 b3 b4 =
    store_byte (store_byte (store_byte (store_byte d a b1) (a + 1) b2) (a + 2) b3) (a + 3) b4

module _ (mem : Memory) (address : ℕ) (small : mem.size ≤ 2 ^ 32)
    (inside : address + 4 ≤ mem.size) where
  write_bytes-inside :
      (b1 b2 b3 b4 : ℕ)
      → write_bytes mem address b1 b2 b3 b4
        ≡ record mem { mem_data = store_four mem.mem_data address b1 b2 b3 b4 }
  unfolding memory_write_byte
  write_bytes-inside b1 b2 b3 b4 = ground arith

  -- the bytes that the two orders of `memory_read_word` put together
  read_word-inside :
      (d : ℕ → ℕ)
      → memory_read_word (record mem { mem_data = d }) address ≡ (
          if mem.endianess == 1
          then (
            1,
            u32 (
                d address * 2 ^ 24
                + d (address + 1) * 2 ^ 16
                + d (address + 2) * 2 ^ 8
                + d (address + 3)),
          )
          else (
            1,
            u32 (
                d (address + 3) * 2 ^ 24
                + d (address + 2) * 2 ^ 16
                + d (address + 1) * 2 ^ 8
                + d address),
          ))
  unfolding memory_read_word memory_read_byte
  read_word-inside d = ground arith

store_four_at :
    (d : ℕ → ℕ) (a b1 b2 b3 b4 : ℕ)
    → let e = store_four d a b1 b2 b3 b4 in
      (e a ≡ b1) × (e (a + 1) ≡ b2) × (e (a + 2) ≡ b3) × (e (a + 3) ≡ b4)
store_four_at d a b1 b2 b3 b4 = ground arith

-- the four bytes of a word, put together again
joined :
    (v : ℕ)
    → v < 2 ^ 32
    → u32 (
        v / 2 ^ 24 % 2 ^ 8 * 2 ^ 24
        + v / 2 ^ 16 % 2 ^ 8 * 2 ^ 16
        + v / 2 ^ 8 % 2 ^ 8 * 2 ^ 8
        + v % 2 ^ 8)
      ≡ v
joined v h = omega arith

-- Inside a memory of at most 2 ^ 32 bytes, a word that is written reads back as it was, in either
-- byte order, with return code 1.
pub read_word-write_word :
    (mem : Memory) (address value : ℕ)
    → mem.size ≤ 2 ^ 32
    → address + 4 ≤ mem.size
    → value < 2 ^ 32
    → memory_read_word (memory_write_word mem address value).1 address ≡ (1, value)
unfolding memory_write_word
read_word-write_word mem address value small inside h = elim (Bool-cases (mem.endianess == 1)) [
  | inl big ↦
      rw
        (
          big,
          write_bytes-inside mem address small inside,
          read_word-inside mem address small inside,
          big,
        )
        (ground (arith, joined value h))
  | inr little ↦
      rw
        (
          little,
          write_bytes-inside mem address small inside,
          read_word-inside mem address small inside,
          little,
        )
        (ground (arith, joined value h))
]

-- A half-word that is written inside the memory reads back as it was, in either byte order, with
-- return code 1.
read_half-write_half :
    (mem : Memory) (address value : ℕ)
    → mem.size ≤ 2 ^ 32
    → address + 2 ≤ mem.size
    → value < 2 ^ 16
    → memory_read_half (memory_write_half mem address value).1 address ≡ (1, value)
unfolding memory_write_half memory_read_half memory_write_byte memory_read_byte
read_half-write_half mem address value small inside h = elim (Bool-cases (mem.endianess == 1)) [
  | inl big ↦ ground arith
  | inr little ↦ ground arith
]

-- A word write inside the memory keeps its size and byte order, and every byte but the four at
-- `address`.
write_word_frame :
    (mem : Memory) (address value other : ℕ)
    → mem.size ≤ 2 ^ 32
    → address + 4 ≤ mem.size
    → (other < address) ⊎ (address + 4 ≤ other)
    → let mem' = (memory_write_word mem address value).1 in
      (mem'.size ≡ mem.size)
      × (mem'.endianess ≡ mem.endianess)
      × (mem'.mem_data other ≡ mem.mem_data other)
unfolding memory_write_word
write_word_frame mem address value other small inside apart =
    elim (Bool-cases (mem.endianess == 1)) [
      | inl big ↦ rw (big, write_bytes-inside mem address small inside) (ground arith)
      | inr little ↦ rw (little, write_bytes-inside mem address small inside) (ground arith)
    ]

reverse_4_sum :
    (x : ℕ)
    → reverse_4 x
      ≡ x % 2 ^ 8 * 2 ^ 24
        + x / 2 ^ 8 % 2 ^ 8 * 2 ^ 16
        + x / 2 ^ 16 % 2 ^ 8 * 2 ^ 8
        + x / 2 ^ 24 % 2 ^ 8
unfolding reverse_4
reverse_4_sum x = ground (
  arith,
  bit_or_fields 24 (x % 2 ^ 8) (x / 2 ^ 8 % 2 ^ 8 * 2 ^ 16),
  bit_or_fields 16 (x % 2 ^ 8 * 2 ^ 8 + x / 2 ^ 8 % 2 ^ 8) (x / 2 ^ 16 % 2 ^ 8 * 2 ^ 8),
  bit_or_fields 8 (x % 2 ^ 8 * 2 ^ 16 + x / 2 ^ 8 % 2 ^ 8 * 2 ^ 8 + x / 2 ^ 16 % 2 ^ 8)
      (x / 2 ^ 24 % 2 ^ 8),
)

reverse_4-joined :
    (b1 b2 b3 b4 : ℕ)
    → b1 < 256
    → b2 < 256
    → b3 < 256
    → b4 < 256
    → u32 (b1 * 2 ^ 24 + b2 * 2 ^ 16 + b3 * 2 ^ 8 + b4)
      ≡ reverse_4 (u32 (b4 * 2 ^ 24 + b3 * 2 ^ 16 + b2 * 2 ^ 8 + b1))
reverse_4-joined b1 b2 b3 b4 h1 h2 h3 h4 = rw reverse_4_sum (omega arith)

read_res-lt : (mem : Memory) (a : ℕ) → mem.mem_data a < 256 → read_res mem a < 256
unfolding memory_read_byte
read_res-lt mem a h = ground arith

-- A big endian memory reads at every address the bytes of the same memory in little endian order
-- reversed, where the memory holds bytes.
read_word_reversed :
    (mem : Memory) (address : ℕ)
    → ((a : ℕ) → mem.mem_data a < 256)
    → (memory_read_word (record mem { endianess = 1 }) address).1
      ≡ reverse_4 (memory_read_word (record mem { endianess = 0 }) address).1
unfolding memory_read_word memory_read_byte
read_word_reversed mem address bytes =
    reverse_4-joined _ _ _ _ (read_res-lt mem address (bytes _))
      (read_res-lt mem (add32 address 1) (bytes _)) (read_res-lt mem (add32 address 2) (bytes _))
      (read_res-lt mem (add32 address 3) (bytes _))

-- Where a word lies beyond the end of the memory and below 2 ^ 32, it reads as 0 and a write changes
-- nothing, both with return code 1.
word_outside :
    (mem : Memory) (address value : ℕ)
    → mem.size ≤ address
    → address + 4 ≤ 2 ^ 32
    → (memory_read_word mem address ≡ (1, 0)) × (memory_write_word mem address value ≡ (1, mem))
unfolding memory_read_word memory_read_byte memory_write_word memory_write_byte
word_outside mem address value outside high = (ground arith, ground arith)
