-- ===== src/Memory.antt =====
-- memory.c: the simulated memory, with byte, half-word and word accesses in either byte order.
-- The bytes are a function of the address; those outside [0, size) are never reached. A function
-- that writes through `value` takes the old content of `*value` and returns the new one beside its
-- return code; a write returns its code beside the new memory.
pub mod Bytes
pub mod Words
use projet_s5_prog.Base.{ℕ, ◌+◌, ◌*◌, ◌/◌, ◌%◌, ◌^◌, ltb, ◌==◌, if◌then◌else◌}
use projet_s5_prog.Base.{u8, u16, u32, add32}

-- `struct memory_data`
pub record Memory : Type 0 where
  pub mem_data : ℕ → ℕ
  pub endianess : ℕ
  pub size : ℕ

-- `malloc` leaves the bytes as it finds them; the cast to `uint8_t` is that of the field.
unfoldable pub memory_create : (ℕ → ℕ) → ℕ → ℕ → Memory
memory_create found size is_big_endian = record {
  mem_data = found;
  endianess = u8 is_big_endian;
  size = size;
}

unfoldable pub memory_get_size : Memory → ℕ
memory_get_size mem = mem.size

unfoldable pub memory_read_byte : Memory → ℕ → ℕ → ℕ × ℕ
memory_read_byte mem address value =
    if ltb address mem.size then (0, mem.mem_data address) else (1, value)

-- `memory_read_byte(mem, address, &res)` of a local `res` that starts at 0
abbrev pub read_res : Memory → ℕ → ℕ
read_res mem address = (memory_read_byte mem address 0).1

unfoldable pub memory_read_half : Memory → ℕ → ℕ × ℕ
memory_read_half mem address =
    let res1 = read_res mem address in
    let res2 = read_res mem (add32 address 1) in
    if mem.endianess == 1 then (1, u16 (res1 * 2 ^ 8 + res2)) else (1, u16 (res2 * 2 ^ 8 + res1))

unfoldable pub memory_read_word : Memory → ℕ → ℕ × ℕ
memory_read_word mem address =
    let res1 = read_res mem address in
    let res2 = read_res mem (add32 address 1) in
    let res3 = read_res mem (add32 address 2) in
    let res4 = read_res mem (add32 address 3) in
    if mem.endianess == 1
    then (1, u32 (res1 * 2 ^ 24 + res2 * 2 ^ 16 + res3 * 2 ^ 8 + res4))
    else (1, u32 (res4 * 2 ^ 24 + res3 * 2 ^ 16 + res2 * 2 ^ 8 + res1))

-- `*(mem_data + address) = value`
abbrev pub store_byte : (ℕ → ℕ) → ℕ → ℕ → ℕ → ℕ
store_byte bytes address value a = if a == address then value else bytes a

unfoldable pub memory_write_byte : Memory → ℕ → ℕ → ℕ × Memory
memory_write_byte mem address value =
    if ltb address mem.size
    then (0, record mem { mem_data = store_byte mem.mem_data address value })
    else (1, mem)

unfoldable pub memory_write_half : Memory → ℕ → ℕ → ℕ × Memory
memory_write_half mem address value =
    let res1 = value % 2 ^ 8 in
    let res2 = value / 2 ^ 8 % 2 ^ 8 in
    if mem.endianess == 1
    then (let m1 = (memory_write_byte mem address res2).1 in
        let m2 = (memory_write_byte m1 (add32 address 1) res1).1 in (1, m2))
    else (let m1 = (memory_write_byte mem address res1).1 in
        let m2 = (memory_write_byte m1 (add32 address 1) res2).1 in (1, m2))

-- the four byte writes of one word, in the order of the source
abbrev pub write_bytes : Memory → ℕ → ℕ → ℕ → ℕ → ℕ → Memory
write_bytes mem address b1 b2 b3 b4 =
    let m1 = (memory_write_byte mem address b1).1 in
    let m2 = (memory_write_byte m1 (add32 address 1) b2).1 in
    let m3 = (memory_write_byte m2 (add32 address 2) b3).1 in
    (memory_write_byte m3 (add32 address 3) b4).1

unfoldable pub memory_write_word : Memory → ℕ → ℕ → ℕ × Memory
memory_write_word mem address value =
    let res1 = value % 2 ^ 8 in
    let res2 = value / 2 ^ 8 % 2 ^ 8 in
    let res3 = value / 2 ^ 16 % 2 ^ 8 in
    let res4 = value / 2 ^ 24 % 2 ^ 8 in
    if mem.endianess == 1
    then (1, write_bytes mem address res4 res3 res2 res1)
    else (1, write_bytes mem address res1 res2 res3 res4)
