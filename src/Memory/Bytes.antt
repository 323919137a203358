-- ===== src/Memory/Bytes.antt =====
-- Byte accesses of memory.c, and what any write leaves alone.
use projet_s5_prog.Base.{ℕ, ◌≤◌, ◌<◌, ◌≡◌, arith, ltb, ◌==◌, if◌then◌else◌}
use projet_s5_prog.Memory.{Memory, memory_read_byte, memory_write_byte}
use projet_s5_prog.Memory.{store_byte}

-- Reading back after a byte write: in the memory the written address holds the new byte, and any
-- other byte reads as before; outside it every read fails and leaves `*value` alone.
pub read_byte-write_byte :
    (mem : Memory) (address other value old : ℕ)
    → memory_read_byte (memory_write_byte mem address value).1 other old ≡ (
        if ltb other mem.size
        then (0, if other == address then value else mem.mem_data other)
        else (1, old))
unfolding memory_read_byte memory_write_byte
read_byte-write_byte mem address other value old = ground arith

pub size-write_byte : (mem : Memory) (a v : ℕ) → (memory_write_byte mem a v).1.size ≡ mem.size
unfolding memory_write_byte
size-write_byte mem a v = ground arith

pub endianess-write_byte :
    (mem : Memory) (a v : ℕ) → (memory_write_byte mem a v).1.endianess ≡ mem.endianess
unfolding memory_write_byte
endianess-write_byte mem a v = ground arith

-- inside the memory a byte write is an update of the bytes
pub write_byte-inside :
    (mem : Memory) (a v : ℕ)
    → a < mem.size
    → memory_write_byte mem a v ≡ (0, record mem { mem_data = store_byte mem.mem_data a v })
unfolding memory_write_byte
write_byte-inside mem a v h = ground arith

pub write_byte-outside :
    (mem : Memory) (a v : ℕ) → mem.size ≤ a → memory_write_byte mem a v ≡ (1, mem)
unfolding memory_write_byte
write_byte-outside mem a v h = ground arith
