-- ===== src/Gdb/Written.antt =====
-- Memory that a debugger writes in binary and reads back in digits.
use projet_s5_prog.Base.{
  ℕ, suc, ◌+◌, ◌<◌, ◌≤◌, ◌≡◌, ◌≢◌, refl, arith, Bool, true, false, List, [], ◌∷◌, ◌++◌, ◌∙◌, ap,
  some,
}
use projet_s5_prog.Base.{
  ltb, ◌^◌, if◌then◌else◌, add32, u8, length, codes, drop, index, bit_xor, ==_ne, ==_refl,
  Bool-cases, inl, inr,
}
use projet_s5_prog.Base.Bits.{bit_xor_twice}
use projet_s5_prog.Base.Scan.{two_hex}
use projet_s5_prog.Util.{Undefined}
use projet_s5_prog.Memory.{memory_read_byte, memory_write_byte, memory_get_size, store_byte}
use projet_s5_prog.Core.{ArmCore, arm_read_byte, arm_write_byte}
use projet_s5_prog.Gdb.State.{Gdb, gdb_send_data, gdb_send_buffer}
use projet_s5_prog.Gdb.Handlers
use projet_s5_prog.Gdb.Reading.{digits_step, digits_none}
use projet_s5_prog.Gdb.Handlers.{
  memory_digits, scan_two, write_bytes_of, write_content, sent_value, is_escaped,
}

-- the memory cells after bytes are stored from an address on
abbrev pub with_bytes : (ℕ → ℕ) → ℕ → List ℕ → ℕ → ℕ
with_bytes cells address [] = cells
with_bytes cells address (b ∷ s) = with_bytes (store_byte cells address b) (address + 1) s

abbrev pub with_memory : ArmCore → ℕ → List ℕ → ArmCore
with_memory p address s = record p {
  mem = record p.mem { mem_data = with_bytes p.mem.mem_data address s };
}

abbrev pub digits_of : List ℕ → List ℕ
digits_of [] = []
digits_of (b ∷ s) = two_hex b ++ digits_of s

abbrev pub AreBytes : List ℕ → Type 0
AreBytes [] = Unit
AreBytes (b ∷ s) = (b < 256) × AreBytes s

-- The debugger chooses the bytes that it sends escaped; `}` is among them.
module _ (special : ℕ → Bool) where
  abbrev pub escaped : List ℕ → List ℕ
  escaped [] = []
  escaped (b ∷ s) = if special b then 0x7D ∷ bit_xor b 0x20 ∷ escaped s else b ∷ escaped s

next_address : (a : ℕ) → a + 1 < 2 ^ 32 → add32 a 1 ≡ a + 1
next_address a h = omega arith

module _ (p : ArmCore) where
  write_step :
      (old left address : ℕ) (content : List ℕ)
      → address < p.mem.size
      → write_bytes_of old (suc left) address content true p
        ≡ write_bytes_of old left
            (add32 address 1)
            (drop (if is_escaped old content then 2 else 1) content)
            true
            (with_memory p address (sent_value old content ∷ []))
  unfolding write_bytes_of arm_write_byte memory_write_byte
  write_step old left address content h = ground arith

module _ (special : ℕ → Bool) (brace : special 0x7D ≡ true) where
  plain_ne : (b : ℕ) → special b ≡ false → b ≢ 0x7D
  plain_ne b h e = ground (arith, brace, ap special e)

  sent-escaped :
      (old b : ℕ) (s rest : List ℕ) → b < 256 → sent_value old (escaped special (b ∷ s) ++ rest) ≡ b
  sent-escaped old b s rest h = elim (Bool-cases (special b)) [
    | inl yes_special ↦ rw yes_special (omega (arith, bit_xor_twice 8 b 0x20 h (omega arith)))
    | inr plain ↦ rw (plain, ==_ne b 0x7D (plain_ne b plain)) (omega arith)
  ]

  drop-escaped :
      (old b : ℕ) (s rest : List ℕ)
      → drop
          (if is_escaped old (escaped special (b ∷ s) ++ rest) then 2 else 1)
          (escaped special (b ∷ s) ++ rest)
        ≡ escaped special s ++ rest
  drop-escaped old b s rest = elim (Bool-cases (special b)) [
    | inl yes_special ↦ rw yes_special refl
    | inr plain ↦ rw (plain, ==_ne b 0x7D (plain_ne b plain)) refl
  ]

  write_none :
      (old address : ℕ) (content : List ℕ) (p : ArmCore)
      → write_bytes_of old 0 address content true p ≡ (true, p)
  unfolding write_bytes_of
  write_none old address content p = refl

  write_all :
      (old address : ℕ) (s rest : List ℕ) (p : ArmCore)
      → AreBytes s
      → address + length s ≤ p.mem.size
      → p.mem.size < 2 ^ 32
      → write_bytes_of old (length s) address (escaped special s ++ rest) true p
        ≡ (true, with_memory p address s)
  write_all old address [] rest p h le small = write_none old address rest p
  write_all old address (b ∷ s) rest p (hb, hs) le small =
      write_step p old (length s) address (escaped special (b ∷ s) ++ rest) (omega arith)
      ∙ rw
          (
            sent-escaped old b s rest hb,
            drop-escaped old b s rest,
            next_address address (omega arith),
          )
          (write_all old (address + 1) s rest (with_memory p address (b ∷ [])) hs (omega arith)
            small)

-- the cells hold these bytes from an address on
abbrev HoldsAt : (ℕ → ℕ) → ℕ → List ℕ → Type 0
HoldsAt cells address [] = Unit
HoldsAt cells address (b ∷ s) = (cells address ≡ b) × HoldsAt cells (address + 1) s

with_bytes-before :
    (m address : ℕ) (s : List ℕ) (cells : ℕ → ℕ)
    → m < address
    → with_bytes cells address s m ≡ cells m
with_bytes-before m address [] cells h = refl
with_bytes-before m address (b ∷ s) cells h =
    with_bytes-before m (address + 1) s (store_byte cells address b) (omega arith)
    ∙ rw (==_ne m address (omega arith)) refl

with_bytes-HoldsAt :
    (address : ℕ) (s : List ℕ) (cells : ℕ → ℕ) → HoldsAt (with_bytes cells address s) address s
with_bytes-HoldsAt address [] cells = tt
with_bytes-HoldsAt address (b ∷ s) cells = (
  with_bytes-before address (address + 1) s (store_byte cells address b) (omega arith)
      ∙ rw (==_refl address) refl,
  with_bytes-HoldsAt (address + 1) s (store_byte cells address b),
)

read_inside :
    (p : ArmCore) (address value : ℕ)
    → address < p.mem.size
    → (arm_read_byte p address value).1 ≡ p.mem.mem_data address
unfolding arm_read_byte memory_read_byte
read_inside p address value h = ground arith

digits-held :
    (p : ArmCore) (address value : ℕ) (s : List ℕ)
    → HoldsAt p.mem.mem_data address s
    → address + length s ≤ p.mem.size
    → p.mem.size < 2 ^ 32
    → memory_digits p (length s) address value ≡ digits_of s
digits-held p address value [] h le small = digits_none p address value
digits-held p address value (b ∷ s) (e, h) le small =
    digits_step p (length s) address value
    ∙ rw (read_inside p address value (omega arith), e, next_address address (omega arith))
        (ap (λ (r : List ℕ). two_hex b ++ r)
          (digits-held p (address + 1) b s h (omega arith) small))

write_answer :
    (special : ℕ → Bool) (gdb : Gdb) (old address : ℕ) (s rest : List ℕ)
    → special 0x7D ≡ true
    → AreBytes s
    → address < gdb.arm.mem.size
    → address + length s ≤ gdb.arm.mem.size
    → gdb.arm.mem.size < 2 ^ 32
    → write_content old gdb address (length s) (some (b':' ∷ (escaped special s ++ rest)))
      ≡ gdb_send_data (record gdb { arm = with_memory gdb.arm address s }) (codes "OK")
unfolding write_content memory_get_size
write_answer special gdb old address s rest brace bytes inside le small =
    rw
      (
        is_inside address gdb.arm.mem.size inside,
        write_all special brace old address s rest gdb.arm bytes le small,
      )
      refl
  where
    is_inside : (a n : ℕ) → a < n → ltb a n ≡ true
    is_inside a n h = ground arith

-- Bytes that a debugger writes into the memory with the request for binary data, each byte escaped
-- or not as it likes but `}` always, are those that a request for memory answers in the processor
-- that this leaves: the write is answered `OK`, it changes those cells of the memory alone, and the
-- reading has the two digits of every byte. The texts of the two requests name the address and the
-- number of the bytes, which lie inside the memory. The answer to the reading is what
-- `gdb_send_buffer` makes of these digits: where they do not fit in the packet, which is from 510
-- bytes on, it faults.
pub read_memory-write_memory_binary :
    (u : Undefined) (special : ℕ → Bool) (gdb g : Gdb) (data' data_read s rest : List ℕ)
    (address : ℕ)
    → special 0x7D ≡ true
    → AreBytes s
    → address < gdb.arm.mem.size
    → address + length s ≤ gdb.arm.mem.size
    → gdb.arm.mem.size < 2 ^ 32
    → scan_two u data' ≡ (address, length s)
    → index b':' data' ≡ some (b':' ∷ (escaped special s ++ rest))
    → scan_two u data_read ≡ (address, length s)
    → g.arm ≡ with_memory gdb.arm address s
    → (Handlers.write_memory_binary u gdb data'
        ≡ gdb_send_data (record gdb { arm = with_memory gdb.arm address s }) (codes "OK"))
      × (Handlers.read_memory u g data_read ≡ gdb_send_buffer g (digits_of s))
unfolding Handlers.write_memory_binary Handlers.read_memory
read_memory-write_memory_binary u special gdb g data' data_read s rest address brace bytes inside le
      small parsed content parsed_read after =
    (
      rw (parsed, content)
          (write_answer special gdb (u8 u.local) address s rest brace bytes inside le small),
      rw
          (
            parsed_read,
            after,
            digits-held (with_memory gdb.arm address s) address (u8 u.local) s
                (with_bytes-HoldsAt address s gdb.arm.mem.mem_data) le small,
          )
          refl,
    )
