-- ===== src/Invariant/Access.antt =====
-- The register and memory accesses of arm_core.c preserve the invariant.
use projet_s5_prog.Base.{ℕ, ap, ◌/◌, ◌%◌, ◌^◌, ◌<◌, ◌≡◌, arith}
use projet_s5_prog.Base.{ltb, ◌==◌, if_both, add32}
use projet_s5_prog.Base.Bits.{bit_and-lt}
use projet_s5_prog.Memory.{Memory, memory_read_byte, memory_read_half, memory_read_word}
use projet_s5_prog.Memory.{memory_write_byte, memory_write_half, memory_write_word, store_byte}
use projet_s5_prog.Memory.{write_bytes}
use projet_s5_prog.Registers.{Registers, store_word, read_spsr, read_cpsr, write_cpsr}
use projet_s5_prog.Registers.{get_mode}
use projet_s5_prog.Registers.Slot.{slot, read_register-slot, write_register-slot}
use projet_s5_prog.Registers.Slot.{read_usr_register-slot, write_usr_register-slot}
use projet_s5_prog.Core.{ArmCore, arm_fetch, seen_pc}
use projet_s5_prog.Core.{arm_read_register, arm_read_usr_register, arm_read_cpsr, arm_read_spsr}
use projet_s5_prog.Core.{arm_write_register, arm_write_usr_register, arm_write_cpsr}
use projet_s5_prog.Core.{arm_read_byte, arm_read_half, arm_read_word}
use projet_s5_prog.Core.{arm_write_byte, arm_write_half, arm_write_word}
use projet_s5_prog.Invariant.{IsValid}

store_word-lt :
    (r : Registers) (i v k : ℕ) → r k < 2 ^ 32 → v < 2 ^ 32 → store_word r i v k < 2 ^ 32
store_word-lt r i v k h hv = ground arith

seen_pc-lt : (x : ℕ) → seen_pc x < 2 ^ 32
seen_pc-lt x = bit_and-lt 32 (add32 x 4) 0xFFFF_FFFD (omega arith) (omega arith)

-- the memory's part of the invariant
record HoldsBytes (n e : ℕ) (m : Memory) : Type 0 where
  bytes : (a : ℕ) → m.mem_data a < 256
  same_size : m.size ≡ n
  same_order : m.endianess ≡ e

abbrev Written : ℕ → ℕ → ℕ × Memory → Type 0
Written n e r = HoldsBytes n e r.1

store_byte-lt : (d : ℕ → ℕ) (a v k : ℕ) → d k < 256 → v < 256 → store_byte d a v k < 256
store_byte-lt d a v k h hv = ground arith

module _ {n e : ℕ} where
  write_byte-HoldsBytes :
      (m : Memory) (a v : ℕ) → HoldsBytes n e m → v < 256 → Written n e (memory_write_byte m a v)
  unfolding memory_write_byte
  write_byte-HoldsBytes m a v h hv =
      if_both (Written n e) (ltb a m.size)
        (record {
          bytes = λ k. store_byte-lt m.mem_data a v k (h.bytes k) hv;
          same_size = h.same_size;
          same_order = h.same_order;
        })
        h

  write_half-HoldsBytes :
      (m : Memory) (a v : ℕ) → HoldsBytes n e m → Written n e (memory_write_half m a v)
  unfolding memory_write_half
  write_half-HoldsBytes m a v h =
      if_both (Written n e) (m.endianess == 1)
        (two (v / 2 ^ 8 % 2 ^ 8) (v % 2 ^ 8) (omega arith) (omega arith))
        (two (v % 2 ^ 8) (v / 2 ^ 8 % 2 ^ 8) (omega arith) (omega arith))
    where
      two :
          (b1 b2 : ℕ)
          → b1 < 256
          → b2 < 256
          → Written n e (memory_write_byte (memory_write_byte m a b1).1 (add32 a 1) b2)
      two b1 b2 h1 h2 = write_byte-HoldsBytes _ _ b2 (write_byte-HoldsBytes m a b1 h h1) h2

  write_bytes-HoldsBytes :
      (m : Memory) (a b1 b2 b3 b4 : ℕ)
      → HoldsBytes n e m
      → (b1 < 256) × (b2 < 256) × (b3 < 256) × (b4 < 256)
      → HoldsBytes n e (write_bytes m a b1 b2 b3 b4)
  write_bytes-HoldsBytes m a b1 b2 b3 b4 h lt =
      let m1 = write_byte-HoldsBytes m a b1 h lt.0 in
      let m2 = write_byte-HoldsBytes _ (add32 a 1) b2 m1 lt.1 in
      let m3 = write_byte-HoldsBytes _ (add32 a 2) b3 m2 lt.2 in
      write_byte-HoldsBytes _ (add32 a 3) b4 m3 lt.3

  write_word-HoldsBytes :
      (m : Memory) (a v : ℕ) → HoldsBytes n e m → Written n e (memory_write_word m a v)
  unfolding memory_write_word
  write_word-HoldsBytes m a v h =
      if_both (Written n e) (m.endianess == 1) (write_bytes-HoldsBytes m a _ _ _ _ h (omega arith))
        (write_bytes-HoldsBytes m a _ _ _ _ h (omega arith))

module _ {t n e : ℕ} {p : ArmCore} (h : IsValid t n e p) where
  -- a register file of words in place of the old one
  with_registers : (r : Registers) → ((k : ℕ) → r k < 2 ^ 32) → IsValid t n e (record p { reg = r })
  with_registers r words = record {
    counted = h.counted;
    words = words;
    bytes = h.bytes;
    same_size = h.same_size;
    same_order = h.same_order;
  }

  holds_bytes : HoldsBytes n e p.mem
  holds_bytes = record { bytes = h.bytes; same_size = h.same_size; same_order = h.same_order }

  with_memory : (m : Memory) → HoldsBytes n e m → IsValid t n e (record p { mem = m })
  with_memory m hm = record {
    counted = h.counted;
    words = h.words;
    bytes = hm.bytes;
    same_size = hm.same_size;
    same_order = hm.same_order;
  }

  pub write_register-IsValid : (reg v : ℕ) → v < 2 ^ 32 → IsValid t n e (arm_write_register p reg v)
  unfolding arm_write_register
  write_register-IsValid reg v hv =
      rw write_register-slot
        (with_registers _ (λ k. store_word-lt p.reg (slot (get_mode p.reg) reg) v k (h.words k) hv))

  pub write_usr_register-IsValid :
      (reg v : ℕ) → v < 2 ^ 32 → IsValid t n e (arm_write_usr_register p reg v)
  unfolding arm_write_usr_register
  write_usr_register-IsValid reg v hv =
      rw write_usr_register-slot
        (with_registers _ (λ k. store_word-lt p.reg (slot 16 reg) v k (h.words k) hv))

  pub write_cpsr-IsValid : (v : ℕ) → v < 2 ^ 32 → IsValid t n e (arm_write_cpsr p v)
  unfolding arm_write_cpsr write_cpsr
  write_cpsr-IsValid v hv = with_registers _ (λ k. store_word-lt p.reg 31 v k (h.words k) hv)

  pub read_register-lt : (reg : ℕ) → arm_read_register p reg < 2 ^ 32
  unfolding arm_read_register
  read_register-lt reg =
      if_both (λ x. x < 2 ^ 32) (reg == 15) (seen_pc-lt _) (rw read_register-slot (h.words _))

  pub read_usr_register-lt : (reg : ℕ) → arm_read_usr_register p reg < 2 ^ 32
  unfolding arm_read_usr_register
  read_usr_register-lt reg =
      if_both (λ x. x < 2 ^ 32) (reg == 15) (seen_pc-lt _) (rw read_usr_register-slot (h.words _))

  pub read_cpsr-lt : arm_read_cpsr p < 2 ^ 32
  unfolding arm_read_cpsr read_cpsr
  read_cpsr-lt = h.words 31

  pub read_spsr-lt : arm_read_spsr p < 2 ^ 32
  unfolding arm_read_spsr read_spsr
  read_spsr-lt = ground (arith, h.words 32, h.words 33, h.words 34, h.words 35, h.words 36)

  pub read_byte-lt : (a old : ℕ) → old < 256 → (arm_read_byte p a old).1 < 256
  unfolding arm_read_byte memory_read_byte
  read_byte-lt a old ho = ground (arith, h.bytes a)

  pub read_half-lt : (a : ℕ) → (arm_read_half p a).1 < 2 ^ 16
  unfolding arm_read_half memory_read_half
  read_half-lt a = ground arith

  pub read_word-lt : (a : ℕ) → (arm_read_word p a).1 < 2 ^ 32
  unfolding arm_read_word memory_read_word
  read_word-lt a = ground arith

  pub write_byte-IsValid : (a v : ℕ) → v < 256 → IsValid t n e (arm_write_byte p a v).1
  unfolding arm_write_byte
  write_byte-IsValid a v hv = with_memory _ (write_byte-HoldsBytes p.mem a v holds_bytes hv)

  pub write_half-IsValid : (a v : ℕ) → IsValid t n e (arm_write_half p a v).1
  unfolding arm_write_half
  write_half-IsValid a v = with_memory _ (write_half-HoldsBytes p.mem a v holds_bytes)

  pub write_word-IsValid : (a v : ℕ) → IsValid t n e (arm_write_word p a v).1
  unfolding arm_write_word
  write_word-IsValid a v = with_memory _ (write_word-HoldsBytes p.mem a v holds_bytes)

  one_more : IsValid (add32 t 1) n e (record p { cycle_count = add32 p.cycle_count 1 })
  one_more = record {
    counted = ap (λ (c : ℕ). add32 c 1) h.counted;
    words = h.words;
    bytes = h.bytes;
    same_size = h.same_size;
    same_order = h.same_order;
  }

-- The fetch preserves the invariant, and counts a cycle.
module _ {t n e : ℕ} {p : ArmCore} (h : IsValid t n e p) where
  pub fetch-IsValid : IsValid (add32 t 1) n e (arm_fetch p).core
  unfolding arm_fetch
  fetch-IsValid = write_register-IsValid (one_more h) 15 _ (omega arith)
