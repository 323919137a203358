-- ===== src/Trace/Stored.antt =====
-- The accesses to the memory, and the fetch, print what they do.
use projet_s5_prog.Base.{ℕ, ◌≡◌, refl, arith}
use projet_s5_prog.Base.{==_refl, add32, sub32}
use projet_s5_prog.Core.{ArmCore}
use projet_s5_prog.Trace.Accesses.{Traced, print_memory, read, write}
use projet_s5_prog.Trace.Accesses.{traced_read_register}
use projet_s5_prog.Trace.Replay.{shown_memory}
use projet_s5_prog.Trace.Explained.{Tracing, Explained, memory_Explained}
use projet_s5_prog.Memory.{memory_read_byte, memory_read_word}
use projet_s5_prog.Core.{
  arm_read_byte, arm_read_half, arm_read_word, arm_write_byte, arm_write_half, arm_write_word,
}
use projet_s5_prog.Trace.Accesses.{
  traced_fetch, traced_read_byte, traced_read_half, traced_read_word,
}
use projet_s5_prog.Trace.Accesses.{
  traced_write_byte, traced_write_half, traced_write_word, opcode_fetch, other_access,
}
use projet_s5_prog.Trace.Explained.{Explained-trans, silent_Explained}
use projet_s5_prog.Trace.Told.{read_register-Explained, write_register-Explained}

-- A byte that is read again shows the same, also where nothing is read.
shown_byte :
    (p : ArmCore) (address old : ℕ)
    → (arm_read_byte p address old).1
      ≡ (memory_read_byte p.mem address (arm_read_byte p address old).1).1
unfolding arm_read_byte memory_read_byte
shown_byte p address old = ground arith

module _ (s : Traced) (on : Tracing s.tracer) where
  loading_Explained :
      (size cause address value : ℕ)
      → value ≡ shown_memory s.core.mem size address value
      → Explained s (print_memory s read size cause address value)
  loading_Explained size cause address value e =
      memory_Explained s on s.core read size cause address value (rw (← e, ==_refl value) refl)

  pub read_byte-Explained : (address old : ℕ) → Explained s (traced_read_byte s address old).2
  unfolding traced_read_byte
  read_byte-Explained address old =
      loading_Explained 1 other_access address _ (shown_byte s.core address old)

  pub read_half-Explained : (address : ℕ) → Explained s (traced_read_half s address).2
  unfolding traced_read_half arm_read_half
  read_half-Explained address = loading_Explained 2 other_access address _ refl

  pub read_word-Explained : (address : ℕ) → Explained s (traced_read_word s address).2
  unfolding traced_read_word arm_read_word
  read_word-Explained address = loading_Explained 4 other_access address _ refl

  pub write_byte-Explained : (address value : ℕ) → Explained s (traced_write_byte s address value).1
  unfolding traced_write_byte arm_write_byte
  write_byte-Explained address value =
      memory_Explained s on (arm_write_byte s.core address value).1 write 1 other_access address
        value refl

  pub write_half-Explained : (address value : ℕ) → Explained s (traced_write_half s address value).1
  unfolding traced_write_half arm_write_half
  write_half-Explained address value =
      memory_Explained s on (arm_write_half s.core address value).1 write 2 other_access address
        value refl

  pub write_word-Explained : (address value : ℕ) → Explained s (traced_write_word s address value).1
  unfolding traced_write_word arm_write_word
  write_word-Explained address value =
      memory_Explained s on (arm_write_word s.core address value).1 write 4 other_access address
        value refl

-- The fetch reads R15, reads a word, and writes R15.
module _ (s : Traced) (on : Tracing s.tracer) where
  pub fetch-Explained : Explained s (traced_fetch s).2
  unfolding traced_fetch
  fetch-Explained =
      let counted : Traced = record s {
        core = record s.core { cycle_count = add32 s.core.cycle_count 1 };
      } in
      let start : Explained s counted = silent_Explained s counted on refl refl in
      let r1 = traced_read_register counted 15 in
      let read_pc : Explained counted r1.1 = read_register-Explained counted on 15 (omega arith) in
      let address = sub32 r1.0 4 in
      let value = (memory_read_word r1.1.core.mem address).1 in
      let loaded : Explained r1.1 (print_memory r1.1 read 4 opcode_fetch address value) =
        loading_Explained r1.1 read_pc.tracing 4 opcode_fetch address value refl in
      let written =
        write_register-Explained (print_memory r1.1 read 4 opcode_fetch address value)
          loaded.tracing 15 (add32 address 4) (omega arith) in
      Explained-trans start (Explained-trans read_pc (Explained-trans loaded written))
