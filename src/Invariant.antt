-- ===== src/Invariant.antt =====
-- The invariant of a running simulator: every register word is a 32-bit word, every memory
-- cell is a byte, and the cycle count, the memory's size and its byte order are the given ones. `Access` is about
-- the accesses of arm_core.c, `Shifted` and `Data` about arm_data_processing.c, `Transfer`, `Single`,
-- `Extra` and `Block` about arm_load_store.c, `Run` about the other handlers and the steps.
pub mod Access
pub mod Shifted
pub mod Data
pub mod Transfer
pub mod Single
pub mod Extra
pub mod Block
pub mod Run
use projet_s5_prog.Base.{ℕ, ◌^◌, ◌<◌, ◌≡◌}
use projet_s5_prog.Core.{ArmCore}

pub record IsValid (cycles size endianess : ℕ) (p : ArmCore) : Type 0 where
  pub counted : p.cycle_count ≡ cycles
  pub words : (k : ℕ) → p.reg k < 2 ^ 32
  pub bytes : (a : ℕ) → p.mem.mem_data a < 256
  pub same_size : p.mem.size ≡ size
  pub same_order : p.mem.endianess ≡ endianess
