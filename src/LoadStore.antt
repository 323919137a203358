-- ===== src/LoadStore.antt =====
-- arm_load_store.c: the load and store instructions. `Address` holds addressing modes 2 and 3,
-- `Single` the word and byte transfers, `Extra` the half-word, signed and double transfers,
-- `Multiple` the block transfers with addressing mode 4.
-- A function that returns an `int` returns it beside the new core; the functions that write back
-- the base register always return 0, and return the core alone.
pub mod Address
pub mod Single
pub mod Extra
pub mod Multiple
pub mod Count
pub mod Stored
pub mod RoundTrip
pub mod ByteTrip
pub mod Loaded
pub mod Scaled
