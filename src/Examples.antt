-- ===== src/Examples.antt =====
-- Concrete runs: the data, the tests, and the properties of the other modules at concrete inputs.
pub mod Data
pub mod Tests
pub mod Accesses
pub mod Handlers
pub mod Transfers
pub mod Server
pub mod Stream
pub mod Operands
pub mod Printing
