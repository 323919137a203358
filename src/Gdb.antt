-- ===== src/Gdb.antt =====
-- gdb_protocol.c: the server that the debugger drives. `Number` holds the hexadecimal numbers,
-- `State` the state and the sending of packets, `Handlers` one handler for each request, `Packet`
-- the analysis of a request and its dispatch.
pub mod Number
pub mod State
pub mod Handlers
pub mod Packet
pub mod Hex
pub mod Numbers
pub mod Framing
pub mod Registers
pub mod Requests
pub mod Restored
pub mod Returns
pub mod Safety
pub mod Session
pub mod Continue
pub mod Reading
pub mod Written
pub mod Scanner
pub mod Stream
pub mod Tokens
