-- ===== src/Lib.antt =====
-- A model of Projet_S5_PROG, a simulator of an ARM processor in C.
--
-- The program. `arm_simulator.c` creates a memory (`memory.c`), a register file (`registers.c`) and
-- the processor (`arm_core.c`), and lets a debugger drive it over the GDB protocol
-- (`gdb_protocol.c`). A step (`arm_step` of `arm_instruction.c`) fetches a word, picks a handler by
-- the class of the instruction, and the handler (`arm_data_processing.c`, `arm_load_store.c`,
-- `arm_branch_other.c`) reads and writes the registers and the memory through `arm_core.c`. A
-- code that is not 0 would raise an exception (`arm_exception.c`).
--
-- Which file models which part. `Base` has the tests, the 32-bit arithmetic and the laws of the bit
-- operations that all share.
-- - `Util`: the bit fields and byte reversals of `util.h`, `asr` and `ror` of `util.c`.
-- - `Memory`: `memory.c`. The bytes are a function of the address; a byte access tests its bounds,
--   and a half-word or a word is two or four byte accesses in the order of the source.
--   `Memory.Bytes` and `Memory.Words` are about its accesses.
-- - `Registers`: `registers.c`. The array `reg_data` is a function of the index, written in the
--   source's index arithmetic for the banked registers; `Registers.Slot` names the index,
--   `Registers.Banks` and `Registers.Aliases` are about one mode and about several.
-- - `Core`: `arm_core.c`, where `arm_read_register` adds the pipeline offset to R15, with the fetch,
--   `conditionPassed` and `rotateRight`; `Core.Conditions` and `Core.Rotate` are about the
--   last two, `Core.Written` about a register read after a write, `Core.Ones` about shifted masks.
-- - `Exception`: `arm_exception.c` and `arm_create`; `Fetch` is about the reset and the fetch.
-- - `DataProcessing`: `arm_data_processing.c`, with the fields and flags in `Fields`, the operands
--   of addressing mode 1 in `Shifter`. `Serial` describes these operands independently, by a register
--   that moves by one bit at a time: `Closed`, `Cycle` and `Amount` compute where it stands after a
--   number of moves, `Bounds` what fits into it, `Shifts` and `Operand` compare it with the source.
--   `Logical` is about the bitwise instructions, bit by bit (`Base.OneBit`) and as a whole;
--   `Arithmetic` is about the sums, alone and in a whole instruction, and `Carry`, `Flags`,
--   `FlagsKept`, `Compared`, `Overflow` and `SignedShift` are about the flags and shifts.
-- - `LoadStore`: `arm_load_store.c`, with addressing modes 2 and 3 in `Address`, the word and byte
--   transfers in `Single`, the others of one or two registers in `Extra`, the block transfers in
--   `Multiple`; `Count`, `Stored` and `Loaded` are about the block transfers, `RoundTrip` and `ByteTrip`
--   about STR and LDR, STRB and LDRB, `Scaled` about a scaled offset.
-- - `Branch`: `arm_branch_other.c`; `Branch.Targets` is about the branches.
-- - `Instruction`: `arm_instruction.c`; `Instruction.Skipped`, `Instruction.Outcomes` and
--   `Instruction.Stepped` are about whole instructions and steps.
-- - `Gdb`: `gdb_protocol.c` with the number formats of the C library that it uses (`Base.Scan`), and
--   `scanner.l`. `State` has the connection and the answers, `Number` the words in hexadecimal,
--   `Handlers` a function per request, `Packet` the check and the dispatch, `Scanner` the tokens of
--   the stream. `Hex`, `Numbers`, `Framing`, `Registers`, `Continue`, `Reading` and `Written` are
--   about the formats and the requests, `Restored` about the two requests for all registers,
--   `Returns` about the requests that end, `Tokens`, `Requests` and `Stream` about the scanner, and
--   `Safety` and `Session` about the processor's invariant under requests and interrupts.
-- - `Debug`: the list of traced files of `debug.c`; `Search`, `Insert` and `Full` are about its two
--   operations, `Listed` about both beside the names that were added.
-- - `Trace`: the state of `trace.c`; `Stack` and `Nesting` are about the locations of nested calls.
--   `Accesses` has the accesses of `arm_core.c` again, with the lines that they print, and `Names` and
--   `State` have the names of `arm_constants.c` and `arm_print_state`. `Replay` reads a trace as
--   changes of the registers and the memory; `Explained`, `Told`, `Stored` and `Runs` are about the
--   traces of sequences of accesses, `Shown` about the printed state.
-- - `MemoryTest`: `memory_test.c`, the tests of `memory.c` on a machine of either byte order.
-- - `Options`: the options of `main` in `arm_simulator.c`; `Options.Files` is about those that name
--   files to trace and all of a command line, `Options.Given` about the others.
-- - `Irq`: the names of exceptions of `arm_constants.c`, and their search in `send_irq.c`.
-- - `Invariant`: the invariant `IsValid` of the processor state, taken through every handler.
-- - `Examples`: concrete data, runs and instances.
--
-- Names are those of the source in snake case. A function that changes the processor returns the
-- new one beside its return code, and the dispatchers drop the codes where the source does. A
-- function is split only where the C function has parts: `calcs_result` and `calcs_carry` of
-- `calcs_procedure`, `branch_first` and `branch_exchange` of `blx1_procedure`, the scaled index of
-- `addr_Sca_Offset`, the cases of `arm_execute_instruction`, the loops and tests inside the functions
-- of `gdb_protocol.c`.
--
-- Numbers. A `uint32_t` or an `int32_t` is a natural number below 2 ^ 32, each operation of C takes
-- its result modulo 2 ^ 32, and the comparison of two `int32_t` is `les32`. Signed overflow, which C
-- leaves open, is taken modulo 2 ^ 32 too. Shifts by 32 or more and local variables that are
-- read unassigned have the values that a parameter, the record `Undefined`, gives them, those of
-- `address`, `size` and `value` of a request for memory independently. `malloc` and `calloc` are
-- taken to succeed; the memory that `malloc` hands out holds arbitrary bytes.
--
-- Texts are lists of bytes. `host` and `target` are the byte orders of the machine that runs the
-- simulator and of the simulated one. What `getopt_long` finds on the command line and which files
-- `fopen` can open are parameters. A request ends served, by `exit`, by a failing `assert`, or in
-- behaviour that C leaves undefined; the debugger drives the processor under a lock, so that
-- requests and interrupts are a sequence. A write to the connection is taken to succeed. After the
-- request to end the session, which shuts the sending side down, the next write ends the program:
-- what `sent` holds behind such a request is not sent.
--
-- Loops. The loops over a word's digits run on 5 units of fuel for 4 bytes, the binary search on 65
-- for at most 64 entries, the search for an exception's name on 8, the scanner on one more than the
-- bytes of its stream. `cont` runs the program until a breakpoint, on fuel of its own, and has the
-- outcome `running` where this does not suffice. `nbSetBits` runs on 17 units of fuel: each round
-- clears one of 16 bits. The loops of the block transfers count up to a constant and are recursions
-- on the rounds left. `exit(0)` is an outcome of its own, beside that of a step that returns.
--
-- The handlers are modelled on the processor alone. `Trace.Accesses` has the accesses a second time,
-- on the processor and the tracer. A line about an access is kept as the arguments of its `fprintf`,
-- the text of `arm_print_state` as bytes.
--
-- What is not modelled: the debug messages; the destructors; `set_trace_file`; the two calls of
-- `trace_arm_state` in `gdb_protocol.c`; the sockets and threads of `arm_simulator.c` and
-- `send_irq.c`, and what they print;
-- `arm_init`, which is empty; `csapp.c`, a copied library; and `scanner.c`, which flex generates
-- from `scanner.l`.
pub mod Base
pub mod Util
pub mod Memory
pub mod MemoryTest
pub mod Registers
pub mod Core
pub mod Exception
pub mod DataProcessing
pub mod LoadStore
pub mod Branch
pub mod Instruction
pub mod Fetch
pub mod Gdb
pub mod Debug
pub mod Irq
pub mod Trace
pub mod Options
pub mod Invariant
pub mod Examples
