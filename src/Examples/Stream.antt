-- ===== src/Examples/Stream.antt =====
-- The properties of the scanner, the requests, the traces and the names at concrete inputs.
use projet_s5_prog.Base.{
  ℕ, ◌≡◌, ◌≢◌, arith, refl, inr, Bool, true, false, List, [], ◌∷◌, ◌++◌, none, some,
}
use projet_s5_prog.Base.{codes, if◌then◌else◌, u8, ltb, ◌==◌, strcmp, is_lt}
use projet_s5_prog.Base.{◌||◌}
use projet_s5_prog.Base.Text.{index}
use projet_s5_prog.Base.Order.{strcmp_same}
use projet_s5_prog.Debug.Search.{IsSorted}
use projet_s5_prog.Base.Scan.{
  two_hex, scan_hex, scan_width, digits, number, hex_value, is_space, skip_space, cut,
}
use projet_s5_prog.Memory.{memory_create, memory_read_word, memory_read_byte}
use projet_s5_prog.Registers.{registers_create, read_register, write_register, write_usr_register}
use projet_s5_prog.Registers.{write_cpsr, read_cpsr, get_mode}
use projet_s5_prog.Exception.{arm_create, arm_exception}
use projet_s5_prog.Core.{
  arm_read_register, arm_read_word, arm_fetch, arm_write_cpsr, arm_write_register,
}
use projet_s5_prog.Core.{arm_write_usr_register, condition_passed, arm_read_cpsr, rotate_right}
use projet_s5_prog.DataProcessing.Fields.{get_shifter_operand, packing_shifter, get_cflag}
use projet_s5_prog.DataProcessing.Shifter.{get_operande_and_carry_out, imm}
use projet_s5_prog.DataProcessing.{arm_data_processing, calcs_procedure, calcs_result}
use projet_s5_prog.Instruction.{arm_step, arm_execute_instruction, execute_class, raise}
use projet_s5_prog.Branch.{ran}
use projet_s5_prog.Gdb.State.{
  Gdb, served, faulted, running, checksum, framed, gdb_init_data, gdb_send_data, gdb_send_buffer,
}
use projet_s5_prog.Gdb.State.{gdb_transmit_packet, gdb_send_stop_reason}
use projet_s5_prog.Gdb.Handlers
use projet_s5_prog.Gdb.Handlers.{at_breakpoint, memory_digits, scan_two}
use projet_s5_prog.Gdb.Continue.{Runs, here, onward, cont_stops}
use projet_s5_prog.Gdb.Reading.{read_memory_answer}
use projet_s5_prog.Gdb.Written.{with_memory, digits_of, escaped, read_memory-write_memory_binary}
use projet_s5_prog.Gdb.Scanner.{character, packet, next_token, act, gdb_scanner}
use projet_s5_prog.Gdb.Requests.{Message, accepted, again, request}
use projet_s5_prog.Gdb.Stream.{LacksC, append-LacksC, gdb_scanner-Returns}
use projet_s5_prog.Gdb.Tokens.{Fits, act-Fits, IsPlain, next_token-framed}
use projet_s5_prog.Debug.{Debugged, add_debug_to, is_debugged}
use projet_s5_prog.Debug.Full.{add_debug_to_full}
use projet_s5_prog.Debug.Listed.{add_all, Traced, is_debugged-Traced}
use projet_s5_prog.Irq.{Named, chosen_irq, chosen_irq-Named}
use projet_s5_prog.Trace.{Tracer, trace_start, trace_print_location, trace_memory}
use projet_s5_prog.Trace.Nesting.{access, return, location-Calls}
use projet_s5_prog.Options.{Settings, ready, defaults, configure, debug_names}
use projet_s5_prog.Options.Given.{port_of, last_argument, is_given, flag_bits}
use projet_s5_prog.Options.Files.{configure-Traced}
use projet_s5_prog.Examples.Data.{zeros, machine, program, core_of}

abbrev server : Gdb
server = gdb_init_data machine

-- a request, whose answer is accepted, one with a wrong sum, and the answer once more
abbrev messages : List Message
messages = request 0x67 b'g' [] ∷ accepted ∷ request 0 b'g' [] ∷ again ∷ []

-- stray bytes and a request
abbrev noise : List ℕ
noise = codes "+x$g#67"

noise-LacksC : LacksC noise
noise-LacksC =
    append-LacksC (codes "+x$") (codes "g#67") (omega arith, (omega arith, (omega arith, tt)))
      (omega arith, (omega arith, (omega arith, (omega arith, tt))))

gdb_scanner-Returns_example : gdb_scanner zeros false true 9 machine noise ≢ running
gdb_scanner-Returns_example = gdb_scanner-Returns zeros false true 9 machine noise noise-LacksC

act-Fits_example :
    Fits (act zeros false false 9 (character b'x') (record { gdb = server; buffer = codes "ab" }))
act-Fits_example = act-Fits zeros false false 9 (character b'x') _ (omega arith)

IsPlain-request : IsPlain (codes "g")
IsPlain-request = (omega arith, omega arith, tt)

next_token-framed_example :
    next_token b'$' (codes "g" ++ b'#' ∷ (two_hex (checksum 0 (codes "g")) ++ codes "+"))
    ≡ (packet (framed (codes "g")), codes "+")
next_token-framed_example = next_token-framed (codes "g") (codes "+") IsPlain-request

read_memory_answer_example : Handlers.read_memory zeros server (codes "0,4") ≡ (
    if ltb (scan_two zeros (codes "0,4")).1 510
    then served (
        gdb_transmit_packet (record server {
          packet = framed (
              memory_digits server.arm
                (scan_two zeros (codes "0,4")).1
                (scan_two zeros (codes "0,4")).0
                (u8 0));
        }))
    else faulted)
read_memory_answer_example = read_memory_answer zeros server (codes "0,4")

is_debugged-Traced_example :
    (d : Debugged) × (add_all (codes "b.c" ∷ codes "a.c" ∷ []) ≡ some d)
    × Traced (codes "b.c" ∷ codes "a.c" ∷ []) (codes "a.c") (is_debugged d (codes "a.c"))
is_debugged-Traced_example =
    is_debugged-Traced (codes "b.c" ∷ codes "a.c" ∷ []) (codes "a.c") (omega arith)

chosen_irq-Named_example : Named (codes "data abort") (chosen_irq (some (codes "data abort")))
chosen_irq-Named_example = chosen_irq-Named (codes "data abort")

abbrev tracer : Tracer
tracer = record trace_start { trace_flags = 9 }

location-Calls_example :
    trace_print_location (trace_memory tracer 0 1 4 1 0 0) ≡ trace_print_location tracer
location-Calls_example =
    location-Calls tracer (trace_memory tracer 0 1 4 1 0 0) (inr refl) (access 0 1 4 1 0 0 return)

-- `}#` to address 8
abbrev written : List ℕ
written = 0x7D ∷ 0x23 ∷ []

abbrev special : ℕ → Bool
special b = if b == 0x7D then true else b == 0x23

abbrev write_data : List ℕ
write_data = codes "8,2:" ++ (escaped special written ++ (0 ∷ []))

write_parsed : scan_two zeros write_data ≡ (8, 2)
unfolding scan_two scan_hex scan_width digits number hex_value is_space skip_space cut
write_parsed = refl

read_parsed : scan_two zeros (codes "8,2") ≡ (8, 2)
unfolding scan_two scan_hex scan_width digits number hex_value is_space skip_space cut
read_parsed = refl

content_found : index b':' write_data ≡ some (b':' ∷ (escaped special written ++ (0 ∷ [])))
unfolding index
content_found = refl

server_arm : server.arm ≡ machine
unfolding gdb_init_data
server_arm = refl

abbrev filled : Gdb
filled = record server { arm = with_memory machine 8 written }

read_memory-write_memory_binary_example :
    (Handlers.write_memory_binary zeros (record server { arm = machine }) write_data
      ≡ gdb_send_data filled (codes "OK"))
    × (Handlers.read_memory zeros filled (codes "8,2") ≡ gdb_send_buffer filled (digits_of written))
read_memory-write_memory_binary_example =
    read_memory-write_memory_binary zeros special (record server { arm = machine }) filled
      write_data (codes "8,2") written (0 ∷ []) 8 refl (omega arith, (omega arith, tt))
      (omega arith) (omega arith) (omega arith) write_parsed content_found read_parsed refl

-- 64 files of one name
abbrev full : Debugged
full = record { debugged_files = λ i. codes "m.c"; nb_debugged_files = 64 }

full-IsSorted : IsSorted full
full-IsSorted i j le lt = rw (strcmp_same (codes "m.c")) refl

add_debug_to_full_example :
    add_debug_to full (codes "a.c")
    ≡ (if is_lt (strcmp (full.debugged_files 63) (codes "a.c")) then some full else none)
add_debug_to_full_example = add_debug_to_full full (codes "a.c") refl full-IsSorted

-- `ADD R0, R0, #1`, then the breakpoint of the debugger
abbrev stopping : ℕ → ℕ
stopping a = if a == 4 || a == 6 then 0xF0 else if a == 7 then 0xE7 else program a

abbrev fresh : Gdb
fresh = record server { arm = arm_create 7 (memory_create stopping 64 0) }

abbrev stopped : Gdb
stopped = record fresh { arm = core_of (arm_step zeros fresh.arm); target_exception = 0 }

free_start : at_breakpoint fresh.arm ≡ false
unfolding arm_read_word memory_read_word memory_read_byte memory_create arm_read_register
    read_register arm_create arm_exception arm_write_cpsr arm_write_usr_register write_usr_register
    write_cpsr registers_create
free_start = refl

one_step : arm_step zeros fresh.arm ≡ ran 0 stopped.arm
unfolding arm_step raise arm_execute_instruction execute_class arm_fetch arm_read_register
    read_register memory_create memory_read_word memory_read_byte arm_create arm_exception
    arm_write_cpsr arm_write_usr_register write_usr_register write_cpsr registers_create
one_step = refl

breakpoint_next : at_breakpoint stopped.arm ≡ true
unfolding arm_step raise arm_execute_instruction execute_class arm_fetch arm_read_register
    read_register memory_create memory_read_word memory_read_byte arm_create arm_exception
    arm_write_cpsr arm_write_usr_register write_usr_register write_cpsr registers_create
    arm_data_processing calcs_procedure calcs_result get_operande_and_carry_out imm
    get_shifter_operand packing_shifter get_cflag condition_passed arm_read_cpsr read_cpsr
    arm_write_register write_register get_mode rotate_right arm_read_word
breakpoint_next = refl

stop_run : Runs zeros 1 fresh stopped
stop_run = onward free_start one_step here

cont_stops_example : Handlers.cont zeros 5 fresh ≡ gdb_send_stop_reason stopped
cont_stops_example = cont_stops zeros 1 5 fresh stopped stop_run breakpoint_next (omega arith)

abbrev reported : Gdb
reported = record stopped { packet = framed (codes "S05"); sent = framed (codes "S05") ∷ [] }

stop_answer : gdb_send_stop_reason stopped ≡ served reported
unfolding gdb_send_stop_reason gdb_send_data gdb_send_buffer gdb_transmit_packet framed checksum
    gdb_init_data
stop_answer = refl

-- `--debug a.c --trace-memory --irq-port 70`
abbrev options : List (ℕ × List ℕ)
options = (b'd', codes "a.c") ∷ (b'm', []) ∷ (b'i', codes "70") ∷ []

configure-Traced_example :
    (x : Settings) × (configure (λ file. false) options defaults ≡ ready x)
    × (x.gdb_port ≡ port_of (last_argument b'g' none options))
    × (x.irq_port ≡ port_of (last_argument b'i' none options))
    × (x.trace_file ≡ last_argument b't' none options)
    × (x.tracer.trace_flags
        ≡ flag_bits
            (is_given b'm' false options)
            (is_given b'r' false options)
            (is_given b's' false options)
            (is_given b'p' false options))
    × Traced (debug_names options []) (codes "b.c") (is_debugged x.debugged (codes "b.c"))
configure-Traced_example =
    configure-Traced (λ file. false) options (codes "b.c") (refl, (refl, (refl, tt))) (omega arith)
