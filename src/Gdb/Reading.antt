-- ===== src/Gdb/Reading.antt =====
-- The answers to requests for memory.
use projet_s5_prog.Base.{
  ℕ, zero, suc, ◌+◌, ◌*◌, ◌-◌, ◌≡◌, refl, arith, List, [], ◌∷◌, ◌++◌, ◌∙◌, ap,
}
use projet_s5_prog.Base.{ltb, ◌&&◌, if◌then◌else◌, add32, u8, length, c_string}
use projet_s5_prog.Base.Scan.{two_hex}
use projet_s5_prog.Util.{Undefined}
use projet_s5_prog.Memory.{memory_read_byte}
use projet_s5_prog.Core.{ArmCore, arm_read_byte}
use projet_s5_prog.Gdb.State.{
  Gdb, served, faulted, framed, checksum, max_packet_size, gdb_transmit_packet, gdb_send_buffer,
}
use projet_s5_prog.Gdb.Handlers
use projet_s5_prog.Gdb.Handlers.{memory_digits, scan_two}
use projet_s5_prog.Gdb.Framing.{length-append}

pub c_string-two_hex : (b : ℕ) (s : List ℕ) → c_string (two_hex b ++ s) ≡ two_hex b ++ c_string s
c_string-two_hex b s = ground arith

pub digits_step :
    (p : ArmCore) (size address value : ℕ)
    → memory_digits p (suc size) address value
      ≡ two_hex (arm_read_byte p address value).1
        ++ memory_digits p size (add32 address 1) (arm_read_byte p address value).1
unfolding memory_digits arm_read_byte memory_read_byte
digits_step p size address value = ground arith

pub digits_none : (p : ArmCore) (address value : ℕ) → memory_digits p 0 address value ≡ []
unfolding memory_digits
digits_none p address value = refl

digits-length :
    (p : ArmCore) (size address value : ℕ) → length (memory_digits p size address value) ≡ 2 * size
unfolding memory_digits
digits-length p zero address value = refl
digits-length p (suc size) address value =
    rw (digits_step p size address value)
      (omega (arith, digits-length p size (add32 address 1) (arm_read_byte p address value).1))

digits-c_string :
    (p : ArmCore) (size address value : ℕ)
    → c_string (memory_digits p size address value) ≡ memory_digits p size address value
unfolding memory_digits
digits-c_string p zero address value = refl
digits-c_string p (suc size) address value = rw (digits_step p size address value) (
    c_string-two_hex (arm_read_byte p address value).1
      (memory_digits p size (add32 address 1) (arm_read_byte p address value).1)
    ∙ ap (λ (s : List ℕ). two_hex (arm_read_byte p address value).1 ++ s)
        (digits-c_string p size (add32 address 1) (arm_read_byte p address value).1))

pub framed-length : (s : List ℕ) → length (framed s) ≡ length s + 4
unfolding framed
framed-length s = omega (arith, length-append s (b'#' ∷ two_hex (checksum 0 s)))

fits :
    (p : ArmCore) (size address value : ℕ)
    → (ltb (length (framed (memory_digits p size address value))) max_packet_size
        && ltb (length (memory_digits p size address value)) (max_packet_size - 1))
      ≡ ltb size 510
fits p size address value =
    ground (
      arith,
      framed-length (memory_digits p size address value),
      digits-length p size address value,
    )

-- A request for memory is answered with two digits for every byte asked for, inside the memory and
-- past its end; the answer faults where the digits and the frame do not fit in the packet, which
-- is from 510 bytes on.
pub read_memory_answer :
    (u : Undefined) (gdb : Gdb) (data' : List ℕ)
    → Handlers.read_memory u gdb data' ≡ (
        if ltb (scan_two u data').1 510
        then served (
            gdb_transmit_packet (record gdb {
              packet =
                  framed
                    (memory_digits gdb.arm (scan_two u data').1 (scan_two u data').0 (u8 u.local));
            }))
        else faulted)
unfolding Handlers.read_memory gdb_send_buffer
read_memory_answer u gdb data' =
    let (address, size) = scan_two u data' in
    rw (digits-c_string gdb.arm size address (u8 u.local), fits gdb.arm size address (u8 u.local))
      refl
