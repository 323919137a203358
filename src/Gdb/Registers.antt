-- ===== src/Gdb/Registers.antt =====
-- The requests that read and write registers.
use projet_s5_prog.Base.{ℕ, zero, suc, ◌+◌, ◌*◌, ◌%◌, ◌^◌, ◌<◌, ◌≤◌, ◌≡◌, ◌≢◌, arith, refl}
use mathlib.Core.List.{append_assoc}
use projet_s5_prog.Base.{Bool, true, false, List, ◌++◌, ◌∙◌, ap, fun_ext}
use projet_s5_prog.Base.{drop, sub32, codes, ==_ne}
use projet_s5_prog.Util.{Undefined}
use projet_s5_prog.Registers.{Registers, store_word, get_mode, read_register, write_register}
use projet_s5_prog.Registers.{read_cpsr, write_cpsr}
use projet_s5_prog.Registers.Slot.{slot, read_register-slot, write_register-slot}
use projet_s5_prog.Core.{ArmCore, arm_read_register, arm_write_register, arm_read_cpsr}
use projet_s5_prog.Core.{arm_write_cpsr}
use projet_s5_prog.Fetch.{stored_pc, minus_four}
use projet_s5_prog.Gdb.Number.{write_uint32, write_digits, is_big_endian}
use projet_s5_prog.Gdb.Numbers.{write_uint32-word_text, read_uint32-write_uint32}
use projet_s5_prog.Gdb.State.{Gdb, gdb_send_data}
use projet_s5_prog.Gdb.Handlers
use projet_s5_prog.Invariant.{IsValid}
use projet_s5_prog.Invariant.Access.{read_register-lt, read_cpsr-lt}

-- storing what a word holds changes nothing
store_same : (r : Registers) (i : ℕ) → store_word r i (r i) ≡ r
store_same r i = fun_ext (λ k. same k)
  where
    same : (k : ℕ) → store_word r i (r i) k ≡ r k
    same k = ground (arith, ap r)

-- eight digits of a word are skipped at once
drop_word :
    (host target : Bool) (v : ℕ) (rest : List ℕ)
    → drop 8 (write_uint32 host target v ++ rest) ≡ rest
drop_word host true v rest = rw (write_uint32-word_text host true v) refl
drop_word host false v rest = rw (write_uint32-word_text host false v) refl

-- the text that `read_general_registers` sends
abbrev pub registers_text : Bool → Bool → ArmCore → List ℕ
registers_text host target p =
    Handlers.general_digits host target p 15 0
    ++ (write_uint32 host target (sub32 (arm_read_register p 15) 4)
        ++ (Handlers.unavailable 24
            ++ (Handlers.unavailable 1 ++ write_uint32 host target (arm_read_cpsr p))))

write_same : (p : ArmCore) (i : ℕ) → i ≢ 15 → arm_write_register p i (arm_read_register p i) ≡ p
unfolding arm_write_register arm_read_register
write_same p i other =
    rw
      (
        ==_ne i 15 other,
        read_register-slot,
        write_register-slot,
        store_same p.reg (slot (get_mode p.reg) i),
      )
      refl

write_pc_same :
    (p : ArmCore)
    → stored_pc p < 2 ^ 32
    → stored_pc p % 4 ≡ 0
    → arm_write_register p 15 (sub32 (arm_read_register p 15) 4) ≡ p
unfolding arm_write_register arm_read_register read_register write_register
write_pc_same p small aligned = rw (minus_four (p.reg 30) small aligned, store_same p.reg 30) refl

write_cpsr_same : (p : ArmCore) → arm_write_cpsr p (arm_read_cpsr p) ≡ p
unfolding arm_write_cpsr arm_read_cpsr read_cpsr write_cpsr
write_cpsr_same p = rw (store_same p.reg 31) refl

module _ (u : Undefined) (host target : Bool) where
  -- one word of the text, written back
  write_general_step :
      (left i v : ℕ) (rest : List ℕ) (p : ArmCore)
      → v < 2 ^ 32
      → Handlers.write_general u host target (suc left) i (write_uint32 host target v ++ rest) p
        ≡ Handlers.write_general u host target left (i + 1) rest (arm_write_register p i v)
  unfolding Handlers.write_general
  write_general_step left i v rest p h =
      rw (drop_word host target v rest, read_uint32-write_uint32 u host target v rest h) refl

  write_general_end :
      (i : ℕ) (rest : List ℕ) (p : ArmCore) → Handlers.write_general u host target 0 i rest p ≡ p
  unfolding Handlers.write_general
  write_general_end i rest p = refl

  module _ {t n e : ℕ} {p : ArmCore} (h : IsValid t n e p) where
    nothing_left : (k more : ℕ) → k ≡ 0 + more → k ≡ more
    nothing_left k more same = omega arith

    i_end : (i : ℕ) → i + 0 ≡ i
    i_end i = omega arith

    below : (i left : ℕ) → i + suc left ≤ 15 → i ≢ 15
    below i left b = omega arith

    -- `left` registers of the text, with `more` to come
    write_general_loop :
        (left more k i : ℕ) (rest : List ℕ)
        → k ≡ left + more
        → i + left ≤ 15
        → Handlers.write_general u host target k i
            (Handlers.general_digits host target p left i ++ rest)
            p
          ≡ Handlers.write_general u host target more (i + left) rest p
    unfolding Handlers.general_digits
    write_general_loop zero more k i rest e' b = rw (nothing_left k more e', i_end i) refl
    write_general_loop (suc left) more zero i rest e' b = absurd (omega arith)
    write_general_loop (suc left) more (suc k) i rest e' b =
        rw
          (append_assoc (write_uint32 host target (arm_read_register p i))
            (Handlers.general_digits host target p left (i + 1)) rest)
          (write_general_step k i (arm_read_register p i)
              (Handlers.general_digits host target p left (i + 1) ++ rest) p (read_register-lt h i)
            ∙ rw (write_same p i (below i left b)) (
                write_general_loop left more k (i + 1) rest (omega arith) (omega arith)
                ∙ ap (λ (j : ℕ). Handlers.write_general u host target more j rest p) (omega arith)))

-- what stands behind the registers R0 to R14, and behind the program counter
abbrev status_text : Bool → Bool → ArmCore → List ℕ
status_text host target p =
    Handlers.unavailable 24
    ++ (Handlers.unavailable 1 ++ write_uint32 host target (arm_read_cpsr p))

general_part :
    (u : Undefined) (host target : Bool) {t n e : ℕ} (p : ArmCore)
    → IsValid t n e p
    → stored_pc p % 4 ≡ 0
    → (rest : List ℕ)
    → Handlers.write_general u host target 16 0 (registers_text host target p ++ rest) p ≡ p
general_part u host target p h aligned rest =
    rw
      (
        append_assoc (Handlers.general_digits host target p 15 0)
            (write_uint32 host target (sub32 (arm_read_register p 15) 4)
              ++ status_text host target p)
            rest,
        write_general_loop u host target h 15 1 16 0
            ((write_uint32 host target (sub32 (arm_read_register p 15) 4)
                ++ status_text host target p)
              ++ rest)
            refl (omega arith),
        append_assoc (write_uint32 host target (sub32 (arm_read_register p 15) 4))
            (status_text host target p) rest,
        write_general_step u host target 0 15 (sub32 (arm_read_register p 15) 4)
            (status_text host target p ++ rest) p (omega arith),
        write_general_end u host target (15 + 1) (status_text host target p ++ rest),
        write_pc_same p (h.words 30) aligned,
      )
      refl

-- the CPSR stands behind 41 words
cpsr_part :
    (host target : Bool) (p : ArmCore) (rest : List ℕ)
    → drop (8 * 41) (registers_text host target p ++ rest)
      ≡ write_uint32 host target (arm_read_cpsr p) ++ rest
unfolding Handlers.general_digits Handlers.unavailable write_uint32 write_digits is_big_endian
cpsr_part true true p rest = refl
cpsr_part true false p rest = refl
cpsr_part false true p rest = refl
cpsr_part false false p rest = refl

-- the request that writes all registers, with this text
pub text_restored :
    (u : Undefined) (host target : Bool) (t n e : ℕ) (gdb : Gdb) (rest : List ℕ)
    → IsValid t n e gdb.arm
    → stored_pc gdb.arm % 4 ≡ 0
    → Handlers.write_general_registers u host target gdb
        (registers_text host target gdb.arm ++ rest)
      ≡ gdb_send_data gdb (codes "OK")
unfolding Handlers.write_general_registers
text_restored u host target t n e gdb rest h aligned =
    rw
      (
        general_part u host target gdb.arm h aligned rest,
        cpsr_part host target gdb.arm rest,
        read_uint32-write_uint32 u host target (arm_read_cpsr gdb.arm) rest (read_cpsr-lt h),
        write_cpsr_same gdb.arm,
      )
      refl
