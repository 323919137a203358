-- ===== src/Gdb/Numbers.antt =====
-- `write_uint32` and `read_uint32`, in every byte order of host and target.
use projet_s5_prog.Base.{ℕ, suc, ◌-◌, ◌/◌, ◌%◌, ◌^◌, ◌<◌, ◌≤◌, ◌≡◌, arith, refl, ◌∙◌}
use projet_s5_prog.Base.{Bool, true, false, List, ◌++◌}
use projet_s5_prog.Base.{ltb, if◌then◌else◌, add32, u8, u32}
use projet_s5_prog.Base.Scan.{two_hex}
use projet_s5_prog.Util.{Undefined}
use projet_s5_prog.Gdb.Number.{write_uint32, read_uint32, write_digits, read_digits, is_big_endian}
use projet_s5_prog.Gdb.Number.{set_byte}
use projet_s5_prog.Gdb.Hex.{scan_width-two_hex}

-- the four bytes of a word as text, the highest or the lowest first
abbrev pub word_text : Bool → ℕ → List ℕ
word_text big v =
    if big
    then two_hex (v / 2 ^ 24 % 2 ^ 8)
      ++ two_hex (v / 2 ^ 16 % 2 ^ 8)
      ++ two_hex (v / 2 ^ 8 % 2 ^ 8)
      ++ two_hex (v % 2 ^ 8)
    else two_hex (v % 2 ^ 8)
      ++ two_hex (v / 2 ^ 8 % 2 ^ 8)
      ++ two_hex (v / 2 ^ 16 % 2 ^ 8)
      ++ two_hex (v / 2 ^ 24 % 2 ^ 8)

div_one : (v : ℕ) → v / 1 ≡ v
div_one v = omega arith

-- The text of a word does not depend on the byte order of the host: it is that of its four bytes,
-- the highest first on a big-endian target and the lowest first on a little-endian one.
pub write_uint32-word_text :
    (host target : Bool) (v : ℕ) → write_uint32 host target v ≡ word_text target v
unfolding write_uint32 write_digits is_big_endian
write_uint32-word_text true true v = simp div_one
write_uint32-word_text true false v = simp div_one
write_uint32-word_text false true v = simp div_one
write_uint32-word_text false false v = simp div_one

read_step :
    (fuel i step value b : ℕ) (rest : List ℕ) (bytes : ℕ → ℕ)
    → b < 256
    → i < 4
    → read_digits (suc fuel) i step (two_hex b ++ rest) value bytes
      ≡ read_digits fuel (add32 i step) step rest b (set_byte bytes i b)
unfolding read_digits
read_step fuel i step value b rest bytes h k =
    rw (scan_width-two_hex b rest h, below i k, small b h) refl
  where
    below : (i : ℕ) → i < 4 → ltb i 4 ≡ true
    below i k = ground arith

    small : (b : ℕ) → b < 256 → b % 2 ^ 8 ≡ b
    small b h = omega arith

read_end :
    (fuel i step value : ℕ) (rest : List ℕ) (bytes : ℕ → ℕ)
    → 4 ≤ i
    → read_digits (suc fuel) i step rest value bytes ≡ bytes
unfolding read_digits
read_end fuel i step value rest bytes k = rw (above i k) refl
  where
    above : (i : ℕ) → 4 ≤ i → ltb i 4 ≡ false
    above i k = ground arith

-- the bytes that the loop reads, upwards from 0 or downwards from 3
module _ (a b c d : ℕ) (ha : a < 256) (hb : b < 256) (hc : c < 256) (hd : d < 256) where
  abbrev four : List ℕ → List ℕ
  four rest = two_hex a ++ two_hex b ++ two_hex c ++ two_hex d ++ rest

  read_up :
      (value : ℕ) (rest : List ℕ) (bytes : ℕ → ℕ)
      → read_digits 5 0 1 (four rest) value bytes
        ≡ set_byte (set_byte (set_byte (set_byte bytes 0 a) 1 b) 2 c) 3 d
  read_up value rest bytes =
      read_step 4 0 1 value a (two_hex b ++ two_hex c ++ two_hex d ++ rest) bytes ha (omega arith)
      ∙ read_step 3 1 1 a b (two_hex c ++ two_hex d ++ rest) _ hb (omega arith)
      ∙ read_step 2 2 1 b c (two_hex d ++ rest) _ hc (omega arith)
      ∙ read_step 1 3 1 c d rest _ hd (omega arith)
      ∙ read_end 0 4 1 d rest _ (omega arith)

  read_down :
      (value : ℕ) (rest : List ℕ) (bytes : ℕ → ℕ)
      → read_digits 5 3 (2 ^ 32 - 1) (four rest) value bytes
        ≡ set_byte (set_byte (set_byte (set_byte bytes 3 a) 2 b) 1 c) 0 d
  read_down value rest bytes =
      read_step 4 3 (2 ^ 32 - 1) value a (two_hex b ++ two_hex c ++ two_hex d ++ rest) bytes ha
        (omega arith)
      ∙ read_step 3 2 (2 ^ 32 - 1) a b (two_hex c ++ two_hex d ++ rest) _ hb (omega arith)
      ∙ read_step 2 1 (2 ^ 32 - 1) b c (two_hex d ++ rest) _ hc (omega arith)
      ∙ read_step 1 0 (2 ^ 32 - 1) c d rest _ hd (omega arith)
      ∙ read_end 0 (2 ^ 32 - 1) (2 ^ 32 - 1) d rest _ (omega arith)

-- A 32-bit word that is written and read back is the same, whatever follows its text, in every
-- combination of the byte orders of host and target.
pub read_uint32-write_uint32 :
    (u : Undefined) (host target : Bool) (v : ℕ) (rest : List ℕ)
    → v < 2 ^ 32
    → read_uint32 u host target (write_uint32 host target v ++ rest) ≡ v
unfolding read_uint32 is_big_endian
read_uint32-write_uint32 u true true v rest h =
    rw
      (
        write_uint32-word_text true true v,
        read_up (v / 2 ^ 24 % 2 ^ 8) (v / 2 ^ 16 % 2 ^ 8) (v / 2 ^ 8 % 2 ^ 8) (v % 2 ^ 8)
            (omega arith) (omega arith) (omega arith) (omega arith) (u32 u.local) rest
            (λ k. u8 u.local),
      )
      (omega arith)
read_uint32-write_uint32 u true false v rest h =
    rw
      (
        write_uint32-word_text true false v,
        read_down (v % 2 ^ 8) (v / 2 ^ 8 % 2 ^ 8) (v / 2 ^ 16 % 2 ^ 8) (v / 2 ^ 24 % 2 ^ 8)
            (omega arith) (omega arith) (omega arith) (omega arith) (u32 u.local) rest
            (λ k. u8 u.local),
      )
      (omega arith)
read_uint32-write_uint32 u false true v rest h =
    rw
      (
        write_uint32-word_text false true v,
        read_down (v / 2 ^ 24 % 2 ^ 8) (v / 2 ^ 16 % 2 ^ 8) (v / 2 ^ 8 % 2 ^ 8) (v % 2 ^ 8)
            (omega arith) (omega arith) (omega arith) (omega arith) (u32 u.local) rest
            (λ k. u8 u.local),
      )
      (omega arith)
read_uint32-write_uint32 u false false v rest h =
    rw
      (
        write_uint32-word_text false false v,
        read_up (v % 2 ^ 8) (v / 2 ^ 8 % 2 ^ 8) (v / 2 ^ 16 % 2 ^ 8) (v / 2 ^ 24 % 2 ^ 8)
            (omega arith) (omega arith) (omega arith) (omega arith) (u32 u.local) rest
            (λ k. u8 u.local),
      )
      (omega arith)
