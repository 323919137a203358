-- ===== src/Gdb/Hex.antt =====
-- Reading back the two digits that `%02x` writes.
use projet_s5_prog.Base.{ℕ, suc, ◌+◌, ◌*◌, ◌/◌, ◌%◌, ◌^◌, ◌<◌, ◌≡◌, arith, refl, ap}
use projet_s5_prog.Base.{Bool, true, false, ◌&&◌, List, [], ◌∷◌, ◌++◌, Option, some}
use projet_s5_prog.Base.{◌==◌, ◌∙◌}
use projet_s5_prog.Base.Scan.{hex_digit, two_hex, hex_value, is_space, scan_width, scan_hex, cut}
use projet_s5_prog.Base.Scan.{digits, number, skip_space}

-- what the readers ask of a character
abbrev IsDigit : ℕ → ℕ → Type 0
IsDigit c d =
    (hex_value c ≡ some d)
    × (is_space c ≡ false)
    × ((c == b'-') ≡ false)
    × ((c == b'+') ≡ false)
    × ((c == b'x') ≡ false)
    × ((c == b'X') ≡ false)

hex_digit-IsDigit : (d : ℕ) → d < 16 → IsDigit (hex_digit d) d
unfolding hex_value is_space
hex_digit-IsDigit d h =
    (ground arith, ground arith, ground arith, ground arith, ground arith, ground arith)

and_false : (b : Bool) → (b && false) ≡ false
and_false true = refl
and_false false = refl

cut_small : (v : ℕ) → v < 2 ^ 32 → cut v ≡ v
unfolding cut
cut_small v h = ground arith

-- one more digit of a number
digits_step :
    (value : ℕ → Option ℕ) (base w acc c d : ℕ) (s : List ℕ)
    → value c ≡ some d
    → digits value base (suc w) acc (c ∷ s) ≡ digits value base w (acc * base + d) s
unfolding digits
digits_step value base w acc c d s e = rw (e, digits) refl

number_step :
    (value : ℕ → Option ℕ) (base w c d : ℕ) (s : List ℕ)
    → value c ≡ some d
    → number value base (suc w) (c ∷ s) ≡ some (digits value base w d s)
unfolding number
number_step value base w c d s e = rw (e, number) refl

digits_end :
    (value : ℕ → Option ℕ) (base acc : ℕ) (s : List ℕ) → digits value base 0 acc s ≡ (acc, s)
unfolding digits
digits_end value base acc s = refl

two_digits :
    (c1 c2 a b : ℕ) (rest : List ℕ)
    → hex_value c1 ≡ some a
    → hex_value c2 ≡ some b
    → number hex_value 16 2 (c1 ∷ c2 ∷ rest) ≡ some (a * 16 + b, rest)
two_digits c1 c2 a b rest v1 v2 =
    number_step hex_value 16 1 c1 a (c2 ∷ rest) v1
    ∙ ap (λ (r : ℕ × List ℕ). some r)
        (digits_step hex_value 16 0 a c2 b rest v2 ∙ digits_end hex_value 16 (a * 16 + b) rest)

-- two digits, whatever characters they are
scan_two_digits :
    (c1 c2 a b : ℕ) (rest : List ℕ)
    → IsDigit c1 a
    → IsDigit c2 b
    → a < 16
    → b < 16
    → scan_width 2 (c1 ∷ c2 ∷ rest) ≡ some (a * 16 + b, rest)
unfolding scan_width skip_space
scan_two_digits c1 c2 a b rest (v1, s1, m1, p1, x1, y1) (v2, s2, m2, p2, x2, y2) ha hb =
    simp (s1, m1, p1, x2, y2, and_false)
      (rw (two_digits c1 c2 a b rest v1 v2)
        (ap (λ (v : ℕ). some (v, rest)) (cut_small (a * 16 + b) (omega arith))))

-- `%2x` reads back what `%02x` wrote.
pub scan_width-two_hex :
    (b : ℕ) (rest : List ℕ) → b < 256 → scan_width 2 (two_hex b ++ rest) ≡ some (b, rest)
scan_width-two_hex b rest h =
    scan_two_digits (hex_digit (b / 16)) (hex_digit (b % 16)) (b / 16) (b % 16) rest
      (hex_digit-IsDigit (b / 16) (omega arith)) (hex_digit-IsDigit (b % 16) (omega arith))
      (omega arith) (omega arith)
    ∙ ap (λ (v : ℕ). some (v, rest)) (omega arith)

pub scan_hex-two_hex : (b : ℕ) → b < 256 → scan_hex (two_hex b) ≡ some (b, [])
unfolding scan_hex
scan_hex-two_hex b h = scan_width-two_hex b [] h
