-- ===== src/Invariant/Extra.antt =====
-- The invariant across the half-word, signed and double-word transfers of arm_load_store.c.
use projet_s5_prog.Base.{ℕ, ◌^◌, ◌<◌, arith, bit_or, Bool}
use projet_s5_prog.Base.{◌==◌, ◌&&◌, if◌then◌else◌, if_both, truthy, u8}
use projet_s5_prog.Base.Bits.{bit_or-lt}
use projet_s5_prog.Util.{get_bit, Undefined}
use projet_s5_prog.Core.{ArmCore, condition_passed}
use projet_s5_prog.Core.{arm_read_byte, arm_read_half}
use projet_s5_prog.LoadStore.Address.{get_rd, get_misc_addr_by_offset, refresh_misc_rn_by_offset}
use projet_s5_prog.LoadStore.Extra.{is_pair, is_double_aligned, load_double_word, load_half}
use projet_s5_prog.LoadStore.Extra.{load_signed_half, store_double_word, store_half}
use projet_s5_prog.LoadStore.Extra.{load_signed_byte, arm_load_store_extra}
use projet_s5_prog.Invariant.{IsValid}
use projet_s5_prog.Invariant.Data.{Keeps}
use projet_s5_prog.Invariant.Access.{write_register-IsValid, write_half-IsValid}
use projet_s5_prog.Invariant.Access.{write_word-IsValid, read_byte-lt, read_half-lt, read_word-lt}
use projet_s5_prog.Invariant.Transfer.{misc_addr_by_offset-lt, refresh_misc_rn-IsValid}

module _ {t n e : ℕ} {p : ArmCore} (h : IsValid t n e p) (ins : ℕ) where
  abbrev passed : Bool
  passed = truthy (condition_passed p ins)

  abbrev addr : ℕ
  addr = get_misc_addr_by_offset p ins

  refreshed : {x : ArmCore} → IsValid t n e x → IsValid t n e (refresh_misc_rn_by_offset x ins addr)
  refreshed hx = refresh_misc_rn-IsValid hx ins addr (misc_addr_by_offset-lt h ins)

  load_double_word-IsValid : Keeps t n e (load_double_word p ins)
  unfolding load_double_word
  load_double_word-IsValid =
      if_both (Keeps t n e) passed
        (if_both (Keeps t n e) (is_pair (get_rd ins))
          (refreshed (
            if_both (IsValid t n e) (is_double_aligned addr)
              (write_register-IsValid (write_register-IsValid h _ _ (read_word-lt h _)) _ _
                (read_word-lt h _))
              h))
          h)
        (refreshed h)

  load_half-IsValid : Keeps t n e (load_half p ins)
  unfolding load_half
  load_half-IsValid =
      if_both (Keeps t n e) passed
        (if_both (Keeps t n e) (get_bit addr 0 == 0)
          (refreshed (write_register-IsValid h _ _ (omega (arith, read_half-lt h addr)))) h)
        (refreshed h)

  load_signed_half-IsValid : Keeps t n e (load_signed_half p ins)
  unfolding load_signed_half
  load_signed_half-IsValid =
      if_both (Keeps t n e) passed
        (if_both (Keeps t n e) (get_bit addr 0 == 0)
          (refreshed (write_register-IsValid h _ _ extended-lt)) h)
        (refreshed h)
    where
      extended-lt :
          (if get_bit (arm_read_half p addr).1 15 == 0
            then (arm_read_half p addr).1
            else bit_or (arm_read_half p addr).1 0xFFFF_0000)
          < 2 ^ 32
      extended-lt =
          if_both (λ x. x < 2 ^ 32) (get_bit (arm_read_half p addr).1 15 == 0)
            (omega (arith, read_half-lt h addr))
            (bit_or-lt 32 _ _ (omega (arith, read_half-lt h addr)) (omega arith))

  store_double_word-IsValid : Keeps t n e (store_double_word p ins)
  unfolding store_double_word
  store_double_word-IsValid =
      if_both (Keeps t n e) passed
        (if_both (Keeps t n e) (is_pair (get_rd ins))
          (refreshed (
            if_both (IsValid t n e) (is_double_aligned addr)
              (write_word-IsValid (write_word-IsValid h _ _) _ _) h))
          h)
        (refreshed h)

  store_half-IsValid : Keeps t n e (store_half p ins)
  unfolding store_half
  store_half-IsValid =
      if_both (Keeps t n e) passed
        (if_both (Keeps t n e) (get_bit addr 0 == 0) (refreshed (write_half-IsValid h _ _)) h)
        (refreshed h)

  module _ (u : Undefined) where
    abbrev byte : ℕ
    byte = (arm_read_byte p addr (u8 u.local)).1

    byte-lt : byte < 256
    byte-lt = read_byte-lt h addr (u8 u.local) (omega arith)

    load_signed_byte-IsValid : Keeps t n e (load_signed_byte u p ins)
    unfolding load_signed_byte
    load_signed_byte-IsValid =
        refreshed (if_both (IsValid t n e) passed (write_register-IsValid h _ _ extended-lt) h)
      where
        extended-lt : (if get_bit byte 7 == 0 then byte else bit_or byte 0xFFFF_FF00) < 2 ^ 32
        extended-lt =
            if_both (λ x. x < 2 ^ 32) (get_bit byte 7 == 0) (omega (arith, byte-lt))
              (bit_or-lt 32 _ _ (omega (arith, byte-lt)) (omega arith))

    -- the test of the dispatch on the L, S and H bits
    abbrev extra_test : ℕ → ℕ → ℕ → Bool
    extra_test l s d = (get_bit ins 20 == l) && (get_bit ins 6 == s) && (get_bit ins 5 == d)

    pub load_store_extra-IsValid : Keeps t n e (arm_load_store_extra u p ins)
    unfolding arm_load_store_extra
    load_store_extra-IsValid =
        if_both (Keeps t n e)
          ((get_bit ins 27 == 0)
            && (get_bit ins 26 == 0)
            && (get_bit ins 25 == 0)
            && (get_bit ins 7 == 1)
            && (get_bit ins 4 == 1))
          (if_both (Keeps t n e) (extra_test 0 1 0) load_double_word-IsValid (
            if_both (Keeps t n e) (extra_test 1 0 1) load_half-IsValid (
              if_both (Keeps t n e) (extra_test 1 1 0) load_signed_byte-IsValid (
                if_both (Keeps t n e) (extra_test 1 1 1) load_signed_half-IsValid (
                  if_both (Keeps t n e) (extra_test 0 1 1) store_double_word-IsValid
                    (if_both (Keeps t n e) (extra_test 0 0 1) store_half-IsValid h))))))
          h
