-- ===== src/Invariant/Single.antt =====
-- The invariant across the word and byte transfers of arm_load_store.c.
use projet_s5_prog.Base.{ℕ, ◌^◌, ◌<◌, arith, bit_and, Bool}
use projet_s5_prog.Base.{◌==◌, ◌&&◌, if◌then◌else◌, if_both, truthy, u8}
use projet_s5_prog.Base.Bits.{bit_or-lt, bit_and-lt}
use projet_s5_prog.Util.{get_bit, Undefined}
use projet_s5_prog.Core.{ArmCore, condition_passed, arm_read_register, arm_write_register}
use projet_s5_prog.Core.{arm_read_byte}
use projet_s5_prog.LoadStore.Address.{get_rn, get_rd, get_addr_by_offset, refresh_rn_by_offset}
use projet_s5_prog.LoadStore.Address.{refresh_rn_of_trans}
use projet_s5_prog.LoadStore.Single.{load_to_pc, is_not_trans, load_word, load_byte, store_word}
use projet_s5_prog.LoadStore.Single.{load_byte_trans, load_word_trans, store_byte, store_byte_trans}
use projet_s5_prog.LoadStore.Single.{store_word_trans, arm_load_store}
use projet_s5_prog.Invariant.{IsValid}
use projet_s5_prog.Invariant.Data.{Keeps}
use projet_s5_prog.Invariant.Access.{write_register-IsValid, write_usr_register-IsValid}
use projet_s5_prog.Invariant.Access.{write_cpsr-IsValid, write_byte-IsValid, write_word-IsValid}
use projet_s5_prog.Invariant.Access.{read_byte-lt, read_word-lt, read_cpsr-lt}
use projet_s5_prog.Invariant.Transfer.{addr_by_offset-lt, refresh_rn-IsValid}
use projet_s5_prog.Invariant.Transfer.{refresh_trans-IsValid}

module _ {t n e : ℕ} {p : ArmCore} (h : IsValid t n e p) where
  pub load_to_pc-IsValid : (data' : ℕ) → data' < 2 ^ 32 → IsValid t n e (load_to_pc p data')
  unfolding load_to_pc
  load_to_pc-IsValid data' hd =
      let written : IsValid t n e (arm_write_register p 15 (bit_and data' 0xFFFF_FFFE)) =
        write_register-IsValid h 15 _ (bit_and-lt 32 data' 0xFFFF_FFFE hd (omega arith)) in
      write_cpsr-IsValid written _ (
        bit_or-lt 32 _ _ (bit_and-lt 32 _ 0xFFFF_FFDF (read_cpsr-lt written) (omega arith))
          (omega arith))

module _ (u : Undefined) {t n e : ℕ} {p : ArmCore} (h : IsValid t n e p) (ins : ℕ) where
  abbrev passed : Bool
  passed = truthy (condition_passed p ins)

  -- `(0, refresh_rn_by_offset u p1 ins addr)`, where `p1` is the transfer or `p`
  refreshed :
      {x : ArmCore}
      → IsValid t n e x
      → IsValid t n e
          (refresh_rn_by_offset u (if passed then x else p) ins (get_addr_by_offset u p ins))
  refreshed hx =
      refresh_rn-IsValid (if_both (IsValid t n e) passed hx h) ins u _ (addr_by_offset-lt h ins u)

  refreshed_trans :
      {x : ArmCore}
      → IsValid t n e x
      → IsValid t n e (refresh_rn_of_trans u (if passed then x else p) ins)
  refreshed_trans hx = refresh_trans-IsValid (if_both (IsValid t n e) passed hx h) ins u

  load_word-IsValid : Keeps t n e (load_word u p ins)
  unfolding load_word
  load_word-IsValid = refreshed (
      if_both (IsValid t n e) (get_rd ins == 15) (load_to_pc-IsValid h _ (read_word-lt h _))
        (write_register-IsValid h _ _ (read_word-lt h _)))

  load_byte-IsValid : Keeps t n e (load_byte u p ins)
  unfolding load_byte
  load_byte-IsValid = refreshed (write_register-IsValid h _ _ loaded-lt)
    where
      loaded-lt : (arm_read_byte p (get_addr_by_offset u p ins) (u8 u.local)).1 < 2 ^ 32
      loaded-lt =
          omega (arith, read_byte-lt h (get_addr_by_offset u p ins) (u8 u.local) (omega arith))

  load_byte_trans-IsValid : Keeps t n e (load_byte_trans u p ins)
  unfolding load_byte_trans
  load_byte_trans-IsValid =
      if_both (Keeps t n e) (is_not_trans ins) h
        (refreshed_trans (write_usr_register-IsValid h _ _ loaded-lt))
    where
      loaded-lt : (arm_read_byte p (arm_read_register p (get_rn ins)) (u8 u.local)).1 < 2 ^ 32
      loaded-lt =
          omega
            (arith, read_byte-lt h (arm_read_register p (get_rn ins)) (u8 u.local) (omega arith))

  load_word_trans-IsValid : Keeps t n e (load_word_trans u p ins)
  unfolding load_word_trans
  load_word_trans-IsValid =
      if_both (Keeps t n e) (is_not_trans ins) h
        (refreshed_trans (write_usr_register-IsValid h _ _ (read_word-lt h _)))

  store_word-IsValid : Keeps t n e (store_word u p ins)
  unfolding store_word
  store_word-IsValid = refreshed (write_word-IsValid h _ _)

  store_byte-IsValid : Keeps t n e (store_byte u p ins)
  unfolding store_byte
  store_byte-IsValid = refreshed (write_byte-IsValid h _ _ (omega arith))

  store_byte_trans-IsValid : Keeps t n e (store_byte_trans u p ins)
  unfolding store_byte_trans
  store_byte_trans-IsValid =
      if_both (Keeps t n e) (is_not_trans ins) h
        (refreshed_trans (write_byte-IsValid h _ _ (omega arith)))

  store_word_trans-IsValid : Keeps t n e (store_word_trans u p ins)
  unfolding store_word_trans
  store_word_trans-IsValid =
      if_both (Keeps t n e) (is_not_trans ins) h (refreshed_trans (write_word-IsValid h _ _))

  abbrev trans : Bool
  trans = (get_bit ins 24 == 0) && (get_bit ins 21 == 1)

  -- the test of the dispatch on the B and L bits
  abbrev access_test : ℕ → ℕ → Bool
  access_test b l = (get_bit ins 22 == b) && (get_bit ins 20 == l)

  pub load_store-IsValid : Keeps t n e (arm_load_store u p ins)
  unfolding arm_load_store
  load_store-IsValid =
      if_both (Keeps t n e) ((get_bit ins 27 == 0) && (get_bit ins 26 == 1))
        (if_both (Keeps t n e) (access_test 1 1)
          (if_both (Keeps t n e) trans load_byte_trans-IsValid load_byte-IsValid)
          (if_both (Keeps t n e) (access_test 1 0)
            (if_both (Keeps t n e) trans store_byte_trans-IsValid store_byte-IsValid)
            (if_both (Keeps t n e) (access_test 0 1)
              (if_both (Keeps t n e) trans load_word_trans-IsValid load_word-IsValid)
              (if_both (Keeps t n e) (access_test 0 0)
                (if_both (Keeps t n e) trans store_word_trans-IsValid store_word-IsValid) h))))
        h
