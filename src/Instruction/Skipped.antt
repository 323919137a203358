-- ===== src/Instruction/Skipped.antt =====
-- Instructions whose condition fails.
use projet_s5_prog.Base.{ℕ, ◌≡◌, ◌≢◌, refl, arith, ◌==◌, ◌&&◌, Bool, if_both, ap}
use projet_s5_prog.Util.{get_bit, get_bits, Undefined}
use projet_s5_prog.Core.{ArmCore, condition_passed}
use projet_s5_prog.DataProcessing.{arm_data_processing, calcs_procedure, bitwise_procedure}
use projet_s5_prog.DataProcessing.{cmptst_procedure}
use projet_s5_prog.LoadStore.Address.{refresh_rn_by_offset, refresh_rn_of_trans}
use projet_s5_prog.LoadStore.Address.{refresh_misc_rn_by_offset}
use projet_s5_prog.LoadStore.Single.{arm_load_store, load_word, load_byte, load_byte_trans}
use projet_s5_prog.LoadStore.Single.{load_word_trans, store_word, store_byte, store_byte_trans}
use projet_s5_prog.LoadStore.Single.{store_word_trans}
use projet_s5_prog.LoadStore.Extra.{arm_load_store_extra, load_double_word, load_half}
use projet_s5_prog.LoadStore.Extra.{load_signed_byte, load_signed_half, store_double_word}
use projet_s5_prog.LoadStore.Extra.{store_half}
use projet_s5_prog.LoadStore.Multiple.{arm_load_store_multiple, ldm1, ldm2, ldm3, stm1, stm2}
use projet_s5_prog.Branch.{ran, arm_branch, blx1_procedure, branch_first, branch_exchange}
use projet_s5_prog.Branch.{arm_branch_misc, blx2_procedure, arm_miscellaneous, mrs_procedure}
use projet_s5_prog.Instruction.{execute_class_zero, execute_class}

module _ (u : Undefined) (p : ArmCore) (ins : ℕ) (fails : condition_passed p ins ≡ 0) where
  data_processing_skipped : (arm_data_processing u p ins).1 ≡ p
  unfolding arm_data_processing calcs_procedure bitwise_procedure cmptst_procedure
  data_processing_skipped = rw fails (ground arith)

  refresh_skipped : (a : ℕ) → refresh_rn_by_offset u p ins a ≡ p
  unfolding refresh_rn_by_offset
  refresh_skipped a = rw fails

  refresh_trans_skipped : refresh_rn_of_trans u p ins ≡ p
  unfolding refresh_rn_of_trans
  refresh_trans_skipped = rw fails

  refresh_misc_skipped : (a : ℕ) → refresh_misc_rn_by_offset p ins a ≡ p
  unfolding refresh_misc_rn_by_offset
  refresh_misc_skipped a = rw fails

  load_store_skipped : (arm_load_store u p ins).1 ≡ p
  unfolding arm_load_store load_word load_byte load_byte_trans load_word_trans store_word store_byte
      store_byte_trans store_word_trans
  load_store_skipped = simp (fails, refresh_skipped, refresh_trans_skipped) (ground arith)

  load_double_word_skipped : load_double_word p ins ≡ (0, p)
  unfolding load_double_word
  load_double_word_skipped = simp (fails, refresh_misc_skipped)

  load_half_skipped : load_half p ins ≡ (0, p)
  unfolding load_half
  load_half_skipped = simp (fails, refresh_misc_skipped)

  load_signed_byte_skipped : load_signed_byte u p ins ≡ (0, p)
  unfolding load_signed_byte
  load_signed_byte_skipped = simp (fails, refresh_misc_skipped)

  load_signed_half_skipped : load_signed_half p ins ≡ (0, p)
  unfolding load_signed_half
  load_signed_half_skipped = simp (fails, refresh_misc_skipped)

  store_double_word_skipped : store_double_word p ins ≡ (0, p)
  unfolding store_double_word
  store_double_word_skipped = simp (fails, refresh_misc_skipped)

  store_half_skipped : store_half p ins ≡ (0, p)
  unfolding store_half
  store_half_skipped = simp (fails, refresh_misc_skipped)

  -- `Keeps` of a handler's result, and the dispatch that keeps the core on every branch
  abbrev Keeps : ℕ × ArmCore → Type 0
  Keeps r = r.1 ≡ p

  kept : {r : ℕ × ArmCore} → r ≡ (0, p) → Keeps r
  kept e = ap (λ (r : ℕ × ArmCore). r.1) e

  -- the test of the dispatch on the L, S and H bits
  abbrev extra_test : ℕ → ℕ → ℕ → Bool
  extra_test l s h = (get_bit ins 20 == l) && (get_bit ins 6 == s) && (get_bit ins 5 == h)

  load_store_extra_skipped : (arm_load_store_extra u p ins).1 ≡ p
  unfolding arm_load_store_extra
  load_store_extra_skipped =
      if_both Keeps
        ((get_bit ins 27 == 0)
          && (get_bit ins 26 == 0)
          && (get_bit ins 25 == 0)
          && (get_bit ins 7 == 1)
          && (get_bit ins 4 == 1))
        (if_both Keeps (extra_test 0 1 0) (kept load_double_word_skipped) (
          if_both Keeps (extra_test 1 0 1) (kept load_half_skipped) (
            if_both Keeps (extra_test 1 1 0) (kept load_signed_byte_skipped) (
              if_both Keeps (extra_test 1 1 1) (kept load_signed_half_skipped) (
                if_both Keeps (extra_test 0 1 1) (kept store_double_word_skipped)
                  (if_both Keeps (extra_test 0 0 1) (kept store_half_skipped) refl))))))
        refl

  load_store_multiple_skipped : (arm_load_store_multiple p ins).1 ≡ p
  unfolding arm_load_store_multiple ldm1 ldm2 ldm3 stm1 stm2
  load_store_multiple_skipped = rw fails (ground arith)

  branch_skipped : (arm_branch p ins).1 ≡ p
  unfolding arm_branch blx1_procedure branch_first branch_exchange
  branch_skipped = simp fails (ground arith)

  branch_misc_skipped : (arm_branch_misc p ins).1 ≡ p
  unfolding arm_branch_misc blx2_procedure
  branch_misc_skipped = rw fails (ground arith)

  miscellaneous_skipped : (arm_miscellaneous p ins).1 ≡ p
  unfolding arm_miscellaneous mrs_procedure
  miscellaneous_skipped = rw fails (ground arith)

  class_zero_skipped : (execute_class_zero u p ins).1 ≡ p
  unfolding execute_class_zero
  class_zero_skipped = ground (
    arith, data_processing_skipped, load_store_extra_skipped, branch_misc_skipped,
    miscellaneous_skipped,
  )

-- An instruction whose condition fails changes nothing, in every class but that of the software
-- interrupt.
pub condition_failed_skips :
    (u : Undefined) (p : ArmCore) (ins : ℕ)
    → condition_passed p ins ≡ 0
    → get_bits ins 27 25 ≢ 7
    → execute_class u p ins ≡ ran 0 p
unfolding execute_class
condition_failed_skips u p ins fails other = ground (
  arith,
  class_zero_skipped u p ins fails,
  data_processing_skipped u p ins fails,
  load_store_skipped u p ins fails,
  load_store_multiple_skipped u p ins fails,
  branch_skipped u p ins fails,
)
