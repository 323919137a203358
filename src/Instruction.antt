-- ===== src/Instruction.antt =====
-- arm_instruction.c: the fetch, the dispatch on the instruction's class, and one step.
pub mod Skipped
pub mod Outcomes
pub mod Stepped
use projet_s5_prog.Base.{ℕ}
use projet_s5_prog.Base.{◌&&◌}
use projet_s5_prog.Base.{◌==◌, if◌then◌else◌, truthy, u8}
use projet_s5_prog.Util.{get_bit, get_bits, Undefined}
use projet_s5_prog.Core.{ArmCore, arm_fetch}
use projet_s5_prog.Exception.{arm_exception}
use projet_s5_prog.DataProcessing.{arm_data_processing}
use projet_s5_prog.LoadStore.Single.{arm_load_store}
use projet_s5_prog.LoadStore.Extra.{arm_load_store_extra}
use projet_s5_prog.LoadStore.Multiple.{arm_load_store_multiple}
use projet_s5_prog.Branch.{Outcome, ran, exited, arm_branch, arm_branch_misc, arm_miscellaneous}
use projet_s5_prog.Branch.{arm_coprocessor_others_swi}

-- `return 0` after a handler, whatever it returned
unfoldable pub drop_code : Outcome → Outcome
drop_code (ran _ p) = ran 0 p
drop_code (exited status) = exited status

-- `if (result) arm_exception(p, result);`
unfoldable pub raise : Outcome → Outcome
raise (ran result p) = ran result (if truthy result then arm_exception p (u8 result) else p)
raise (exited status) = exited status

module _ (u : Undefined) where
  -- class 0 shares its code between four groups
  unfoldable pub execute_class_zero : ArmCore → ℕ → ℕ × ArmCore
  execute_class_zero p ins =
      if truthy (get_bit ins 7) && truthy (get_bit ins 4)
      then arm_load_store_extra u p ins
      else if (get_bits ins 24 23 == 2) && (get_bit ins 4 == 0)
      then (if get_bit ins 20 == 0 then arm_miscellaneous p ins else arm_data_processing u p ins)
      else if (get_bits ins 24 23 == 2) && (get_bit ins 4 == 1) && (get_bit ins 7 == 0)
      then arm_branch_misc p ins
      else arm_data_processing u p ins

  -- the `switch`, on the core that the fetch leaves
  unfoldable pub execute_class : ArmCore → ℕ → Outcome
  execute_class p ins =
      let ins_type = get_bits ins 27 25 in
      if ins_type == 0
      then ran 0 (execute_class_zero p ins).1
      else if ins_type == 1
      then ran 0 (arm_data_processing u p ins).1
      else if ins_type == 4
      then ran 0 (arm_load_store_multiple p ins).1
      else if ins_type == 5
      then ran 0 (arm_branch p ins).1
      else if ins_type == 6
      then ran 0 p
      else if ins_type == 7
      then drop_code (arm_coprocessor_others_swi p ins)
      else ran 0 (arm_load_store u p ins).1

  unfoldable pub arm_execute_instruction : ArmCore → Outcome
  arm_execute_instruction p = let fetched = arm_fetch p in execute_class fetched.core fetched.value

  unfoldable pub arm_step : ArmCore → Outcome
  arm_step p = raise (arm_execute_instruction p)
