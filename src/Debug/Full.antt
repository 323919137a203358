-- ===== src/Debug/Full.antt =====
-- `add_debug_to` on a full list.
use projet_s5_prog.Base.{ℕ, ◌<◌, ◌≤◌, ◌≡◌, arith, true, false, List, none, some}
use projet_s5_prog.Base.{if◌then◌else◌, strcmp, is_lt, Bool-cases, inl, inr}
use projet_s5_prog.Base.Order.{strcmp_lt}
use projet_s5_prog.Debug.{Debugged, max_files_number, add_place, add_debug_to}
use projet_s5_prog.Debug.Search.{IsSorted}
use native.Mathlib.Decide.{dec_lt}
use projet_s5_prog.Debug.Insert.{IsPlace, place}

module _ (d : Debugged) (name : List ℕ) (full : d.nb_debugged_files ≡ 64)
    (sorted : IsSorted d) where
  abbrev found : IsPlace d name (add_place d name max_files_number 0)
  found = place d name (omega arith)

  below_last :
      add_place d name max_files_number 0 < 64 → is_lt (strcmp (d.debugged_files 63) name) ≡ false
  below_last h = elim (Bool-cases (is_lt (strcmp (d.debugged_files 63) name))) [
    | inr done ↦ done
    | inl over ↦ absurd (
        ground (
          arith,
          found.stops (omega arith) h,
          strcmp_lt _ _ name
              (sorted (add_place d name max_files_number 0) 63 (omega arith) (omega arith)) over,
        ))
  ]

  above_last :
      64 ≤ add_place d name max_files_number 0 → is_lt (strcmp (d.debugged_files 63) name) ≡ true
  above_last h = found.smaller 63 (omega arith)

-- With 64 names in ascending order in the array, a name that is not above all of them makes the
-- insertion write past the end of the array, and a name above all of them is left out.
pub add_debug_to_full :
    (d : Debugged) (name : List ℕ)
    → d.nb_debugged_files ≡ 64
    → IsSorted d
    → add_debug_to d name ≡ (if is_lt (strcmp (d.debugged_files 63) name) then some d else none)
unfolding add_debug_to
add_debug_to_full d name full sorted = elim (dec_lt (add_place d name max_files_number 0) 64) [
  | yes within ↦ ground (arith, below_last d name full sorted within)
  | no beyond ↦ ground (arith, above_last d name full sorted (omega arith))
]
