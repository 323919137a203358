-- ===== src/Debug.antt =====
-- The list of traced files, of debug.c: a sorted array of names, with a binary search. A name is its
-- bytes. `DEBUG` is set, and CACHE_DEBUG_FLAG is not; `__debug_raw_binary` only prints.
use projet_s5_prog.Base.{
  ℕ, zero, suc, ◌+◌, ◌-◌, ◌/◌, Bool, true, false, ◌&&◌, List, [], ◌∷◌, Option, none, some,
}
use projet_s5_prog.Base.{ltb, ◌==◌, if◌then◌else◌, add32, sub32, les32, strcmp, is_eq, is_lt}
use Prim.Native.Nat.{Ordering}
pub mod Search
pub mod Insert
pub mod Full
pub mod Listed

-- `MAX_FILES_NUMBER`
abbrev pub max_files_number : ℕ
max_files_number = 64

-- the two globals; an entry from `nb_debugged_files` on is a null pointer, which nothing reads
pub record Debugged : Type 0 where
  pub debugged_files : ℕ → List ℕ
  pub nb_debugged_files : ℕ

abbrev pub none_debugged : Debugged
none_debugged = record { debugged_files = λ i. []; nb_debugged_files = 0 }

-- `a[k] = v`
abbrev pub set_entry : (ℕ → List ℕ) → ℕ → List ℕ → ℕ → List ℕ
set_entry files k name i = if i == k then name else files i

-- the first loop of `add_debug_to`, on the rounds left before i is MAX_FILES_NUMBER
unfoldable pub add_place : Debugged → List ℕ → ℕ → ℕ → ℕ
add_place d name zero i = i
add_place d name (suc left) i =
    let rest = add_place d name left (i + 1) in
    if ltb i d.nb_debugged_files
      && (ltb i max_files_number && is_lt (strcmp (d.debugged_files i) name))
    then rest
    else i

-- the second loop, which counts j from i + left down to i
unfoldable pub shift_up : (ℕ → List ℕ) → ℕ → ℕ → ℕ → List ℕ
shift_up files i zero = files
shift_up files i (suc left) =
    shift_up (set_entry files (i + suc left) (files (i + suc left - 1))) i left

-- none where the second loop writes past the end of the array: it starts at `nb_debugged_files`
unfoldable pub add_debug_to : Debugged → List ℕ → Option Debugged
add_debug_to d name =
    let i = add_place d name max_files_number 0 in
    let n = d.nb_debugged_files in
    let files = set_entry (shift_up d.debugged_files i (n - i)) i name in
    if ltb i max_files_number
    then (if ltb n max_files_number
        then some (record { debugged_files = files; nb_debugged_files = n + 1 })
        else none)
    else some d

-- the loop of `__is_debugged` and the test behind it, on fuel; `from` and `to` are of type `int`.
unfoldable pub search_from : Debugged → List ℕ → ℕ → ℕ → ℕ → Option Bool
search_from d name zero from to = none
search_from d name (suc fuel) from to =
    let middle = add32 from to / 2 in
    elim (les32 to from) [
      | false ↦ elim (strcmp (d.debugged_files middle) name) [
        | Ordering.lt ↦ search_from d name fuel (add32 middle 1) to
        | Ordering.gt ↦ search_from d name fuel from (sub32 middle 1)
        | Ordering.eq ↦ some true
      ]
      | true ↦ some ((from == to) && is_eq (strcmp (d.debugged_files from) name))
    ]

-- each round shrinks the range of at most MAX_FILES_NUMBER entries.
unfoldable pub is_debugged : Debugged → List ℕ → Option Bool
is_debugged d name = search_from d name (max_files_number + 1) 0 (sub32 d.nb_debugged_files 1)
