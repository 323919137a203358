-- ===== src/Debug/Listed.antt =====
-- The list of traced files beside the names that were added: a refinement of membership.
use projet_s5_prog.Base.{
  ℕ, ◌+◌, ◌-◌, ◌<◌, ◌≤◌, ◌≡◌, refl, arith, Bool, true, false, List, [], ◌∷◌, Option, none, some,
}
use projet_s5_prog.Base.{length, inl, inr, sym, ◌∙◌, ap}
use mathlib.Core.List.{Memᴰ}
use mathlib.Core.List.Memᴰ
use native.Mathlib.Decide.{dec_lt}
use projet_s5_prog.Debug.{
  Debugged, max_files_number, none_debugged, add_place, add_debug_to, is_debugged,
}
use projet_s5_prog.Debug.Search.{IsSorted, Answer, present, absent, is_debugged-Answer}
use projet_s5_prog.Debug.Insert.{
  inserted, add_debug_to-inserted, inserted-IsSorted, entry_before, entry_at, entry_after, sides,
  last, count, place_le,
}

-- the calls of `add_debug_to`, the last one first
unfoldable pub add_all : List (List ℕ) → Option Debugged
add_all [] = some none_debugged
add_all (name ∷ names) = elim (add_all names) [ none ↦ none | some d ↦ add_debug_to d name ]

-- what `__is_debugged` is to answer of a name after those calls
pub data Traced (names : List (List ℕ)) (name : List ℕ) : Option Bool → Type 0 where
  listed : Memᴰ name names → Traced names name (some true)
  unlisted : (Memᴰ name names → ⊥) → Traced names name (some false)

-- the array holds these names, each in as many places as it was added, in ascending order
record Holds (names : List (List ℕ)) (d : Debugged) : Type 0 where
  counted : d.nb_debugged_files ≡ length names
  sorted : IsSorted d
  sound : (m : ℕ) → m < d.nb_debugged_files → Memᴰ (d.debugged_files m) names
  complete :
      (x : List ℕ) → Memᴰ x names → (m : ℕ) × (m < d.nb_debugged_files) × (d.debugged_files m ≡ x)

empty_Holds : Holds [] none_debugged
empty_Holds = record {
  counted = refl;
  sorted = λ a b p q. absurd (omega arith);
  sound = λ m h. absurd (omega arith);
  complete = λ x h. absurd (Memᴰ.not-nil h);
}

module _ (d : Debugged) (name : List ℕ) (names : List (List ℕ)) (room : d.nb_debugged_files < 64)
    (h : Holds names d) where
  abbrev d' : Debugged
  d' = inserted d name

  sound' : (m : ℕ) → m < d'.nb_debugged_files → Memᴰ (d'.debugged_files m) (name ∷ names)
  sound' m lt = elim (sides d name room m) [
    | inl before ↦
        Memᴰ.cast (entry_before d name room m before)
          (Memᴰ.tail (h.sound m (omega (arith, place_le d name room))))
    | inr (inl same) ↦ Memᴰ.head (entry_at d name room m same)
    | inr (inr after) ↦
        Memᴰ.cast (entry_after d name room m after (last d name room m lt))
          (Memᴰ.tail (h.sound (m - 1) (omega (arith, last d name room m lt))))
  ]

  complete' :
      (x : List ℕ)
      → Memᴰ x (name ∷ names)
      → (m : ℕ) × (m < d'.nb_debugged_files) × (d'.debugged_files m ≡ x)
  complete' x (Memᴰ.head e) = (
    add_place d name max_files_number 0,
    omega (arith, count d name room, place_le d name room),
    entry_at d name room _ refl ∙ sym e,
  )
  complete' x (Memᴰ.tail inside) = moved (h.complete x inside)
    where
      moved :
          (m : ℕ) × (m < d.nb_debugged_files) × (d.debugged_files m ≡ x)
          → (m : ℕ) × (m < d'.nb_debugged_files) × (d'.debugged_files m ≡ x)
      moved (m, lt, e) = elim (dec_lt m (add_place d name max_files_number 0)) [
        | yes before ↦ (m, omega (arith, count d name room), entry_before d name room m before ∙ e)
        | no after ↦ (
          m + 1,
          omega (arith, count d name room),
          entry_after d name room (m + 1) (omega arith) (omega arith)
              ∙ ap d.debugged_files (omega arith)
              ∙ e,
        )
      ]

  inserted-Holds : Holds (name ∷ names) d'
  inserted-Holds = record {
    counted = omega (arith, count d name room, h.counted);
    sorted = inserted-IsSorted d name room h.sorted;
    sound = sound';
    complete = complete';
  }

-- Up to 64 names are all added, and the array then holds them.
added :
    (names : List (List ℕ))
    → length names ≤ 64
    → (d : Debugged) × (add_all names ≡ some d) × Holds names d
unfolding add_all
added [] le = (none_debugged, refl, empty_Holds)
added (name ∷ names) le = more (added names (omega arith))
  where
    more :
        (d : Debugged) × (add_all names ≡ some d) × Holds names d
        → (d : Debugged) × (add_all (name ∷ names) ≡ some d) × Holds (name ∷ names) d
    more (d, e, h) = (
      inserted d name,
      rw e (add_debug_to-inserted d name (omega (arith, h.counted))),
      inserted-Holds d name names (omega (arith, h.counted)) h,
    )

answered :
    {d : Debugged} {name : List ℕ} {names : List (List ℕ)} {r : Option Bool}
    → Holds names d
    → Answer d name 0 d.nb_debugged_files r
    → Traced names name r
answered h (present m p q e) = listed (Memᴰ.cast (sym e) (h.sound m q))
answered {name = name} h (absent nowhere) =
    unlisted (λ inside. let (m, lt, e) = h.complete name inside in nowhere m (omega arith) lt e)

-- After any calls of `add_debug_to` with at most 64 names in any order, the search for a name ends
-- and tells whether the name is one of them.
pub is_debugged-Traced :
    (names : List (List ℕ)) (name : List ℕ)
    → length names ≤ 64
    → (d : Debugged) × (add_all names ≡ some d) × Traced names name (is_debugged d name)
is_debugged-Traced names name le = asked (added names le)
  where
    asked :
        (d : Debugged) × (add_all names ≡ some d) × Holds names d
        → (d : Debugged) × (add_all names ≡ some d) × Traced names name (is_debugged d name)
    asked (d, e, h) =
        (d, e, answered h (is_debugged-Answer d name (omega (arith, h.counted)) h.sorted))
