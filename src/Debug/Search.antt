-- ===== src/Debug/Search.antt =====
-- The binary search `__is_debugged`.
use projet_s5_prog.Base.{
  ℕ, zero, suc, ◌+◌, ◌-◌, ◌/◌, ◌<◌, ◌≤◌, ◌≡◌, ◌≢◌, refl, arith, Bool, true, false, ◌&&◌, List,
  Option, some,
}
use projet_s5_prog.Base.{
  ◌==◌, ==_ne, ==_iff, add32, sub32, les32, strcmp, is_eq, is_lt, subst, sym, ap, ◌∙◌,
}
use projet_s5_prog.Base.Order.{is_gt, strcmp_same, strcmp_eq, strcmp_lt, strcmp_gt}
use projet_s5_prog.Debug.{Debugged, search_from, is_debugged}
use native.Mathlib.Decide.{dec_lt}
use Prim.Native.Nat.{Ordering}

-- the entries are in ascending order
abbrev pub IsSorted : Debugged → Type 0
IsSorted d =
    (i j : ℕ)
    → i ≤ j
    → j < d.nb_debugged_files
    → is_gt (strcmp (d.debugged_files i) (d.debugged_files j)) ≡ false

-- what a search for a name among the entries low .. high - 1 is to answer
pub data Answer (d : Debugged) (name : List ℕ) (low high : ℕ) : Option Bool → Type 0 where
  present :
      (m : ℕ) → low ≤ m → m < high → d.debugged_files m ≡ name → Answer d name low high (some true)
  absent :
      ((m : ℕ) → low ≤ m → m < high → d.debugged_files m ≢ name)
      → Answer d name low high (some false)

module _ (d : Debugged) (name : List ℕ) (small : d.nb_debugged_files ≤ 64)
    (sorted : IsSorted d) where
  abbrev at : ℕ → Ordering
  at m = strcmp (d.debugged_files m) name

  same_at : (k : ℕ) → d.debugged_files k ≡ name → at k ≡ Ordering.eq
  same_at k e = ap (λ (x : List ℕ). strcmp x name) e ∙ strcmp_same name

  below :
      (m k : ℕ) → is_lt (at m) ≡ true → k ≤ m → m < d.nb_debugged_files → d.debugged_files k ≢ name
  below m k h le lt e = ground (arith, same_at k e, strcmp_lt _ _ name (sorted k m le lt) h)

  above :
      (m k : ℕ) → is_gt (at m) ≡ true → m ≤ k → k < d.nb_debugged_files → d.debugged_files k ≢ name
  above m k h le lt e = ground (arith, same_at k e, strcmp_gt _ _ name (sorted m k le lt) h)

  to_right :
      (low m high : ℕ) (r : Option Bool)
      → is_lt (at m) ≡ true
      → low ≤ m
      → m < high
      → high ≤ d.nb_debugged_files
      → Answer d name (m + 1) high r
      → Answer d name low high r
  to_right low m high r h ge lt le (present k p q e) = present k (omega arith) q e
  to_right low m high r h ge lt le (absent none_there) = absent (λ k p q e. elim (dec_lt m k) [
    | yes over ↦ none_there k (omega arith) q e
    | no within ↦ below m k h (omega arith) (omega arith) e
  ])

  to_left :
      (low m high : ℕ) (r : Option Bool)
      → is_gt (at m) ≡ true
      → m < high
      → high ≤ d.nb_debugged_files
      → Answer d name low m r
      → Answer d name low high r
  to_left low m high r h lt le (present k p q e) = present k p (omega arith) e
  to_left low m high r h lt le (absent none_there) = absent (λ k p q e. elim (dec_lt k m) [
    | yes under ↦ none_there k p under e
    | no beyond ↦ above m k h (omega arith) (omega arith) e
  ])

  none_left :
      (low high : ℕ)
      → low ≤ high
      → high ≤ low
      → high ≤ d.nb_debugged_files
      → ((low == sub32 high 1) && is_eq (at low)) ≡ false
  none_left low high le ge h = rw (==_ne low (sub32 high 1) (omega arith)) refl

  one_left :
      (low high : ℕ)
      → high ≡ low + 1
      → high ≤ d.nb_debugged_files
      → ((low == sub32 high 1) && is_eq (at low)) ≡ is_eq (at low)
  one_left low high e h = rw ((==_iff low (sub32 high 1)).1 (omega arith)) refl

  tested :
      (low high : ℕ) (o : Ordering)
      → at low ≡ o
      → high ≡ low + 1
      → high ≤ d.nb_debugged_files
      → Answer d name low high (some (is_eq o))
  tested low high Ordering.eq same e h =
      present low (omega arith) (omega arith) (strcmp_eq _ _ same)
  tested low high Ordering.lt same e h =
      absent (λ k p q. below low k (ap is_lt same) (omega arith) (omega arith))
  tested low high Ordering.gt same e h =
      absent (λ k p q. above low k (ap is_gt same) (omega arith) (omega arith))

  -- the test behind the loop, on a range of one entry or none
  last :
      (low high : ℕ)
      → low ≤ high
      → high ≤ low + 1
      → high ≤ d.nb_debugged_files
      → Answer d name low high (some ((low == sub32 high 1) && is_eq (at low)))
  last low high le ge small' = elim (dec_lt low high) [
    | no empty ↦
        subst (Answer d name low high) (ap some (sym (none_left low high le (omega arith) small')))
          (absent (λ k p q e. omega arith))
    | yes one ↦
        subst (Answer d name low high) (ap some (sym (one_left low high (omega arith) small')))
          (tested low high (at low) refl (omega arith) small')
  ]

  by_order :
      (fuel low m high : ℕ) (o : Ordering)
      → at m ≡ o
      → low ≤ m
      → m < high
      → high ≤ d.nb_debugged_files
      → Answer d name (m + 1) high (search_from d name fuel (add32 m 1) (sub32 high 1))
      → Answer d name low m (search_from d name fuel low (sub32 m 1))
      → Answer d name low high (elim o [
        | Ordering.lt ↦ search_from d name fuel (add32 m 1) (sub32 high 1)
        | Ordering.gt ↦ search_from d name fuel low (sub32 m 1)
        | Ordering.eq ↦ some true
      ])
  by_order fuel low m high Ordering.lt same p q le right left =
      to_right low m high _ (ap is_lt same) p q le right
  by_order fuel low m high Ordering.gt same p q le right left =
      to_left low m high _ (ap is_gt same) q le left
  by_order fuel low m high Ordering.eq same p q le right left = present m p q (strcmp_eq _ _ same)

  add_one : (m : ℕ) → m < 64 → add32 m 1 ≡ m + 1
  add_one m h = omega arith

  stops :
      (fuel low high : ℕ)
      → low ≤ high
      → high ≤ low + 1
      → high ≤ d.nb_debugged_files
      → search_from d name (suc fuel) low (sub32 high 1)
        ≡ some ((low == sub32 high 1) && is_eq (at low))
  unfolding search_from
  stops fuel low high le ge h = rw (at_end low high le ge h, search_from) refl
    where
      at_end :
          (low high : ℕ)
          → low ≤ high
          → high ≤ low + 1
          → high ≤ d.nb_debugged_files
          → les32 (sub32 high 1) low ≡ true
      at_end low high le ge h = ground arith

  -- what a round does with its middle entry
  abbrev round : ℕ → ℕ → ℕ → ℕ → Option Bool
  round fuel low high m = elim (at m) [
    | Ordering.lt ↦ search_from d name fuel (add32 m 1) (sub32 high 1)
    | Ordering.gt ↦ search_from d name fuel low (sub32 m 1)
    | Ordering.eq ↦ some true
  ]

  goes_on :
      (fuel low high : ℕ)
      → les32 (sub32 high 1) low ≡ false
      → search_from d name (suc fuel) low (sub32 high 1)
        ≡ round fuel low high (add32 low (sub32 high 1) / 2)
  unfolding search_from
  goes_on fuel low high h = rw (h, search_from) refl

  the_middle :
      (low high : ℕ)
      → low + 1 < high
      → high ≤ d.nb_debugged_files
      → add32 low (sub32 high 1) / 2 ≡ (low + high - 1) / 2
  the_middle low high long in_range = omega arith

  -- a round of the loop, where the rounds that follow it answer rightly
  long_range :
      (fuel low high : ℕ)
      → ((a b : ℕ)
          → a ≤ b
          → b ≤ d.nb_debugged_files
          → b < a + fuel
          → Answer d name a b (search_from d name fuel a (sub32 b 1)))
      → low + 1 < high
      → high ≤ d.nb_debugged_files
      → high < low + suc fuel
      → Answer d name low high (search_from d name (suc fuel) low (sub32 high 1))
  long_range fuel low high next long in_range enough =
      let m : ℕ = (low + high - 1) / 2 in
      subst (Answer d name low high)
        (sym (
          goes_on fuel low high (ground arith)
          ∙ ap (round fuel low high) (the_middle low high long in_range)))
        (by_order fuel low m high (at m) refl (omega arith) (omega arith) in_range
          (rw (add_one m (omega arith)) (next (m + 1) high (omega arith) in_range (omega arith)))
          (next low m (omega arith) (omega arith) (omega arith)))

  pub search_from-Answer :
      (fuel low high : ℕ)
      → low ≤ high
      → high ≤ d.nb_debugged_files
      → high < low + fuel
      → Answer d name low high (search_from d name fuel low (sub32 high 1))
  search_from-Answer zero low high le in_range enough = absurd (omega arith)
  search_from-Answer (suc fuel) low high le in_range enough = elim (dec_lt (low + 1) high) [
    | no short ↦
        subst (Answer d name low high) (sym (stops fuel low high le (omega arith) in_range))
          (last low high le (omega arith) in_range)
    | yes long ↦ long_range fuel low high (search_from-Answer fuel) long in_range enough
  ]

-- In an array of at most 64 names in ascending order, the search ends and answers whether the name
-- is among them.
pub is_debugged-Answer :
    (d : Debugged) (name : List ℕ)
    → d.nb_debugged_files ≤ 64
    → IsSorted d
    → Answer d name 0 d.nb_debugged_files (is_debugged d name)
unfolding is_debugged
is_debugged-Answer d name small sorted =
    search_from-Answer d name small sorted 65 0 d.nb_debugged_files (omega arith) (omega arith)
      (omega arith)
