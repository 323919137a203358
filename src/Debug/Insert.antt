-- ===== src/Debug/Insert.antt =====
-- The sorted insertion `add_debug_to`.
use projet_s5_prog.Base.{
  ℕ, zero, suc, ◌+◌, ◌-◌, ◌<◌, ◌≤◌, ◌≡◌, ◌≢◌, refl, arith, Bool, true, false, ◌&&◌, List, some,
}
use projet_s5_prog.Base.{
  ltb, if◌then◌else◌, strcmp, is_lt, subst, sym, ap, ◌∙◌, Bool-cases, ==_iff, ==_ne, ◌⊎◌, inl, inr,
}
use projet_s5_prog.Base.Order.{is_gt, strcmp_same, strcmp_swap, strcmp_le, lt-not_gt}
use projet_s5_prog.Debug.{Debugged, max_files_number, set_entry, add_place, shift_up, add_debug_to}
use projet_s5_prog.Debug.Search.{IsSorted}
use native.Mathlib.Decide.{dec_lt}

-- the place for a name: the entries before it are smaller, and the one there, if any, is not
pub record IsPlace (d : Debugged) (name : List ℕ) (i : ℕ) : Type 0 where
  pub in_range : i ≤ d.nb_debugged_files
  pub smaller : (m : ℕ) → m < i → is_lt (strcmp (d.debugged_files m) name) ≡ true
  pub stops : i < d.nb_debugged_files → i < 64 → is_lt (strcmp (d.debugged_files i) name) ≡ false

module _ (d : Debugged) (name : List ℕ) (small : d.nb_debugged_files ≤ 64) where
  abbrev at : ℕ → Bool
  at m = is_lt (strcmp (d.debugged_files m) name)

  abbrev goes : ℕ → Bool
  goes i = ltb i d.nb_debugged_files && (ltb i max_files_number && at i)

  small_place : (i : ℕ) → goes i ≡ true → i + 1 ≤ d.nb_debugged_files
  small_place i h = ground arith

  smaller_place : (i : ℕ) → goes i ≡ true → at i ≡ true
  smaller_place i h = ground arith

  one_more :
      (i : ℕ) → ((m : ℕ) → m < i → at m ≡ true) → at i ≡ true → (m : ℕ) → m < i + 1 → at m ≡ true
  one_more i before h m lt = elim (dec_lt m i) [
    | yes earlier ↦ before m earlier
    | no late ↦ subst (λ (k : ℕ). at k ≡ true) (omega arith) h
  ]

  add_place-IsPlace :
      (left i : ℕ)
      → i + left ≡ 64
      → i ≤ d.nb_debugged_files
      → ((m : ℕ) → m < i → at m ≡ true)
      → IsPlace d name (add_place d name left i)
  unfolding add_place
  add_place-IsPlace zero i e le before = record {
    in_range = le;
    smaller = before;
    stops = λ p q. absurd (omega arith);
  }
  add_place-IsPlace (suc left) i e le before = elim (Bool-cases (goes i)) [
    | inl h ↦
        subst (λ (b : Bool). IsPlace d name (if b then add_place d name left (i + 1) else i))
          (sym h)
          (add_place-IsPlace left (i + 1) (omega arith) (small_place i h)
            (one_more i before (smaller_place i h)))
    | inr h ↦
        subst (λ (b : Bool). IsPlace d name (if b then add_place d name left (i + 1) else i))
          (sym h) (record { in_range = le; smaller = before; stops = λ p q. ground arith })
  ]

  pub place : IsPlace d name (add_place d name max_files_number 0)
  place = add_place-IsPlace 64 0 refl (omega arith) (λ m h. absurd (omega arith))

set_entry_same :
    (files : ℕ → List ℕ) (k m : ℕ) (name : List ℕ) → m ≡ k → set_entry files k name m ≡ name
set_entry_same files k m name e = rw ((==_iff m k).1 e) refl

set_entry_other :
    (files : ℕ → List ℕ) (k m : ℕ) (name : List ℕ) → m ≢ k → set_entry files k name m ≡ files m
set_entry_other files k m name e = rw (==_ne m k e) refl

shift_up_outside :
    (i left m : ℕ) (files : ℕ → List ℕ)
    → (m ≤ i) ⊎ (i + left < m)
    → shift_up files i left m ≡ files m
unfolding shift_up
shift_up_outside i zero m files h = refl
shift_up_outside i (suc left) m files h =
    shift_up_outside i left m (set_entry files (i + suc left) (files (i + suc left - 1)))
      (omega arith)
    ∙ set_entry_other files (i + suc left) m _ (omega arith)

shift_up_within :
    (i left m : ℕ) (files : ℕ → List ℕ)
    → i < m
    → m ≤ i + left
    → shift_up files i left m ≡ files (m - 1)
unfolding shift_up
shift_up_within i zero m files h le = absurd (omega arith)
shift_up_within i (suc left) m files h le = elim (dec_lt (i + left) m) [
  | yes last ↦
      shift_up_outside i left m _ (inr last)
      ∙ set_entry_same files (i + suc left) m _ (omega arith)
      ∙ ap (λ (k : ℕ). files (k - 1)) (omega arith)
  | no inner ↦
      shift_up_within i left m _ h (omega arith)
      ∙ set_entry_other files (i + suc left) (m - 1) _ (omega arith)
]

-- the array after the insertion
pub inserted : Debugged → List ℕ → Debugged
inserted d name =
    let i = add_place d name max_files_number 0 in
    record {
      debugged_files = set_entry (shift_up d.debugged_files i (d.nb_debugged_files - i)) i name;
      nb_debugged_files = d.nb_debugged_files + 1;
    }

module _ (d : Debugged) (name : List ℕ) (room : d.nb_debugged_files < 64) where
  abbrev i : ℕ
  i = add_place d name max_files_number 0

  abbrev left : ℕ
  left = d.nb_debugged_files - i

  abbrev shifted : ℕ → List ℕ
  shifted = shift_up d.debugged_files i left

  abbrev here : IsPlace d name i
  here = place d name (omega arith)

  pub add_debug_to-inserted : add_debug_to d name ≡ some (inserted d name)
  unfolding add_debug_to inserted
  add_debug_to-inserted = ground (arith, here.in_range)

  pub entry_before : (m : ℕ) → m < i → (inserted d name).debugged_files m ≡ d.debugged_files m
  unfolding inserted
  entry_before m h =
      set_entry_other shifted i m name (omega arith)
      ∙ shift_up_outside i left m d.debugged_files (inl (omega arith))

  pub entry_at : (m : ℕ) → m ≡ i → (inserted d name).debugged_files m ≡ name
  unfolding inserted
  entry_at m h = set_entry_same shifted i m name h

  pub entry_after :
      (m : ℕ)
      → i < m
      → m ≤ d.nb_debugged_files
      → (inserted d name).debugged_files m ≡ d.debugged_files (m - 1)
  unfolding inserted
  entry_after m h le =
      set_entry_other shifted i m name (omega arith)
      ∙ shift_up_within i left m d.debugged_files h (omega arith)

  abbrev NotOver : ℕ → ℕ → Type 0
  NotOver a b =
      is_gt (strcmp ((inserted d name).debugged_files a) ((inserted d name).debugged_files b))
      ≡ false

  pub place_le : i ≤ d.nb_debugged_files
  place_le = here.in_range

  pub count : (inserted d name).nb_debugged_files ≡ d.nb_debugged_files + 1
  unfolding inserted
  count = refl

  pub last : (m : ℕ) → m < (inserted d name).nb_debugged_files → m ≤ d.nb_debugged_files
  unfolding inserted
  last m h = omega arith

  pub sides : (m : ℕ) → (m < i) ⊎ ((m ≡ i) ⊎ (i < m))
  sides m = omega arith

  module _ (sorted : IsSorted d) where
    over_name :
        (b : ℕ) → i ≤ b → b < d.nb_debugged_files → is_gt (strcmp name (d.debugged_files b)) ≡ false
    over_name b h lt =
        strcmp_le name (d.debugged_files i) (d.debugged_files b)
          (strcmp_swap _ name (here.stops (omega arith) (omega arith))) (sorted i b h lt)

    from_before : (a b : ℕ) → a < i → a ≤ b → b ≤ d.nb_debugged_files → NotOver a b
    from_before a b h le lt = rw (entry_before a h) (elim (sides b) [
      | inl before ↦ rw (entry_before b before) (sorted a b le (omega (arith, here.in_range)))
      | inr (inl same) ↦ rw (entry_at b same) (lt-not_gt _ (here.smaller a h))
      | inr (inr after) ↦ rw (entry_after b after lt) (sorted a (b - 1) (omega arith) (omega arith))
    ])

    from_here : (a b : ℕ) → a ≡ i → a ≤ b → b ≤ d.nb_debugged_files → NotOver a b
    from_here a b h le lt = rw (entry_at a h) (elim (sides b) [
      | inl before ↦ absurd (omega arith)
      | inr (inl same) ↦ rw (entry_at b same, strcmp_same name) refl
      | inr (inr after) ↦
          rw (entry_after b after lt) (over_name (b - 1) (omega arith) (omega arith))
    ])

    from_after : (a b : ℕ) → i < a → a ≤ b → b ≤ d.nb_debugged_files → NotOver a b
    from_after a b h le lt =
        rw (entry_after a h (omega arith), entry_after b (omega arith) lt)
          (sorted (a - 1) (b - 1) (omega arith) (omega arith))

    pub inserted-IsSorted : IsSorted (inserted d name)
    inserted-IsSorted a b le lt = elim (sides a) [
      | inl before ↦ from_before a b before le (last b lt)
      | inr (inl same) ↦ from_here a b same le (last b lt)
      | inr (inr after) ↦ from_after a b after le (last b lt)
    ]
