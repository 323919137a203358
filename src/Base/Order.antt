-- ===== src/Base/Order.antt =====
-- `strcmp` as an order on texts.
use projet_s5_prog.Base.{ℕ, ◌≡◌, refl, arith, Bool, true, false, List, [], ◌∷◌}
use projet_s5_prog.Base.Text.{strcmp, is_lt}
use Prim.Native.Nat.{Ordering}

abbrev pub is_gt : Ordering → Bool
is_gt Ordering.gt = true
is_gt _ = false

pub strcmp_same : (s : List ℕ) → strcmp s s ≡ Ordering.eq
unfolding strcmp
strcmp_same [] = refl
strcmp_same (c ∷ s) = ground (arith, strcmp_same s)

pub strcmp_eq : (s t : List ℕ) → strcmp s t ≡ Ordering.eq → s ≡ t
unfolding strcmp
strcmp_eq [] [] h = refl
strcmp_eq [] (d ∷ t) h = absurd (ground arith)
strcmp_eq (c ∷ s) [] h = absurd (ground arith)
strcmp_eq (c ∷ s) (d ∷ t) h = ground (arith, strcmp_eq s t)

pub strcmp_swap : (s t : List ℕ) → is_lt (strcmp s t) ≡ false → is_gt (strcmp t s) ≡ false
unfolding strcmp
strcmp_swap [] [] h = refl
strcmp_swap [] (d ∷ t) h = absurd (ground arith)
strcmp_swap (c ∷ s) [] h = refl
strcmp_swap (c ∷ s) (d ∷ t) h = ground (arith, strcmp_swap s t)

pub strcmp_lt :
    (s t x : List ℕ)
    → is_gt (strcmp s t) ≡ false
    → is_lt (strcmp t x) ≡ true
    → is_lt (strcmp s x) ≡ true
unfolding strcmp
strcmp_lt [] [] [] h k = absurd (ground arith)
strcmp_lt [] (d ∷ t) [] h k = absurd (ground arith)
strcmp_lt [] t (e ∷ x) h k = refl
strcmp_lt (c ∷ s) [] x h k = absurd (ground arith)
strcmp_lt (c ∷ s) (d ∷ t) [] h k = absurd (ground arith)
strcmp_lt (c ∷ s) (d ∷ t) (e ∷ x) h k = ground (arith, strcmp_lt s t x)

pub strcmp_gt :
    (s t x : List ℕ)
    → is_gt (strcmp s t) ≡ false
    → is_gt (strcmp s x) ≡ true
    → is_gt (strcmp t x) ≡ true
unfolding strcmp
strcmp_gt [] t [] h k = absurd (ground arith)
strcmp_gt [] t (e ∷ x) h k = absurd (ground arith)
strcmp_gt (c ∷ s) [] x h k = absurd (ground arith)
strcmp_gt (c ∷ s) (d ∷ t) [] h k = refl
strcmp_gt (c ∷ s) (d ∷ t) (e ∷ x) h k = ground (arith, strcmp_gt s t x)

pub strcmp_le :
    (s t x : List ℕ)
    → is_gt (strcmp s t) ≡ false
    → is_gt (strcmp t x) ≡ false
    → is_gt (strcmp s x) ≡ false
unfolding strcmp
strcmp_le [] t [] h k = refl
strcmp_le [] t (e ∷ x) h k = refl
strcmp_le (c ∷ s) [] x h k = absurd (ground arith)
strcmp_le (c ∷ s) (d ∷ t) [] h k = absurd (ground arith)
strcmp_le (c ∷ s) (d ∷ t) (e ∷ x) h k = ground (arith, strcmp_le s t x)

pub lt-not_gt : (o : Ordering) → is_lt o ≡ true → is_gt o ≡ false
lt-not_gt Ordering.lt h = refl
lt-not_gt Ordering.eq h = refl
lt-not_gt Ordering.gt h = absurd (ground arith)
