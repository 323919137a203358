-- ===== src/Trace/Stack.antt =====
-- What one traced call, or an access in it, leaves of the stack of locations.
use projet_s5_prog.Base.{
  ℕ, ◌^◌, ◌<◌, ◌≤◌, ◌≡◌, refl, arith, sym, ap, ◌∙◌, Bool, true, false, List, Option, none, some,
}
use projet_s5_prog.Base.{
  ltb, ◌&&◌, truthy, bit_and, [], ◌∷◌, ◌++◌, Bool-cases, inl, inr, subst, ◌==◌, ==_ne, if_both,
  if◌then◌else◌, add32, sub32,
}
use projet_s5_prog.Trace.{
  Printed, accessed, moved, memory, registers, Tracer, set_at, trace_start_location,
  trace_end_location, trace_memory, trace_register, trace_print_location,
}

-- two states with the same locations on the stack
pub record Same (t t' : Tracer) : Type 0 where
  pub same_enabled : t'.enabled ≡ t.enabled
  pub same_flags : t'.trace_flags ≡ t.trace_flags
  pub same_top : t'.location_stack_top ≡ t.location_stack_top
  pub same_file :
      (k : ℕ)
      → k ≤ t.location_stack_top
      → t.location_stack_top < 128
      → t'.location_file_stack k ≡ t.location_file_stack k
  pub same_line :
      (k : ℕ)
      → k ≤ t.location_stack_top
      → t.location_stack_top < 128
      → t'.location_line_stack k ≡ t.location_line_stack k

pub Same-refl : (t : Tracer) → Same t t
Same-refl t = record {
  same_enabled = refl;
  same_flags = refl;
  same_top = refl;
  same_file = λ k h small. refl;
  same_line = λ k h small. refl;
}

pub Same-trans : {t t' t'' : Tracer} → Same t t' → Same t' t'' → Same t t''
Same-trans {t = t} {t' = t'} a b = record {
  same_enabled = b.same_enabled ∙ a.same_enabled;
  same_flags = b.same_flags ∙ a.same_flags;
  same_top = b.same_top ∙ a.same_top;
  same_file = λ k h small.
      b.same_file k (omega (arith, a.same_top)) (omega (arith, a.same_top)) ∙ a.same_file k h small;
  same_line = λ k h small.
      b.same_line k (omega (arith, a.same_top)) (omega (arith, a.same_top)) ∙ a.same_line k h small;
}

-- a state with more output
printed_Same :
    (t : Tracer) (address : ℕ) (lines : List Printed)
    → Same t (record t { last_address = address; output = lines })
printed_Same t address lines = record {
  same_enabled = refl;
  same_flags = refl;
  same_top = refl;
  same_file = λ k h small. refl;
  same_line = λ k h small. refl;
}

pub memory_Same :
    (t : Tracer) (cycle type size cause address value : ℕ)
    → Same t (trace_memory t cycle type size cause address value)
unfolding trace_memory
memory_Same t cycle type size cause address value =
    let seq = if address == add32 t.last_address 4 then 1 else 0 in
    let line = accessed (trace_print_location t) cycle seq type size cause address value in
    if_both (λ (x : Tracer). Same t x) (t.enabled && truthy (bit_and t.trace_flags memory))
      (printed_Same t address (t.output ++ (line ∷ []))) (Same-refl t)

pub register_Same :
    (t : Tracer) (cycle type reg mode value : ℕ)
    → Same t (trace_register t cycle type reg mode value)
unfolding trace_register
register_Same t cycle type reg mode value =
    let line = moved (trace_print_location t) cycle type reg mode value in
    if_both (λ (x : Tracer). Same t x) (t.enabled && truthy (bit_and t.trace_flags registers))
      (printed_Same t t.last_address (t.output ++ (line ∷ []))) (Same-refl t)

if_some :
    {A : Type 0} (b : Bool) (x y : A) → (if b then some x else none) ≡ some y → (b ≡ true) × (x ≡ y)
if_some {A = A} true x y e = (refl, ap got e)
  where
    got : Option A → A
    got none = x
    got (some z) = z
if_some false x y e = absurd (ground arith)

-- a location put on the stack
abbrev pushed : Tracer → List ℕ → ℕ → Tracer
pushed t file line =
    let top = add32 t.location_stack_top 1 in
    record t {
      location_stack_top = top;
      location_file_stack = set_at t.location_file_stack top file;
      location_line_stack = set_at t.location_line_stack top line;
    }

module _ (t : Tracer) (file : List ℕ) (line : ℕ) where
  starts :
      (inside : Tracer)
      → t.enabled ≡ true
      → trace_start_location t file line ≡ some inside
      → (ltb (add32 t.location_stack_top 1) 128 ≡ true) × (pushed t file line ≡ inside)
  unfolding trace_start_location
  starts inside on e =
      if_some (ltb (add32 t.location_stack_top 1) 128) (pushed t file line) inside
        (sym (rw (on, trace_start_location) refl) ∙ e)

  starts_off :
      (inside : Tracer)
      → t.enabled ≡ false
      → trace_start_location t file line ≡ some inside
      → t ≡ inside
  unfolding trace_start_location
  starts_off inside off e =
      (if_some true t inside (sym (rw (off, trace_start_location) refl) ∙ e)).1

  popped_Same :
      (after : Tracer)
      → t.location_stack_top < 2 ^ 32
      → add32 t.location_stack_top 1 < 128
      → Same (pushed t file line) after
      → Same t (record after { location_stack_top = sub32 after.location_stack_top 1 })
  popped_Same after h room same = record {
    same_enabled = same.same_enabled;
    same_flags = same.same_flags;
    same_top = omega (arith, same.same_top);
    same_file = λ k le small.
        same.same_file k (omega arith) (omega arith)
        ∙ rw (==_ne k (add32 t.location_stack_top 1) (omega arith)) refl;
    same_line = λ k le small.
        same.same_line k (omega arith) (omega arith)
        ∙ rw (==_ne k (add32 t.location_stack_top 1) (omega arith)) refl;
  }

ends :
    (t : Tracer)
    → t.enabled ≡ true
    → trace_end_location t ≡ record t { location_stack_top = sub32 t.location_stack_top 1 }
unfolding trace_end_location
ends t on = rw (on, trace_end_location) refl

ends_off : (t : Tracer) → t.enabled ≡ false → trace_end_location t ≡ t
unfolding trace_end_location
ends_off t off = rw (off, trace_end_location) refl

ltb-lt : (a b : ℕ) → ltb a b ≡ true → a < b
ltb-lt a b h = ground arith

module _ (t inside : Tracer) (file : List ℕ) (line : ℕ) (h : t.location_stack_top < 2 ^ 32)
    (e : trace_start_location t file line ≡ some inside) where
  pub inside_small : inside.location_stack_top < 2 ^ 32
  inside_small = elim (Bool-cases t.enabled) [
    | inl on ↦
        subst (λ (x : Tracer). x.location_stack_top < 2 ^ 32) (starts t file line inside on e).1
          (omega arith)
    | inr off ↦
        subst (λ (x : Tracer). x.location_stack_top < 2 ^ 32) (starts_off t file line inside off e)
          h
  ]

  call_on :
      (after : Tracer) → t.enabled ≡ true → Same inside after → Same t (trace_end_location after)
  call_on after on same =
      let (room, equal) = starts t file line inside on e in
      let known : Same (pushed t file line) after =
        subst (λ (x : Tracer). Same x after) (sym equal) same in
      subst (Same t) (sym (ends after (known.same_enabled ∙ on)))
        (popped_Same t file line after h (ltb-lt _ 128 room) known)

  call_off :
      (after : Tracer) → t.enabled ≡ false → Same inside after → Same t (trace_end_location after)
  call_off after off same =
      let known : Same t after =
        subst (λ (x : Tracer). Same x after) (sym (starts_off t file line inside off e)) same in
      subst (Same t) (sym (ends_off after (known.same_enabled ∙ off))) known

  pub call_Same : (after : Tracer) → Same inside after → Same t (trace_end_location after)
  call_Same after same = elim (Bool-cases t.enabled) [
    | inl on ↦ call_on after on same
    | inr off ↦ call_off after off same
  ]
