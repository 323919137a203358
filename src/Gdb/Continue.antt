-- ===== src/Gdb/Continue.antt =====
-- The loop of `cont`: it runs to the first breakpoint.
use projet_s5_prog.Base.{ℕ, zero, suc, ◌<◌, ◌≡◌, refl, arith, Bool, true, false}
use projet_s5_prog.Base.{if◌then◌else◌}
use projet_s5_prog.Util.{Undefined}
use projet_s5_prog.Core.{ArmCore}
use projet_s5_prog.Branch.{Outcome, ran, exited}
use projet_s5_prog.Instruction.{arm_step}
use projet_s5_prog.Gdb.State.{Gdb, Served, served, gdb_send_stop_reason}
use projet_s5_prog.Gdb.Handlers
use projet_s5_prog.Gdb.Handlers.{at_breakpoint, after_step}

-- k steps, none of which starts at a breakpoint; each leaves its core and its code
pub data Runs (u : Undefined) : ℕ → Gdb → Gdb → Type 0 where
  here : {g : Gdb} → Runs u 0 g g
  onward :
      {k code : ℕ} {g h : Gdb} {p : ArmCore}
      → at_breakpoint g.arm ≡ false
      → arm_step u g.arm ≡ ran code p
      → Runs u k (record g { arm = p; target_exception = code }) h
      → Runs u (suc k) g h

-- If the processor comes to a breakpoint after k steps, and to none before it, the request to
-- continue ends there, with every fuel above k, and answers the reason to stop in the state of the
-- breakpoint.
pub cont_stops :
    (u : Undefined) (k fuel : ℕ) (g h : Gdb)
    → Runs u k g h
    → at_breakpoint h.arm ≡ true
    → k < fuel
    → Handlers.cont u fuel g ≡ gdb_send_stop_reason h
unfolding Handlers.cont
cont_stops u k zero g h run stop enough = absurd (omega arith)
cont_stops u zero (suc fuel) g h here stop enough = rw stop refl
cont_stops u (suc k) (suc fuel) g h (onward free step run) stop enough =
    rw (free, step) (cont_stops u k fuel _ h run stop (omega arith))

-- what a request to continue that was served went through
abbrev pub Stopped : Undefined → Gdb → Gdb → Type 0
Stopped u g r =
    (k : ℕ) × (h : Gdb) × Runs u k g h
    × (at_breakpoint h.arm ≡ true)
    × (gdb_send_stop_reason h ≡ served r)

go_on :
    {u : Undefined} {g r : Gdb} {code : ℕ} {p : ArmCore}
    → at_breakpoint g.arm ≡ false
    → arm_step u g.arm ≡ ran code p
    → Stopped u (record g { arm = p; target_exception = code }) r
    → Stopped u g r
go_on free step (k, h, run, stop, answer) = (suc k, h, onward free step run, stop, answer)

module _ (u : Undefined) (g r : Gdb) where
  by_outcome :
      (next : Gdb → Served) (o : Outcome)
      → arm_step u g.arm ≡ o
      → at_breakpoint g.arm ≡ false
      → ((k : Gdb) → next k ≡ served r → Stopped u k r)
      → after_step o g next ≡ served r
      → Stopped u g r
  by_outcome next (ran code p) step free stopped h = go_on free step (stopped _ h)
  by_outcome next (exited status) step free stopped h = absurd (ground arith)

  by_test :
      (next : Gdb → Served) (b : Bool)
      → at_breakpoint g.arm ≡ b
      → ((k : Gdb) → next k ≡ served r → Stopped u k r)
      → (if b then gdb_send_stop_reason g else after_step (arm_step u g.arm) g next) ≡ served r
      → Stopped u g r
  by_test next true test stopped h = (0, g, here, test, h)
  by_test next false test stopped h = by_outcome next (arm_step u g.arm) refl test stopped h

-- A request to continue that is served was served at the first breakpoint, behind some number of
-- steps: it answered the reason to stop in the state of that breakpoint.
cont_served :
    (u : Undefined) (fuel : ℕ) (g r : Gdb) → Handlers.cont u fuel g ≡ served r → Stopped u g r
unfolding Handlers.cont
cont_served u zero g r h = absurd (ground arith)
cont_served u (suc fuel) g r h =
    by_test u g r (Handlers.cont u fuel) (at_breakpoint g.arm) refl (λ k. cont_served u fuel k r) h
