-- ===== src/Cpu/Loop.antt =====
-- How Run ends, and what a step at a breakpoint does.
use ps5x_windows.Base.{
  ℕ, ◌≡◌, ◌≢◌, refl, true, false, none, some, List, [], ◌∷◌, ◌⊎◌, inl, inr, lookup, lookup-insert,
  ap, ◌∙◌, arith, String, Option, Bool-cases, ==_ne,
}
use ps5x_windows.Cpu.State.{CpuState, StepResult, breakpoint, unimplemented, count_breakpoint}
use ps5x_windows.Cpu.Breakpoints.{add_breakpoint}
use ps5x_windows.Cpu.Guest.{Guest}
use ps5x_windows.Cpu.Fetch.{prefetch}
use ps5x_windows.Cpu.Step.{
  Control, RunEnd, ended, host_trap, still_running, after_step, run_loop, run, execute_one,
  continue_with, stopped,
}

-- What holds of an end of Run: `running` is off, and Unimplemented is never reported.
abbrev pub EndsWell : RunEnd → Type 0
EndsWell (ended r t) = (t.running ≡ false) × (r ≢ unimplemented)
EndsWell host_trap = Unit
EndsWell still_running = Unit

abbrev RoundEndsWell : RunEnd ⊎ CpuState → Type 0
RoundEndsWell (inl e) = EndsWell e
RoundEndsWell (inr t) = Unit

after_step-EndsWell : (o : Option (StepResult × CpuState)) → RoundEndsWell (after_step o)
unfolding after_step
after_step-EndsWell none = tt
after_step-EndsWell (some (StepResult.ok, s)) = tt
after_step-EndsWell (some (StepResult.unimplemented, s)) = tt
after_step-EndsWell (some (StepResult.breakpoint, s)) = (refl, λ e. cc)
after_step-EndsWell (some (StepResult.syscall, s)) = (refl, λ e. cc)
after_step-EndsWell (some (StepResult.fault, s)) = (refl, λ e. cc)
after_step-EndsWell (some (StepResult.halt, s)) = (refl, λ e. cc)
after_step-EndsWell (some (StepResult.exit, s)) = (refl, λ e. cc)

continue_with-EndsWell :
    (x : RunEnd ⊎ CpuState) (k : CpuState → RunEnd)
    → RoundEndsWell x
    → ((t : CpuState) → EndsWell (k t))
    → EndsWell (continue_with x k)
continue_with-EndsWell (inl e) k h all = h
continue_with-EndsWell (inr t) k h all = all t

run_loop-EndsWell : (g : Guest) (cs : List Control) (s : CpuState) → EndsWell (run_loop g cs s)
unfolding run_loop
run_loop-EndsWell g [] s = tt
run_loop-EndsWell g (Control.stops ∷ cs) s = (refl, λ e. cc)
run_loop-EndsWell g (Control.continues ∷ cs) s = elim (Bool-cases s.running) [
  | inl on ↦
      rw (on, run_loop)
        (continue_with-EndsWell (after_step (execute_one g s)) (run_loop g cs)
          (after_step-EndsWell (execute_one g s)) (run_loop-EndsWell g cs))
  | inr off ↦ rw (off, run_loop) (refl, λ e. cc)
]

-- Whatever code is run, and whatever other threads do: when Run returns, `running` is off and the
-- result is not Unimplemented.
pub run-EndsWell : (g : Guest) (cs : List Control) (s : CpuState) → EndsWell (run g cs s)
unfolding run
run-EndsWell g cs s = run_loop-EndsWell g cs (record s { running = true; paused = false })

execute_one-breakpoint :
    (g : Guest) (s : CpuState) (id : ℕ)
    → s.ctx.rip ≢ 0
    → prefetch g s.ctx.rip ≢ 0
    → lookup s.ctx.rip s.bp_by_addr ≡ some id
    → execute_one g s ≡ some (breakpoint, count_breakpoint s)
unfolding execute_one
execute_one-breakpoint g s id r p h =
    rw (==_ne s.ctx.rip 0 r, ==_ne (prefetch g s.ctx.rip) 0 p, h, execute_one) refl

-- AddBreakpoint at RIP, where RIP is not 0 and its code can be fetched, and then Run, in any
-- schedule that lets its first round go on: Run ends with Breakpoint before anything is executed,
-- so that the context, the memory and the call stack are as they were, and `running` is off.
pub run-add_breakpoint :
    (g : Guest) (s : CpuState) (label : String) (cs : List Control)
    → s.ctx.rip ≢ 0
    → prefetch g s.ctx.rip ≢ 0
    → (u : CpuState) × (run g (Control.continues ∷ cs) (add_breakpoint s s.ctx.rip label).1
        ≡ ended breakpoint u)
      × (u.ctx ≡ s.ctx)
      × (u.memory ≡ s.memory)
      × (u.call_stack ≡ s.call_stack)
      × (u.running ≡ false)
unfolding run run_loop after_step add_breakpoint
run-add_breakpoint g s label cs r p =
    let t = record (add_breakpoint s s.ctx.rip label).1 { running = true; paused = false } in
    let hit : lookup s.ctx.rip t.bp_by_addr ≡ some s.next_bp_id =
      lookup-insert s.ctx.rip s.ctx.rip s.next_bp_id s.bp_by_addr ∙ ground arith in
    let stops = execute_one-breakpoint g t s.next_bp_id r p hit in
    (
      stopped (count_breakpoint t),
      ap (λ o. continue_with (after_step o) (run_loop g cs)) stops,
      refl,
      refl,
      refl,
      refl,
    )
