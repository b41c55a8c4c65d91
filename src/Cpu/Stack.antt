-- ===== src/Cpu/Stack.antt =====
-- The guest's stack: PUSH against POP, and CALL against RET.
use ps5x_windows.Base.{ℕ, ◌+◌, ◌≡◌, ◌≢◌, refl, ap, true, some, arith}
use ps5x_windows.Cpu.Word.{IsWord, add64, sub64, sext32, add64-lt}
use ps5x_windows.Cpu.State.{CpuState, CallFrame, reg, set_reg, set_rip, set_memory, rsp, rbp}
use ps5x_windows.Cpu.Guest.{Guest, guest_read, le_write}
use ps5x_windows.Cpu.Guest.Laws.{le_read-le_write}
use ps5x_windows.Cpu.Fetch.{Insn, breaks, opcode_reg, advance, imm32}
use ps5x_windows.Cpu.Exec.Move.{push_word, exec_push, exec_pop}
use ps5x_windows.Cpu.Exec.Control.{exec_call, exec_ret, return_to, push_frame, pop_frame, jump}

-- What the memory manager answers for a mapped word of the stack: the probe for writing leaves the
-- memory as it was.
pub record StackMapped (g : Guest) (s : CpuState) : Type 0 where
  pub probe : g.writable (sub64 (reg s rsp) 8) 8 s.memory ≡ (true, s.memory)
  pub read : g.readable (sub64 (reg s rsp) 8) 8 ≡ true

add64-sub64 : (a : ℕ) → IsWord a → add64 (sub64 a 8) 8 ≡ a
unfolding add64 sub64
add64-sub64 a h = omega arith

-- The state after a push that is not refused.
pushed : CpuState → ℕ → CpuState
pushed s v =
    let sp = sub64 (reg s rsp) 8 in set_reg (set_memory s (le_write 8 s.memory sp v)) rsp sp

push_word_lem :
    (g : Guest) (s : CpuState) (v : ℕ) → StackMapped g s → push_word g s v ≡ (true, pushed s v)
unfolding push_word pushed
push_word_lem g s v h = rw (h.probe) refl

guest_read-pushed :
    (g : Guest) (s : CpuState) (v : ℕ)
    → StackMapped g s
    → IsWord v
    → guest_read 8 g (pushed s v) (reg (pushed s v) rsp) ≡ some v
unfolding guest_read pushed
guest_read-pushed g s v h w =
    rw (h.read) (ap some (le_read-le_write 8 s.memory (sub64 (reg s rsp) 8) v w))

after_push : Insn → CpuState → CpuState
unfolding pushed
after_push i s = advance (pushed s (reg s (opcode_reg i))) i.off

exec_push_lem :
    (g : Guest) (i : Insn) (s : CpuState)
    → StackMapped g s
    → exec_push g i s ≡ breaks (after_push i s) i.off
unfolding exec_push after_push pushed
exec_push_lem g i s h = rw (push_word_lem g s (reg s (opcode_reg i)) h) refl

-- POP of the word `v` that RSP points at.
popped : Insn → CpuState → ℕ → CpuState
popped j t v =
    let u = set_reg t (opcode_reg j) v in advance (set_reg u rsp (add64 (reg u rsp) 8)) j.off

exec_pop_lem :
    (g : Guest) (j : Insn) (t : CpuState) (v : ℕ)
    → guest_read 8 g t (reg t rsp) ≡ some v
    → exec_pop g j t ≡ breaks (popped j t v) j.off
unfolding exec_pop popped
exec_pop_lem g j t v h = rw (h, exec_pop) refl

-- A PUSH of one register and a POP into another (not RSP), on a mapped stack, where RSP and the
-- pushed register hold 64-bit values: both run, the value arrives, and RSP is back where it was.
pub exec_pop-exec_push :
    (g : Guest) (i j : Insn) (s : CpuState)
    → StackMapped g s
    → IsWord (reg s rsp)
    → IsWord (reg s (opcode_reg i))
    → opcode_reg j ≢ rsp
    → (t : CpuState) × (u : CpuState) × (exec_push g i s ≡ breaks t i.off)
      × (exec_pop g j t ≡ breaks u j.off)
      × (reg u (opcode_reg j) ≡ reg s (opcode_reg i))
      × (reg u rsp ≡ reg s rsp)
unfolding guest_read after_push popped pushed
exec_pop-exec_push g i j s h ws wv n =
    let v = reg s (opcode_reg i) in
    (
      after_push i s,
      popped j (after_push i s) v,
      exec_push_lem g i s h,
      exec_pop_lem g j (after_push i s) v (guest_read-pushed g s v h wv),
      ground (arith, add64-sub64 (reg s rsp) ws),
      ground (arith, add64-sub64 (reg s rsp) ws),
    )

-- POP RSP, where the word at RSP can be read, leaves the popped word plus 8 in RSP.
pub exec_pop-rsp :
    (g : Guest) (j : Insn) (t : CpuState) (v : ℕ)
    → opcode_reg j ≡ rsp
    → guest_read 8 g t (reg t rsp) ≡ some v
    → (u : CpuState) × (exec_pop g j t ≡ breaks u j.off) × (reg u rsp ≡ add64 v 8)
unfolding popped
exec_pop-rsp g j t v e h = (popped j t v, exec_pop_lem g j t v h, ground arith)

called : Insn → CpuState → CpuState
called i s0 =
    let s = advance s0 (i.off + 4) in
    let t = pushed s s.ctx.rip in
    let frame : CallFrame = record {
      return_addr = t.ctx.rip;
      frame_base = reg t rbp;
      symbol = "";
    } in
    jump (push_frame t frame) (sext32 (imm32 i i.off))

exec_call_lem :
    (g : Guest) (i : Insn) (s : CpuState)
    → StackMapped g s
    → exec_call g i s ≡ breaks (called i s) (i.off + 4)
unfolding exec_call called pushed
exec_call_lem g i s h =
    let t = advance s (i.off + 4) in
    rw (push_word_lem g t t.ctx.rip (record { probe = h.probe; read = h.read })) refl

returned : CpuState → ℕ → CpuState
returned t a = pop_frame (set_rip (set_reg t rsp (add64 (reg t rsp) 8)) a)

exec_ret_lem :
    (g : Guest) (j : Insn) (t : CpuState) (a : ℕ)
    → guest_read 8 g t (reg t rsp) ≡ some a
    → exec_ret g j t ≡ breaks (returned t a) (j.off + 1)
unfolding exec_ret returned
exec_ret_lem g j t a h = rw (h, return_to) refl

-- A CALL rel32 and then a RET, on a mapped stack with a 64-bit value in RSP: both run, the CALL
-- goes to its target, and the RET continues behind the CALL with RSP and the tracked call stack
-- restored.
pub exec_ret-exec_call :
    (g : Guest) (i j : Insn) (s : CpuState)
    → StackMapped g s
    → IsWord (reg s rsp)
    → (t : CpuState) × (u : CpuState) × (exec_call g i s ≡ breaks t (i.off + 4))
      × (t.ctx.rip ≡ add64 (add64 s.ctx.rip (i.off + 4)) (sext32 (imm32 i i.off)))
      × (exec_ret g j t ≡ breaks u (j.off + 1))
      × (u.ctx.rip ≡ add64 s.ctx.rip (i.off + 4))
      × (reg u rsp ≡ reg s rsp)
      × (u.call_stack ≡ s.call_stack)
unfolding guest_read called returned pushed push_frame pop_frame jump
exec_ret-exec_call g i j s h ws =
    let t = advance s (i.off + 4) in
    let a = t.ctx.rip in
    let back : add64 (sub64 (reg s rsp) 8) 8 ≡ reg s rsp = add64-sub64 (reg s rsp) ws in
    (
      called i s,
      returned (called i s) a,
      exec_call_lem g i s h,
      refl,
      exec_ret_lem g j (called i s) a (
          guest_read-pushed g t a (record { probe = h.probe; read = h.read })
            (add64-lt s.ctx.rip (i.off + 4))),
      refl,
      back,
      refl,
    )
