-- ===== src/Cpu/Exec/Group/Laws.antt =====
-- Shifts and divisions.
use ps5x_windows.Base.{ℕ, ◌+◌, ◌*◌, ◌/◌, ◌%◌, ◌<◌, ◌≡◌, ◌≢◌, refl, Bool, false, arith, ==_ne}
use ps5x_windows.Cpu.State.{CpuState, reg, set_reg, rax, rdx}
use ps5x_windows.Cpu.Flags.{flag, cf_mask, set_flag}
use ps5x_windows.Cpu.Flags.Read.{update_flags_logic-FlagsAre}
use ps5x_windows.Cpu.Fetch.{breaks}
use ps5x_windows.Cpu.Exec.Group.{apply_shift, exec_div}

-- A shift stores its result and leaves CF clear, whatever bit was shifted out.
apply_shift-carry_lost :
    (s : CpuState) (rm : ℕ) (carry : Bool) (r : ℕ)
    → let t = apply_shift (carry, r) s rm in (flag t.ctx.rflags cf_mask ≡ false) × (reg t rm ≡ r)
unfolding apply_shift
apply_shift-carry_lost s rm carry r =
    ((update_flags_logic-FlagsAre (set_flag s.ctx.rflags cf_mask carry) r).0, ground arith)

-- DIV by a divisor d that is not zero completes and divides RAX alone: the old RAX is the new RAX
-- times d plus the new RDX, and the new RDX is below d.
pub exec_div_lem :
    (s : CpuState) (d off : ℕ)
    → d ≢ 0
    → (t : CpuState) × (exec_div s d off ≡ breaks t off)
      × (reg s rax ≡ reg t rax * d + reg t rdx)
      × (reg t rdx < d)
unfolding exec_div
exec_div_lem s d off h = (
  set_reg (set_reg s rax (reg s rax / d)) rdx (reg s rax % d),
  rw (==_ne d 0 h) refl,
  ground arith,
  ground arith,
)
