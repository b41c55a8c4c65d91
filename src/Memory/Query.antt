-- ===== src/Memory/Query.antt =====
-- FindRegion, HasProt and the tests of a range. The probes through a pipe are the system's.
use Prim.Native.Nat.{bit_and}
use ps5x_windows.Base.{
  ℕ, ◌+◌, Bool, true, false, not, ◌&&◌, Option, none, some, List, [], ◌∷◌, ◌==◌, ltb, leb,
  if◌then◌else◌,
}
use ps5x_windows.Cpu.Guest.{Guest}
use ps5x_windows.Memory.State.{MemState, Region, prot_read, prot_write, prot_exec, add_size}

unfoldable pub covers : ℕ → Region → Bool
covers addr r = leb r.base addr && ltb addr (add_size r.base r.size)

unfoldable pub find_region : List Region → ℕ → Option Region
unfolding covers
find_region [] addr = none
find_region (r ∷ rs) addr = if covers addr r then some r else find_region rs addr

unfoldable pub contains : ℕ → ℕ → Region → Bool
contains base size r = leb r.base base && leb (add_size base size) (add_size r.base r.size)

unfoldable pub allows : ℕ → Region → Bool
allows required r = r.committed && bit_and r.prot required == required

-- The first region that contains the range decides.
unfoldable pub has_prot : List Region → ℕ → ℕ → ℕ → Bool
unfolding contains allows
has_prot [] base size required = false
has_prot (r ∷ rs) base size required =
    if contains base size r then allows required r else has_prot rs base size required

-- What pipe, write(2) and read(2) answer: whether a pipe could be made, whether all `size` bytes
-- were taken from the range, and whether all were stored to it, with the memory after that.
pub record Os : Type 0 where
  pub pipe_made : Bool
  pub taken : ℕ → ℕ → Bool
  pub stored : ℕ → ℕ → (ℕ → ℕ) → Bool × (ℕ → ℕ)

unfoldable pub is_readable : Os → MemState → ℕ → ℕ → Bool
is_readable os s base size =
    if has_prot s.regions base size prot_read then true else os.pipe_made && os.taken base size

-- std::memcpy of the backup over the range.
unfoldable pub restore : (ℕ → ℕ) → ℕ → ℕ → (ℕ → ℕ) → ℕ → ℕ
restore backup base size m a = if leb base a && ltb a (base + size) then backup a else m a

-- The verdict, and the memory: the zeros that the probe stores are undone after a full probe only.
unfoldable pub is_writable : Os → MemState → ℕ → ℕ → (ℕ → ℕ) → Bool × (ℕ → ℕ)
unfolding is_readable restore
is_writable os s base size m =
    let (full, m') = os.stored base size m in
    if has_prot s.regions base size prot_write
    then (true, m)
    else if not (is_readable os s base size)
    then (false, m)
    else if not os.pipe_made
    then (false, m)
    else (full, if full then restore m base size m' else m')

unfoldable pub is_executable : MemState → ℕ → ℕ → Bool
is_executable s base size = has_prot s.regions base size prot_exec

-- The memory manager as the interpreter sees it.
abbrev pub guest : Os → MemState → Guest
guest os s = record { readable = is_readable os s; writable = is_writable os s }
