-- ===== src/Memory/Virtual.antt =====
-- Lifecycle, Reserve, Commit, Map, Protect and Unmap. What the system calls answer is an argument:
-- an address or a failure of mmap, success or failure of mprotect and munmap.
use ps5x_windows.Base.{ℕ, Bool, true, false, Option, none, some, [], String, ◌==◌, if◌then◌else◌}
use ps5x_windows.Memory.State.{
  MemState, Region, AllocType, unknown, zero_stats, add_size, align_up, page_size, prot_none,
  add_region, remove_region, change_base, find_base,
}

-- Init, and the tracked state after Shutdown and Reset.
unfoldable pub reset : MemState → MemState
reset s = record { regions = []; heap_allocs = []; stats = zero_stats }

-- The address that Reserve ends with: it tries the hint, if there is one, then any address.
unfoldable pub reserve_at : (no_hint : Bool) → (at_hint anywhere : Option ℕ) → Option ℕ
reserve_at true at_hint anywhere = anywhere
reserve_at false (some base) anywhere = some base
reserve_at false none anywhere = anywhere

unfoldable pub track_reserved : MemState → (size : ℕ) → String → Option ℕ → ℕ × MemState
track_reserved s size tag none = (0, s)
track_reserved s size tag (some base) = (
  base,
  add_region s (record {
    base = base;
    size = size;
    prot = prot_none;
    type = unknown;
    tag = tag;
    committed = false;
  }),
)

unfoldable pub reserve :
    MemState → (hint size : ℕ) → String → (at_hint anywhere : Option ℕ) → ℕ × MemState
reserve s hint size tag at_hint anywhere =
    track_reserved s (align_up size page_size) tag (reserve_at (hint == 0) at_hint anywhere)

unfoldable pub commit_region : ℕ → Region → Region
commit_region prot r = record r { committed = true; prot = prot }

-- The counter of committed bytes grows where the region found is not committed.
unfoldable pub count_uncommitted : (base size : ℕ) → MemState → MemState
count_uncommitted base size s = elim (find_base base s.regions) [
  | none ↦ s
  | some r ↦ if r.committed then s else record s {
    stats = record (s.stats) { total_committed = add_size s.stats.total_committed size };
  }
]

-- The region is marked and given its protection before its mark is asked for.
unfoldable pub commit : MemState → (base size prot : ℕ) → Bool → Bool × MemState
commit s base size prot false = (false, s)
commit s base size prot true = (
  true,
  count_uncommitted base (align_up size page_size)
      (record s { regions = change_base (commit_region prot) base s.regions }),
)

-- Map adds the size to the committed bytes after AddRegion.
unfoldable pub map : MemState → (size prot : ℕ) → AllocType → String → Option ℕ → ℕ × MemState
map s size0 prot ty tag none = (0, s)
map s size0 prot ty tag (some base) =
    let size = align_up size0 page_size in
    let t =
      add_region s (record {
        base = base;
        size = size;
        prot = prot;
        type = ty;
        tag = tag;
        committed = true;
      }) in
    (
      base,
      record t {
        stats = record (t.stats) { total_committed = add_size t.stats.total_committed size };
      },
    )

unfoldable pub protect : MemState → (base prot : ℕ) → Bool → Bool × MemState
protect s base prot false = (false, s)
protect s base prot true =
    (true, record s { regions = change_base (λ r. record r { prot = prot }) base s.regions })

-- The size is not used once munmap has succeeded.
unfoldable pub unmap : MemState → ℕ → Bool → Bool × MemState
unmap s base false = (false, s)
unmap s base true = (true, remove_region s base)
