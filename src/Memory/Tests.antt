-- ===== src/Memory/Tests.antt =====
-- The memory manager's theorems at concrete states.
use ps5x_windows.Base.{
  ℕ, ◌≡◌, refl, true, false, some, none, [], ◌∷◌, arith, inl, lookup, ◌==◌, if◌then◌else◌,
}
use ps5x_windows.Cpu.State.{CpuState}
use ps5x_windows.Cpu.Breakpoints.{zero_context}
use ps5x_windows.Cpu.Breakpoints
use ps5x_windows.Cpu.Stack.{StackMapped}
use ps5x_windows.Memory.State.{
  MemState, Region, stack, heap, code, zero_stats, add_size, sub_size, align_up, page_size,
  find_base,
}
use ps5x_windows.Memory.Virtual.{map, unmap, commit, commit_region}
use ps5x_windows.Memory.Heap.{alloc, free, free-alloc}
use ps5x_windows.Memory.Accounting.{
  IsAccounted, run, maps, reserves, commits, unmaps, run-IsAccounted,
}
use ps5x_windows.Memory.Virtual.{reset}
use ps5x_windows.Memory.Committed.{unmap-map_committed, commit_uncounted}
use ps5x_windows.Memory.Query.{Os, find_region, guest}
use ps5x_windows.Cpu.Word.{sub64}
use ps5x_windows.Memory.Lookup.{FindsRegion, find_region-FindsRegion, map-StackMapped}

abbrev stack_region : Region
stack_region = record {
  base = 0x4000;
  size = 0x8000;
  prot = 3;
  type = stack;
  tag = "stack";
  committed = true;
}

abbrev reserved_region : Region
reserved_region = record {
  base = 0x10000;
  size = 0x4000;
  prot = 0;
  type = code;
  tag = "text";
  committed = false;
}

abbrev two_regions : MemState
two_regions = record {
  regions = stack_region ∷ reserved_region ∷ [];
  heap_allocs = [];
  stats = record (zero_stats) {
    total_reserved = 0xC000;
    total_committed = 0x8000;
    region_count = 2;
    peak_region_count = 2;
  };
}

abbrev no_pipe : Os
no_pipe = record { pipe_made = false; taken = λ a n. false; stored = λ a n m. (false, m) }

-- RSP = 0x8000, inside the stack's region.
abbrev stacked : CpuState
stacked = record {
  ctx = record (zero_context) { gpr = λ r. if r == 4 then 0x8000 else 0 };
  running = false;
  paused = false;
  initialised = true;
  breakpoints = [];
  bp_by_addr = [];
  next_bp_id = 1;
  call_stack = [];
  insn_cb = false;
  insn_log = [];
  stats = Breakpoints.zero_stats;
  memory = λ a. 0;
}

run-IsAccounted_example : IsAccounted (
    run (reset two_regions) (
      maps 100 3 heap "a" (some 0x40000)
      ∷ reserves 0 50 "b" none (some 0x50000)
      ∷ commits 0x50000 50 1 true
      ∷ unmaps 0x40000 true
      ∷ []))
run-IsAccounted_example = run-IsAccounted two_regions (
    maps 100 3 heap "a" (some 0x40000)
    ∷ reserves 0 50 "b" none (some 0x50000)
    ∷ commits 0x50000 50 1 true
    ∷ unmaps 0x40000 true
    ∷ [])

unmap-map_committed_example :
    let t = (unmap (map two_regions 100 3 heap "a" (some 0x40000)).1 0x40000 true).1 in
    (t.regions ≡ two_regions.regions)
    × (t.stats.total_reserved ≡ two_regions.stats.total_reserved)
    × (t.stats.total_committed
        ≡ add_size two_regions.stats.total_committed (align_up 100 page_size))
unfolding find_base
unmap-map_committed_example =
    unmap-map_committed two_regions 100 3 0x40000 heap "a" refl (omega arith)

-- RSP = 0x44000.
abbrev high_stacked : CpuState
high_stacked = record stacked {
  ctx = record (zero_context) { gpr = λ r. if r == 4 then 0x44000 else 0 };
}

commit_uncounted_example :
    let t = (commit two_regions 0x10000 0x4000 3 true).1 in
    (find_base 0x10000 t.regions ≡ some (commit_region 3 reserved_region))
    × ((commit_region 3 reserved_region).committed ≡ true)
    × (t.stats.total_committed ≡ two_regions.stats.total_committed)
    × ((unmap t 0x10000 true).1.stats.total_committed
        ≡ sub_size two_regions.stats.total_committed 0x4000)
unfolding find_base
commit_uncounted_example = commit_uncounted two_regions 0x10000 0x4000 3 reserved_region refl

free-alloc_example :
    let t = free (alloc two_regions 64 heap (some 0x7000)).1 0x7000 in
    (t.stats.total_allocated ≡ two_regions.stats.total_allocated)
    × ((p : ℕ) → lookup p t.heap_allocs ≡ lookup p two_regions.heap_allocs)
    × (t.regions ≡ two_regions.regions)
free-alloc_example =
    free-alloc two_regions 64 0x7000 heap (λ e. omega (arith, e)) refl (omega arith) (omega arith)

find_region-FindsRegion_example :
    FindsRegion two_regions.regions 0x5000 (find_region two_regions.regions 0x5000)
find_region-FindsRegion_example = find_region-FindsRegion two_regions.regions 0x5000

map-StackMapped_example :
    StackMapped
      (guest no_pipe (map two_regions 0x8000 3 stack "stack" (some 0x40000)).1)
      high_stacked
unfolding sub64 align_up
map-StackMapped_example =
    map-StackMapped no_pipe two_regions high_stacked 0x8000 3 0x40000 stack "stack" refl refl
      (omega arith) (omega arith) (omega arith) (inl (omega arith), (inl (omega arith), tt))
