-- ===== src/Memory/Heap.antt =====
-- Alloc and Free. The pointer that posix_memalign gives is an argument.
use ps5x_windows.Base.{
  ℕ, ◌≡◌, refl, ◌≢◌, ◌^◌, ◌<◌, Option, none, some, lookup, insert, erase, ◌==◌, if◌then◌else◌,
  lookup-insert, lookup-erase, ==_ne, arith, ◌∙◌,
}
use ps5x_windows.Memory.State.{MemState, AllocType, HeapAlloc, add_size, sub_size}

unfoldable pub alloc : MemState → (size : ℕ) → AllocType → Option ℕ → ℕ × MemState
alloc s size ty none = (0, s)
alloc s size ty (some ptr) = (
  ptr,
  record s {
    heap_allocs = insert ptr (record { size = size; type = ty }) s.heap_allocs;
    stats = record (s.stats) { total_allocated = add_size s.stats.total_allocated size };
  },
)

unfoldable pub free : MemState → ℕ → MemState
free s ptr = if ptr == 0 then s else elim (lookup ptr s.heap_allocs) [
  | none ↦ s
  | some a ↦ record s {
    heap_allocs = erase ptr s.heap_allocs;
    stats = record (s.stats) { total_allocated = sub_size s.stats.total_allocated a.size };
  }
]

freed : MemState → ℕ → HeapAlloc → MemState
freed s ptr a = record s {
  heap_allocs = erase ptr s.heap_allocs;
  stats = record (s.stats) { total_allocated = sub_size s.stats.total_allocated a.size };
}

free_lem :
    (s : MemState) (ptr : ℕ) (a : HeapAlloc)
    → ptr ≢ 0
    → lookup ptr s.heap_allocs ≡ some a
    → free s ptr ≡ freed s ptr a
unfolding free freed
free_lem s ptr a n h = rw (==_ne ptr 0 n, h, free) refl

-- Alloc of a pointer that is not null and not tracked, with both counts below 2 ^ 64, and Free of
-- it: the counter of allocated bytes returns to its value, the pointer is forgotten, every other
-- pointer keeps its entry, and the regions are as they were.
pub free-alloc :
    (s : MemState) (size ptr : ℕ) (ty : AllocType)
    → ptr ≢ 0
    → lookup ptr s.heap_allocs ≡ none
    → size < 2 ^ 64
    → s.stats.total_allocated < 2 ^ 64
    → let t = free (alloc s size ty (some ptr)).1 ptr in
      (t.stats.total_allocated ≡ s.stats.total_allocated)
      × ((p : ℕ) → lookup p t.heap_allocs ≡ lookup p s.heap_allocs)
      × (t.regions ≡ s.regions)
unfolding alloc freed
free-alloc s size ptr ty n fresh hs ht =
    let a : HeapAlloc = record { size = size; type = ty } in
    let s' = (alloc s size ty (some ptr)).1 in
    let found : lookup ptr s'.heap_allocs ≡ some a =
      lookup-insert ptr ptr a s.heap_allocs ∙ ground arith in
    rw (free_lem s' ptr a n found) (
      ground arith,
      λ p.
          ground
            (arith, fresh, lookup-erase ptr p s'.heap_allocs, lookup-insert ptr p a s.heap_allocs),
      refl,
    )
