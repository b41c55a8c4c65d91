-- ===== src/Memory/State.antt =====
-- Regions, statistics and the state; AddRegion and RemoveRegion.
use Prim.Native.Nat.{bit_and}
use ps5x_windows.Base.{
  ℕ, ◌+◌, ◌-◌, ◌%◌, ◌^◌, Bool, Option, none, some, List, [], ◌∷◌, ◌++◌, String, ◌==◌, ltb,
  if◌then◌else◌,
}

abbrev pub page_size : ℕ
page_size = 0x4000

-- Prot is a set of bits.
abbrev pub prot_none : ℕ
prot_none = 0

abbrev pub prot_read : ℕ
prot_read = 1

abbrev pub prot_write : ℕ
prot_write = 2

abbrev pub prot_exec : ℕ
prot_exec = 4

pub data AllocType : Type 0 where
  unknown code data_segment stack heap flex_heap gpu system : AllocType

pub record Region : Type 0 where
  pub base : ℕ
  pub size : ℕ
  pub prot : ℕ
  pub type : AllocType
  pub tag : String
  pub committed : Bool

-- Counters of size_t, and of uint32_t for the regions.
pub record Stats : Type 0 where
  pub total_reserved : ℕ
  pub total_committed : ℕ
  pub total_allocated : ℕ
  pub region_count : ℕ
  pub peak_region_count : ℕ

pub record HeapAlloc : Type 0 where
  pub size : ℕ
  pub type : AllocType

-- `heap_allocs` maps a pointer to its allocation.
pub record MemState : Type 0 where
  pub regions : List Region
  pub heap_allocs : List (ℕ × HeapAlloc)
  pub stats : Stats

abbrev pub zero_stats : Stats
zero_stats = record {
  total_reserved = 0;
  total_committed = 0;
  total_allocated = 0;
  region_count = 0;
  peak_region_count = 0;
}

-- size_t sums and differences.
abbrev pub add_size : ℕ → ℕ → ℕ
add_size a b = (a + b) % 2 ^ 64

abbrev pub sub_size : ℕ → ℕ → ℕ
sub_size a b = (a + 2 ^ 64 - b) % 2 ^ 64

-- `(v + align - 1) & ~(align - 1)`.
unfoldable pub align_up : ℕ → ℕ → ℕ
align_up v align =
    bit_and ((v + align + 2 ^ 64 - 1) % 2 ^ 64) (2 ^ 64 - 1 - (align + 2 ^ 64 - 1) % 2 ^ 64)

unfoldable pub add_region : MemState → Region → MemState
add_region s r =
    let t = s.stats in
    let n = (t.region_count + 1) % 2 ^ 32 in
    record s {
      regions = s.regions ++ r ∷ [];
      stats = record t {
        region_count = n;
        peak_region_count = if ltb t.peak_region_count n then n else t.peak_region_count;
        total_reserved = add_size t.total_reserved r.size;
        total_committed =
            if r.committed then add_size t.total_committed r.size else t.total_committed;
      };
    }

-- std::find_if by the base, and the list without the entry found.
unfoldable pub find_base : ℕ → List Region → Option Region
find_base base [] = none
find_base base (r ∷ rs) = if r.base == base then some r else find_base base rs

unfoldable pub drop_base : ℕ → List Region → List Region
drop_base base [] = []
drop_base base (r ∷ rs) = if r.base == base then rs else r ∷ drop_base base rs

unfoldable pub remove_region : MemState → ℕ → MemState
remove_region s base = elim (find_base base s.regions) [
  | none ↦ s
  | some r ↦
      let t = s.stats in
      record s {
        regions = drop_base base s.regions;
        stats = record t {
          total_reserved = sub_size t.total_reserved r.size;
          total_committed =
              if r.committed then sub_size t.total_committed r.size else t.total_committed;
          region_count = (t.region_count + 2 ^ 32 - 1) % 2 ^ 32;
        };
      }
]

-- A change of the first region with the base.
unfoldable pub change_base : (Region → Region) → ℕ → List Region → List Region
change_base f base [] = []
change_base f base (r ∷ rs) = if r.base == base then f r ∷ rs else r ∷ change_base f base rs
