-- ===== src/SaveState/MemoryMap.antt =====
-- What is written of the memory, and how it is restored.
use ps5x_windows.Base.{
  ℕ, zero, suc, ◌+◌, ◌%◌, ◌^◌, Option, none, some, List, [], ◌∷◌, ◌++◌, Bool, true, false, not,
  ◌==◌, if◌then◌else◌, length, update, ltb, ◌&&◌,
}
use ps5x_windows.CommandProcessor.Command.{le_bytes, u32, u64}
use ps5x_windows.Memory.State.{
  AllocType, unknown, code, data_segment, stack, heap, flex_heap, gpu, system, Region, prot_read,
  prot_write,
}
use ps5x_windows.Memory.Query.{find_region, allows}
use ps5x_windows.Memory.Virtual.{map}
use ps5x_windows.SaveState.Blob.{Machine, TextBytes, str_bytes, read_bytes, read_t, read_str}

-- The values of AllocType; a value with no name is Unknown here.
unfoldable pub type_value : AllocType → ℕ
type_value unknown = 0
type_value code = 1
type_value data_segment = 2
type_value stack = 3
type_value heap = 4
type_value flex_heap = 5
type_value gpu = 6
type_value system = 7

unfoldable pub type_of_value : ℕ → AllocType
type_of_value v =
    if v == 1
    then code
    else if v == 2
    then data_segment
    else if v == 3
    then stack
    else if v == 4
    then heap
    else if v == 5
    then flex_heap
    else if v == 6
    then gpu
    else if v == 7
    then system
    else unknown

unfoldable pub count_committed : List Region → ℕ
count_committed [] = 0
count_committed (r ∷ rs) = let n = count_committed rs in if r.committed then (n + 1) % 2 ^ 32 else n

-- Whether the copies of SerializeMemoryMap may read: the host protects a committed region as its
-- entry says, and a copy from one without reading granted faults.
unfoldable pub map_readable : List Region → Bool
map_readable [] = true
map_readable (r ∷ rs) =
    (if r.committed && (ltb 0 r.size && not (r.base == 0)) then allows prot_read r else true)
    && map_readable rs

-- `count` bytes of the host's memory from an address on, where it may be read.
unfoldable pub page_data : (ℕ → ℕ) → ℕ → ℕ → List ℕ
page_data bytes base zero = []
page_data bytes base (suc count) = bytes base ∷ page_data bytes (suc base) count

unfoldable pub region_bytes : TextBytes → (ℕ → ℕ) → Region → List ℕ
region_bytes e bytes r =
    u64 r.base
    ++ (u64 r.size
        ++ (u32 r.prot
            ++ (le_bytes 1 (type_value r.type)
                ++ (str_bytes (e.bytes_of r.tag)
                    ++ (if ltb 0 r.size && not (r.base == 0)
                        then page_data bytes r.base r.size
                        else [])))))

unfoldable pub regions_bytes : TextBytes → (ℕ → ℕ) → List Region → List ℕ
regions_bytes e bytes [] = []
regions_bytes e bytes (r ∷ rs) =
    let more = regions_bytes e bytes rs in
    if r.committed then region_bytes e bytes r ++ more else more

unfoldable pub serialize_memory_map : TextBytes → Machine → List ℕ
serialize_memory_map e m =
    u32 (count_committed m.memory.regions) ++ regions_bytes e m.bytes m.memory.regions

-- Whether `count` bytes from an address on may be written: each lies in a tracked region that is
-- committed with writing granted. Anything else faults.
unfoldable pub writable_at : List Region → ℕ → Bool
writable_at rs a = elim (find_region rs a) [ none ↦ false | some r ↦ allows prot_write r ]

unfoldable pub writable_range : List Region → (base count : ℕ) → Bool
writable_range rs base zero = true
writable_range rs base (suc count) = writable_at rs base && writable_range rs (suc base) count

-- memcpy of the bytes to an address that may be written.
unfoldable pub copy_to : ℕ → List ℕ → (ℕ → ℕ) → ℕ → ℕ
copy_to base [] bytes = bytes
copy_to base (b ∷ bs) bytes = copy_to (suc base) bs (update bytes base b)

-- The restored page data; `none` is a fault.
unfoldable pub restore_at : (base : ℕ) → (content : List ℕ) → Machine → Option Machine
restore_at base content m =
    if writable_range m.memory.regions base (length content)
    then some (record m { bytes = copy_to base content m.bytes })
    else none

-- What DeserializeMemoryMap does with a region that it has read. `answer` is what mmap answers to
-- Memory::Map.
unfoldable pub restore_region :
    TextBytes
    → (base size prot type : ℕ) → (tag content : List ℕ) → Option ℕ
    → Machine
    → Option Machine
restore_region e base size prot type tag content answer m =
    let (new_base, mem) = map m.memory size prot (type_of_value type) (e.text_of tag) answer in
    elim (find_region m.memory.regions base) [
      | some r ↦ if base == 0 then some m else restore_at base content m
      | none ↦
          if new_base == 0
          then some (record m { memory = mem })
          else restore_at new_base content (record m { memory = mem })
    ]

-- One region of the file: none where the reader ends, and no machine where a copy faults. A size for which the host has no memory ends
-- the program by an exception; here it is such an end.
unfoldable pub read_region :
    TextBytes → List ℕ → Option ℕ → Machine → Option (Option Machine × List ℕ)
read_region e rest answer m = elim (read_t 8 rest) [
  | none ↦ none
  | some (base, p1) ↦ elim (read_t 8 p1) [
    | none ↦ none
    | some (size, p2) ↦ elim (read_t 4 p2) [
      | none ↦ none
      | some (prot, p3) ↦ elim (read_t 1 p3) [
        | none ↦ none
        | some (type, p4) ↦ elim (read_str p4) [
          | none ↦ none
          | some (tag, p5) ↦ elim (read_bytes size p5) [
            | none ↦ none
            | some (content, p6) ↦
                some (restore_region e base size prot type tag content answer m, p6)
          ]
        ]
      ]
    ]
  ]
]

-- `answers` are those of mmap, by the round of the loop; `none` is a fault.
unfoldable pub read_regions :
    TextBytes → (count : ℕ) → List ℕ → (ℕ → Option ℕ) → Machine → Option (Bool × Machine)
read_regions e zero rest answers m = some (true, m)
read_regions e (suc count) rest answers m = elim (read_region e rest (answers count) m) [
  | none ↦ some (false, m)
  | some (none, more) ↦ none
  | some (some n, more) ↦ read_regions e count more answers n
]

unfoldable pub deserialize_memory_map :
    TextBytes → List ℕ → (ℕ → Option ℕ) → Machine → Option (Bool × Machine)
deserialize_memory_map e rest answers m = elim (read_t 4 rest) [
  | none ↦ some (false, m)
  | some (count, more) ↦ read_regions e count more answers m
]
