-- ===== src/SaveState/Pages.antt =====
-- What is read back of the memory.
use mathlib.Core.List.{append_assoc, append-nil}
use ps5x_windows.Base.{
  ℕ, zero, suc, ◌+◌, ◌%◌, ◌^◌, ◌≤◌, ◌<◌, ◌≡◌, ◌≢◌, inl, inr, refl, sym, ap, ◌∙◌, Option, some, List,
  [], ◌∷◌, ◌++◌, Bool, true, false, not, ltb, leb, ◌&&◌, ◌||◌, ◌==◌, ==_ne, if◌then◌else◌, length,
  update, arith, All, Bool-cases,
}
use ps5x_windows.Memory.State.{
  AllocType, unknown, code, data_segment, stack, heap, flex_heap, gpu, system, Region, prot_read,
}
use ps5x_windows.Memory.Query.{find_region, allows}
use ps5x_windows.SaveState.Blob.{Machine, TextBytes, read_bytes, read_t}
use ps5x_windows.SaveState.MemoryMap.{
  type_value, count_committed, page_data, region_bytes, regions_bytes, serialize_memory_map,
  copy_to, restore_region, restore_at, writable_range, map_readable, read_region, read_regions,
  deserialize_memory_map,
}
use ps5x_windows.SaveState.Restore.{
  read_bytes-append, read_t-le_bytes, read_u64, read_u32, read_str-str_bytes,
}

length-page_data : (src : ℕ → ℕ) (base n : ℕ) → length (page_data src base n) ≡ n
unfolding page_data
length-page_data src base zero = refl
length-page_data src base (suc n) = ap suc (length-page_data src (suc base) n)

-- A copy of a page's bytes to its own addresses.
copy_to-page_data :
    (src dst : ℕ → ℕ) (base n a : ℕ)
    → copy_to base (page_data src base n) dst a
      ≡ (if leb base a && ltb a (base + n) then src a else dst a)
unfolding copy_to page_data
copy_to-page_data src dst base zero a = ground arith
copy_to-page_data src dst base (suc n) a =
    copy_to-page_data src (update dst base (src base)) (suc base) n a
    ∙ elim (Bool-cases (base == a)) [
      | inl here ↦ let e : base ≡ a = ground arith in rw e (ground arith)
      | inr other ↦ ground arith
    ]

-- A committed region that may be read and that a file can hold, and a table of regions that knows
-- its base and grants writing of its bytes.
pub record IsSavable (e : TextBytes) (known : List Region) (r : Region) : Type 0 where
  pub not_null : r.base ≢ 0
  pub base_fits : r.base < 2 ^ 64
  pub size_fits : r.size < 2 ^ 64
  pub prot_fits : r.prot < 2 ^ 32
  pub tag_fits : length (e.bytes_of r.tag) < 2 ^ 32
  pub holder : Region
  pub held : find_region known r.base ≡ some holder
  pub readable : allows prot_read r ≡ true
  pub writable : writable_range known r.base r.size ≡ true

abbrev pub SavedIfCommitted : TextBytes → List Region → Region → Type 0
SavedIfCommitted e known r = r.committed ≡ true → IsSavable e known r

-- Save may read every committed region.
pub map_readable_lem :
    (e : TextBytes) (known rs : List Region)
    → All (SavedIfCommitted e known) rs
    → map_readable rs ≡ true
unfolding map_readable
map_readable_lem e known [] v = refl
map_readable_lem e known (r ∷ rs) v =
    let rest = map_readable_lem e known rs v.1 in
    elim (Bool-cases r.committed) [
      | inl committed ↦
          let granted = (v.0 committed).readable in ground (arith, committed, granted, rest)
      | inr free ↦ ground (arith, free, rest)
    ]

-- Whether an address lies in a committed region.
unfoldable pub is_saved : ℕ → List Region → Bool
is_saved a [] = false
is_saved a (r ∷ rs) = r.committed && (leb r.base a && ltb a (r.base + r.size)) || is_saved a rs

region_bytes_lem :
    (e : TextBytes) (src : ℕ → ℕ) (r : Region)
    → r.base ≢ 0
    → (if ltb 0 r.size && not (r.base == 0) then page_data src r.base r.size else [])
      ≡ page_data src r.base r.size
unfolding page_data
region_bytes_lem e src r n = rw (==_ne r.base 0 n) (by_size r.size)
  where
    by_size :
        (k : ℕ) → (if ltb 0 k && true then page_data src r.base k else []) ≡ page_data src r.base k
    by_size zero = refl
    by_size (suc k) = let pos : ltb 0 (suc k) ≡ true = ground arith in rw pos refl

type_value-lt : (t : AllocType) → type_value t < 256 ^ 1
unfolding type_value
type_value-lt unknown = omega arith
type_value-lt code = omega arith
type_value-lt data_segment = omega arith
type_value-lt stack = omega arith
type_value-lt heap = omega arith
type_value-lt flex_heap = omega arith
type_value-lt gpu = omega arith
type_value-lt system = omega arith

read_region-region_bytes :
    (e : TextBytes) (src : ℕ → ℕ) (r : Region) (rest : List ℕ) (answer : Option ℕ) (n : Machine)
    → IsSavable e n.memory.regions r
    → read_region e (region_bytes e src r ++ rest) answer n
      ≡ some
          (some (record n { bytes = copy_to r.base (page_data src r.base r.size) n.bytes }), rest)
unfolding region_bytes restore_region read_region restore_at
read_region-region_bytes e src r rest answer n s =
    let content = page_data src r.base r.size in
    rw (region_bytes_lem e src r s.not_null) (
      simp append_assoc (
        rw
          (
            read_region,
            read_u64 r.base _ s.base_fits,
            read_u64 r.size _ s.size_fits,
            read_u32 r.prot _ s.prot_fits,
            read_t-le_bytes 1 (type_value r.type) _ (type_value-lt r.type),
            read_str-str_bytes (e.bytes_of r.tag) (content ++ rest) s.tag_fits,
            read_bytes-append r.size content rest (length-page_data src r.base r.size),
            restore_region,
            s.held,
            ==_ne r.base 0 s.not_null,
            restore_at,
            length-page_data src r.base r.size,
            s.writable,
          )
          refl))

-- What reading the regions makes of the memory `old`: the bytes that were saved, and the others as
-- they were.
abbrev Returned : (ℕ → ℕ) → (ℕ → ℕ) → (ℕ → ℕ) → List Region → Type 0
Returned src old now rs = (a : ℕ) → now a ≡ (if is_saved a rs then src a else old a)

first_region_lem :
    (src old mid now : ℕ → ℕ) (r : Region) (rs : List Region)
    → r.committed ≡ true
    → ((a : ℕ) → mid a ≡ (if leb r.base a && ltb a (r.base + r.size) then src a else old a))
    → Returned src mid now rs
    → Returned src old now (r ∷ rs)
unfolding is_saved
first_region_lem src old mid now r rs committed first later a =
    ground (arith, committed, first a, later a)

read_regions-regions_bytes :
    (e : TextBytes) (src : ℕ → ℕ) (rs : List Region) (rest : List ℕ) (answers : ℕ → Option ℕ)
    (n : Machine)
    → length rs < 2 ^ 32
    → All (SavedIfCommitted e n.memory.regions) rs
    → (now : ℕ → ℕ) × (read_regions e
          (count_committed rs)
          (regions_bytes e src rs ++ rest)
          answers
          n
        ≡ some (true, record n { bytes = now }))
      × Returned src n.bytes now rs
      × (count_committed rs ≤ length rs)
unfolding read_regions regions_bytes count_committed is_saved read_region copy_to read_t page_data
    read_bytes region_bytes
read_regions-regions_bytes e src [] rest answers n few v = (n.bytes, refl, λ a. refl, omega arith)
read_regions-regions_bytes e src (r ∷ rs) rest answers n few v = elim (Bool-cases r.committed) [
  | inl committed ↦
      let s = v.0 committed in
      let mid = copy_to r.base (page_data src r.base r.size) n.bytes in
      let t = record n { bytes = mid } in
      let (now, f, back, bound) =
        read_regions-regions_bytes e src rs rest answers t (omega arith) v.1 in
      let counted : (count_committed rs + 1) % 2 ^ 32 ≡ suc (count_committed rs) = omega arith in
      let first =
        read_region-region_bytes e src r (regions_bytes e src rs ++ rest)
          (answers (count_committed rs)) n s in
      (
        now,
        rw
            (
              committed,
              counted,
              append_assoc (region_bytes e src r) (regions_bytes e src rs) rest,
              read_regions,
              first,
            )
            f,
        first_region_lem src n.bytes mid now r rs committed
            (copy_to-page_data src n.bytes r.base r.size) back,
        rw (committed, counted) (omega arith),
      )
  | inr free ↦
      let (now, f, back, bound) =
        read_regions-regions_bytes e src rs rest answers n (omega arith) v.1 in
      (now, rw free f, λ a. rw free (back a), rw free (omega arith))
]

pub deserialize_memory_map-serialize_memory_map :
    (e : TextBytes) (m n : Machine) (answers : ℕ → Option ℕ)
    → length m.memory.regions < 2 ^ 32
    → All (SavedIfCommitted e n.memory.regions) m.memory.regions
    → (now : ℕ → ℕ) × (deserialize_memory_map e (serialize_memory_map e m) answers n
        ≡ some (true, record n { bytes = now }))
      × ((a : ℕ) → now a ≡ (if is_saved a m.memory.regions then m.bytes a else n.bytes a))
unfolding deserialize_memory_map serialize_memory_map
deserialize_memory_map-serialize_memory_map e m n answers few v =
    let rs = m.memory.regions in
    let (now, f, back, bound) = read_regions-regions_bytes e m.bytes rs [] answers n few v in
    let g : read_regions e (count_committed rs) (regions_bytes e m.bytes rs) answers n
        ≡ some (true, record n { bytes = now }) =
      ap (λ l. read_regions e (count_committed rs) l answers n)
        (sym (append-nil (regions_bytes e m.bytes rs)))
      ∙ f in
    let counted = read_u32 (count_committed rs) (regions_bytes e m.bytes rs) (omega arith) in
    (now, rw (deserialize_memory_map, counted) g, back)
