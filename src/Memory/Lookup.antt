-- ===== src/Memory/Lookup.antt =====
-- FindRegion against membership, and the tests of a range in tracked memory.
use Prim.Native.Nat.{bit_and}
use ps5x_windows.Base.{
  ℕ, ◌≤◌, ◌<◌, ◌≡◌, refl, true, false, Option, none, some, List, [], ◌∷◌, All, arith, leb→le,
  ltb→lt, Bool-cases, inl, inr, ◌⊎◌, ◌+◌, ◌^◌, ◌++◌, String, leb,
}
use ps5x_windows.Cpu.State.{CpuState, reg, rsp}
use ps5x_windows.Cpu.Word.{sub64}
use ps5x_windows.Cpu.Stack.{StackMapped}
use ps5x_windows.Memory.State.{
  MemState, Region, AllocType, add_region, add_size, align_up, page_size, prot_read, prot_write,
}
use ps5x_windows.Memory.Virtual.{map}
use ps5x_windows.Memory.Query.{
  Os, covers, find_region, contains, allows, has_prot, is_readable, is_writable, guest,
}

-- A region stands in the list.
pub data Tracked (r : Region) : List Region → Type 0 where
  here : {rs : List Region} → Tracked r (r ∷ rs)
  there : {x : Region} {rs : List Region} → Tracked r rs → Tracked r (x ∷ rs)

-- What FindRegion may answer: a tracked region that holds the address, or nothing where none does.
abbrev pub FindsRegion : List Region → ℕ → Option Region → Type 0
FindsRegion rs addr none = All (λ r. (addr < r.base) ⊎ (add_size r.base r.size ≤ addr)) rs
FindsRegion rs addr (some r) = Tracked r rs × (r.base ≤ addr) × (addr < add_size r.base r.size)

covers-bounds :
    (r : Region) (addr : ℕ)
    → covers addr r ≡ true
    → (r.base ≤ addr) × (addr < add_size r.base r.size)
unfolding covers
covers-bounds r addr h = ground (arith, leb→le r.base addr, ltb→lt addr (add_size r.base r.size))

covers-outside :
    (r : Region) (addr : ℕ)
    → covers addr r ≡ false
    → (addr < r.base) ⊎ (add_size r.base r.size ≤ addr)
unfolding covers
covers-outside r addr h = elim (Bool-cases (leb r.base addr)) [
  | inl above ↦ inr (ground arith)
  | inr below ↦ inl (ground arith)
]

-- One more region in front, which does not hold the address.
there-FindsRegion :
    (r : Region) (rs : List Region) (addr : ℕ) (o : Option Region)
    → (addr < r.base) ⊎ (add_size r.base r.size ≤ addr)
    → FindsRegion rs addr o
    → FindsRegion (r ∷ rs) addr o
there-FindsRegion r rs addr none h v = (h, v)
there-FindsRegion r rs addr (some x) h v = (there v.0, v.1, v.2)

-- FindRegion answers with a tracked region that holds the address, and with nothing only where
-- every tracked region starts above it or ends at or below it.
pub find_region-FindsRegion :
    (rs : List Region) (addr : ℕ) → FindsRegion rs addr (find_region rs addr)
unfolding find_region
find_region-FindsRegion [] addr = tt
find_region-FindsRegion (r ∷ rs) addr = elim (Bool-cases (covers addr r)) [
  | inl e ↦ rw e (here, (covers-bounds r addr e).0, (covers-bounds r addr e).1)
  | inr e ↦
      rw e
        (there-FindsRegion r rs addr _ (covers-outside r addr e) (find_region-FindsRegion rs addr))
]

-- A region that ends at or below a place, or starts at or above another one.
abbrev pub LiesApart : ℕ → ℕ → Region → Type 0
LiesApart first last r = (add_size r.base r.size ≤ first) ⊎ (last ≤ r.base)

contains-LiesApart :
    (base size first last : ℕ) (r : Region)
    → first ≤ base
    → base + size ≤ last
    → 0 < size
    → last < 2 ^ 64
    → LiesApart first last r
    → contains base size r ≡ false
unfolding contains
contains-LiesApart base size first last r low high pos fits (inl below) = ground arith
contains-LiesApart base size first last r low high pos fits (inr above) = ground arith

-- A new region behind regions that do not contain the range decides.
has_prot-append :
    (rs : List Region) (r : Region) (base size first last required : ℕ)
    → first ≤ base
    → base + size ≤ last
    → 0 < size
    → last < 2 ^ 64
    → All (LiesApart first last) rs
    → contains base size r ≡ true
    → allows required r ≡ true
    → has_prot (rs ++ (r ∷ [])) base size required ≡ true
unfolding has_prot
has_prot-append [] r base size first last required low high pos fits v c a = rw c a
has_prot-append (x ∷ rs) r base size first last required low high pos fits v c a =
    rw (contains-LiesApart base size first last x low high pos fits v.0)
      (has_prot-append rs r base size first last required low high pos fits v.1 c a)

-- Map of a region with reading and writing granted, apart from every tracked region and ending
-- below 2 ^ 64: while the word below RSP lies in it, the interpreter finds its stack mapped,
-- whatever the probes through the system answer, and no probe changes the memory.
pub map-StackMapped :
    (os : Os) (s : MemState) (cpu : CpuState) (size prot base : ℕ) (ty : AllocType) (tag : String)
    → bit_and prot prot_read ≡ prot_read
    → bit_and prot prot_write ≡ prot_write
    → base ≤ sub64 (reg cpu rsp) 8
    → sub64 (reg cpu rsp) 8 + 8 ≤ base + align_up size page_size
    → base + align_up size page_size < 2 ^ 64
    → All (LiesApart base (base + align_up size page_size)) s.regions
    → StackMapped (guest os (map s size prot ty tag (some base)).1) cpu
unfolding map add_region is_readable is_writable contains allows
map-StackMapped os s cpu size prot base ty tag reads writes low high fits apart =
    let sp = sub64 (reg cpu rsp) 8 in
    let len = align_up size page_size in
    let r : Region = record {
      base = base;
      size = len;
      prot = prot;
      type = ty;
      tag = tag;
      committed = true;
    } in
    let inside : contains sp 8 r ≡ true = ground arith in
    let readable =
      has_prot-append s.regions r sp 8 base (base + len) prot_read low high (omega arith) fits apart
        inside (rw reads refl) in
    let writable =
      has_prot-append s.regions r sp 8 base (base + len) prot_write low high (omega arith) fits
        apart inside (rw writes refl) in
    record { probe = rw writable refl; read = rw readable refl }
