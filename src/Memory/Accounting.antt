-- ===== src/Memory/Accounting.antt =====
-- The counters of reserved bytes and of regions, through any history of calls.
use ps5x_windows.Base.{
  ℕ, suc, ◌+◌, ◌%◌, ◌^◌, ◌<◌, ◌≡◌, refl, ◌∙◌, Bool, true, false, Option, none, some, List, [], ◌∷◌,
  ◌++◌, length, length-append, All, String, arith, Option-cases, Bool-cases, inl, inr,
}
use ps5x_windows.Base.Bits.{bit_and-lt}
use ps5x_windows.Memory.State.{
  MemState, Region, AllocType, align_up, add_region, remove_region, find_base, drop_base,
  change_base, page_size,
}
use ps5x_windows.Memory.Virtual.{
  reset, track_reserved, reserve, commit, map, protect, unmap, commit_region, count_uncommitted,
}
use ps5x_windows.Memory.Heap.{alloc, free}

abbrev pub total_size : List Region → ℕ
total_size [] = 0
total_size (r ∷ rs) = r.size + total_size rs

abbrev SizeFits : Region → Type 0
SizeFits r = r.size < 2 ^ 64

-- The counters are the sum of the sizes and the number of the regions, in the counters' widths.
pub record IsAccounted (s : MemState) : Type 0 where
  pub sizes : All SizeFits s.regions
  pub reserved : s.stats.total_reserved ≡ total_size s.regions % 2 ^ 64
  pub counted : s.stats.region_count ≡ length s.regions % 2 ^ 32

pub align_up-lt : (v align : ℕ) → align_up v align < 2 ^ 64
unfolding align_up
align_up-lt v align = bit_and-lt 64 _ _ (omega arith)

total_size-append : (rs ss : List Region) → total_size (rs ++ ss) ≡ total_size rs + total_size ss
total_size-append [] ss = omega arith
total_size-append (r ∷ rs) ss = omega (arith, total_size-append rs ss)

-- push_back keeps a property of the entries.
push_back-All :
    (rs : List Region) (r : Region) → SizeFits r → All SizeFits rs → All SizeFits (rs ++ r ∷ [])
push_back-All [] r fits v = (fits, tt)
push_back-All (x ∷ rs) r fits v = (v.0, push_back-All rs r fits v.1)

add_region-IsAccounted :
    (s : MemState) (r : Region) → SizeFits r → IsAccounted s → IsAccounted (add_region s r)
unfolding add_region
add_region-IsAccounted s r f v = record {
  sizes = push_back-All s.regions r f v.sizes;
  reserved = omega (arith, total_size-append s.regions (r ∷ []), v.reserved);
  counted = omega (arith, length-append s.regions (r ∷ []), v.counted);
}

-- What find_if finds is what erase takes out.
drop_base-total :
    (base : ℕ) (rs : List Region) (r : Region)
    → find_base base rs ≡ some r
    → All SizeFits rs
    → (total_size rs ≡ r.size + total_size (drop_base base rs))
      × (length rs ≡ suc (length (drop_base base rs)))
      × SizeFits r
unfolding find_base drop_base
drop_base-total base [] r h v = cc
drop_base-total base (x ∷ rs) r h v = ground (arith, drop_base-total base rs r)

drop_base-All : (base : ℕ) (rs : List Region) → All SizeFits rs → All SizeFits (drop_base base rs)
unfolding drop_base
drop_base-All base [] v = tt
drop_base-All base (r ∷ rs) v = ground (arith, drop_base-All base rs v.1)

remove_region-IsAccounted :
    (s : MemState) (base : ℕ) → IsAccounted s → IsAccounted (remove_region s base)
unfolding remove_region
remove_region-IsAccounted s base v = elim (Option-cases (find_base base s.regions)) [
  | inl e ↦ rw (e, remove_region) v
  | inr (r, e) ↦
      let (sum, len, fits) = drop_base-total base s.regions r e v.sizes in
      rw (e, remove_region)
        (record {
          sizes = drop_base-All base s.regions v.sizes;
          reserved = omega (arith, v.reserved);
          counted = omega (arith, v.counted);
        })
]

change_base-total :
    (f : Region → Region) (base : ℕ) (rs : List Region)
    → ((r : Region) → (f r).size ≡ r.size)
    → All SizeFits rs
    → (total_size (change_base f base rs) ≡ total_size rs)
      × (length (change_base f base rs) ≡ length rs)
      × All SizeFits (change_base f base rs)
unfolding change_base
change_base-total f base [] h v = (refl, refl, tt)
change_base-total f base (r ∷ rs) h v = ground (arith, h r, change_base-total f base rs h v.1)

-- The calls, with the answers of the system.
pub data Call : Type 0 where
  reserves : (hint size : ℕ) → String → (at_hint anywhere : Option ℕ) → Call
  commits : (base size prot : ℕ) → Bool → Call
  maps : (size prot : ℕ) → AllocType → String → Option ℕ → Call
  protects : (base prot : ℕ) → Bool → Call
  unmaps : ℕ → Bool → Call
  allocs : (size : ℕ) → AllocType → Option ℕ → Call
  frees : ℕ → Call
  resets : Call

unfoldable pub step : MemState → Call → MemState
step s (reserves hint size tag at_hint anywhere) = (reserve s hint size tag at_hint anywhere).1
step s (commits base size prot answer) = (commit s base size prot answer).1
step s (maps size prot ty tag answer) = (map s size prot ty tag answer).1
step s (protects base prot answer) = (protect s base prot answer).1
step s (unmaps base answer) = (unmap s base answer).1
step s (allocs size ty answer) = (alloc s size ty answer).1
step s (frees ptr) = free s ptr
step s resets = reset s

unfoldable pub run : MemState → List Call → MemState
run s [] = s
run s (c ∷ cs) = run (step s c) cs

-- A change of the other counters and of the heap does not matter.
same-IsAccounted :
    (s t : MemState)
    → t.regions ≡ s.regions
    → t.stats.total_reserved ≡ s.stats.total_reserved
    → t.stats.region_count ≡ s.stats.region_count
    → IsAccounted s
    → IsAccounted t
same-IsAccounted s t e f g v = record {
  sizes = rw e (v.sizes);
  reserved = rw e (f ∙ v.reserved);
  counted = rw e (g ∙ v.counted);
}

changed-IsAccounted :
    (f : Region → Region) (base : ℕ) (s : MemState)
    → ((r : Region) → (f r).size ≡ r.size)
    → IsAccounted s
    → IsAccounted (record s { regions = change_base f base s.regions })
changed-IsAccounted f base s h v =
    let (sum, len, fits) = change_base-total f base s.regions h v.sizes in
    record { sizes = fits; reserved = rw sum (v.reserved); counted = rw len (v.counted) }

track_reserved-IsAccounted :
    (s : MemState) (size : ℕ) (tag : String) (o : Option ℕ)
    → size < 2 ^ 64
    → IsAccounted s
    → IsAccounted (track_reserved s size tag o).1
unfolding track_reserved
track_reserved-IsAccounted s size tag none h v = v
track_reserved-IsAccounted s size tag (some base) h v = add_region-IsAccounted s _ h v

reset-IsAccounted : (s : MemState) → IsAccounted (reset s)
unfolding reset
reset-IsAccounted s = record { sizes = tt; reserved = refl; counted = refl }

reserve-IsAccounted :
    (s : MemState) (hint size : ℕ) (tag : String) (at_hint anywhere : Option ℕ)
    → IsAccounted s
    → IsAccounted (reserve s hint size tag at_hint anywhere).1
unfolding reserve
reserve-IsAccounted s hint size tag at_hint anywhere v =
    track_reserved-IsAccounted s _ tag _ (align_up-lt size page_size) v

free_keeps :
    (s : MemState) (ptr : ℕ)
    → ((free s ptr).regions ≡ s.regions)
      × ((free s ptr).stats.total_reserved ≡ s.stats.total_reserved)
      × ((free s ptr).stats.region_count ≡ s.stats.region_count)
unfolding free
free_keeps s ptr = ground arith

free-IsAccounted : (s : MemState) (ptr : ℕ) → IsAccounted s → IsAccounted (free s ptr)
free-IsAccounted s ptr v =
    same-IsAccounted s (free s ptr) (free_keeps s ptr).0 (free_keeps s ptr).1 (free_keeps s ptr).2 v

count_uncommitted-IsAccounted :
    (base size : ℕ) (s : MemState) → IsAccounted s → IsAccounted (count_uncommitted base size s)
unfolding count_uncommitted
count_uncommitted-IsAccounted base size s v = elim (Option-cases (find_base base s.regions)) [
  | inl missing ↦ rw (count_uncommitted, missing) v
  | inr (r, found) ↦ elim (Bool-cases r.committed) [
    | inl marked ↦ rw (count_uncommitted, found, marked) v
    | inr unmarked ↦
        rw (count_uncommitted, found, unmarked)
          (record { sizes = v.sizes; reserved = v.reserved; counted = v.counted })
  ]
]

step-IsAccounted : (s : MemState) (c : Call) → IsAccounted s → IsAccounted (step s c)
unfolding step map commit protect unmap alloc reset commit_region
step-IsAccounted s (reserves hint size tag at_hint anywhere) v =
    reserve-IsAccounted s hint size tag at_hint anywhere v
step-IsAccounted s (commits base size prot true) v =
    count_uncommitted-IsAccounted base (align_up size page_size)
      (record s { regions = change_base (commit_region prot) base s.regions })
      (changed-IsAccounted (commit_region prot) base s (λ r. refl) v)
step-IsAccounted s (commits base size prot false) v = v
step-IsAccounted s (maps size prot ty tag none) v = v
step-IsAccounted s (maps size prot ty tag (some base)) v =
    let w = add_region-IsAccounted s _ (align_up-lt size page_size) v in
    same-IsAccounted _ _ refl refl refl w
step-IsAccounted s (protects base prot true) v =
    changed-IsAccounted (λ r. record r { prot = prot }) base s (λ r. refl) v
step-IsAccounted s (protects base prot false) v = v
step-IsAccounted s (unmaps base true) v = remove_region-IsAccounted s base v
step-IsAccounted s (unmaps base false) v = v
step-IsAccounted s (allocs size ty none) v = v
step-IsAccounted s (allocs size ty (some ptr)) v = same-IsAccounted s _ refl refl refl v
step-IsAccounted s (frees ptr) v = free-IsAccounted s ptr v
step-IsAccounted s resets v = reset-IsAccounted s

run_from-IsAccounted : (s : MemState) (cs : List Call) → IsAccounted s → IsAccounted (run s cs)
unfolding run
run_from-IsAccounted s [] v = v
run_from-IsAccounted s (c ∷ cs) v = run_from-IsAccounted (step s c) cs (step-IsAccounted s c v)

-- After any history of calls from a fresh manager, whatever the system answered, the reserved
-- bytes are the sum of the sizes of the tracked regions (modulo 2 ^ 64), and the region counter is
-- their number (modulo 2 ^ 32).
pub run-IsAccounted : (s : MemState) (cs : List Call) → IsAccounted (run (reset s) cs)
run-IsAccounted s cs = run_from-IsAccounted (reset s) cs (reset-IsAccounted s)
