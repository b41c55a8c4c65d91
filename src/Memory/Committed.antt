-- ===== src/Memory/Committed.antt =====
-- The counter of committed bytes.
use ps5x_windows.Base.{
  ℕ, ◌^◌, ◌<◌, ◌≡◌, refl, ◌∙◌, true, none, some, List, [], ◌∷◌, ◌++◌, String, arith,
}
use ps5x_windows.Memory.State.{
  MemState, Region, AllocType, add_size, sub_size, align_up, page_size, find_base, drop_base,
  remove_region, add_region, change_base,
}
use ps5x_windows.Memory.Virtual.{map, commit, unmap, commit_region, count_uncommitted}
use ps5x_windows.Memory.Accounting.{align_up-lt}

find_base-append :
    (base : ℕ) (rs : List Region) (r : Region)
    → find_base base rs ≡ none
    → r.base ≡ base
    → (find_base base (rs ++ r ∷ []) ≡ some r) × (drop_base base (rs ++ r ∷ []) ≡ rs)
unfolding find_base drop_base
find_base-append base [] r h e = ground arith
find_base-append base (x ∷ rs) r h e = ground (arith, find_base-append base rs r)

remove_found :
    (s : MemState) (base : ℕ) (r : Region)
    → find_base base s.regions ≡ some r
    → r.committed ≡ true
    → ((remove_region s base).regions ≡ drop_base base s.regions)
      × ((remove_region s base).stats.total_reserved ≡ sub_size s.stats.total_reserved r.size)
      × ((remove_region s base).stats.total_committed ≡ sub_size s.stats.total_committed r.size)
unfolding remove_region
remove_found s base r h c = rw (h, remove_region, c) (refl, refl, refl)

-- Map of a region at a new base, from reserved bytes below 2 ^ 64, and Unmap of it: the regions
-- and the reserved bytes are as before, but the committed bytes have grown by the region's rounded
-- size, which Map adds twice.
pub unmap-map_committed :
    (s : MemState) (size prot base : ℕ) (ty : AllocType) (tag : String)
    → find_base base s.regions ≡ none
    → s.stats.total_reserved < 2 ^ 64
    → let t = (unmap (map s size prot ty tag (some base)).1 base true).1 in
      (t.regions ≡ s.regions)
      × (t.stats.total_reserved ≡ s.stats.total_reserved)
      × (t.stats.total_committed ≡ add_size s.stats.total_committed (align_up size page_size))
unfolding unmap map add_region
unmap-map_committed s size prot base ty tag fresh bound =
    let r : Region = record {
      base = base;
      size = align_up size page_size;
      prot = prot;
      type = ty;
      tag = tag;
      committed = true;
    } in
    let m = (map s size prot ty tag (some base)).1 in
    let (found, dropped) = find_base-append base s.regions r fresh refl in
    let (kept, reserved, held) = remove_found m base r found refl in
    let small = align_up-lt size page_size in
    (kept ∙ dropped, reserved ∙ omega arith, held ∙ omega arith)

find_base-change_base :
    (base prot : ℕ) (rs : List Region) (r : Region)
    → find_base base rs ≡ some r
    → find_base base (change_base (commit_region prot) base rs) ≡ some (commit_region prot r)
unfolding find_base change_base commit_region
find_base-change_base base prot [] r h = cc
find_base-change_base base prot (x ∷ rs) r h = ground (arith, find_base-change_base base prot rs r)

uncounted :
    (base size : ℕ) (s : MemState) (r : Region)
    → find_base base s.regions ≡ some r
    → r.committed ≡ true
    → count_uncommitted base size s ≡ s
unfolding count_uncommitted
uncounted base size s r found marked = rw (count_uncommitted, found, marked) refl

-- Commit of a tracked region never changes the counter of committed bytes, since the region is
-- marked as committed before its mark is asked for, so that Unmap then takes its size off.
pub commit_uncounted :
    (s : MemState) (base size prot : ℕ) (r : Region)
    → find_base base s.regions ≡ some r
    → let t = (commit s base size prot true).1 in
      (find_base base t.regions ≡ some (commit_region prot r))
      × ((commit_region prot r).committed ≡ true)
      × (t.stats.total_committed ≡ s.stats.total_committed)
      × ((unmap t base true).1.stats.total_committed ≡ sub_size s.stats.total_committed r.size)
unfolding commit commit_region unmap
commit_uncounted s base size prot r h =
    let found = find_base-change_base base prot s.regions r h in
    let m = record s { regions = change_base (commit_region prot) base s.regions } in
    let still = uncounted base (align_up size page_size) m (commit_region prot r) found refl in
    rw still (found, refl, refl, (remove_found m base (commit_region prot r) found refl).2)
