-- ===== src/Cpu/Breakpoints/Laws.antt =====
-- The breakpoint list and the table by address, through additions and removals.
use ps5x_windows.Base.{
  ℕ, ◌≡◌, ◌≢◌, refl, Bool, true, false, ◌||◌, none, some, List, [], ◌∷◌, ◌++◌, ◌==◌, String, insert,
  erase, lookup-insert, lookup-erase, arith,
}
use ps5x_windows.Cpu.State.{CpuState, BpEntry}
use ps5x_windows.Cpu.Breakpoints.{
  find_bp, drop_bp, add_breakpoint, remove_breakpoint, is_breakpoint,
}

-- AddBreakpoint makes its address a breakpoint and leaves every other address as it was.
is_breakpoint-add_breakpoint :
    (s : CpuState) (a b : ℕ) (l : String)
    → is_breakpoint (add_breakpoint s a l).1 b ≡ ((a == b) || is_breakpoint s b)
unfolding is_breakpoint add_breakpoint
is_breakpoint-add_breakpoint s a b l = ground (arith, lookup-insert a b s.next_bp_id s.bp_by_addr)

find_bp-append :
    (id : ℕ) (bs : List BpEntry) (b : BpEntry)
    → find_bp id bs ≡ none
    → b.id ≡ id
    → find_bp id (bs ++ b ∷ []) ≡ some b
find_bp-append id [] b h e = ground arith
find_bp-append id (x ∷ bs) b h e = ground (arith, find_bp-append id bs b)

drop_bp-append :
    (id : ℕ) (bs : List BpEntry) (b : BpEntry)
    → find_bp id bs ≡ none
    → b.id ≡ id
    → drop_bp id (bs ++ b ∷ []) ≡ bs
drop_bp-append id [] b h e = ground arith
drop_bp-append id (x ∷ bs) b h e = ground (arith, drop_bp-append id bs b)

find_bp-drop_bp :
    (c : BpEntry) (id : ℕ) (bs : List BpEntry)
    → find_bp c.id bs ≡ some c
    → id ≢ c.id
    → find_bp c.id (drop_bp id bs) ≡ some c
find_bp-drop_bp c id [] h n = h
find_bp-drop_bp c id (x ∷ bs) h n = ground (arith, find_bp-drop_bp c id bs)

-- The two steps of RemoveBreakpoint, for an entry that is found.
removed : CpuState → ℕ → BpEntry → Bool × CpuState
removed s id b = (
  true,
  record s { bp_by_addr = erase b.addr s.bp_by_addr; breakpoints = drop_bp id s.breakpoints },
)

remove_breakpoint_lem :
    (s : CpuState) (id : ℕ) (b : BpEntry)
    → find_bp id s.breakpoints ≡ some b
    → remove_breakpoint s id ≡ removed s id b
unfolding remove_breakpoint removed
remove_breakpoint_lem s id b h = rw (h, remove_breakpoint) refl

-- A breakpoint that is set at a free address under a fresh id and then removed leaves the list and
-- every address as they were.
pub remove_breakpoint-add_breakpoint :
    (s : CpuState) (a : ℕ) (l : String)
    → find_bp s.next_bp_id s.breakpoints ≡ none
    → is_breakpoint s a ≡ false
    → let (id, t) = add_breakpoint s a l in
      (u : CpuState) × (remove_breakpoint t id ≡ (true, u))
      × (u.breakpoints ≡ s.breakpoints)
      × ((x : ℕ) → is_breakpoint u x ≡ is_breakpoint s x)
unfolding add_breakpoint is_breakpoint removed
remove_breakpoint-add_breakpoint s a l fresh free =
    let id = s.next_bp_id in
    let t = (add_breakpoint s a l).1 in
    let b : BpEntry = record { id = id; addr = a; label = l; active = true } in
    (
      (removed t id b).1,
      remove_breakpoint_lem t id b (find_bp-append id s.breakpoints b fresh refl),
      drop_bp-append id s.breakpoints b fresh refl,
      λ x.
          ground
            (arith, lookup-erase a x (insert a id s.bp_by_addr), lookup-insert a x id s.bp_by_addr),
    )

remove_breakpoint_shared :
    (s : CpuState) (b c : BpEntry)
    → find_bp b.id s.breakpoints ≡ some b
    → find_bp c.id s.breakpoints ≡ some c
    → b.id ≢ c.id
    → b.addr ≡ c.addr
    → (u : CpuState) × (remove_breakpoint s b.id ≡ (true, u))
      × (find_bp c.id u.breakpoints ≡ some c)
      × (is_breakpoint u c.addr ≡ false)
unfolding removed is_breakpoint
remove_breakpoint_shared s b c hb hc n e = (
  (removed s b.id b).1,
  remove_breakpoint_lem s b.id b hb,
  find_bp-drop_bp c b.id s.breakpoints hc n,
  ground (arith, lookup-erase b.addr c.addr s.bp_by_addr),
)
