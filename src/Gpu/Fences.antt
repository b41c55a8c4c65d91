-- ===== src/Gpu/Fences.antt =====
-- The life of a fence.
use ps5x_windows.Base.{
  ℕ, ◌+◌, ◌≡◌, ◌≢◌, refl, Bool, true, false, Option, none, some, lookup, insert, erase,
  lookup-insert, lookup-erase, arith, ◌∙◌,
}
use ps5x_windows.Gpu.{
  GpuState, create_fence, signal_fence, wait_fence, is_fence_signalled, destroy_fence,
}

-- The state after a fence that exists was signalled.
signalled : GpuState → ℕ → GpuState
signalled s h = record s {
  fences = insert h true s.fences;
  stats = record (s.stats) { fences_signaled = s.stats.fences_signaled + 1 };
}

signal_fence_lem :
    (s : GpuState) (h : ℕ) (v : Bool)
    → lookup h s.fences ≡ some v
    → signal_fence s h ≡ (true, signalled s h)
unfolding signal_fence signalled
signal_fence_lem s h v e = rw (e, signal_fence) refl

wait_fence_lem :
    (s : GpuState) (h : ℕ) (o : Option Bool) (in_time : Bool)
    → lookup h s.fences ≡ o
    → wait_fence s h in_time ≡ (elim o [ none ↦ false | some true ↦ true | some false ↦ in_time ])
unfolding wait_fence
wait_fence_lem s h o in_time e = rw (e, wait_fence) refl

is_fence_signalled_lem :
    (s : GpuState) (h : ℕ) (o : Option Bool)
    → lookup h s.fences ≡ o
    → is_fence_signalled s h ≡ (elim o [ none ↦ false | some v ↦ v ])
unfolding is_fence_signalled
is_fence_signalled_lem s h o e = rw (e, is_fence_signalled) refl

-- A new fence: it is not signalled, so that WaitFence succeeds only in time; SignalFence succeeds,
-- and from then it is signalled and WaitFence succeeds at once; after DestroyFence WaitFence
-- fails, and every other fence is as it was before.
pub signal_fence-create_fence :
    (s : GpuState) (in_time : Bool)
    → let (h, t) = create_fence s in
      (u : GpuState) × (is_fence_signalled t h ≡ false)
      × (wait_fence t h in_time ≡ in_time)
      × (signal_fence t h ≡ (true, u))
      × (is_fence_signalled u h ≡ true)
      × (wait_fence u h in_time ≡ true)
      × (wait_fence (destroy_fence u h) h in_time ≡ false)
      × ((k : ℕ) → k ≢ h → lookup k (destroy_fence u h).fences ≡ lookup k s.fences)
unfolding create_fence signalled destroy_fence
signal_fence-create_fence s in_time =
    let (h, t) = create_fence s in
    let u = signalled t h in
    let open_now : lookup h t.fences ≡ some false =
      lookup-insert h h false s.fences ∙ ground arith in
    let set_now : lookup h u.fences ≡ some true = lookup-insert h h true t.fences ∙ ground arith in
    let gone : lookup h (erase h u.fences) ≡ none = lookup-erase h h u.fences ∙ ground arith in
    (
      u,
      is_fence_signalled_lem t h (some false) open_now,
      wait_fence_lem t h (some false) in_time open_now,
      signal_fence_lem t h false open_now,
      is_fence_signalled_lem u h (some true) set_now,
      wait_fence_lem u h (some true) in_time set_now,
      wait_fence_lem (destroy_fence u h) h none in_time gone,
      λ k n. ground (
        arith,
        n,
        lookup-erase h k u.fences,
        lookup-insert h k true t.fences,
        lookup-insert h k false s.fences,
      ),
    )
