-- ===== src/KernelRuntime/Sharing.antt =====
-- Handles that share an object.
use ps5x_windows.Base.{
  ℕ, ◌+◌, ◌-◌, ◌%◌, ◌^◌, ◌<◌, ◌≡◌, ◌≢◌, refl, sym, ◌∙◌, min, none, some, true, ==_ne, lt→ltb,
  lookup, insert, erase, lookup-insert, lookup-erase, arith,
}
use ps5x_windows.KernelRuntime.Handles.{
  KSemaphore, a_semaphore, KernelState, object_of, close_handle, duplicate_handle, as_semaphore,
  set_object,
}
use ps5x_windows.KernelRuntime.Objects.{wait_semaphore, signal_semaphore, get_semaphore_value}

as_semaphore-object_of :
    (h o : ℕ) (k : KSemaphore) (s : KernelState)
    → lookup h s.handles ≡ some o
    → lookup o s.objects ≡ some (a_semaphore k)
    → as_semaphore (object_of h s) ≡ some (o, k)
unfolding object_of as_semaphore
as_semaphore-object_of h o k s e f = rw (object_of, e, f) refl

duplicate_handle_lem :
    (h o : ℕ) (s : KernelState)
    → lookup h s.handles ≡ some o
    → duplicate_handle h s ≡ (
      some s.next_handle,
      record s {
        handles = insert s.next_handle o s.handles;
        next_handle = (s.next_handle + 1) % 2 ^ 32;
      },
    )
unfolding duplicate_handle
duplicate_handle_lem h o s e = rw (duplicate_handle, e) refl

abbrev with_value : KSemaphore → ℕ → KSemaphore
with_value k v = record k { value = v }

signal_semaphore_lem :
    (h o count : ℕ) (k : KSemaphore) (s : KernelState)
    → lookup h s.handles ≡ some o
    → lookup o s.objects ≡ some (a_semaphore k)
    → k.value + count < 2 ^ 31
    → signal_semaphore h count s
      ≡ some (true, set_object o (a_semaphore (with_value k (min (k.value + count) k.max_value))) s)
unfolding signal_semaphore
signal_semaphore_lem h o count k s e f fits =
    rw (signal_semaphore, as_semaphore-object_of h o k s e f, lt→ltb _ _ fits) refl

wait_semaphore_lem :
    (h o : ℕ) (k : KSemaphore) (s : KernelState)
    → lookup h s.handles ≡ some o
    → lookup o s.objects ≡ some (a_semaphore k)
    → 0 < k.value
    → wait_semaphore h s ≡ (true, set_object o (a_semaphore (with_value k (k.value - 1))) s)
unfolding wait_semaphore
wait_semaphore_lem h o k s e f pos =
    rw (wait_semaphore, as_semaphore-object_of h o k s e f, lt→ltb 0 k.value pos) refl

value_lem :
    (h o : ℕ) (k : KSemaphore) (s : KernelState)
    → lookup h s.handles ≡ some o
    → lookup o s.objects ≡ some (a_semaphore k)
    → get_semaphore_value h s ≡ some k.value
unfolding get_semaphore_value
value_lem h o k s e f = rw (get_semaphore_value, as_semaphore-object_of h o k s e f) refl

close_handle_lem :
    (h o : ℕ) (s : KernelState)
    → lookup h s.handles ≡ some o
    → close_handle h s ≡ (true, record s { handles = erase h s.handles })
unfolding close_handle
close_handle_lem h o s e = rw (close_handle, e) refl

-- DuplicateHandle of a semaphore's handle, where the next handle is another one, and
-- SignalSemaphore through the duplicate with a count above 0 whose sum with the value is an
-- int32_t, where the maximum is above 0: a WaitSemaphore through the first handle succeeds at
-- once, the value is then the sum cut to the maximum, less 1; after CloseHandle of the first
-- handle that handle has no value, and the duplicate still reads this value.
pub wait_semaphore-signal_semaphore :
    (s : KernelState) (h o count : ℕ) (k : KSemaphore)
    → lookup h s.handles ≡ some o
    → lookup o s.objects ≡ some (a_semaphore k)
    → s.next_handle ≢ h
    → 0 < count
    → 0 < k.max_value
    → k.value + count < 2 ^ 31
    → (t : KernelState) × (u : KernelState) × (w : KernelState) × (x : KernelState)
      × (duplicate_handle h s ≡ (some s.next_handle, t))
      × (signal_semaphore s.next_handle count t ≡ some (true, u))
      × (wait_semaphore h u ≡ (true, w))
      × (get_semaphore_value h w ≡ some (min (k.value + count) k.max_value - 1))
      × (close_handle h w ≡ (true, x))
      × (get_semaphore_value h x ≡ none)
      × (get_semaphore_value s.next_handle x ≡ some (min (k.value + count) k.max_value - 1))
unfolding get_semaphore_value object_of as_semaphore
wait_semaphore-signal_semaphore s h o count k e f fresh pos room fits =
    let n = s.next_handle in
    let t = record s { handles = insert n o s.handles; next_handle = (n + 1) % 2 ^ 32 } in
    let v = min (k.value + count) k.max_value in
    let k1 = with_value k v in
    let k2 = with_value k (v - 1) in
    let u = set_object o (a_semaphore k1) t in
    let w = set_object o (a_semaphore k2) u in
    let x = record w { handles = erase h w.handles } in
    let new : lookup n t.handles ≡ some o = lookup-insert n n o s.handles ∙ ground arith in
    let old : lookup h t.handles ≡ some o =
      lookup-insert n h o s.handles ∙ rw (==_ne n h fresh) e in
    let raised : lookup o u.objects ≡ some (a_semaphore k1) =
      lookup-insert o o (a_semaphore k1) s.objects ∙ ground arith in
    let lowered : lookup o w.objects ≡ some (a_semaphore k2) =
      lookup-insert o o (a_semaphore k2) u.objects ∙ ground arith in
    let gone : lookup h x.handles ≡ none = lookup-erase h h w.handles ∙ ground arith in
    let differs : h ≢ n = λ q. fresh (sym q) in
    let kept : lookup n x.handles ≡ some o =
      lookup-erase h n w.handles ∙ rw (==_ne h n differs) new in
    (
      t,
      u,
      w,
      x,
      duplicate_handle_lem h o s e,
      signal_semaphore_lem n o count k t new f fits,
      wait_semaphore_lem h o k1 u old raised (omega (arith, pos, room)),
      value_lem h o k2 w old lowered,
      close_handle_lem h o w old,
      rw (get_semaphore_value, object_of, gone) refl,
      value_lem n o k2 x kept lowered,
    )
