-- ===== src/ShaderCache/Capacity.antt =====
-- The bound of the cache.
use ps5x_windows.Base.{
  ℕ, suc, ◌+◌, ◌-◌, ◌%◌, ◌^◌, ◌≤◌, ◌<◌, ◌≡◌, refl, ap, subst, Option, none, some, List, [], ◌∷◌,
  true, String, leb, leb→le, ltb, length, arith, Bool-cases, Option-cases, inl, inr,
}
use ps5x_windows.RuntimeEvents.State.{shader_compiled, custom_payload}
use ps5x_windows.RuntimeEvents.Unanswered.{publish_lem}
use ps5x_windows.ShaderCache.Cache.{
  take_job, ShaderKey, CacheEntry, CompileJob, CacheState, init, set_compiler, same_key, find_entry,
  set_entry, erase_entry, without_oldest, erase_oldest, store, report, store_and_report, new_entry,
  lookup_entry, compile_missing, compile, queue_compile, job_done, run_job, worker_round,
  invalidate, invalidate_all, evict_older, evict,
}

pub data Call : Type 0 where
  sets_compiler : (fn : List ℕ → ℕ → List ℕ) → Call
  compiles : (key : ShaderKey) (spirv : List ℕ) (debug_name : String) (now ms : ℕ) → Call
  looks_up : (key : ShaderKey) (now : ℕ) → Call
  queues : (key : ShaderKey) (spirv : List ℕ) (debug_name : String) → Call
  works : (now ms : ℕ) → Call
  invalidates : (key : ShaderKey) → Call
  invalidates_all : Call
  evicts : (max_age_us now : ℕ) → Call

unfoldable pub call : Call → CacheState → Option CacheState
call (sets_compiler fn) s = some (set_compiler fn s)
call (compiles key spirv debug_name now ms) s = compile key spirv debug_name now ms s
call (looks_up key now) s = some (lookup_entry key now s).1
call (queues key spirv debug_name) s = some (queue_compile key spirv debug_name s)
call (works now ms) s = worker_round now ms s
call (invalidates key) s = some (invalidate key s)
call invalidates_all s = some (invalidate_all s)
call (evicts max_age_us now) s = some (evict max_age_us now s).1

unfoldable pub calls : List Call → CacheState → Option CacheState
calls [] s = some s
calls (c ∷ cs) s = elim (call c s) [ none ↦ none | some t ↦ calls cs t ]

length-set_entry :
    (key : ShaderKey) (e : CacheEntry) (es : List (ShaderKey × CacheEntry))
    → length (set_entry key e es) ≤ suc (length es)
unfolding set_entry
length-set_entry key e [] = omega arith
length-set_entry key e ((k, f) ∷ es) = let rest = length-set_entry key e es in ground arith

-- An entry that is there is replaced.
length-set_entry_found :
    (key : ShaderKey) (e f : CacheEntry) (es : List (ShaderKey × CacheEntry))
    → find_entry key es ≡ some f
    → length (set_entry key e es) ≡ length es
unfolding set_entry find_entry
length-set_entry_found key e f [] found = absurd (ground arith)
length-set_entry_found key e f ((k, g) ∷ es) found = elim (Bool-cases (same_key k key)) [
  | inl here ↦ rw here refl
  | inr later ↦ rw later (ap suc (length-set_entry_found key e f es (ground arith)))
]

length-erase_entry :
    (key : ShaderKey) (es : List (ShaderKey × CacheEntry)) → length (erase_entry key es) ≤ length es
unfolding erase_entry
length-erase_entry key [] = omega arith
length-erase_entry key ((k, e) ∷ es) = let rest = length-erase_entry key es in ground arith

length-without_oldest :
    (oldest : ShaderKey × CacheEntry) (es : List (ShaderKey × CacheEntry))
    → length (without_oldest oldest es) ≡ length es
unfolding without_oldest
length-without_oldest oldest [] = refl
length-without_oldest oldest (x ∷ xs) =
    elim (Bool-cases (ltb x.1.last_used_us oldest.1.last_used_us)) [
      | inl older ↦ rw older (ap suc (length-without_oldest x xs))
      | inr newer ↦ rw newer (ap suc (length-without_oldest oldest xs))
    ]

length-evict_older :
    (cutoff : ℕ) (es : List (ShaderKey × CacheEntry)) → length (evict_older cutoff es).0 ≤ length es
unfolding evict_older
length-evict_older cutoff [] = omega arith
length-evict_older cutoff (x ∷ xs) =
    let rest = length-evict_older cutoff xs in
    elim (Bool-cases (ltb x.1.last_used_us cutoff)) [
      | inl stale ↦ rw stale (omega (arith, rest))
      | inr recent ↦ rw recent (omega (arith, rest))
    ]

-- A cache within its bound, over a bus that takes events.
abbrev pub IsBounded : ℕ → CacheState → Type 0
IsBounded bound s = (s.max_entries ≡ bound) × (0 < s.events.capacity) × (length s.entries ≤ bound)

-- An outcome that is defined and within the bound.
abbrev Ends : ℕ → Option CacheState → Type 0
Ends bound o = (t : CacheState) × (o ≡ some t) × IsBounded bound t

store_full :
    (key : ShaderKey) (e : CacheEntry) (s : CacheState) (x : ShaderKey × CacheEntry)
    (xs : List (ShaderKey × CacheEntry))
    → leb s.max_entries (length s.entries) ≡ true
    → s.entries ≡ x ∷ xs
    → store key e s
      ≡ some (record s {
        entries = set_entry key e (without_oldest x xs);
        evictions = (s.evictions + 1) % 2 ^ 64;
      })
unfolding store erase_oldest
store_full key e s x xs full is = simp (full, ap erase_oldest is)

-- A list with an entry has a first one.
first_entry :
    (es : List (ShaderKey × CacheEntry))
    → 0 < length es
    → (x : ShaderKey × CacheEntry) × (xs : List (ShaderKey × CacheEntry)) × (es ≡ x ∷ xs)
first_entry [] h = absurd (omega arith)
first_entry (x ∷ xs) h = (x, xs, refl)

evicted :
    (bound : ℕ) (key : ShaderKey) (e : CacheEntry) (s : CacheState)
    → 0 < bound
    → s.max_entries ≡ bound
    → 0 < s.events.capacity
    → length s.entries ≤ bound
    → bound ≤ length s.entries
    → leb s.max_entries (length s.entries) ≡ true
    → Ends bound (store key e s)
evicted bound key e s pos most room within reached full =
    let (x, xs, is) = first_entry s.entries (omega (arith, pos, reached)) in
    let size = length-set_entry key e (without_oldest x xs) in
    let rest = length-without_oldest x xs in
    let whole = ap length is in
    (
      record s {
        entries = set_entry key e (without_oldest x xs);
        evictions = (s.evictions + 1) % 2 ^ 64;
      },
      store_full key e s x xs full is,
      (most, room, omega (arith, size, rest, whole, within)),
    )

store-IsBounded :
    (bound : ℕ) (key : ShaderKey) (e : CacheEntry) (s : CacheState)
    → 0 < bound
    → IsBounded bound s
    → Ends bound (store key e s)
unfolding store
store-IsBounded bound key e s pos (most, room, within) =
    elim (Bool-cases (leb s.max_entries (length s.entries))) [
      | inl full ↦
          evicted bound key e s pos most room within
            (subst (λ b. b ≤ length s.entries) most (leb→le s.max_entries (length s.entries) full))
            full
      | inr free ↦
          let few : suc (length s.entries) ≤ bound = ground (arith, most) in
          let size = length-set_entry key e s.entries in
          (
            record s { entries = set_entry key e s.entries },
            rw (store, free) refl,
            (most, room, omega (arith, few, size)),
          )
    ]

report-IsBounded :
    (bound : ℕ) (debug_name : String) (now : ℕ) (s : CacheState)
    → IsBounded bound s
    → Ends bound (report debug_name now s)
unfolding report
report-IsBounded bound debug_name now s (most, room, within) =
    let (events, done, published) =
      publish_lem shader_compiled (custom_payload "ShaderCompiled" debug_name) 0 0 now s.events
        room in
    (
      record s { compilations = (s.compilations + 1) % 2 ^ 64; events = events },
      rw (report, done) refl,
      (most, rw published.0 room, within),
    )

store_and_report-IsBounded :
    (bound : ℕ) (key : ShaderKey) (e : CacheEntry) (debug_name : String) (now : ℕ) (s : CacheState)
    → 0 < bound
    → IsBounded bound s
    → Ends bound (store_and_report key e debug_name now s)
unfolding store_and_report
store_and_report-IsBounded bound key e debug_name now s pos v =
    let (t, stored, w) = store-IsBounded bound key e s pos v in
    let (u, reported, x) = report-IsBounded bound debug_name now t w in
    (u, rw (store_and_report, stored) reported, x)

lookup_entry-IsBounded :
    (bound : ℕ) (key : ShaderKey) (now : ℕ) (s : CacheState)
    → IsBounded bound s
    → IsBounded bound (lookup_entry key now s).1
unfolding lookup_entry
lookup_entry-IsBounded bound key now s (most, room, within) =
    elim (Option-cases (find_entry key s.entries)) [
      | inl missing ↦ rw (lookup_entry, missing) (most, room, within)
      | inr (e, found) ↦
          let used = record e { hit_count = (e.hit_count + 1) % 2 ^ 32; last_used_us = now } in
          let size = length-set_entry_found key used e s.entries found in
          rw (lookup_entry, found) (most, room, omega (arith, size, within))
    ]

compile-IsBounded :
    (bound : ℕ) (key : ShaderKey) (spirv : List ℕ) (debug_name : String) (now ms : ℕ)
    (s : CacheState)
    → 0 < bound
    → IsBounded bound s
    → Ends bound (compile key spirv debug_name now ms s)
unfolding compile compile_missing
compile-IsBounded bound key spirv debug_name now ms s pos v =
    let w = lookup_entry-IsBounded bound key now s v in
    let t = (lookup_entry key now s).1 in
    elim (Option-cases (lookup_entry key now s).0) [
      | inl missing ↦
          let binary : List ℕ = elim t.compile_fn [ none ↦ spirv | some fn ↦ fn spirv key.stage ] in
          let (u, done, x) =
            store_and_report-IsBounded bound key (new_entry binary spirv debug_name now ms)
              debug_name now t pos w in
          (u, rw (compile, missing) done, x)
      | inr (e, hit) ↦ (t, rw (compile, hit) refl, w)
    ]

run_job-IsBounded :
    (bound : ℕ) (job : CompileJob) (now ms : ℕ) (s : CacheState)
    → 0 < bound
    → IsBounded bound s
    → Ends bound (run_job job now ms s)
unfolding run_job job_done
run_job-IsBounded bound job now ms s pos v =
    let binary : List ℕ = elim s.compile_fn [ none ↦ [] | some fn ↦ fn job.spirv job.key.stage ] in
    let (u, done, x) =
      store_and_report-IsBounded bound job.key (new_entry binary job.spirv job.debug_name now ms)
        job.debug_name now s pos v in
    elim (Bool-cases (leb (length binary) 0)) [
      | inl failed ↦ (job_done s, rw (run_job, failed) refl, v)
      | inr compiled ↦ (job_done u, rw (run_job, compiled, done) refl, x)
    ]

take_job-IsBounded :
    (bound now ms : ℕ) (jobs : List CompileJob) (s : CacheState)
    → 0 < bound
    → IsBounded bound s
    → Ends bound (take_job now ms jobs s)
unfolding take_job
take_job-IsBounded bound now ms [] s pos v = (s, refl, v)
take_job-IsBounded bound now ms (job ∷ jobs) s pos v =
    run_job-IsBounded bound job now ms (record s { job_queue = jobs }) pos v

call-IsBounded :
    (bound : ℕ) (c : Call) (s : CacheState) → 0 < bound → IsBounded bound s → Ends bound (call c s)
unfolding call worker_round set_compiler queue_compile invalidate invalidate_all evict
call-IsBounded bound (sets_compiler fn) s pos v = (set_compiler fn s, refl, v)
call-IsBounded bound (compiles key spirv debug_name now ms) s pos v =
    compile-IsBounded bound key spirv debug_name now ms s pos v
call-IsBounded bound (looks_up key now) s pos v =
    ((lookup_entry key now s).1, refl, lookup_entry-IsBounded bound key now s v)
call-IsBounded bound (queues key spirv debug_name) s pos v =
    (queue_compile key spirv debug_name s, refl, v)
call-IsBounded bound (works now ms) s pos v = take_job-IsBounded bound now ms s.job_queue s pos v
call-IsBounded bound (invalidates key) s pos (most, room, within) =
    (invalidate key s, refl, (most, room, omega (arith, within, length-erase_entry key s.entries)))
call-IsBounded bound invalidates_all s pos (most, room, within) =
    (invalidate_all s, refl, (most, room, omega arith))
call-IsBounded bound (evicts max_age_us now) s pos (most, room, within) =
    let cutoff = (now + 2 ^ 64 - max_age_us) % 2 ^ 64 in
    (
      (evict max_age_us now s).1,
      refl,
      (most, room, omega (arith, within, length-evict_older cutoff s.entries)),
    )

calls_kept :
    (bound : ℕ) (cs : List Call) (s : CacheState)
    → 0 < bound
    → IsBounded bound s
    → Ends bound (calls cs s)
unfolding calls
calls_kept bound [] s pos v = (s, refl, v)
calls_kept bound (c ∷ cs) s pos v =
    let (t, done, w) = call-IsBounded bound c s pos v in
    let (u, rest, x) = calls_kept bound cs t pos w in (u, rw (calls, done) rest, x)

-- After Init with a bound above 0 and nothing to load, over an event bus with room for events, any
-- sequence of SetCompiler, Compile, Lookup, QueueCompile, rounds of the worker, Invalidate,
-- InvalidateAll and Evict runs without undefined behaviour and leaves at most as many entries as
-- the bound.
pub calls-bounded :
    (bound : ℕ) (cs : List Call) (s : CacheState)
    → 0 < bound
    → 0 < s.events.capacity
    → (t : CacheState) × (calls cs (init bound s) ≡ some t) × (length t.entries ≤ bound)
unfolding init
calls-bounded bound cs s pos room =
    let (t, done, (most, open_bus, within)) =
      calls_kept bound cs (init bound s) pos (refl, room, omega arith) in
    (t, done, within)
