-- ===== src/ShaderCache/Cache.antt =====
-- The cache, its queue of jobs and the worker's rounds. `now` is what NowUs reads, `ms` the time a
-- compilation took, as a bit pattern. A `none` is C++ without defined behaviour: the end of an empty
-- table erased, or a publication that has none.
use Prim.Native.Nat.{bit_xor}
use ps5x_windows.Base.{
  ℕ, ◌+◌, ◌-◌, ◌*◌, ◌%◌, ◌^◌, Option, none, some, List, [], ◌∷◌, ◌++◌, Bool, true, false, String,
  ◌&&◌, ◌==◌, ltb, leb, if◌then◌else◌, length,
}
use ps5x_windows.RuntimeEvents.State.{shader_compiled, custom_payload, EventState}
use ps5x_windows.RuntimeEvents.Publish.{publish}

pub record ShaderKey : Type 0 where
  pub spirv_hash : ℕ
  pub pipeline_hash : ℕ
  pub stage : ℕ

-- The key stands beside the entry in the table.
pub record CacheEntry : Type 0 where
  pub binary : List ℕ
  pub spirv : List ℕ
  pub compiled_at_us : ℕ
  pub last_used_us : ℕ
  pub hit_count : ℕ
  pub compilation_ms : ℕ
  pub debug_name : String
  pub valid : Bool

pub record CompileJob : Type 0 where
  pub key : ShaderKey
  pub spirv : List ℕ
  pub debug_name : String

-- CacheState with the event bus that it publishes to; the sum of times is left out.
pub record CacheState : Type 0 where
  pub entries : List (ShaderKey × CacheEntry)
  pub max_entries : ℕ
  pub compile_fn : Option (List ℕ → ℕ → List ℕ)
  pub job_queue : List CompileJob
  pub pending_jobs : ℕ
  pub hits : ℕ
  pub misses : ℕ
  pub evictions : ℕ
  pub compilations : ℕ
  pub events : EventState

-- Init, less what it loads from the disk.
unfoldable pub init : ℕ → CacheState → CacheState
init max_entries s = record s {
  entries = [];
  max_entries = max_entries;
  compile_fn = none;
  pending_jobs = 0;
  hits = 0;
  misses = 0;
  evictions = 0;
  compilations = 0;
}

unfoldable pub set_compiler : (List ℕ → ℕ → List ℕ) → CacheState → CacheState
set_compiler fn s = record s { compile_fn = some fn }

-- HashSpirv from the state `h` on.
unfoldable pub hash_from : ℕ → List ℕ → ℕ
hash_from h [] = h
hash_from h (b ∷ bs) = hash_from (bit_xor h b * 1099511628211 % 2 ^ 64) bs

unfoldable pub hash_spirv : List ℕ → ℕ
hash_spirv = hash_from 14695981039346656037

unfoldable pub same_key : ShaderKey → ShaderKey → Bool
same_key a b =
    a.spirv_hash == b.spirv_hash && a.pipeline_hash == b.pipeline_hash && a.stage == b.stage

unfoldable pub find_entry : ShaderKey → List (ShaderKey × CacheEntry) → Option CacheEntry
find_entry key [] = none
find_entry key ((k, e) ∷ es) = if same_key k key then some e else find_entry key es

unfoldable pub set_entry :
    ShaderKey → CacheEntry → List (ShaderKey × CacheEntry) → List (ShaderKey × CacheEntry)
set_entry key entry [] = (key, entry) ∷ []
set_entry key entry ((k, e) ∷ es) =
    if same_key k key then (key, entry) ∷ es else (k, e) ∷ set_entry key entry es

unfoldable pub erase_entry :
    ShaderKey → List (ShaderKey × CacheEntry) → List (ShaderKey × CacheEntry)
erase_entry key [] = []
erase_entry key ((k, e) ∷ es) =
    let rest = erase_entry key es in if same_key k key then rest else (k, e) ∷ rest

-- The table without its least recently used entry; `oldest` is the one found so far. The order of
-- the table is the host library's.
unfoldable pub without_oldest :
    ShaderKey × CacheEntry → List (ShaderKey × CacheEntry) → List (ShaderKey × CacheEntry)
without_oldest oldest [] = []
without_oldest oldest (x ∷ xs) =
    if ltb x.1.last_used_us oldest.1.last_used_us
    then oldest ∷ without_oldest x xs
    else x ∷ without_oldest oldest xs

unfoldable pub erase_oldest : List (ShaderKey × CacheEntry) → Option (List (ShaderKey × CacheEntry))
erase_oldest [] = none
erase_oldest (x ∷ xs) = some (without_oldest x xs)

-- The store of an entry, with the eviction in front of it.
unfoldable pub store : ShaderKey → CacheEntry → CacheState → Option CacheState
store key entry s =
    if leb s.max_entries (length s.entries)
    then elim (erase_oldest s.entries) [
      | none ↦ none
      | some rest ↦
          some (record s {
            entries = set_entry key entry rest;
            evictions = (s.evictions + 1) % 2 ^ 64;
          })
    ]
    else some (record s { entries = set_entry key entry s.entries })

-- The count of a compilation and its event.
unfoldable pub report : String → ℕ → CacheState → Option CacheState
report debug_name now s =
    elim (publish shader_compiled (custom_payload "ShaderCompiled" debug_name) 0 0 now s.events) [
      | none ↦ none
      | some events ↦
          some (record s { compilations = (s.compilations + 1) % 2 ^ 64; events = events })
    ]

unfoldable pub store_and_report :
    ShaderKey → CacheEntry → String → ℕ → CacheState → Option CacheState
store_and_report key entry debug_name now s = elim (store key entry s) [
  | none ↦ none
  | some t ↦ report debug_name now t
]

unfoldable pub new_entry :
    (binary spirv : List ℕ) → (debug_name : String) → (now ms : ℕ) → CacheEntry
new_entry binary spirv debug_name now ms = record {
  binary = binary;
  spirv = spirv;
  compiled_at_us = now;
  last_used_us = now;
  hit_count = 0;
  compilation_ms = ms;
  debug_name = debug_name;
  valid = elim binary [ [] ↦ false | b ∷ bs ↦ true ];
}

unfoldable pub lookup_entry : ShaderKey → ℕ → CacheState → Option CacheEntry × CacheState
lookup_entry key now s = elim (find_entry key s.entries) [
  | none ↦ (none, record s { misses = (s.misses + 1) % 2 ^ 64 })
  | some e ↦
      let used = record e { hit_count = (e.hit_count + 1) % 2 ^ 32; last_used_us = now } in
      (some used, record s { entries = set_entry key used s.entries; hits = (s.hits + 1) % 2 ^ 64 })
]

-- Compile behind its lookup: with no compiler the SPIR-V stands in for the binary.
unfoldable pub compile_missing :
    ShaderKey → (spirv : List ℕ) → String → (now ms : ℕ) → CacheState → Option CacheState
compile_missing key spirv debug_name now ms s =
    let binary : List ℕ = elim s.compile_fn [ none ↦ spirv | some fn ↦ fn spirv key.stage ] in
    store_and_report key (new_entry binary spirv debug_name now ms) debug_name now s

unfoldable pub compile :
    ShaderKey → (spirv : List ℕ) → String → (now ms : ℕ) → CacheState → Option CacheState
compile key spirv debug_name now ms s =
    let (hit, t) = lookup_entry key now s in
    elim hit [ none ↦ compile_missing key spirv debug_name now ms t | some e ↦ some t ]

unfoldable pub queue_compile : ShaderKey → List ℕ → String → CacheState → CacheState
queue_compile key spirv debug_name s = record s {
  pending_jobs = (s.pending_jobs + 1) % 2 ^ 32;
  job_queue = s.job_queue ++ (record { key = key; spirv = spirv; debug_name = debug_name } ∷ []);
}

unfoldable pub job_done : CacheState → CacheState
job_done s = record s { pending_jobs = (s.pending_jobs + 2 ^ 32 - 1) % 2 ^ 32 }

-- A job that the worker took: an empty binary is a failure.
unfoldable pub run_job : CompileJob → (now ms : ℕ) → CacheState → Option CacheState
run_job job now ms s =
    let binary : List ℕ = elim s.compile_fn [ none ↦ [] | some fn ↦ fn job.spirv job.key.stage ] in
    let stored =
      store_and_report job.key (new_entry binary job.spirv job.debug_name now ms) job.debug_name now
        s in
    if leb (length binary) 0
    then some (job_done s)
    else elim stored [ none ↦ none | some t ↦ some (job_done t) ]

-- A round of RunWorker, which waits while the queue is empty.
unfoldable pub take_job : (now ms : ℕ) → List CompileJob → CacheState → Option CacheState
take_job now ms [] s = some s
take_job now ms (job ∷ jobs) s = run_job job now ms (record s { job_queue = jobs })

unfoldable pub worker_round : (now ms : ℕ) → CacheState → Option CacheState
worker_round now ms s = take_job now ms s.job_queue s

unfoldable pub invalidate : ShaderKey → CacheState → CacheState
invalidate key s = record s { entries = erase_entry key s.entries }

unfoldable pub invalidate_all : CacheState → CacheState
invalidate_all s = record s { entries = [] }

-- The loop of Evict: the entries it keeps, and how many it drops.
unfoldable pub evict_older :
    (cutoff : ℕ) → List (ShaderKey × CacheEntry) → List (ShaderKey × CacheEntry) × ℕ
evict_older cutoff [] = ([], 0)
evict_older cutoff (x ∷ xs) =
    let (rest, n) = evict_older cutoff xs in
    if ltb x.1.last_used_us cutoff then (rest, (n + 1) % 2 ^ 32) else (x ∷ rest, n)

-- The cutoff wraps below 0, where the age passes the clock.
unfoldable pub evict : (max_age_us now : ℕ) → CacheState → ℕ × CacheState
evict max_age_us now s =
    let (rest, n) = evict_older ((now + 2 ^ 64 - max_age_us) % 2 ^ 64) s.entries in
    (n, record s { entries = rest; evictions = (s.evictions + n) % 2 ^ 64 })
