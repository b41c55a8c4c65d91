-- ===== src/ShaderCache/Tests.antt =====
-- The theorem at a small cache.
use ps5x_windows.Base.{◌≤◌, ◌≡◌, none, some, List, [], ◌∷◌, false, length, arith}
use ps5x_windows.RuntimeEvents.State.{EventState}
use ps5x_windows.ShaderCache.Cache.{ShaderKey, CacheState, init}
use ps5x_windows.ShaderCache.Capacity.{
  Call, sets_compiler, compiles, looks_up, queues, works, evicts, calls, calls-bounded,
}

abbrev bus : EventState
bus = record {
  ring = [];
  capacity = 4;
  total_count = 0;
  next_id = 1;
  handlers = [];
  next_handler_id = 1;
  timeline = [];
  watchdog = record {
    cfg = record { warning_us = 10; timeout_us = 50; enabled = false };
    last_kick_us = 0;
    running = false;
  };
  profile_begin_times = [];
  cat_counts = λ i. 0;
  delivered = [];
}

abbrev cold : CacheState
cold = record {
  entries = [];
  max_entries = 1;
  compile_fn = none;
  job_queue = [];
  pending_jobs = 0;
  hits = 0;
  misses = 0;
  evictions = 0;
  compilations = 0;
  events = bus;
}

abbrev vertex : ShaderKey
vertex = record { spirv_hash = 11; pipeline_hash = 5; stage = 0 }

abbrev fragment : ShaderKey
fragment = record { spirv_hash = 12; pipeline_hash = 5; stage = 1 }

abbrev two_shaders : List Call
two_shaders =
    compiles vertex (1 ∷ 2 ∷ []) "vertex" 10 1
    ∷ queues fragment (3 ∷ []) "fragment"
    ∷ sets_compiler (λ spirv stage. spirv)
    ∷ works 20 2
    ∷ looks_up fragment 30
    ∷ evicts 5 30
    ∷ []

calls-bounded_example :
    (t : CacheState) × (calls two_shaders (init 1 cold) ≡ some t) × (length t.entries ≤ 1)
calls-bounded_example = calls-bounded 1 two_shaders cold (omega arith) (omega arith)
