-- ===== src/SaveState/Tests.antt =====
-- The theorems at a small machine.
use ps5x_windows.Base.{
  ℕ, ◌<◌, ◌^◌, ◌≡◌, refl, none, some, List, [], ◌∷◌, ◌++◌, Bool, true, ltb, ltb→lt, ◌&&◌,
  if◌then◌else◌, length, drop, All, arith,
}
use ps5x_windows.CommandProcessor.Command.{le_bytes}
use ps5x_windows.Memory.State.{system, Region, zero_stats}
use ps5x_windows.Memory.Query.{find_region, covers, allows}
use ps5x_windows.SaveState.Checksum.{crc32}
use ps5x_windows.SaveState.Crc.{IsByte}
use ps5x_windows.SaveState.Bitwise.{plain_crc32, crc32-plain_crc32}
use ps5x_windows.SaveState.Blob.{
  Machine, TextBytes, str_bytes, gpr_bytes, xmm_bytes, serialize_cpu_context, serialize_gpu_state,
}
use ps5x_windows.SaveState.MemoryMap.{
  writable_range, writable_at, type_value, count_committed, page_data, region_bytes, regions_bytes,
  serialize_memory_map,
}
use ps5x_windows.SaveState.Slots.{
  saved, loaded, checksum_mismatch, SaveStateManager, zeros, header_bytes, payload, make_header,
  save, load,
}
use ps5x_windows.SaveState.Restore.{IsContext, SameContext}
use ps5x_windows.SaveState.Pages.{IsSavable, is_saved}
use ps5x_windows.SaveState.Cycle.{load-corrupted, load-save}

abbrev codec : TextBytes
codec = record { bytes_of = λ s. 116 ∷ 97 ∷ []; text_of = λ b. "ta" }

abbrev low : Region
low = record { base = 16; size = 2; prot = 3; type = system; tag = "ta"; committed = true }

abbrev small : Machine
small = record {
  ctx = record { gpr = λ k. 7; rip = 4096; rflags = 2; cs = 51; ss = 43 };
  xmm = λ k. zeros 16;
  memory = record { regions = low ∷ []; heap_allocs = []; stats = zero_stats };
  bytes = λ a. 9;
  stats = record { submits = 1; flips = 2; barriers = 3; fences_signaled = 4; active_queues = 1 };
}

-- The machine into which the state is loaded.
abbrev later : Machine
later = record small { bytes = λ a. 200 }

abbrev ready : SaveStateManager
ready = record { initialised = true; files = λ slot. none }

all_bytes : List ℕ → Bool
all_bytes [] = true
all_bytes (b ∷ bs) = ltb b 256 && all_bytes bs

all_bytes_lem : (bs : List ℕ) → all_bytes bs ≡ true → All IsByte bs
unfolding all_bytes
all_bytes_lem [] h = tt
all_bytes_lem (b ∷ bs) h = (ltb→lt b 256 (ground arith), all_bytes_lem bs (ground arith))

small_payload :
    (payload codec small ≡ 7 ∷ drop 1 (payload codec small))
    × (length (payload codec small) < 2 ^ 32)
    × (all_bytes (drop 1 (payload codec small)) ≡ true)
unfolding payload serialize_cpu_context serialize_memory_map serialize_gpu_state gpr_bytes xmm_bytes
    zeros count_committed regions_bytes region_bytes page_data str_bytes type_value le_bytes
    all_bytes
small_payload = (refl, ltb→lt 485 (2 ^ 32) refl, refl)

small-IsContext : IsContext small
unfolding zeros
small-IsContext = record {
  gprs = λ k. omega arith;
  rip = omega arith;
  rflags = omega arith;
  cs = omega arith;
  ss = omega arith;
  xmms = λ k. refl;
}

low-IsSavable : IsSavable codec (low ∷ []) low
unfolding find_region covers allows writable_range writable_at
low-IsSavable = record {
  not_null = λ z. omega (arith, z);
  base_fits = omega arith;
  size_fits = omega arith;
  prot_fits = omega arith;
  tag_fits = omega arith;
  holder = low;
  held = refl;
  readable = refl;
  writable = refl;
}

load-save_example :
    (t : SaveStateManager) × (u : Machine) × (save codec 3
        (104 ∷ 105 ∷ [])
        1000
        0
        true
        (λ file. (true, file))
        small
        ready
      ≡ some (saved, t))
    × (load codec 3 true true (λ k. none) t later ≡ some (loaded, u))
    × SameContext u small
    × ((a : ℕ) → u.bytes a ≡ (if is_saved a (low ∷ []) then 9 else 200))
    × (u.memory ≡ small.memory)
load-save_example =
    load-save codec small later ready 3 1000 0 (104 ∷ 105 ∷ []) (λ k. none) refl (omega arith)
      small-IsContext small_payload.1 (omega arith) ((λ c. low-IsSavable), tt)

-- The slot holds the file of `small` with its first byte 7 turned into 8.
abbrev damaged : SaveStateManager
damaged = record ready {
  files = λ slot. some (
      header_bytes (make_header codec small [] 1000 0)
      ++ ([] ++ (8 ∷ drop 1 (payload codec small))));
}

load-corrupted_example :
    load codec 3 true true (λ k. none) damaged later ≡ some (checksum_mismatch, later)
load-corrupted_example =
    load-corrupted codec small later damaged 3 1000 0 7 8 [] [] (drop 1 (payload codec small))
      (λ k. none) refl small_payload.0 small_payload.1 (omega arith) (omega arith)
      (all_bytes_lem (drop 1 (payload codec small)) small_payload.2) (λ z. omega (arith, z)) refl

crc32-plain_crc32_example : crc32 (49 ∷ 50 ∷ 51 ∷ 52 ∷ []) ≡ plain_crc32 (49 ∷ 50 ∷ 51 ∷ 52 ∷ [])
crc32-plain_crc32_example =
    crc32-plain_crc32 (49 ∷ 50 ∷ 51 ∷ 52 ∷ [])
      (omega arith, (omega arith, (omega arith, (omega arith, tt))))
