-- ===== src/SaveState/Cycle.antt =====
-- Save followed by Load, and Load of a file that was changed.
use ps5x_windows.Base.{
  ℕ, ◌+◌, ◌^◌, ◌≤◌, ◌<◌, ◌≡◌, ◌≢◌, refl, sym, ap, ◌∙◌, Option, some, List, ◌∷◌, ◌++◌, true, false,
  ltb, ==_refl, ==_ne, if◌then◌else◌, length, take, drop, length-append, take-append, drop-append,
  take_all, drop-drop, update, arith, All,
}
use ps5x_windows.CommandProcessor.Command.{le_bytes}
use ps5x_windows.Gpu.{GpuStats}
use ps5x_windows.SaveState.Checksum.{crc32}
use ps5x_windows.SaveState.Crc.{IsByte, crc32-byte, crc32-lt}
use ps5x_windows.SaveState.Blob.{
  Machine, TextBytes, read_bytes, read_t, serialize_cpu_context, deserialize_cpu_context,
  serialize_gpu_state, deserialize_gpu_state,
}
use ps5x_windows.SaveState.MemoryMap.{serialize_memory_map, deserialize_memory_map}
use ps5x_windows.SaveState.Slots.{
  saved, loaded, checksum_mismatch, SaveStateManager, header_size, header_bytes, payload,
  make_header, save, field, check_file, restore, restore_rest, load_file, load,
}
use ps5x_windows.SaveState.Header.{
  cpu_size-header_bytes, memory_size-header_bytes, gpu_size-header_bytes, body-header_bytes,
  Describes, check_file-header_bytes,
}
use ps5x_windows.SaveState.Restore.{
  IsContext, SameContext, deserialize_cpu_context-serialize_cpu_context,
}
use ps5x_windows.SaveState.Pages.{
  SavedIfCommitted, is_saved, map_readable_lem, deserialize_memory_map-serialize_memory_map,
}

-- The parts of a payload by their lengths.
length-payload :
    (e : TextBytes) (m : Machine)
    → length (payload e m)
      ≡ length (serialize_cpu_context m)
        + length (serialize_memory_map e m)
        + length (serialize_gpu_state m.stats)
unfolding payload
length-payload e m =
    let cpu = serialize_cpu_context m in
    let memory = serialize_memory_map e m in
    let gpu = serialize_gpu_state m.stats in
    omega (arith, length-append cpu (memory ++ gpu), length-append memory gpu)

make_header-Describes :
    (e : TextBytes) (m : Machine) (description : List ℕ) (now padding : ℕ) (body : List ℕ)
    → length (payload e m) < 2 ^ 32
    → length body ≡ length (payload e m)
    → Describes (make_header e m description now padding) body
unfolding make_header
make_header-Describes e m description now padding body small same = record {
  first_version = refl;
  cpu_fits = omega arith;
  memory_fits = omega arith;
  gpu_fits = omega arith;
  checksum_fits = crc32-lt (payload e m);
  whole = omega (arith, length-payload e m);
}

-- Load of a file that Save wrote, with any one byte of its payload changed into another byte,
-- reports ChecksumMismatch and changes nothing, for every payload below 2 ^ 32 bytes.
pub load-corrupted :
    (e : TextBytes) (m n : Machine) (s : SaveStateManager) (slot now padding a b : ℕ)
    (description xs ys : List ℕ) (answers : ℕ → Option ℕ)
    → s.initialised ≡ true
    → payload e m ≡ xs ++ (a ∷ ys)
    → length (payload e m) < 2 ^ 32
    → a < 256
    → b < 256
    → All IsByte ys
    → a ≢ b
    → s.files slot
      ≡ some (header_bytes (make_header e m description now padding) ++ (xs ++ (b ∷ ys)))
    → load e slot true true answers s n ≡ some (checksum_mismatch, n)
unfolding load load_file make_header
load-corrupted e m n s slot now padding a b description xs ys answers ready is small p q v ne file =
    let h = make_header e m description now padding in
    let body = xs ++ (b ∷ ys) in
    let same : length body ≡ length (payload e m) =
      omega (arith, ap length is, length-append xs (a ∷ ys), length-append xs (b ∷ ys)) in
    let other : crc32 body ≢ h.checksum =
      λ z. crc32-byte a b xs ys p q v ne (ap crc32 (sym is) ∙ sym z) in
    let checked =
      check_file-header_bytes h body
        (make_header-Describes e m description now padding body small same) in
    rw (ready, load, file, load_file, checked, ==_ne (crc32 body) h.checksum other) refl

gpu_state_read : (g : GpuStats) → deserialize_gpu_state (serialize_gpu_state g) ≡ true
unfolding deserialize_gpu_state serialize_gpu_state read_t read_bytes le_bytes
gpu_state_read g = refl

-- The parts of a payload, as Load cuts it.
payload_parts :
    (e : TextBytes) (m : Machine)
    → (take (length (serialize_cpu_context m)) (payload e m) ≡ serialize_cpu_context m)
      × (take
            (length (serialize_memory_map e m))
            (drop (length (serialize_cpu_context m)) (payload e m))
          ≡ serialize_memory_map e m)
      × (take (length (serialize_gpu_state m.stats)) (
            drop
              (length (serialize_cpu_context m) + length (serialize_memory_map e m))
              (payload e m))
          ≡ serialize_gpu_state m.stats)
unfolding payload
payload_parts e m =
    let cpu = serialize_cpu_context m in
    let memory = serialize_memory_map e m in
    let gpu = serialize_gpu_state m.stats in
    let behind : drop (length cpu) (cpu ++ (memory ++ gpu)) ≡ memory ++ gpu =
      drop-append cpu (memory ++ gpu) in
    let last : drop (length cpu + length memory) (cpu ++ (memory ++ gpu)) ≡ gpu =
      sym (
        drop-drop (length memory) (length cpu) (length cpu + length memory) (cpu ++ (memory ++ gpu))
          refl)
      ∙ ap (drop (length memory)) behind
      ∙ drop-append memory gpu in
    (
      take-append cpu (memory ++ gpu),
      ap (take (length memory)) behind ∙ take-append memory gpu,
      ap (take (length gpu)) last ∙ take_all (length gpu) gpu (omega arith),
    )

-- The three parts restored one after another.
restore_lem :
    (e : TextBytes) (file : List ℕ) (answers : ℕ → Option ℕ) (n u v : Machine)
    (cpu memory gpu : List ℕ)
    → take (field 408 4 file) (drop header_size file) ≡ cpu
    → take (field 412 4 file) (drop (field 408 4 file) (drop header_size file)) ≡ memory
    → take (field 416 4 file) (drop (field 408 4 file + field 412 4 file) (drop header_size file))
      ≡ gpu
    → deserialize_cpu_context n cpu ≡ (true, u)
    → deserialize_memory_map e memory answers u ≡ some (true, v)
    → deserialize_gpu_state gpu ≡ true
    → restore e file answers n ≡ some (loaded, v)
unfolding restore restore_rest
restore_lem e file answers n u v cpu memory gpu p q r d f g = simp (p, q, r, d, f, g)

load_file-payload :
    (e : TextBytes) (m n : Machine) (description : List ℕ) (now padding : ℕ)
    (answers : ℕ → Option ℕ)
    → IsContext m
    → length (payload e m) < 2 ^ 32
    → length m.memory.regions < 2 ^ 32
    → All (SavedIfCommitted e n.memory.regions) m.memory.regions
    → (u : Machine) × (load_file e
          (header_bytes (make_header e m description now padding) ++ payload e m)
          answers
          n
        ≡ some (loaded, u))
      × SameContext u m
      × ((a : ℕ) → u.bytes a ≡ (if is_saved a m.memory.regions then m.bytes a else n.bytes a))
      × (u.memory ≡ n.memory)
unfolding load_file make_header
load_file-payload e m n description now padding answers c small few v =
    let h = make_header e m description now padding in
    let file = header_bytes h ++ payload e m in
    let total = length-payload e m in
    let d = make_header-Describes e m description now padding (payload e m) small refl in
    let checked : check_file file ≡ loaded =
      check_file-header_bytes h (payload e m) d ∙ rw (==_refl (crc32 (payload e m))) refl in
    let cpu_size : field 408 4 file ≡ length (serialize_cpu_context m) =
      cpu_size-header_bytes h (payload e m) d.cpu_fits ∙ omega (arith, total) in
    let memory_size : field 412 4 file ≡ length (serialize_memory_map e m) =
      memory_size-header_bytes h (payload e m) d.memory_fits ∙ omega (arith, total) in
    let gpu_size : field 416 4 file ≡ length (serialize_gpu_state m.stats) =
      gpu_size-header_bytes h (payload e m) d.gpu_fits ∙ omega (arith, total) in
    let body = body-header_bytes h (payload e m) in
    let (cpu_part, memory_part, gpu_part) = payload_parts e m in
    let (u, read_cpu, same, kept_memory, kept_bytes) =
      deserialize_cpu_context-serialize_cpu_context m n c in
    let (pages, read_memory, back) =
      deserialize_memory_map-serialize_memory_map e m u answers few (rw kept_memory v) in
    let w = record u { bytes = pages } in
    let result =
      restore_lem e file answers n u w (serialize_cpu_context m) (serialize_memory_map e m)
        (serialize_gpu_state m.stats) (simp (cpu_size, body) cpu_part)
        (simp (memory_size, cpu_size, body) memory_part)
        (simp (gpu_size, memory_size, cpu_size, body) gpu_part) read_cpu read_memory
        (gpu_state_read m.stats) in
    (
      w,
      rw (load_file, checked) result,
      record {
        gprs = same.gprs;
        rip = same.rip;
        rflags = same.rflags;
        cs = same.cs;
        ss = same.ss;
        xmms = same.xmms;
      },
      λ a. rw (← kept_bytes) (back a),
      kept_memory,
    )

-- Save of a machine with 64-bit registers, 16-byte XMM registers and a payload below 2 ^ 32 bytes
-- into a slot from 0 to 9, and Load of that slot into a machine whose region table knows the base
-- of every committed region: where the committed regions grant reading and the table grants
-- writing of all their bytes, neither faults and both succeed, every register is back, every byte
-- of a committed region is what it was when saved, every other byte and the region table are as
-- they were before Load. The host's files open and take all bytes; no committed region is at
-- address 0.
pub load-save :
    (e : TextBytes) (m n : Machine) (s : SaveStateManager) (slot now padding : ℕ)
    (description : List ℕ) (answers : ℕ → Option ℕ)
    → s.initialised ≡ true
    → slot ≤ 9
    → IsContext m
    → length (payload e m) < 2 ^ 32
    → length m.memory.regions < 2 ^ 32
    → All (SavedIfCommitted e n.memory.regions) m.memory.regions
    → (t : SaveStateManager) × (u : Machine) × (save e slot description now padding true
          (λ file. (true, file))
          m
          s
        ≡ some (saved, t))
      × (load e slot true true answers t n ≡ some (loaded, u))
      × SameContext u m
      × ((a : ℕ) → u.bytes a ≡ (if is_saved a m.memory.regions then m.bytes a else n.bytes a))
      × (u.memory ≡ n.memory)
unfolding load save
load-save e m n s slot now padding description answers ready within c small few v =
    let file = header_bytes (make_header e m description now padding) ++ payload e m in
    let t = record s { files = update s.files slot (some file) } in
    let (u, result, same, bytes, memory) =
      load_file-payload e m n description now padding answers c small few v in
    let reads = map_readable_lem e n.memory.regions m.memory.regions v in
    let inside : ltb 9 slot ≡ false = ground arith in
    (t, u, simp (ready, inside, reads), rw (ready, load, ==_refl slot) result, same, bytes, memory)
