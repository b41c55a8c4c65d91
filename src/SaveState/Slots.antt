-- ===== src/SaveState/Slots.antt =====
-- The manager of the slots: Init, Shutdown, Save, Load, Delete and the queries. What the host
-- answers on a file is an argument.
use ps5x_windows.Base.{
  ℕ, zero, suc, ◌+◌, ◌-◌, ◌%◌, ◌^◌, min, Option, none, some, List, [], ◌∷◌, ◌++◌, Bool, true, false,
  not, ltb, ◌==◌, ◌&&◌, if◌then◌else◌, length, take, drop, update,
}
use ps5x_windows.CommandProcessor.Command.{u32, u64}
use ps5x_windows.CommandProcessor.Process.{le_value}
use ps5x_windows.SaveState.Checksum.{crc32}
use ps5x_windows.SaveState.Blob.{
  Machine, TextBytes, serialize_cpu_context, serialize_gpu_state, deserialize_cpu_context,
  deserialize_gpu_state,
}
use ps5x_windows.SaveState.MemoryMap.{serialize_memory_map, map_readable, deserialize_memory_map}

pub data SaveResult : Type 0 where
  saved file_error invalid_state disk_full : SaveResult

pub data LoadResult : Type 0 where
  loaded file_not_found corrupt_file version_mismatch checksum_mismatch memory_conflict : LoadResult

-- The files of the save directory by their slots. A slot is the int's bit pattern, so that a
-- negative one is above 9.
pub record SaveStateManager : Type 0 where
  pub initialised : Bool
  pub files : ℕ → Option (List ℕ)

-- SaveStateHeader as Save fills it; the game's name stays empty. `padding` is what stands between
-- the version and the timestamp.
pub record SaveStateHeader : Type 0 where
  pub version : ℕ
  pub padding : ℕ
  pub timestamp : ℕ
  pub description : List ℕ
  pub cpu_state_size : ℕ
  pub memory_map_size : ℕ
  pub gpu_state_size : ℕ
  pub checksum : ℕ

-- "ChuckSta": the eight bytes that are compared.
abbrev pub magic : List ℕ
magic = 67 ∷ 104 ∷ 117 ∷ 99 ∷ 107 ∷ 83 ∷ 116 ∷ 97 ∷ []

unfoldable pub zeros : ℕ → List ℕ
zeros zero = []
zeros (suc n) = 0 ∷ zeros n

-- The description in its 256 bytes, cut to 255.
unfoldable pub description_bytes : List ℕ → List ℕ
description_bytes d = let text = take (min (length d) 255) d in text ++ zeros (256 - length text)

-- sizeof(SaveStateHeader).
abbrev pub header_size : ℕ
header_size = 424

unfoldable pub header_bytes : SaveStateHeader → List ℕ
header_bytes h =
    magic
    ++ (u32 h.version
        ++ (u32 h.padding
            ++ (u64 h.timestamp
                ++ (zeros 128
                    ++ (description_bytes h.description
                        ++ (u32 h.cpu_state_size
                            ++ (u32 h.memory_map_size
                                ++ (u32 h.gpu_state_size ++ u32 h.checksum))))))))

unfoldable pub payload : TextBytes → Machine → List ℕ
payload e m = serialize_cpu_context m ++ (serialize_memory_map e m ++ serialize_gpu_state m.stats)

unfoldable pub make_header :
    TextBytes → Machine → (description : List ℕ) → (now padding : ℕ) → SaveStateHeader
make_header e m description now padding = record {
  version = 1;
  padding = padding;
  timestamp = now;
  description = description;
  cpu_state_size = length (serialize_cpu_context m) % 2 ^ 32;
  memory_map_size = length (serialize_memory_map e m) % 2 ^ 32;
  gpu_state_size = length (serialize_gpu_state m.stats) % 2 ^ 32;
  checksum = crc32 (payload e m);
}

unfoldable pub init : Bool → SaveStateManager → Bool × SaveStateManager
init created s = (created, record s { initialised = created })

unfoldable pub shutdown : SaveStateManager → SaveStateManager
shutdown s = record s { initialised = false }

-- Save. `opened` says whether the file opens, `written` what it holds in the end and whether the
-- stream is good, for the bytes that are written to it. `none` is a fault while the memory is read.
unfoldable pub save :
    TextBytes
    → (slot : ℕ) → (description : List ℕ) → (now padding : ℕ) → (opened : Bool)
    → (written : List ℕ → Bool × List ℕ) → Machine
    → SaveStateManager
    → Option (SaveResult × SaveStateManager)
save e slot description now padding opened written m s =
    let file = header_bytes (make_header e m description now padding) ++ payload e m in
    let (good, content) = written file in
    if not s.initialised
    then some (invalid_state, s)
    else if ltb 9 slot
    then some (invalid_state, s)
    else if not (map_readable m.memory.regions)
    then none
    else if not opened
    then some (file_error, s)
    else some
        (if good then saved else disk_full, record s { files = update s.files slot (some content) })

-- The number that stands in `len` bytes at an offset of a file.
abbrev pub field : ℕ → ℕ → List ℕ → ℕ
field offset len file = le_value (take len (drop offset file))

-- memcmp of lists of one length.
unfoldable pub same_bytes : List ℕ → List ℕ → Bool
same_bytes [] [] = true
same_bytes [] (y ∷ ys) = false
same_bytes (x ∷ xs) [] = false
same_bytes (x ∷ xs) (y ∷ ys) = x == y && same_bytes xs ys

unfoldable pub payload_size : List ℕ → ℕ
payload_size file = field 408 4 file + field 412 4 file + field 416 4 file

-- The checks of Load on the header and the payload, in their order.
unfoldable pub check_file : List ℕ → LoadResult
check_file file =
    let computed = crc32 (take (payload_size file) (drop header_size file)) in
    if ltb (length file) header_size
    then corrupt_file
    else if not (same_bytes (take 8 file) magic)
    then corrupt_file
    else if not (field 8 4 file == 1)
    then version_mismatch
    else if ltb (length file) (header_size + payload_size file)
    then corrupt_file
    else if not (computed == field 420 4 file)
    then checksum_mismatch
    else loaded

-- Behind the memory map.
unfoldable pub restore_rest : (gpu : List ℕ) → (memory_ok : Bool) → Machine → LoadResult × Machine
restore_rest gpu memory_ok m =
    if not memory_ok
    then (memory_conflict, m)
    else if not (deserialize_gpu_state gpu)
    then (corrupt_file, m)
    else (loaded, m)

-- What Load restores once the checks are passed; `none` is a fault.
unfoldable pub restore :
    TextBytes → List ℕ → (answers : ℕ → Option ℕ) → Machine → Option (LoadResult × Machine)
restore e file answers m =
    let cpu_size = field 408 4 file in
    let memory_size = field 412 4 file in
    let body = drop header_size file in
    let (cpu_ok, m1) = deserialize_cpu_context m (take cpu_size body) in
    let map_read = deserialize_memory_map e (take memory_size (drop cpu_size body)) answers m1 in
    let gpu = take (field 416 4 file) (drop (cpu_size + memory_size) body) in
    if not cpu_ok
    then some (corrupt_file, m1)
    else elim map_read [ none ↦ none | some (memory_ok, m2) ↦ some (restore_rest gpu memory_ok m2) ]

unfoldable pub load_file :
    TextBytes → List ℕ → (answers : ℕ → Option ℕ) → Machine → Option (LoadResult × Machine)
load_file e file answers m = elim (check_file file) [
  | loaded ↦ restore e file answers m
  | file_not_found ↦ some (file_not_found, m)
  | corrupt_file ↦ some (corrupt_file, m)
  | version_mismatch ↦ some (version_mismatch, m)
  | checksum_mismatch ↦ some (checksum_mismatch, m)
  | memory_conflict ↦ some (memory_conflict, m)
]

-- Load. `opened` and `read` say whether the file opens and is read to its end.
unfoldable pub load :
    TextBytes
    → (slot : ℕ) → (opened read : Bool) → (answers : ℕ → Option ℕ) → SaveStateManager
    → Machine
    → Option (LoadResult × Machine)
load e slot opened read answers s m =
    if not s.initialised then some (corrupt_file, m) else elim (s.files slot) [
      | none ↦ some (file_not_found, m)
      | some file ↦ if opened && read then load_file e file answers m else some (corrupt_file, m)
    ]

-- Delete; `removed` is the host's answer.
unfoldable pub delete_slot : ℕ → Bool → SaveStateManager → Bool × SaveStateManager
delete_slot slot removed s = if not s.initialised then (false, s) else elim (s.files slot) [
  | none ↦ (false, s)
  | some file ↦
      if removed then (true, record s { files = update s.files slot none }) else (false, s)
]

unfoldable pub has_save : ℕ → SaveStateManager → Bool
has_save slot s = s.initialised && elim (s.files slot) [ none ↦ false | some file ↦ true ]

-- The occupied slots among `count` of them from slot `i` on; ListSaves asks for ten from 0.
unfoldable pub occupied : ℕ → ℕ → (ℕ → Option (List ℕ)) → List ℕ
occupied i zero files = []
occupied i (suc count) files =
    let rest = occupied (suc i) count files in elim (files i) [ none ↦ rest | some file ↦ i ∷ rest ]

unfoldable pub list_saves : SaveStateManager → List ℕ
list_saves s = if s.initialised then occupied 0 10 s.files else []
