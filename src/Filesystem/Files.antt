-- ===== src/Filesystem/Files.antt =====
-- Open, the calls on handles and the calls on paths.
use Prim.Native.Nat.{bit_and}
use ps5x_windows.Base.{
  ℕ, ◌+◌, Option, none, some, List, [], ◌∷◌, ◌++◌, Bool, true, false, not, ◌&&◌, ◌==◌,
  if◌then◌else◌, length, drop, lookup, insert, erase, ◌-◌, leb, min,
}
use ps5x_windows.Filesystem.Paths.{normalise}
use ps5x_windows.Filesystem.Mounts.{
  MountEntry, OpenFile, Mode, rb, wb, ab, r_plus_b, creates_directories, creates_directory, opens,
  writes, removes, renames, closes, VfsState, mount_prefix, set_mount, get_mount, resolve,
  read_only_in,
}

-- Open flags are the enumeration's bits.
abbrev pub read_flag : ℕ
read_flag = 1

abbrev pub write_flag : ℕ
write_flag = 2

abbrev pub create_flag : ℕ
create_flag = 4

abbrev pub truncate_flag : ℕ
truncate_flag = 8

abbrev pub append_flag : ℕ
append_flag = 16

unfoldable pub has_flag : ℕ → ℕ → Bool
has_flag flags flag = not (bit_and flags flag == 0)

unfoldable pub flag_mode : ℕ → Bool → Mode
flag_mode flags rd_only =
    let r = has_flag flags read_flag in
    let w = has_flag flags write_flag in
    let t = has_flag flags truncate_flag in
    let a = has_flag flags append_flag in
    if rd_only
    then rb
    else if w && t
    then wb
    else if w && a
    then ab
    else if w && r
    then r_plus_b
    else if w
    then wb
    else rb

-- Open once the path is resolved. `parent` is path::parent_path, `opened` the FILE and the size
-- that the host answers with, if it opens the file.
unfoldable pub open_host :
    (parent : List ℕ → List ℕ)
    → (host : List ℕ) → (flags : ℕ) → (rd_only : Bool) → (opened : Option (ℕ × ℕ)) → VfsState
    → Option ℕ × VfsState
open_host parent host flags rd_only opened s =
    let made =
      if has_flag flags create_flag then creates_directories (parent host) ∷ s.calls else s.calls in
    let t = record s { calls = opens host (flag_mode flags rd_only) ∷ made } in
    elim opened [
      | none ↦ (none, t)
      | some (fp, size) ↦
          let f : OpenFile = record { fp = fp; size = size; rd_only = rd_only } in
          (some t.next_fd, record t { next_fd = t.next_fd + 1; files = insert t.next_fd f t.files })
    ]

-- Open; INVALID_FD is none.
unfoldable pub open_file :
    (parent : List ℕ → List ℕ)
    → (guest : List ℕ) → (flags : ℕ) → (opened : Option (ℕ × ℕ)) → VfsState
    → Option ℕ × VfsState
open_file parent guest flags opened s =
    let rd_only = read_only_in (normalise guest) s.mounts in
    elim (resolve guest s) [
      | none ↦ (none, s)
      | some host ↦
          if rd_only && has_flag flags write_flag
          then (none, s)
          else open_host parent host flags rd_only opened s
    ]

unfoldable pub close_file : ℕ → VfsState → Bool × VfsState
close_file fd s = elim (lookup fd s.files) [
  | none ↦ (false, s)
  | some f ↦ (true, record s { files = erase fd s.files; calls = closes f.fp ∷ s.calls })
]

-- Read, Seek and Tell give what the host answers, or -1, which is none.
unfoldable pub read_file : ℕ → (answer : ℕ) → VfsState → Option ℕ
read_file fd answer s = elim (lookup fd s.files) [ none ↦ none | some f ↦ some answer ]

unfoldable pub write_file : ℕ → List ℕ → (answer : ℕ) → VfsState → Option ℕ × VfsState
write_file fd bytes answer s = elim (lookup fd s.files) [
  | none ↦ (none, s)
  | some f ↦
      if f.rd_only
      then (none, s)
      else (some answer, record s { calls = writes f.fp bytes ∷ s.calls })
]

unfoldable pub size_of_file : ℕ → VfsState → Option ℕ
size_of_file fd s = elim (lookup fd s.files) [ none ↦ none | some f ↦ some f.size ]

unfoldable pub flush_file : ℕ → (flushed : Bool) → VfsState → Bool
flush_file fd flushed s = elim (lookup fd s.files) [ none ↦ false | some f ↦ flushed ]

unfoldable pub make_dir : List ℕ → (recursive answer : Bool) → VfsState → Bool × VfsState
make_dir guest recursive answer s = elim (resolve guest s) [
  | none ↦ (false, s)
  | some h ↦
      let call = if recursive then creates_directories h else creates_directory h in
      (answer, record s { calls = call ∷ s.calls })
]

unfoldable pub remove : List ℕ → (answer : Bool) → VfsState → Bool × VfsState
remove guest answer s = elim (resolve guest s) [
  | none ↦ (false, s)
  | some h ↦ (answer, record s { calls = removes h ∷ s.calls })
]

unfoldable pub rename : (from to : List ℕ) → (answer : Bool) → VfsState → Bool × VfsState
rename from to answer s = elim (resolve from s) [
  | none ↦ (false, s)
  | some f ↦ elim (resolve to s) [
    | none ↦ (false, s)
    | some t ↦ (answer, record s { calls = renames f t ∷ s.calls })
  ]
]

unfoldable pub exists_file : List ℕ → (host : List ℕ → Bool) → VfsState → Bool
exists_file guest host s = elim (resolve guest s) [ none ↦ false | some h ↦ host h ]

-- EnsureSaveDir.
unfoldable pub ensure_save_dir : List ℕ → (answer : Bool) → VfsState → List ℕ × VfsState
ensure_save_dir title answer s =
    let guest = mount_prefix 1 ++ (47 ∷ title) in (guest, (make_dir guest true answer s).1)

-- CreateTempFile: the mount that it makes, and the file; `tmp_dir` is the host's directory for it,
-- `tmp_name` the name with a number for an empty one.
unfoldable pub with_temp : List ℕ → VfsState → VfsState
with_temp tmp_dir s =
    let m = get_mount 3 s.mounts in
    let e : MountEntry = record {
      prefix = mount_prefix 3;
      host_path = tmp_dir;
      valid = true;
      read_only = false;
    } in
    if m.valid
    then s
    else record s { mounts = set_mount 3 e s.mounts; calls = creates_directories tmp_dir ∷ s.calls }

unfoldable pub create_temp_file : (name tmp_name tmp_dir : List ℕ) → VfsState → List ℕ × VfsState
create_temp_file name tmp_name tmp_dir s =
    let t = with_temp tmp_dir s in
    let text : List ℕ = elim name [ [] ↦ tmp_name | c ∷ cs ↦ c ∷ cs ] in
    let guest = mount_prefix 3 ++ (47 ∷ text) in
    (
      guest,
      elim (resolve guest t) [ none ↦ t | some h ↦ record t { calls = opens h wb ∷ t.calls } ],
    )

unfoldable pub get_open_file_count : VfsState → ℕ
get_open_file_count s = length s.files

-- The trace: TraceEvent, GetTrace and ClearTrace. An event and its path are one value.
pub record FsTraceState {ℓ} (E : Type ℓ) : Type ℓ where
  pub enabled : Bool
  pub entries : List E

unfoldable pub trace_event {ℓ} : {E : Type ℓ} → E → FsTraceState E → FsTraceState E
trace_event e s =
    if s.enabled
    then record s {
      entries = (if leb 65536 (length s.entries) then drop 1 s.entries else s.entries) ++ (e ∷ []);
    }
    else s

unfoldable pub get_trace {ℓ} : {E : Type ℓ} → ℕ → FsTraceState E → List E
get_trace max_entries s =
    let n = min max_entries (length s.entries) in drop (length s.entries - n) s.entries
