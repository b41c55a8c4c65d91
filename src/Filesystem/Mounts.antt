-- ===== src/Filesystem/Mounts.antt =====
-- The table of mounts and the open files' table: Init, Shutdown, Mount, Unmount and ResolveImpl.
use ps5x_windows.Base.{
  ℕ, zero, suc, Option, none, some, List, [], ◌∷◌, Bool, true, false, not, ◌&&◌, ◌||◌, leb,
  if◌then◌else◌,
}
use ps5x_windows.Filesystem.Paths.{normalise, is_under, host_path_of, starts_with}

pub record MountEntry : Type 0 where
  pub prefix : List ℕ
  pub host_path : List ℕ
  pub valid : Bool
  pub read_only : Bool

-- An open file; the host's FILE is a number.
pub record OpenFile : Type 0 where
  pub fp : ℕ
  pub size : ℕ
  pub rd_only : Bool

-- FlagMode's answers.
pub data Mode : Type 0 where
  rb wb ab r_plus_b : Mode

-- What the host is asked to change.
pub data HostCall : Type 0 where
  creates_directories : List ℕ → HostCall
  creates_directory : List ℕ → HostCall
  opens : List ℕ → Mode → HostCall
  writes : ℕ → List ℕ → HostCall
  removes : List ℕ → HostCall
  renames : List ℕ → List ℕ → HostCall
  closes : ℕ → HostCall

-- VfsState; `calls` has the calls of the host that were made, the last first.
pub record VfsState : Type 0 where
  pub mounts : List MountEntry
  pub files : List (ℕ × OpenFile)
  pub next_fd : ℕ
  pub calls : List HostCall

-- kMountPrefix.
unfoldable pub mount_prefix : ℕ → List ℕ
mount_prefix zero = 47 ∷ 97 ∷ 112 ∷ 112 ∷ 48 ∷ []
mount_prefix (suc zero) = 47 ∷ 115 ∷ 97 ∷ 118 ∷ 101 ∷ 100 ∷ 97 ∷ 116 ∷ 97 ∷ []
mount_prefix (suc (suc zero)) = 47 ∷ 115 ∷ 121 ∷ 115 ∷ 116 ∷ 101 ∷ 109 ∷ []
mount_prefix (suc (suc (suc zero))) = 47 ∷ 116 ∷ 101 ∷ 109 ∷ 112 ∷ []
mount_prefix (suc (suc (suc (suc zero)))) = 47 ∷ 117 ∷ 115 ∷ 101 ∷ 114 ∷ []
mount_prefix (suc (suc (suc (suc (suc n))))) = 47 ∷ 104 ∷ 111 ∷ 115 ∷ 116 ∷ 97 ∷ 112 ∷ 112 ∷ []

-- A MountEntry{}, and six of them.
abbrev pub no_mount : MountEntry
no_mount = record { prefix = []; host_path = []; valid = false; read_only = false }

abbrev pub no_mounts : List MountEntry
no_mounts = no_mount ∷ no_mount ∷ no_mount ∷ no_mount ∷ no_mount ∷ no_mount ∷ []

unfoldable pub init : VfsState → VfsState
init s = record s { mounts = no_mounts; files = []; next_fd = 1 }

unfoldable pub close_all : List (ℕ × OpenFile) → List HostCall → List HostCall
close_all [] calls = calls
close_all ((fd, f) ∷ fs) calls = close_all fs (closes f.fp ∷ calls)

unfoldable pub shutdown : VfsState → VfsState
shutdown s = record s { mounts = no_mounts; files = []; calls = close_all s.files s.calls }

unfoldable pub set_mount : ℕ → MountEntry → List MountEntry → List MountEntry
set_mount i e [] = []
set_mount zero e (m ∷ ms) = e ∷ ms
set_mount (suc i) e (m ∷ ms) = m ∷ set_mount i e ms

unfoldable pub get_mount : ℕ → List MountEntry → MountEntry
get_mount i [] = no_mount
get_mount zero (m ∷ ms) = m
get_mount (suc i) (m ∷ ms) = get_mount i ms

-- Mount; `exists` and `created` are the host's answers on its path.
unfoldable pub mount :
    (mp : ℕ) → (host_path : List ℕ) → (read_only exists created : Bool) → VfsState → Bool × VfsState
mount mp host_path read_only exists created s =
    let e : MountEntry = record {
      prefix = mount_prefix mp;
      host_path = host_path;
      valid = true;
      read_only = read_only;
    } in
    let t = if exists then s else record s { calls = creates_directories host_path ∷ s.calls } in
    if leb 6 mp
    then (false, s)
    else if exists || created
    then (true, record t { mounts = set_mount mp e t.mounts })
    else (false, t)

unfoldable pub unmount : ℕ → VfsState → Bool × VfsState
unmount mp s =
    if leb 6 mp then (false, s) else (true, record s { mounts = set_mount mp no_mount s.mounts })

unfoldable pub is_mounted : ℕ → VfsState → Bool
is_mounted mp s = if leb 6 mp then false else (get_mount mp s.mounts).valid

unfoldable pub get_host_path : ℕ → VfsState → Option (List ℕ)
get_host_path mp s =
    let m = get_mount mp s.mounts in
    if leb 6 mp then none else if m.valid then some m.host_path else none

unfoldable pub is_read_only : ℕ → VfsState → Bool
is_read_only mp s = if leb 6 mp then true else (get_mount mp s.mounts).read_only

-- The loop of ResolveImpl on a normalised path.
unfoldable pub resolve_in : List ℕ → List MountEntry → Option (List ℕ)
resolve_in guest [] = none
resolve_in guest (m ∷ ms) =
    let rest = resolve_in guest ms in
    if not m.valid
    then rest
    else if is_under guest m.prefix
    then some (host_path_of guest m.prefix m.host_path)
    else rest

unfoldable pub resolve : List ℕ → VfsState → Option (List ℕ)
resolve guest s = resolve_in (normalise guest) s.mounts

-- The loop of Open that looks for the mount's flag.
unfoldable pub read_only_in : List ℕ → List MountEntry → Bool
read_only_in guest [] = false
read_only_in guest (m ∷ ms) =
    let rest = read_only_in guest ms in
    if m.valid && starts_with guest m.prefix then m.read_only else rest
