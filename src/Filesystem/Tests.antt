-- ===== src/Filesystem/Tests.antt =====
-- The theorems at a table with a read-only and a writable mount.
use ps5x_windows.Base.{
  ℕ, ◌≡◌, refl, none, some, List, [], ◌∷◌, true, false, arith, if◌then◌else◌, All,
}
use ps5x_windows.Filesystem.Paths.{
  slash, same, starts_with, segments, pop_back, add_segment, collect_parts, join_parts, normalise,
  has_filename, append_path, is_under, drop_slash, relative, host_path_of,
}
use ps5x_windows.Filesystem.Mounts.{
  VfsState, mount_prefix, no_mounts, init, set_mount, get_mount, mount, is_read_only, resolve_in,
  resolve,
}
use ps5x_windows.Filesystem.Files.{write_flag, has_flag, open_file, write_file}
use ps5x_windows.Filesystem.Normal.{IsPart, normalise-IsPart}
use ps5x_windows.Filesystem.Table.{Call, mounts_at, call, calls}
use ps5x_windows.Filesystem.Below.{descend, resolve-descend}
use ps5x_windows.Filesystem.ReadOnly.{open_file-read_only}

-- "/app0//x/../y"
abbrev climbing : List ℕ
climbing = 47 ∷ 97 ∷ 112 ∷ 112 ∷ 48 ∷ 47 ∷ 47 ∷ 120 ∷ 47 ∷ 46 ∷ 46 ∷ 47 ∷ 121 ∷ []

abbrev fresh : VfsState
fresh = record { mounts = no_mounts; files = []; next_fd = 1; calls = [] }

-- "/g" mounted read-only as /app0, and "/t" as /temp.
abbrev mounting : List Call
mounting =
    mounts_at 0 (47 ∷ 103 ∷ []) true true true ∷ mounts_at 3 (47 ∷ 116 ∷ []) false true true ∷ []

abbrev whole_parent : List ℕ → List ℕ
whole_parent path = path

normalise-IsPart_example :
    (ps : List (List ℕ)) × (normalise climbing ≡ slash ∷ join_parts ps)
    × All IsPart ps
    × (normalise (normalise climbing) ≡ normalise climbing)
normalise-IsPart_example = normalise-IsPart climbing

climbing_resolves :
    resolve climbing (calls whole_parent mounting (init fresh)) ≡ some (47 ∷ 103 ∷ 47 ∷ 121 ∷ [])
unfolding resolve calls call init mount set_mount resolve_in normalise collect_parts add_segment
    segments pop_back join_parts same is_under starts_with host_path_of relative drop_slash
    append_path has_filename mount_prefix
climbing_resolves = refl

resolve-descend_example :
    (i : ℕ) × (qs : List (List ℕ)) × ((get_mount i
        (calls whole_parent mounting (init fresh)).mounts).valid
      ≡ true)
    × All IsPart qs
    × (normalise climbing ≡ join_parts (mount_prefix i ∷ qs))
    × (47 ∷ 103 ∷ 47 ∷ 121 ∷ []
        ≡ descend (get_mount i (calls whole_parent mounting (init fresh)).mounts).host_path qs)
resolve-descend_example =
    resolve-descend whole_parent mounting fresh climbing (47 ∷ 103 ∷ 47 ∷ 121 ∷ [])
      climbing_resolves

app_mount :
    ((get_mount 0 (calls whole_parent mounting (init fresh)).mounts).valid ≡ true)
    × (is_read_only 0 (calls whole_parent mounting (init fresh)) ≡ true)
    × (is_under (normalise climbing) (mount_prefix 0) ≡ true)
unfolding get_mount is_read_only calls call init mount set_mount normalise collect_parts add_segment
    segments pop_back join_parts same is_under starts_with mount_prefix
app_mount = (refl, refl, refl)

open_file-read_only_example :
    (u : VfsState) × (open_file whole_parent climbing 1
        (some (77, 5))
        (calls whole_parent mounting (init fresh))
      ≡ (if has_flag 1 write_flag
          then (none, calls whole_parent mounting (init fresh))
          else (some (calls whole_parent mounting (init fresh)).next_fd, u)))
    × (write_file (calls whole_parent mounting (init fresh)).next_fd (1 ∷ []) 1 u ≡ (none, u))
open_file-read_only_example =
    open_file-read_only whole_parent mounting fresh 0 1 77 5 1 climbing (1 ∷ []) (omega arith)
      app_mount.0 app_mount.1 app_mount.2
