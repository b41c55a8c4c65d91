-- ===== src/Filesystem/ReadOnly.antt =====
-- Files on a read-only mount.
use ps5x_windows.Base.{
  ℕ, zero, suc, ◌+◌, ◌<◌, ◌≡◌, refl, sym, ap, ◌∙◌, none, some, List, [], ◌∷◌, ◌++◌, Bool, true,
  false, not, ◌==◌, ==_refl, leb, ◌||◌, ◌&&◌, lookup, lookup-insert, arith, Bool-cases, inl, inr,
  if◌then◌else◌, holds_upto, holds_at,
}
use ps5x_windows.Filesystem.Paths.{slash, same, starts_with, normalise, is_under, host_path_of}
use ps5x_windows.Filesystem.Mounts.{
  MountEntry, OpenFile, VfsState, mount_prefix, init, get_mount, is_read_only, resolve_in, resolve,
  read_only_in,
}
use ps5x_windows.Filesystem.Files.{write_flag, has_flag, open_host, open_file, write_file}
use ps5x_windows.Filesystem.Normal.{same_eq}
use ps5x_windows.Filesystem.Table.{HasPrefixes, Call, calls, calls-HasPrefixes}

-- Whether one of two lists is a beginning of the other.
comparable : List ℕ → List ℕ → Bool
comparable [] ys = true
comparable (x ∷ xs) [] = true
comparable (x ∷ xs) (y ∷ ys) = x == y && comparable xs ys

starts_with-comparable :
    (g p q : List ℕ) → starts_with g p ≡ true → starts_with g q ≡ true → comparable p q ≡ true
unfolding starts_with comparable
starts_with-comparable g [] q h k = refl
starts_with-comparable g (x ∷ p) [] h k = refl
starts_with-comparable [] (x ∷ p) (y ∷ q) h k = absurd (ground arith)
starts_with-comparable (c ∷ g) (x ∷ p) (y ∷ q) h k =
    let rest = starts_with-comparable g p q (ground arith) (ground arith) in ground arith

apart : ℕ → ℕ → Bool
apart i j = i == j || not (comparable (mount_prefix i) (mount_prefix j))

apart_from : ℕ → Bool
apart_from i = holds_upto (apart i) 6

all_apart : holds_upto apart_from 6 ≡ true
unfolding holds_upto apart_from apart comparable mount_prefix
all_apart = refl

-- No prefix of a mount begins another.
prefixes_apart :
    (g : List ℕ) (i j : ℕ)
    → i < 6
    → j < 6
    → starts_with g (mount_prefix i) ≡ true
    → starts_with g (mount_prefix j) ≡ true
    → i ≡ j
unfolding apart apart_from
prefixes_apart g i j p q h k =
    let c = starts_with-comparable g (mount_prefix i) (mount_prefix j) h k in
    let a : apart i j ≡ true = holds_at (apart i) 6 j q (holds_at apart_from 6 i p all_apart) in
    ground (arith, a)

starts_with-append : (g p rest : List ℕ) → starts_with g (p ++ rest) ≡ true → starts_with g p ≡ true
unfolding starts_with
starts_with-append g [] rest h = refl
starts_with-append [] (x ∷ p) rest h = absurd (ground arith)
starts_with-append (c ∷ g) (x ∷ p) rest h =
    let more = starts_with-append g p rest (ground arith) in ground arith

starts_with_refl : (p : List ℕ) → starts_with p p ≡ true
unfolding starts_with
starts_with_refl [] = refl
starts_with_refl (x ∷ p) = rw (==_refl x) (starts_with_refl p)

is_under-starts_with : (g p : List ℕ) → is_under g p ≡ true → starts_with g p ≡ true
unfolding is_under
is_under-starts_with g p h = elim (Bool-cases (same g p)) [
  | inl equal ↦ rw (same_eq g p equal) (starts_with_refl p)
  | inr longer ↦ starts_with-append g p (slash ∷ []) (ground arith)
]

-- The flag that Open finds is that of the mount whose prefix the path has.
read_only_in_lem :
    (k i : ℕ) (g : List ℕ) (ms : List MountEntry)
    → k + i < 6
    → HasPrefixes k ms
    → (get_mount i ms).valid ≡ true
    → starts_with g (mount_prefix (k + i)) ≡ true
    → read_only_in g ms ≡ (get_mount i ms).read_only
unfolding read_only_in get_mount
read_only_in_lem k i g [] within p valid h = absurd (ground arith)
read_only_in_lem k zero g (m ∷ ms) within p valid h =
    let place : mount_prefix (k + 0) ≡ mount_prefix k = ap mount_prefix (omega arith) in
    let begins : starts_with g m.prefix ≡ true = ap (starts_with g) (p.0 valid ∙ sym place) ∙ h in
    rw (valid, begins) refl
read_only_in_lem k (suc i) g (m ∷ ms) within p valid h =
    let place : mount_prefix (k + suc i) ≡ mount_prefix (suc k + i) =
      ap mount_prefix (omega arith) in
    let rest =
      read_only_in_lem (suc k) i g ms (omega arith) p.1 valid
        (ap (starts_with g) (sym place) ∙ h) in
    elim (Bool-cases (m.valid && starts_with g m.prefix)) [
      | inl first ↦
          let at_k : starts_with g (mount_prefix k) ≡ true =
            ap (starts_with g) (sym (p.0 (ground arith))) ∙ ground arith in
          let same_place = prefixes_apart g k (k + suc i) (omega arith) within at_k h in
          absurd (omega (arith, same_place))
      | inr later ↦ rw later rest
    ]

-- A path under a valid mount resolves.
resolve_in_lem :
    (k i : ℕ) (g : List ℕ) (ms : List MountEntry)
    → HasPrefixes k ms
    → (get_mount i ms).valid ≡ true
    → is_under g (mount_prefix (k + i)) ≡ true
    → (h : List ℕ) × (resolve_in g ms ≡ some h)
unfolding resolve_in get_mount
resolve_in_lem k i g [] p valid u = absurd (ground arith)
resolve_in_lem k zero g (m ∷ ms) p valid u =
    let place : mount_prefix (k + 0) ≡ mount_prefix k = ap mount_prefix (omega arith) in
    let covers : is_under g m.prefix ≡ true = ap (is_under g) (p.0 valid ∙ sym place) ∙ u in
    (host_path_of g m.prefix m.host_path, rw (valid, covers) refl)
resolve_in_lem k (suc i) g (m ∷ ms) p valid u =
    let place : mount_prefix (k + suc i) ≡ mount_prefix (suc k + i) =
      ap mount_prefix (omega arith) in
    let (h, e) = resolve_in_lem (suc k) i g ms p.1 valid (ap (is_under g) (sym place) ∙ u) in
    elim (Bool-cases (m.valid && is_under g m.prefix)) [
      | inl first ↦ (host_path_of g m.prefix m.host_path, ground arith)
      | inr later ↦ (h, ground (arith, e))
    ]

-- Whatever the history since Init: under a valid read-only mount, Open with the Write flag is
-- refused before the host is asked for anything, and changes nothing; Open with other flags, where
-- the host opens the file, gives the next handle, and a Write to that handle is refused and
-- changes nothing.
pub open_file-read_only :
    (parent : List ℕ → List ℕ) (cs : List Call) (s : VfsState) (i flags fp size answer : ℕ)
    (guest bytes : List ℕ)
    → i < 6
    → (get_mount i (calls parent cs (init s)).mounts).valid ≡ true
    → is_read_only i (calls parent cs (init s)) ≡ true
    → is_under (normalise guest) (mount_prefix i) ≡ true
    → (u : VfsState) × (open_file parent guest flags (some (fp, size)) (calls parent cs (init s))
        ≡ (if has_flag flags write_flag
            then (none, calls parent cs (init s))
            else (some (calls parent cs (init s)).next_fd, u)))
      × (write_file (calls parent cs (init s)).next_fd bytes answer u ≡ (none, u))
unfolding open_file resolve is_read_only open_host write_file
open_file-read_only parent cs s i flags fp size answer guest bytes within valid ro under =
    let t = calls parent cs (init s) in
    let g = normalise guest in
    let p = calls-HasPrefixes parent cs s in
    let place : mount_prefix (0 + i) ≡ mount_prefix i = ap mount_prefix (omega arith) in
    let under_it : is_under g (mount_prefix (0 + i)) ≡ true = ap (is_under g) place ∙ under in
    let (h, found) = resolve_in_lem 0 i g t.mounts p valid under_it in
    let inside : leb 6 i ≡ false = ground arith in
    let flagged : (get_mount i t.mounts).read_only ≡ true = sym (rw inside refl) ∙ ro in
    let only : read_only_in g t.mounts ≡ true =
      read_only_in_lem 0 i g t.mounts (omega arith) p valid
        (is_under-starts_with g (mount_prefix (0 + i)) under_it)
      ∙ flagged in
    let f : OpenFile = record { fp = fp; size = size; rd_only = true } in
    let u = (open_host parent h flags true (some (fp, size)) t).1 in
    let stored : lookup t.next_fd u.files ≡ some f =
      lookup-insert t.next_fd t.next_fd f t.files ∙ ground arith in
    (u, rw (open_file, found, only) refl, rw (write_file, stored) refl)
