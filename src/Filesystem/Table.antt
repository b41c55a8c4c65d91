-- ===== src/Filesystem/Table.antt =====
-- What every history of calls keeps of the table of mounts.
use ps5x_windows.Base.{
  ℕ, zero, suc, ◌+◌, ◌≡◌, refl, ap, ◌∙◌, Option, none, some, List, [], ◌∷◌, Bool, true, false, leb,
  ◌&&◌, arith, Bool-cases, Option-cases, inl, inr,
}
use ps5x_windows.Filesystem.Paths.{normalise}
use ps5x_windows.Filesystem.Mounts.{
  MountEntry, VfsState, mount_prefix, no_mount, no_mounts, init, shutdown, set_mount, get_mount,
  mount, unmount, resolve, read_only_in,
}
use ps5x_windows.Filesystem.Files.{
  write_flag, has_flag, open_host, open_file, close_file, write_file, with_temp, create_temp_file,
}

-- Every mount that is valid has the prefix of its place; the first has place `i`.
abbrev pub HasPrefixes : ℕ → List MountEntry → Type 0
HasPrefixes i [] = Unit
HasPrefixes i (m ∷ ms) = (m.valid ≡ true → m.prefix ≡ mount_prefix i) × HasPrefixes (suc i) ms

pub data Call : Type 0 where
  mounts_at : (mp : ℕ) (host_path : List ℕ) (read_only exists created : Bool) → Call
  unmounts : (mp : ℕ) → Call
  makes_temp : (name tmp_name tmp_dir : List ℕ) → Call
  opens_file : (guest : List ℕ) (flags : ℕ) (opened : Option (ℕ × ℕ)) → Call
  closes_file : (fd : ℕ) → Call
  writes_file : (fd : ℕ) (bytes : List ℕ) (answer : ℕ) → Call
  restarts : Call

unfoldable pub call : (List ℕ → List ℕ) → Call → VfsState → VfsState
call parent (mounts_at mp host_path read_only exists created) s =
    (mount mp host_path read_only exists created s).1
call parent (unmounts mp) s = (unmount mp s).1
call parent (makes_temp name tmp_name tmp_dir) s = (create_temp_file name tmp_name tmp_dir s).1
call parent (opens_file guest flags opened) s = (open_file parent guest flags opened s).1
call parent (closes_file fd) s = (close_file fd s).1
call parent (writes_file fd bytes answer) s = (write_file fd bytes answer s).1
call parent restarts s = init (shutdown s)

unfoldable pub calls : (List ℕ → List ℕ) → List Call → VfsState → VfsState
calls parent [] s = s
calls parent (c ∷ cs) s = calls parent cs (call parent c s)

set_mount-HasPrefixes :
    (i k j : ℕ) (e : MountEntry) (ms : List MountEntry)
    → j ≡ k + i
    → (e.valid ≡ true → e.prefix ≡ mount_prefix j)
    → HasPrefixes k ms
    → HasPrefixes k (set_mount i e ms)
unfolding set_mount
set_mount-HasPrefixes i k j e [] at h v = tt
set_mount-HasPrefixes zero k j e (m ∷ ms) at h v =
    let same : j ≡ k = omega (arith, at) in ((λ valid. h valid ∙ ap mount_prefix same), v.1)
set_mount-HasPrefixes (suc i) k j e (m ∷ ms) at h v =
    (v.0, set_mount-HasPrefixes i (suc k) j e ms (omega (arith, at)) h v.1)

no_mounts-HasPrefixes : HasPrefixes 0 no_mounts
no_mounts-HasPrefixes =
    let free : (k : ℕ) → false ≡ true → [] ≡ mount_prefix k = λ k h. absurd (ground arith) in
    (free 0, (free 1, (free 2, (free 3, (free 4, (free 5, tt))))))

mount-HasPrefixes :
    (mp : ℕ) (host_path : List ℕ) (read_only exists created : Bool) (s : VfsState)
    → HasPrefixes 0 s.mounts
    → HasPrefixes 0 (mount mp host_path read_only exists created s).1.mounts
unfolding mount
mount-HasPrefixes mp host_path read_only exists created s v =
    let e : MountEntry = record {
      prefix = mount_prefix mp;
      host_path = host_path;
      valid = true;
      read_only = read_only;
    } in
    let w = set_mount-HasPrefixes mp 0 mp e s.mounts (omega arith) (λ h. refl) v in
    elim (Bool-cases (leb 6 mp)) [
      | inl beyond ↦ rw beyond v
      | inr within ↦ elim (Bool-cases exists) [
        | inl there ↦ rw (within, there) w
        | inr absent ↦ elim (Bool-cases created) [
          | inl made ↦ rw (within, absent, made) w
          | inr failed ↦ rw (within, absent, failed) v
        ]
      ]
    ]

unmount-HasPrefixes :
    (mp : ℕ) (s : VfsState) → HasPrefixes 0 s.mounts → HasPrefixes 0 (unmount mp s).1.mounts
unfolding unmount
unmount-HasPrefixes mp s v =
    let w =
      set_mount-HasPrefixes mp 0 mp no_mount s.mounts (omega arith) (λ h. absurd (ground arith))
        v in
    elim (Bool-cases (leb 6 mp)) [ inl beyond ↦ rw beyond v | inr within ↦ rw within w ]

with_temp-HasPrefixes :
    (tmp_dir : List ℕ) (s : VfsState)
    → HasPrefixes 0 s.mounts
    → HasPrefixes 0 (with_temp tmp_dir s).mounts
unfolding with_temp
with_temp-HasPrefixes tmp_dir s v =
    let e : MountEntry = record {
      prefix = mount_prefix 3;
      host_path = tmp_dir;
      valid = true;
      read_only = false;
    } in
    let w = set_mount-HasPrefixes 3 0 3 e s.mounts (omega arith) (λ h. refl) v in
    elim (Bool-cases (get_mount 3 s.mounts).valid) [
      | inl there ↦ rw there v
      | inr absent ↦ rw absent w
    ]

create_temp_file-mounts :
    (name tmp_name tmp_dir : List ℕ) (s : VfsState)
    → (create_temp_file name tmp_name tmp_dir s).1.mounts ≡ (with_temp tmp_dir s).mounts
unfolding create_temp_file
create_temp_file-mounts name tmp_name tmp_dir s =
    let guest = (create_temp_file name tmp_name tmp_dir s).0 in
    elim (Option-cases (resolve guest (with_temp tmp_dir s))) [
      | inl e ↦ rw (create_temp_file, e) refl
      | inr (h, e) ↦ rw (create_temp_file, e) refl
    ]

open_host-mounts :
    (parent : List ℕ → List ℕ) (host : List ℕ) (flags : ℕ) (rd_only : Bool)
    (opened : Option (ℕ × ℕ)) (s : VfsState)
    → (open_host parent host flags rd_only opened s).1.mounts ≡ s.mounts
unfolding open_host
open_host-mounts parent host flags rd_only none s = refl
open_host-mounts parent host flags rd_only (some (fp, size)) s = refl

open_file-mounts :
    (parent : List ℕ → List ℕ) (guest : List ℕ) (flags : ℕ) (opened : Option (ℕ × ℕ)) (s : VfsState)
    → (open_file parent guest flags opened s).1.mounts ≡ s.mounts
unfolding open_file
open_file-mounts parent guest flags opened s =
    let rd_only = read_only_in (normalise guest) s.mounts in
    elim (Option-cases (resolve guest s)) [
      | inl e ↦ rw (open_file, e) refl
      | inr (h, e) ↦ elim (Bool-cases (rd_only && has_flag flags write_flag)) [
        | inl denied ↦ rw (open_file, e, denied) refl
        | inr granted ↦
            rw (open_file, e, granted) (open_host-mounts parent h flags rd_only opened s)
      ]
    ]

close_file-mounts : (fd : ℕ) (s : VfsState) → (close_file fd s).1.mounts ≡ s.mounts
unfolding close_file
close_file-mounts fd s = ground arith

write_file-mounts :
    (fd : ℕ) (bytes : List ℕ) (answer : ℕ) (s : VfsState)
    → (write_file fd bytes answer s).1.mounts ≡ s.mounts
unfolding write_file
write_file-mounts fd bytes answer s = ground arith

call-HasPrefixes :
    (parent : List ℕ → List ℕ) (c : Call) (s : VfsState)
    → HasPrefixes 0 s.mounts
    → HasPrefixes 0 (call parent c s).mounts
unfolding call init
call-HasPrefixes parent (mounts_at mp host_path read_only exists created) s v =
    mount-HasPrefixes mp host_path read_only exists created s v
call-HasPrefixes parent (unmounts mp) s v = unmount-HasPrefixes mp s v
call-HasPrefixes parent (makes_temp name tmp_name tmp_dir) s v =
    rw (create_temp_file-mounts name tmp_name tmp_dir s) (with_temp-HasPrefixes tmp_dir s v)
call-HasPrefixes parent (opens_file guest flags opened) s v =
    rw (open_file-mounts parent guest flags opened s) v
call-HasPrefixes parent (closes_file fd) s v = rw (close_file-mounts fd s) v
call-HasPrefixes parent (writes_file fd bytes answer) s v =
    rw (write_file-mounts fd bytes answer s) v
call-HasPrefixes parent restarts s v = no_mounts-HasPrefixes

calls_kept :
    (parent : List ℕ → List ℕ) (cs : List Call) (s : VfsState)
    → HasPrefixes 0 s.mounts
    → HasPrefixes 0 (calls parent cs s).mounts
unfolding calls
calls_kept parent [] s v = v
calls_kept parent (c ∷ cs) s v =
    calls_kept parent cs (call parent c s) (call-HasPrefixes parent c s v)

pub calls-HasPrefixes :
    (parent : List ℕ → List ℕ) (cs : List Call) (s : VfsState)
    → HasPrefixes 0 (calls parent cs (init s)).mounts
unfolding init
calls-HasPrefixes parent cs s = calls_kept parent cs (init s) no_mounts-HasPrefixes
