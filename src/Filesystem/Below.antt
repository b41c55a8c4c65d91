-- ===== src/Filesystem/Below.antt =====
-- A resolved path stays below its mount.
use mathlib.Core.Option.{none-ne-some}
use mathlib.Core.List.{append_assoc, append-nil}
use ps5x_windows.Base.{
  ℕ, zero, suc, ◌+◌, ◌≡◌, ◌≢◌, refl, sym, ap, subst, ◌∙◌, some, List, [], ◌∷◌, ◌++◌, Bool, true,
  false, not, ◌==◌, ◌&&◌, length, drop, drop-append, ==_ne, All, arith, Bool-cases, inl, inr,
  if◌then◌else◌,
}
use ps5x_windows.Filesystem.Paths.{
  slash, same, starts_with, join_parts, normalise, has_filename, append_path, is_under, drop_slash,
  relative, host_path_of,
}
use ps5x_windows.Filesystem.Mounts.{
  MountEntry, VfsState, mount_prefix, init, get_mount, resolve_in, resolve,
}
use ps5x_windows.Filesystem.Normal.{
  same_other, same_ne, same_eq, same_other, IsNoSlash, IsPart, parts_of, parts_of-IsPart,
}
use ps5x_windows.Filesystem.Table.{HasPrefixes, Call, calls, calls-HasPrefixes}

-- The host's path after a walk down from a directory, one component at a time.
unfoldable pub descend : List ℕ → List (List ℕ) → List ℕ
descend host [] = host
descend host (p ∷ ps) = descend (append_path host p) ps

has_filename-append :
    (xs : List ℕ) (c : ℕ) (p : List ℕ) → has_filename (xs ++ (c ∷ p)) ≡ has_filename (c ∷ p)
unfolding has_filename
has_filename-append [] c p = refl
has_filename-append (x ∷ []) c p = refl
has_filename-append (x ∷ y ∷ xs) c p = has_filename-append (y ∷ xs) c p

part_is_filename : (c : ℕ) (p : List ℕ) → All IsNoSlash (c ∷ p) → has_filename (c ∷ p) ≡ true
unfolding has_filename
part_is_filename c [] v = rw (==_ne c slash v.0) refl
part_is_filename c (d ∷ p) v = part_is_filename d p v.1

relative_word : (p rest : List ℕ) → IsPart p → starts_with (p ++ rest) (slash ∷ []) ≡ false
unfolding starts_with
relative_word [] rest v = absurd (v.not_empty refl)
relative_word (c ∷ p) rest v = rw (==_ne c slash v.no_slash.0) refl

append_path_lem :
    (host p rest : List ℕ)
    → IsPart p
    → append_path host (p ++ rest)
      ≡ (if has_filename host then host ++ (slash ∷ (p ++ rest)) else host ++ (p ++ rest))
unfolding append_path
append_path_lem host p rest v = rw (relative_word p rest v) refl

ends_in_part : (host p : List ℕ) → IsPart p → has_filename (append_path host p) ≡ true
unfolding append_path starts_with
ends_in_part host [] v = absurd (v.not_empty refl)
ends_in_part host (c ∷ p) v =
    let name = part_is_filename c p v.no_slash in
    elim (Bool-cases (has_filename host)) [
      | inl file ↦
          rw (append_path, ==_ne c slash v.no_slash.0, file)
            (ap has_filename (sym (append_assoc host (slash ∷ []) (c ∷ p)))
              ∙ has_filename-append (host ++ (slash ∷ [])) c p
              ∙ name)
      | inr folder ↦
          rw (append_path, ==_ne c slash v.no_slash.0, folder) (has_filename-append host c p ∙ name)
    ]

append_path_alone :
    (host p : List ℕ)
    → IsPart p
    → append_path host p ≡ (if has_filename host then host ++ (slash ∷ p) else host ++ p)
unfolding append_path starts_with
append_path_alone host [] v = absurd (v.not_empty refl)
append_path_alone host (c ∷ p) v = rw (==_ne c slash v.no_slash.0) refl

append_path_file :
    (x rest : List ℕ)
    → starts_with rest (slash ∷ []) ≡ false
    → has_filename x ≡ true
    → append_path x rest ≡ x ++ (slash ∷ rest)
unfolding append_path
append_path_file x rest r f = rw (r, f) refl

joined_twice :
    (b : Bool) (host p rest : List ℕ)
    → (if b then host ++ (slash ∷ (p ++ rest)) else host ++ (p ++ rest))
      ≡ (if b then host ++ (slash ∷ p) else host ++ p) ++ rest
joined_twice true host p rest = sym (append_assoc host (slash ∷ p) rest)
joined_twice false host p rest = sym (append_assoc host p rest)

-- A component and a relative path behind it can be appended one after the other.
append_path-append :
    (host p rest : List ℕ)
    → IsPart p
    → starts_with rest (slash ∷ []) ≡ false
    → append_path host (p ++ (slash ∷ rest)) ≡ append_path (append_path host p) rest
append_path-append host p rest v r =
    append_path_lem host p (slash ∷ rest) v
    ∙ joined_twice (has_filename host) host p (slash ∷ rest)
    ∙ ap (λ x. x ++ (slash ∷ rest)) (sym (append_path_alone host p v))
    ∙ sym (append_path_file (append_path host p) rest r (ends_in_part host p v))

join_parts_relative :
    (p : List ℕ) (ps : List (List ℕ))
    → All IsPart (p ∷ ps)
    → starts_with (join_parts (p ∷ ps)) (slash ∷ []) ≡ false
unfolding join_parts
join_parts_relative p [] v =
    ap (λ x. starts_with x (slash ∷ [])) (sym (append-nil p)) ∙ relative_word p [] v.0
join_parts_relative p (q ∷ ps) v = relative_word p (slash ∷ join_parts (q ∷ ps)) v.0

append_path-join_parts :
    (host p : List ℕ) (ps : List (List ℕ))
    → All IsPart (p ∷ ps)
    → append_path host (join_parts (p ∷ ps)) ≡ descend host (p ∷ ps)
unfolding join_parts descend
append_path-join_parts host p [] v = refl
append_path-join_parts host p (q ∷ ps) v =
    append_path-append host p (join_parts (q ∷ ps)) v.0 (join_parts_relative q ps v.1)
    ∙ append_path-join_parts (append_path host p) q ps v.1

joined_empty : (q : List ℕ) (qs : List (List ℕ)) → All IsPart (q ∷ qs) → join_parts (q ∷ qs) ≢ []
unfolding join_parts
joined_empty [] qs v e = v.0.not_empty refl
joined_empty (c ∷ q) [] v e = v.0.not_empty e
joined_empty (c ∷ q) (r ∷ qs) v e = let size = ap length e in absurd (omega (arith, size))

-- The first component of a path, from what stands in front of its first slash.
word_first :
    (p name rest : List ℕ)
    → All IsNoSlash p
    → All IsNoSlash name
    → starts_with (p ++ (slash ∷ rest)) (name ++ (slash ∷ [])) ≡ true
    → p ≡ name
unfolding starts_with
word_first [] [] rest v w h = refl
word_first [] (n ∷ name) rest v w h = absurd (w.0 (ground arith))
word_first (c ∷ p) [] rest v w h = absurd (v.0 (ground arith))
word_first (c ∷ p) (n ∷ name) rest v w h =
    let e : c ≡ n = ground arith in
    let f = word_first p name rest v.1 w.1 (ground arith) in rw (e, f) refl

word_alone : (p name : List ℕ) → All IsNoSlash p → starts_with p (name ++ (slash ∷ [])) ≡ false
unfolding starts_with
word_alone [] [] v = refl
word_alone [] (n ∷ name) v = refl
word_alone (c ∷ p) [] v = rw (==_ne c slash v.0) refl
word_alone (c ∷ p) (n ∷ name) v = let rest = word_alone p name v.1 in ground arith

slash_inside : (p rest : List ℕ) → All IsNoSlash (p ++ (slash ∷ rest)) → ⊥
slash_inside [] rest v = v.0 refl
slash_inside (c ∷ p) rest v = slash_inside p rest v.1

under_parts :
    (ps : List (List ℕ)) (name : List ℕ)
    → All IsPart ps
    → All IsNoSlash name
    → name ≢ []
    → is_under (slash ∷ join_parts ps) (slash ∷ name) ≡ true
    → (qs : List (List ℕ)) × (ps ≡ name ∷ qs) × All IsPart qs
unfolding is_under join_parts same starts_with
under_parts [] [] v w n h = absurd (n refl)
under_parts [] (c ∷ name) v w n h = absurd (ground arith)
under_parts (p ∷ []) name v w n h =
    let alone = word_alone p name v.0.no_slash in
    let e : p ≡ name = same_eq p name (ground arith) in ([], rw e refl, tt)
under_parts (p ∷ q ∷ ps) name v w n h =
    let rest = join_parts (q ∷ ps) in
    elim (Bool-cases (same (p ++ (slash ∷ rest)) name)) [
      | inl equal ↦ absurd (
          slash_inside p rest
            (subst (All IsNoSlash) (sym (same_eq (p ++ (slash ∷ rest)) name equal)) w))
      | inr longer ↦
          let e : p ≡ name = word_first p name rest v.0.no_slash w (ground arith) in
          (q ∷ ps, rw e refl, v.1)
    ]

-- The host's path of a guest path whose first component is the mount's.
host_path_of-join_parts :
    (name host : List ℕ) (qs : List (List ℕ))
    → All IsPart qs
    → host_path_of (slash ∷ join_parts (name ∷ qs)) (slash ∷ name) host ≡ descend host qs
unfolding host_path_of relative join_parts descend drop_slash same
host_path_of-join_parts name host [] v =
    let none_left : drop (length name) name ≡ [] =
      ap (drop (length name)) (sym (append-nil name)) ∙ drop-append name [] in
    rw none_left refl
host_path_of-join_parts name host (q ∷ qs) v =
    let rest = join_parts (q ∷ qs) in
    let behind = drop-append name (slash ∷ rest) in
    let some_left : same rest [] ≡ false = same_ne rest [] (λ e. joined_empty q qs v e) in
    rw (behind, some_left) (append_path-join_parts host q qs v)

no_slash_in : List ℕ → Bool
no_slash_in [] = true
no_slash_in (c ∷ cs) = not (c == slash) && no_slash_in cs

no_slash_in_lem : (p : List ℕ) → no_slash_in p ≡ true → All IsNoSlash p
unfolding no_slash_in
no_slash_in_lem [] h = tt
no_slash_in_lem (c ∷ p) h =
    let first : (c == slash) ≡ false = ground arith in
    (
      λ e. let again : (c == slash) ≡ true = rw e refl in absurd (ground arith),
      no_slash_in_lem p (ground arith),
    )

-- A prefix of kMountPrefix is a slash and one component.
prefix_test :
    (k : ℕ)
    → (mount_prefix k ≡ slash ∷ drop 1 (mount_prefix k))
      × (no_slash_in (drop 1 (mount_prefix k)) ≡ true)
      × (same (drop 1 (mount_prefix k)) [] ≡ false)
unfolding mount_prefix no_slash_in same
prefix_test zero = (refl, refl, refl)
prefix_test (suc zero) = (refl, refl, refl)
prefix_test (suc (suc zero)) = (refl, refl, refl)
prefix_test (suc (suc (suc zero))) = (refl, refl, refl)
prefix_test (suc (suc (suc (suc zero)))) = (refl, refl, refl)
prefix_test (suc (suc (suc (suc (suc k))))) = (refl, refl, refl)

prefix_word :
    (k : ℕ) → (name : List ℕ) × (mount_prefix k ≡ slash ∷ name) × All IsNoSlash name × (name ≢ [])
prefix_word k =
    let name = drop 1 (mount_prefix k) in
    let (is, free, some_left) = prefix_test k in
    (name, is, no_slash_in_lem name free, same_other name [] some_left)

-- Where a mount's prefix covers a normalised path, the host's path is a walk down from the mount.
covered_lem :
    (k : ℕ) (host : List ℕ) (ps : List (List ℕ))
    → All IsPart ps
    → is_under (slash ∷ join_parts ps) (mount_prefix k) ≡ true
    → (qs : List (List ℕ)) × All IsPart qs
      × (slash ∷ join_parts ps ≡ join_parts (mount_prefix k ∷ qs))
      × (host_path_of (slash ∷ join_parts ps) (mount_prefix k) host ≡ descend host qs)
unfolding join_parts
covered_lem k host ps v h =
    let (name, is, word, n) = prefix_word k in
    let (qs, parts, w) = under_parts ps name v word n (rw (← is) h) in
    (
      qs,
      w,
      rw (parts, is) (prefix_joined name qs),
      rw (parts, is) (host_path_of-join_parts name host qs w),
    )
  where
    prefix_joined :
        (name : List ℕ) (qs : List (List ℕ))
        → slash ∷ join_parts (name ∷ qs) ≡ join_parts ((slash ∷ name) ∷ qs)
    prefix_joined name [] = refl
    prefix_joined name (q ∷ qs) = refl

-- A path is found by a walk down from a valid mount; the first mount has place `k`.
abbrev IsBelow : ℕ → List MountEntry → List (List ℕ) → List ℕ → Type 0
IsBelow k ms ps h =
    (i : ℕ) × (qs : List (List ℕ)) × ((get_mount i ms).valid ≡ true)
    × All IsPart qs
    × (slash ∷ join_parts ps ≡ join_parts (mount_prefix (k + i) ∷ qs))
    × (h ≡ descend (get_mount i ms).host_path qs)

next_mount_lem :
    (k : ℕ) (m : MountEntry) (ms : List MountEntry) (ps : List (List ℕ)) (h : List ℕ)
    → IsBelow (suc k) ms ps h
    → IsBelow k (m ∷ ms) ps h
unfolding get_mount
next_mount_lem k m ms ps h (i, qs, valid, w, split, walk) =
    let place : mount_prefix (k + suc i) ≡ mount_prefix (suc k + i) =
      ap mount_prefix (omega arith) in
    (suc i, qs, valid, w, rw place split, walk)

first_mount_lem :
    (k : ℕ) (m : MountEntry) (ms : List MountEntry) (ps : List (List ℕ))
    → m.prefix ≡ mount_prefix k
    → m.valid ≡ true
    → All IsPart ps
    → is_under (slash ∷ join_parts ps) m.prefix ≡ true
    → IsBelow k (m ∷ ms) ps (host_path_of (slash ∷ join_parts ps) m.prefix m.host_path)
unfolding get_mount
first_mount_lem k m ms ps prefix valid v covers =
    let (qs, w, split, walk) = covered_lem k m.host_path ps v (rw (← prefix) covers) in
    let place : mount_prefix (k + 0) ≡ mount_prefix k = ap mount_prefix (omega arith) in
    (
      0,
      qs,
      valid,
      w,
      rw place split,
      ap (λ x. host_path_of (slash ∷ join_parts ps) x m.host_path) prefix ∙ walk,
    )

resolve_in-IsBelow :
    (k : ℕ) (ms : List MountEntry) (ps : List (List ℕ)) (h : List ℕ)
    → HasPrefixes k ms
    → All IsPart ps
    → resolve_in (slash ∷ join_parts ps) ms ≡ some h
    → IsBelow k ms ps h
unfolding resolve_in
resolve_in-IsBelow k [] ps h p v e = absurd (none-ne-some h e)
resolve_in-IsBelow k (m ∷ ms) ps h p v e =
    let guest = slash ∷ join_parts ps in
    let later : (resolve_in guest ms ≡ some h) → IsBelow k (m ∷ ms) ps h =
      λ f. next_mount_lem k m ms ps h (resolve_in-IsBelow (suc k) ms ps h p.1 v f) in
    elim (Bool-cases m.valid) [
      | inl valid ↦ elim (Bool-cases (is_under guest m.prefix)) [
        | inl covers ↦
            let found : host_path_of guest m.prefix m.host_path ≡ h = ground arith in
            rw (← found) (first_mount_lem k m ms ps (p.0 valid) valid v covers)
        | inr other ↦ later (ground arith)
      ]
      | inr free ↦ later (ground arith)
    ]

-- Whatever the history of mounts, unmounts, opens and writes since Init: a guest path that
-- resolves does so below a valid mount. Its normal form is the prefix of that mount followed by
-- path components, none of them empty, '.', '..' or with a slash, and the host's path is the walk
-- from the mount's directory down these components, one at a time. Paths of the host are separated
-- by the slash alone, as on POSIX.
pub resolve-descend :
    (parent : List ℕ → List ℕ) (cs : List Call) (s : VfsState) (guest h : List ℕ)
    → resolve guest (calls parent cs (init s)) ≡ some h
    → (i : ℕ) × (qs : List (List ℕ)) × ((get_mount i (calls parent cs (init s)).mounts).valid
        ≡ true)
      × All IsPart qs
      × (normalise guest ≡ join_parts (mount_prefix i ∷ qs))
      × (h ≡ descend (get_mount i (calls parent cs (init s)).mounts).host_path qs)
unfolding resolve normalise
resolve-descend parent cs s guest h e =
    let (i, qs, valid, w, split, walk) =
      resolve_in-IsBelow 0 (calls parent cs (init s)).mounts (parts_of guest) h
        (calls-HasPrefixes parent cs s) (parts_of-IsPart guest) e in
    let place : mount_prefix i ≡ mount_prefix (0 + i) = ap mount_prefix (omega arith) in
    (i, qs, valid, w, rw place split, walk)
