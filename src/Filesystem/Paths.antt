-- ===== src/Filesystem/Paths.antt =====
-- Guest paths: NormaliseImpl, and what ResolveImpl does to one mount. A path is its bytes.
use ps5x_windows.Base.{
  ℕ, List, [], ◌∷◌, ◌++◌, Bool, true, false, not, ◌&&◌, ◌||◌, ◌==◌, if◌then◌else◌, length, drop,
}

abbrev pub slash : ℕ
slash = 47

abbrev pub dot : ℕ
dot = 46

-- operator== of two strings, and starts_with.
unfoldable pub same : List ℕ → List ℕ → Bool
same [] [] = true
same [] (y ∷ ys) = false
same (x ∷ xs) [] = false
same (x ∷ xs) (y ∷ ys) = x == y && same xs ys

unfoldable pub starts_with : List ℕ → List ℕ → Bool
starts_with xs [] = true
starts_with [] (p ∷ ps) = false
starts_with (x ∷ xs) (p ∷ ps) = x == p && starts_with xs ps

-- The segments that getline reads up to each slash; `seg` is the one that is being read. What
-- ends without a slash is a segment too, if it is not empty.
unfoldable pub segments : List ℕ → List ℕ → List (List ℕ)
segments [] [] = []
segments [] (s ∷ seg) = (s ∷ seg) ∷ []
segments (c ∷ cs) seg = if c == slash then seg ∷ segments cs [] else segments cs (seg ++ (c ∷ []))

unfoldable pub pop_back : List (List ℕ) → List (List ℕ)
pop_back [] = []
pop_back (p ∷ []) = []
pop_back (p ∷ q ∷ ps) = p ∷ pop_back (q ∷ ps)

-- A round of the loop.
unfoldable pub add_segment : List (List ℕ) → List ℕ → List (List ℕ)
add_segment parts seg =
    if same seg [] || same seg (dot ∷ [])
    then parts
    else if same seg (dot ∷ dot ∷ [])
    then pop_back parts
    else parts ++ (seg ∷ [])

unfoldable pub collect_parts : List (List ℕ) → List (List ℕ) → List (List ℕ)
collect_parts parts [] = parts
collect_parts parts (seg ∷ segs) = collect_parts (add_segment parts seg) segs

-- The parts with a slash between two, behind the first slash of the result.
unfoldable pub join_parts : List (List ℕ) → List ℕ
join_parts [] = []
join_parts (p ∷ []) = p
join_parts (p ∷ q ∷ ps) = p ++ (slash ∷ join_parts (q ∷ ps))

unfoldable pub normalise : List ℕ → List ℕ
normalise path = slash ∷ join_parts (collect_parts [] (segments path []))

-- path::has_filename and path::operator/= of a POSIX host: an absolute path replaces, and a separator
-- stands behind a file name.
unfoldable pub has_filename : List ℕ → Bool
has_filename [] = false
has_filename (c ∷ []) = not (c == slash)
has_filename (c ∷ d ∷ cs) = has_filename (d ∷ cs)

unfoldable pub append_path : List ℕ → List ℕ → List ℕ
append_path host rel =
    if starts_with rel (slash ∷ [])
    then rel
    else if has_filename host
    then host ++ (slash ∷ rel)
    else host ++ rel

-- Whether a normalised path is a mount's prefix or stands below it, and the part behind the prefix.
unfoldable pub is_under : List ℕ → List ℕ → Bool
is_under guest prefix = same guest prefix || starts_with guest (prefix ++ (slash ∷ []))

unfoldable pub drop_slash : List ℕ → List ℕ
drop_slash [] = []
drop_slash (c ∷ cs) = if c == slash then cs else c ∷ cs

unfoldable pub relative : List ℕ → List ℕ → List ℕ
relative guest prefix = drop_slash (drop (length prefix) guest)

-- The host's path of a guest path under a mount.
unfoldable pub host_path_of : List ℕ → List ℕ → List ℕ → List ℕ
host_path_of guest prefix host =
    let rel = relative guest prefix in if same rel [] then host else append_path host rel
