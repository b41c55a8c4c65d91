-- ===== src/Filesystem/Normal.antt =====
-- What a normalised path is.
use mathlib.Core.List.{append_assoc, append-nil}
use ps5x_windows.Base.{
  ℕ, ◌≡◌, ◌≢◌, refl, sym, ap, ◌∙◌, List, [], ◌∷◌, ◌++◌, true, false, ◌==◌, ==_refl, ==_ne, All,
  arith, Bool-cases, inl, inr, ◌||◌,
}
use ps5x_windows.Filesystem.Paths.{
  slash, dot, same, segments, pop_back, add_segment, collect_parts, join_parts, normalise,
}

pub same_eq : (xs ys : List ℕ) → same xs ys ≡ true → xs ≡ ys
unfolding same
same_eq [] [] h = refl
same_eq [] (y ∷ ys) h = absurd (ground arith)
same_eq (x ∷ xs) [] h = absurd (ground arith)
same_eq (x ∷ xs) (y ∷ ys) h =
    let e : x ≡ y = ground arith in let f : xs ≡ ys = same_eq xs ys (ground arith) in rw (e, f) refl

pub same_refl : (xs : List ℕ) → same xs xs ≡ true
unfolding same
same_refl [] = refl
same_refl (x ∷ xs) = rw (==_refl x) (same_refl xs)

pub same_other : (xs ys : List ℕ) → same xs ys ≡ false → xs ≢ ys
same_other xs ys h e = let t : same xs ys ≡ true = rw e (same_refl ys) in absurd (ground arith)

abbrev pub IsNoSlash : ℕ → Type 0
IsNoSlash c = c ≢ slash

-- A component of a path: not empty, without a slash, and neither "." nor "..".
pub record IsPart (p : List ℕ) : Type 0 where
  pub not_empty : p ≢ []
  pub not_here : p ≢ dot ∷ []
  pub not_up : p ≢ dot ∷ dot ∷ []
  pub no_slash : All IsNoSlash p

abbrev pub parts_of : List ℕ → List (List ℕ)
parts_of path = collect_parts [] (segments path [])

all_append : {A : Type 0} (P : A → Type 0) (xs ys : List A) → All P xs → All P ys → All P (xs ++ ys)
all_append P [] ys v w = w
all_append P (x ∷ xs) ys v w = (v.0, all_append P xs ys v.1 w)

abbrev HasNoSlash : List ℕ → Type 0
HasNoSlash p = All IsNoSlash p

segments-HasNoSlash : (cs seg : List ℕ) → HasNoSlash seg → All HasNoSlash (segments cs seg)
unfolding segments
segments-HasNoSlash [] [] v = tt
segments-HasNoSlash [] (s ∷ seg) v = (v, tt)
segments-HasNoSlash (c ∷ cs) seg v = elim (Bool-cases (c == slash)) [
  | inl here ↦ rw here (v, segments-HasNoSlash cs [] tt)
  | inr other ↦
      let n : c ≢ slash = λ e. ground (arith, e) in
      rw other
        (segments-HasNoSlash cs (seg ++ (c ∷ [])) (all_append IsNoSlash seg (c ∷ []) v (n, tt)))
]

pop_back-All : (P : List ℕ → Type 0) (ps : List (List ℕ)) → All P ps → All P (pop_back ps)
unfolding pop_back
pop_back-All P [] v = tt
pop_back-All P (p ∷ []) v = tt
pop_back-All P (p ∷ q ∷ ps) v = (v.0, pop_back-All P (q ∷ ps) v.1)

add_segment-IsPart :
    (parts : List (List ℕ)) (seg : List ℕ)
    → All IsPart parts
    → HasNoSlash seg
    → All IsPart (add_segment parts seg)
unfolding add_segment
add_segment-IsPart parts seg v n = elim (Bool-cases (same seg [] || same seg (dot ∷ []))) [
  | inl skipped ↦ rw skipped v
  | inr named ↦ elim (Bool-cases (same seg (dot ∷ dot ∷ []))) [
    | inl up ↦ rw (named, up) (pop_back-All IsPart parts v)
    | inr down ↦
        rw (named, down)
          (all_append IsPart parts (seg ∷ []) v (
            record {
              not_empty = same_other seg [] (ground arith);
              not_here = same_other seg (dot ∷ []) (ground arith);
              not_up = same_other seg (dot ∷ dot ∷ []) down;
              no_slash = n;
            },
            tt,
          ))
  ]
]

collect_parts-IsPart :
    (parts segs : List (List ℕ))
    → All IsPart parts
    → All HasNoSlash segs
    → All IsPart (collect_parts parts segs)
unfolding collect_parts
collect_parts-IsPart parts [] v w = v
collect_parts-IsPart parts (seg ∷ segs) v w =
    collect_parts-IsPart (add_segment parts seg) segs (add_segment-IsPart parts seg v w.0) w.1

pub parts_of-IsPart : (path : List ℕ) → All IsPart (parts_of path)
parts_of-IsPart path =
    collect_parts-IsPart [] (segments path []) tt (segments-HasNoSlash path [] tt)

-- Parts are kept as they are.
pub same_ne : (xs ys : List ℕ) → xs ≢ ys → same xs ys ≡ false
same_ne xs ys n = elim (Bool-cases (same xs ys)) [
  | inl e ↦ absurd (n (same_eq xs ys e))
  | inr e ↦ e
]

collect_parts_kept :
    (parts ps : List (List ℕ)) → All IsPart ps → collect_parts parts ps ≡ parts ++ ps
unfolding collect_parts add_segment
collect_parts_kept parts [] v = sym (append-nil parts)
collect_parts_kept parts (p ∷ ps) v =
    let a = same_ne p [] v.0.not_empty in
    let b = same_ne p (dot ∷ []) v.0.not_here in
    let c = same_ne p (dot ∷ dot ∷ []) v.0.not_up in
    rw (a, b, c) (collect_parts_kept (parts ++ (p ∷ [])) ps v.1) ∙ append_assoc parts (p ∷ []) ps

segments_word : (p cs seg : List ℕ) → HasNoSlash p → segments (p ++ cs) seg ≡ segments cs (seg ++ p)
unfolding segments
segments_word [] cs seg v = ap (segments cs) (sym (append-nil seg))
segments_word (c ∷ p) cs seg v =
    rw (==_ne c slash v.0) (segments_word p cs (seg ++ (c ∷ [])) v.1)
    ∙ ap (segments cs) (append_assoc seg (c ∷ []) p)

segments_end : (p : List ℕ) → p ≢ [] → segments [] p ≡ p ∷ []
unfolding segments
segments_end [] n = absurd (n refl)
segments_end (c ∷ p) n = refl

segments-join_parts :
    (p : List ℕ) (ps : List (List ℕ))
    → All IsPart (p ∷ ps)
    → segments (join_parts (p ∷ ps)) [] ≡ p ∷ ps
unfolding join_parts segments
segments-join_parts p [] v =
    ap (λ l. segments l []) (sym (append-nil p))
    ∙ segments_word p [] [] v.0.no_slash
    ∙ segments_end p v.0.not_empty
segments-join_parts p (q ∷ ps) v =
    segments_word p (slash ∷ join_parts (q ∷ ps)) [] v.0.no_slash
    ∙ ap (λ l. p ∷ l) (segments-join_parts q ps v.1)

parts_of_joined : (ps : List (List ℕ)) → All IsPart ps → parts_of (slash ∷ join_parts ps) ≡ ps
unfolding segments collect_parts add_segment same join_parts
parts_of_joined [] v = refl
parts_of_joined (p ∷ ps) v =
    ap (λ l. collect_parts [] l) (segments-join_parts p ps v) ∙ collect_parts_kept [] (p ∷ ps) v

-- Every path is normalised to a slash and components joined by slashes, none of them empty, '.',
-- '..' or with a slash inside, and a normalised path is its own normal form.
pub normalise-IsPart :
    (path : List ℕ)
    → (ps : List (List ℕ)) × (normalise path ≡ slash ∷ join_parts ps)
      × All IsPart ps
      × (normalise (normalise path) ≡ normalise path)
unfolding normalise
normalise-IsPart path =
    let v = parts_of-IsPart path in
    (parts_of path, refl, v, ap (λ ps. slash ∷ join_parts ps) (parts_of_joined (parts_of path) v))
