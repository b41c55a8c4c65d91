-- ===== src/SaveState/Crc.antt =====
-- What the checksum detects, and the checksum without a table.
use Prim.Native.Nat.{bit_xor}
use ps5x_windows.Base.{
  ℕ, zero, suc, ◌+◌, ◌*◌, ◌/◌, ◌%◌, ◌^◌, ◌<◌, ◌≡◌, ◌≢◌, refl, sym, ap, ◌∙◌, List, [], ◌∷◌, ◌++◌,
  Bool, true, ◌==◌, ltb, All, ◌&&◌, arith, if◌then◌else◌, holds_upto, holds_at,
}
use ps5x_windows.Base.Bits.{bit_xor-lt}
use ps5x_windows.Base.Xor.{xor_shift, xor_cancel, xor_comm, xor_none}
use ps5x_windows.SaveState.Checksum.{crc_bit, crc_bits, crc_entry, crc_byte, crc_loop, crc32}

-- The index of an entry from its highest byte: the bits that were shifted out, the last first.
index_of : ℕ → ℕ → ℕ → ℕ
index_of zero top index = index
index_of (suc k) top index =
    if ltb top 128
    then index_of k (top * 2 % 256) (index * 2 % 256)
    else index_of k (bit_xor top 0xED * 2 % 256) ((bit_xor index 0x20 * 2 + 1) % 256)

is_entry : ℕ → Bool
is_entry i = ltb (crc_entry i) (2 ^ 32) && (index_of 8 (crc_entry i / 2 ^ 24) 0 == i)

entries : holds_upto is_entry 256 ≡ true
unfolding holds_upto is_entry index_of crc_entry crc_bits crc_bit
entries = refl

crc_entry-lt : (i : ℕ) → i < 256 → crc_entry i < 2 ^ 32
unfolding is_entry
crc_entry-lt i h = let e : is_entry i ≡ true = holds_at is_entry 256 i h entries in ground arith

-- Entries with one highest byte are one entry.
crc_entry_top : (i j : ℕ) → i < 256 → j < 256 → crc_entry i / 2 ^ 24 ≡ crc_entry j / 2 ^ 24 → i ≡ j
unfolding is_entry
crc_entry_top i j p q e =
    let found : (k : ℕ) → k < 256 → index_of 8 (crc_entry k / 2 ^ 24) 0 ≡ k =
      λ k h. let all : is_entry k ≡ true = holds_at is_entry 256 k h entries in ground arith in
    sym (found i p) ∙ ap (λ t. index_of 8 t 0) e ∙ found j q

pub crc_byte-lt : (c b : ℕ) → c < 2 ^ 32 → crc_byte c b < 2 ^ 32
unfolding crc_byte
crc_byte-lt c b h = bit_xor-lt 32 _ _ (crc_entry-lt _ (omega arith)) (omega arith)

-- The byte that is shifted in does not reach above the lowest byte.
crc_byte_top :
    (c b : ℕ) → c < 2 ^ 32 → crc_byte c b / 2 ^ 24 ≡ crc_entry (bit_xor c b % 256) / 2 ^ 24
unfolding crc_byte
crc_byte_top c b h =
    let i = bit_xor c b % 256 in
    let none_left : c / 2 ^ 8 / 2 ^ 24 ≡ 0 = omega arith in
    let small = crc_entry-lt i (omega arith) in
    xor_shift 24 (crc_entry i) (c / 2 ^ 8)
    ∙ ap (bit_xor (crc_entry i / 2 ^ 24)) none_left
    ∙ xor_none 8 (crc_entry i / 2 ^ 24) (omega (arith, small))

crc_byte_parts :
    (c d a b : ℕ)
    → c < 2 ^ 32
    → d < 2 ^ 32
    → crc_byte c a ≡ crc_byte d b
    → (bit_xor c a % 256 ≡ bit_xor d b % 256) × (c / 2 ^ 8 ≡ d / 2 ^ 8)
unfolding crc_byte
crc_byte_parts c d a b p q e =
    let same : bit_xor c a % 256 ≡ bit_xor d b % 256 =
      crc_entry_top (bit_xor c a % 256) (bit_xor d b % 256) (omega arith) (omega arith)
        (sym (crc_byte_top c a p) ∙ ap (λ t. t / 2 ^ 24) e ∙ crc_byte_top d b q) in
    (
      same,
      xor_cancel 32 (crc_entry (bit_xor c a % 256)) (c / 2 ^ 8) (d / 2 ^ 8)
          (crc_entry-lt (bit_xor c a % 256) (omega arith)) (omega arith) (omega arith)
          (e ∙ ap (λ i. bit_xor (crc_entry i) (d / 2 ^ 8)) (sym same)),
    )

pub xor_byte_high : (c b : ℕ) → c < 2 ^ 32 → b < 256 → bit_xor c b / 256 ≡ c / 256
xor_byte_high c b p q =
    let none_left : b / 2 ^ 8 ≡ 0 = omega arith in
    xor_shift 8 c b ∙ ap (bit_xor (c / 2 ^ 8)) none_left ∙ xor_none 24 (c / 2 ^ 8) (omega arith)

crc_byte-crc : (c d b : ℕ) → c < 2 ^ 32 → d < 2 ^ 32 → b < 256 → crc_byte c b ≡ crc_byte d b → c ≡ d
crc_byte-crc c d b p q small e =
    let (low, high) = crc_byte_parts c d b b p q e in
    let whole : bit_xor c b ≡ bit_xor d b =
      omega (arith, low, high, xor_byte_high c b p small, xor_byte_high d b q small) in
    xor_cancel 32 b c d (omega arith) p q
      (xor_comm 32 b c (omega arith) p ∙ whole ∙ xor_comm 32 d b q (omega arith))

crc_byte-byte : (c a b : ℕ) → c < 2 ^ 32 → a < 256 → b < 256 → crc_byte c a ≡ crc_byte c b → a ≡ b
crc_byte-byte c a b p s t e =
    let (low, high) = crc_byte_parts c c a b p p e in
    let whole : bit_xor c a ≡ bit_xor c b =
      omega (arith, low, xor_byte_high c a p s, xor_byte_high c b p t) in
    xor_cancel 32 c a b p (omega arith) (omega arith) whole

abbrev pub IsByte : ℕ → Type 0
IsByte b = b < 256

crc_loop-lt : (c : ℕ) (bs : List ℕ) → c < 2 ^ 32 → crc_loop c bs < 2 ^ 32
unfolding crc_loop
crc_loop-lt c [] h = h
crc_loop-lt c (b ∷ bs) h = crc_loop-lt (crc_byte c b) bs (crc_byte-lt c b h)

crc_loop-crc :
    (c d : ℕ) (bs : List ℕ)
    → c < 2 ^ 32
    → d < 2 ^ 32
    → All IsByte bs
    → crc_loop c bs ≡ crc_loop d bs
    → c ≡ d
unfolding crc_loop
crc_loop-crc c d [] p q v e = e
crc_loop-crc c d (b ∷ bs) p q v e =
    crc_byte-crc c d b p q v.0
      (crc_loop-crc (crc_byte c b) (crc_byte d b) bs (crc_byte-lt c b p) (crc_byte-lt d b q) v.1 e)

crc_loop-byte :
    (c a b : ℕ) (xs ys : List ℕ)
    → c < 2 ^ 32
    → a < 256
    → b < 256
    → All IsByte ys
    → crc_loop c (xs ++ (a ∷ ys)) ≡ crc_loop c (xs ++ (b ∷ ys))
    → a ≡ b
unfolding crc_loop
crc_loop-byte c a b [] ys h s t v e =
    crc_byte-byte c a b h s t
      (crc_loop-crc (crc_byte c a) (crc_byte c b) ys (crc_byte-lt c a h) (crc_byte-lt c b h) v e)
crc_loop-byte c a b (x ∷ xs) ys h s t v e =
    crc_loop-byte (crc_byte c x) a b xs ys (crc_byte-lt c x h) s t v e

-- A changed byte changes the checksum.
pub crc32-byte :
    (a b : ℕ) (xs ys : List ℕ)
    → a < 256
    → b < 256
    → All IsByte ys
    → a ≢ b
    → crc32 (xs ++ (a ∷ ys)) ≢ crc32 (xs ++ (b ∷ ys))
unfolding crc32
crc32-byte a b xs ys s t v n e =
    let p = crc_loop-lt 0xFFFFFFFF (xs ++ (a ∷ ys)) (omega arith) in
    let q = crc_loop-lt 0xFFFFFFFF (xs ++ (b ∷ ys)) (omega arith) in
    n (
      crc_loop-byte 0xFFFFFFFF a b xs ys (omega arith) s t v (
        xor_cancel 32 0xFFFFFFFF (crc_loop 0xFFFFFFFF (xs ++ (a ∷ ys)))
          (crc_loop 0xFFFFFFFF (xs ++ (b ∷ ys))) (omega arith) p q
          (xor_comm 32 0xFFFFFFFF _ (omega arith) p
            ∙ e
            ∙ xor_comm 32 _ 0xFFFFFFFF q (omega arith))))

pub crc32-lt : (bs : List ℕ) → crc32 bs < 2 ^ 32
unfolding crc32
crc32-lt bs = bit_xor-lt 32 _ _ (crc_loop-lt 0xFFFFFFFF bs (omega arith)) (omega arith)
