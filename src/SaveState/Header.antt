-- ===== src/SaveState/Header.antt =====
-- The header that Save writes, as Load reads it.
use mathlib.Core.List.{append_assoc}
use ps5x_windows.Base.{
  ℕ, zero, suc, ◌+◌, ◌-◌, ◌^◌, ◌<◌, min, ◌≡◌, refl, sym, ap, ◌∙◌, List, ◌++◌, Bool, true, false,
  not, ltb, ◌==◌, if◌then◌else◌, length, take, drop, length-append, length-take, length-drop,
  take_all, split_at, drop-drop, arith,
}
use ps5x_windows.CommandProcessor.Command.{le_bytes, u32}
use ps5x_windows.CommandProcessor.Process.{le_value}
use ps5x_windows.CommandProcessor.RoundTrip.{le_value-le_bytes}
use ps5x_windows.SaveState.Checksum.{crc32}
use ps5x_windows.SaveState.Slots.{
  checksum_mismatch, loaded, SaveStateHeader, magic, header_bytes, header_size, zeros,
  description_bytes, field, payload_size, same_bytes, check_file,
}

length-zeros : (n : ℕ) → length (zeros n) ≡ n
unfolding zeros
length-zeros zero = refl
length-zeros (suc n) = ap suc (length-zeros n)

length-description_bytes : (d : List ℕ) → length (description_bytes d) ≡ 256
unfolding description_bytes
length-description_bytes d =
    let text = take (min (length d) 255) d in
    let cut = length-take (min (length d) 255) d in
    length-append text (zeros (256 - length text))
    ∙ omega (arith, cut, length-zeros (256 - length text))

-- From the sizes on.
abbrev sizes : SaveStateHeader → List ℕ → List ℕ
sizes h body =
    u32 h.cpu_state_size
    ++ (u32 h.memory_map_size ++ (u32 h.gpu_state_size ++ (u32 h.checksum ++ body)))

drop_header :
    (h : SaveStateHeader) (body : List ℕ) → drop 408 (header_bytes h ++ body) ≡ sizes h body
unfolding header_bytes le_bytes zeros
drop_header h body =
    let tail =
      u32 h.cpu_state_size ++ (u32 h.memory_map_size ++ (u32 h.gpu_state_size ++ u32 h.checksum)) in
    ap (drop 256) (append_assoc (description_bytes h.description) tail body)
    ∙ (split_at 256 (description_bytes h.description) (tail ++ body)
        (length-description_bytes h.description)).1

drop_header_further :
    (k : ℕ) (h : SaveStateHeader) (body : List ℕ)
    → drop (408 + k) (header_bytes h ++ body) ≡ drop k (sizes h body)
drop_header_further k h body =
    sym (drop-drop k 408 (408 + k) (header_bytes h ++ body) refl) ∙ ap (drop k) (drop_header h body)

read_size : (v : ℕ) → v < 2 ^ 32 → le_value (u32 v) ≡ v
read_size v h = le_value-le_bytes 4 v h

pub cpu_size-header_bytes :
    (h : SaveStateHeader) (body : List ℕ)
    → h.cpu_state_size < 2 ^ 32
    → field 408 4 (header_bytes h ++ body) ≡ h.cpu_state_size
unfolding le_bytes
cpu_size-header_bytes h body small =
    ap (λ l. le_value (take 4 l)) (drop_header h body) ∙ read_size h.cpu_state_size small

pub memory_size-header_bytes :
    (h : SaveStateHeader) (body : List ℕ)
    → h.memory_map_size < 2 ^ 32
    → field 412 4 (header_bytes h ++ body) ≡ h.memory_map_size
unfolding le_bytes
memory_size-header_bytes h body small =
    ap (λ l. le_value (take 4 l)) (drop_header_further 4 h body) ∙ read_size h.memory_map_size small

pub gpu_size-header_bytes :
    (h : SaveStateHeader) (body : List ℕ)
    → h.gpu_state_size < 2 ^ 32
    → field 416 4 (header_bytes h ++ body) ≡ h.gpu_state_size
unfolding le_bytes
gpu_size-header_bytes h body small =
    ap (λ l. le_value (take 4 l)) (drop_header_further 8 h body) ∙ read_size h.gpu_state_size small

checksum-header_bytes :
    (h : SaveStateHeader) (body : List ℕ)
    → h.checksum < 2 ^ 32
    → field 420 4 (header_bytes h ++ body) ≡ h.checksum
unfolding le_bytes
checksum-header_bytes h body small =
    ap (λ l. le_value (take 4 l)) (drop_header_further 12 h body) ∙ read_size h.checksum small

pub body-header_bytes :
    (h : SaveStateHeader) (body : List ℕ) → drop header_size (header_bytes h ++ body) ≡ body
unfolding le_bytes
body-header_bytes h body = drop_header_further 16 h body

version-header_bytes :
    (h : SaveStateHeader) (body : List ℕ)
    → field 8 4 (header_bytes h ++ body) ≡ le_value (u32 h.version)
unfolding header_bytes le_bytes
version-header_bytes h body = refl

magic-header_bytes : (h : SaveStateHeader) (body : List ℕ) → take 8 (header_bytes h ++ body) ≡ magic
unfolding header_bytes
magic-header_bytes h body = refl

-- A header whose numbers fit and whose sizes add up to what follows.
pub record Describes (h : SaveStateHeader) (body : List ℕ) : Type 0 where
  pub first_version : h.version ≡ 1
  pub cpu_fits : h.cpu_state_size < 2 ^ 32
  pub memory_fits : h.memory_map_size < 2 ^ 32
  pub gpu_fits : h.gpu_state_size < 2 ^ 32
  pub checksum_fits : h.checksum < 2 ^ 32
  pub whole : h.cpu_state_size + h.memory_map_size + h.gpu_state_size ≡ length body

length-header_bytes :
    (h : SaveStateHeader) (body : List ℕ) → length (header_bytes h ++ body) ≡ 424 + length body
unfolding le_bytes
length-header_bytes h body =
    let tail : length (drop 408 (header_bytes h ++ body)) ≡ 16 + length body =
      ap length (drop_header h body) ∙ omega arith in
    omega (arith, tail, length-drop 408 (header_bytes h ++ body))

payload_size-header_bytes :
    (h : SaveStateHeader) (body : List ℕ)
    → Describes h body
    → payload_size (header_bytes h ++ body) ≡ length body
unfolding payload_size
payload_size-header_bytes h body d = omega (
  arith,
  cpu_size-header_bytes h body d.cpu_fits,
  memory_size-header_bytes h body d.memory_fits,
  gpu_size-header_bytes h body d.gpu_fits,
  d.whole,
)

same_magic : same_bytes magic magic ≡ true
unfolding same_bytes
same_magic = refl

one_read : (v : ℕ) → v ≡ 1 → le_value (u32 v) ≡ 1
one_read v e = ap (λ x. le_value (u32 x)) e ∙ read_size 1 (omega arith)

-- With such a header, Load's checks come down to the checksum.
pub check_file-header_bytes :
    (h : SaveStateHeader) (body : List ℕ)
    → Describes h body
    → check_file (header_bytes h ++ body)
      ≡ (if crc32 body == h.checksum then loaded else checksum_mismatch)
unfolding check_file
check_file-header_bytes h body d =
    let file = header_bytes h ++ body in
    let size = payload_size-header_bytes h body d in
    let long = length-header_bytes h body in
    let enough : ltb (length file) header_size ≡ false = ground (arith, long) in
    let complete : ltb (length file) (header_size + length body) ≡ false = ground (arith, long) in
    let first : field 8 4 file ≡ 1 =
      version-header_bytes h body ∙ one_read h.version d.first_version in
    rw
      (
        enough,
        magic-header_bytes h body,
        same_magic,
        first,
        size,
        complete,
        body-header_bytes h body,
        take_all (length body) body (omega arith),
        checksum-header_bytes h body d.checksum_fits,
      )
      (check_end (crc32 body == h.checksum))
  where
    check_end :
        (b : Bool)
        → (if not b then checksum_mismatch else loaded) ≡ (if b then loaded else checksum_mismatch)
    check_end true = refl
    check_end false = refl
