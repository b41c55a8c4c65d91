-- ===== src/Cpu/Flags/Read.antt =====
-- Reading back single flags of RFLAGS.
use native.Mathlib.Nat.{one-le-pow}
use ps5x_windows.Base.{
  ℕ, zero, suc, ◌*◌, ◌^◌, ◌<◌, ◌≡◌, refl, ap, ◌∙◌, Bool, true, false, not, ◌==◌, arith,
}
use ps5x_windows.Base.Bits.{bit, bit-lt-two, bit-bit_and, bit-bit_or, bit_and_one_bit}
use ps5x_windows.Cpu.Word.{not64}
use ps5x_windows.Cpu.Flags.{
  flag, set_flag, arith_carry, arith_overflow, masked, test_bit, parity, update_flags_logic,
  update_flags_arith, cf_mask, pf_mask, zf_mask, sf_mask, of_mask,
}

-- 0 or 1.
abbrev pub digit : Bool → ℕ
digit true = 1
digit false = 0

is_one : (v : Bool) → (digit v == 1) ≡ v
is_one true = refl
is_one false = refl

nonzero : (x p : ℕ) → x < 2 → 0 < p → not (x * p == 0) ≡ (x == 1)
nonzero zero p h q = ground arith
nonzero (suc zero) p h q = ground arith
nonzero (suc (suc x)) p h q = absurd (omega arith)

pub flag-bit : (k f : ℕ) → flag f (2 ^ k) ≡ (bit k f == 1)
unfolding flag
flag-bit k f =
    rw (bit_and_one_bit k f)
      (nonzero (bit k f) (2 ^ k) (bit-lt-two k f) (one-le-pow k 2 (omega arith)))

-- The bits that a mask does and does not touch.
pub bit-set_flag_on :
    (k m f : ℕ) (v : Bool) → bit k m ≡ 1 → bit k (not64 m) ≡ 0 → bit k (set_flag f m v) ≡ digit v
unfolding set_flag
bit-set_flag_on k m f true p q = omega (arith, bit-bit_or k f m, bit-lt-two k f)
bit-set_flag_on k m f false p q = omega (arith, bit-bit_and k f (not64 m))

pub bit-set_flag_off :
    (k m f : ℕ) (v : Bool) → bit k m ≡ 0 → bit k (not64 m) ≡ 1 → bit k (set_flag f m v) ≡ bit k f
unfolding set_flag
bit-set_flag_off k m f true p q = omega (arith, bit-bit_or k f m)
bit-set_flag_off k m f false p q = omega (arith, bit-bit_and k f (not64 m), bit-lt-two k f)

-- A flag of five updates in a row is the one written to its mask.
module _ (f : ℕ) (zf sf pf cf of : Bool) where
  -- The order of UpdateFlagsArith.
  written : ℕ
  written =
      set_flag
        (set_flag (set_flag (set_flag (set_flag f zf_mask zf) sf_mask sf) pf_mask pf) cf_mask cf)
        of_mask of

  written_bits :
      (bit 0 written ≡ digit cf)
      × (bit 2 written ≡ digit pf)
      × (bit 6 written ≡ digit zf)
      × (bit 7 written ≡ digit sf)
      × (bit 11 written ≡ digit of)
  unfolding written bit not64
  written_bits = (
    bit-set_flag_off 0 of_mask _ of refl refl ∙ bit-set_flag_on 0 cf_mask _ cf refl refl,
    bit-set_flag_off 2 of_mask _ of refl refl
        ∙ bit-set_flag_off 2 cf_mask _ cf refl refl
        ∙ bit-set_flag_on 2 pf_mask _ pf refl refl,
    bit-set_flag_off 6 of_mask _ of refl refl
        ∙ bit-set_flag_off 6 cf_mask _ cf refl refl
        ∙ bit-set_flag_off 6 pf_mask _ pf refl refl
        ∙ bit-set_flag_off 6 sf_mask _ sf refl refl
        ∙ bit-set_flag_on 6 zf_mask _ zf refl refl,
    bit-set_flag_off 7 of_mask _ of refl refl
        ∙ bit-set_flag_off 7 cf_mask _ cf refl refl
        ∙ bit-set_flag_off 7 pf_mask _ pf refl refl
        ∙ bit-set_flag_on 7 sf_mask _ sf refl refl,
    bit-set_flag_on 11 of_mask _ of refl refl,
  )

flag_of_bit : (k f : ℕ) (v : Bool) → bit k f ≡ digit v → flag f (2 ^ k) ≡ v
flag_of_bit k f v h = flag-bit k f ∙ ap (λ (t : ℕ). t == 1) h ∙ is_one v

abbrev pub FlagsAre : ℕ → Bool → Bool → Bool → Bool → Bool → Type 0
FlagsAre f cf pf zf sf of =
    (flag f cf_mask ≡ cf)
    × (flag f pf_mask ≡ pf)
    × (flag f zf_mask ≡ zf)
    × (flag f sf_mask ≡ sf)
    × (flag f of_mask ≡ of)

-- The five flags that UpdateFlagsArith writes, for 64 bits.
pub update_flags_arith-FlagsAre :
    (f a b result : ℕ) (is_sub : Bool)
    → FlagsAre
        (update_flags_arith f a b result is_sub 64)
        (arith_carry a b result is_sub 64)
        (parity (masked 64 result))
        (masked 64 result == 0)
        (test_bit (masked 64 result) 63)
        (arith_overflow a b (masked 64 result) is_sub 64)
unfolding update_flags_arith written
update_flags_arith-FlagsAre f a b result is_sub =
    let r = masked 64 result in
    let cf = arith_carry a b result is_sub 64 in
    let of = arith_overflow a b r is_sub 64 in
    let w = written_bits f (r == 0) (test_bit r 63) (parity r) cf of in
    let v = written f (r == 0) (test_bit r 63) (parity r) cf of in
    (
      flag_of_bit 0 v cf w.0,
      flag_of_bit 2 v (parity r) w.1,
      flag_of_bit 6 v (r == 0) w.2,
      flag_of_bit 7 v (test_bit r 63) w.3,
      flag_of_bit 11 v of w.4,
    )

-- The order of UpdateFlagsLogic, which clears CF and OF.
module _ (f : ℕ) (zf sf pf : Bool) where
  cleared : ℕ
  cleared =
      set_flag
        (set_flag (set_flag (set_flag (set_flag f cf_mask false) of_mask false) zf_mask zf) sf_mask
          sf)
        pf_mask pf

  cleared_bits :
      (bit 0 cleared ≡ 0)
      × (bit 2 cleared ≡ digit pf)
      × (bit 6 cleared ≡ digit zf)
      × (bit 7 cleared ≡ digit sf)
      × (bit 11 cleared ≡ 0)
  unfolding cleared bit not64
  cleared_bits = (
    bit-set_flag_off 0 pf_mask _ pf refl refl
        ∙ bit-set_flag_off 0 sf_mask _ sf refl refl
        ∙ bit-set_flag_off 0 zf_mask _ zf refl refl
        ∙ bit-set_flag_off 0 of_mask _ false refl refl
        ∙ bit-set_flag_on 0 cf_mask _ false refl refl,
    bit-set_flag_on 2 pf_mask _ pf refl refl,
    bit-set_flag_off 6 pf_mask _ pf refl refl
        ∙ bit-set_flag_off 6 sf_mask _ sf refl refl
        ∙ bit-set_flag_on 6 zf_mask _ zf refl refl,
    bit-set_flag_off 7 pf_mask _ pf refl refl ∙ bit-set_flag_on 7 sf_mask _ sf refl refl,
    bit-set_flag_off 11 pf_mask _ pf refl refl
        ∙ bit-set_flag_off 11 sf_mask _ sf refl refl
        ∙ bit-set_flag_off 11 zf_mask _ zf refl refl
        ∙ bit-set_flag_on 11 of_mask _ false refl refl,
  )

pub update_flags_logic-FlagsAre :
    (f result : ℕ)
    → FlagsAre
        (update_flags_logic f result 64)
        false
        (parity (masked 64 result))
        (masked 64 result == 0)
        (test_bit (masked 64 result) 63)
        false
unfolding update_flags_logic cleared
update_flags_logic-FlagsAre f result =
    let r = masked 64 result in
    let w = cleared_bits f (r == 0) (test_bit r 63) (parity r) in
    let v = cleared f (r == 0) (test_bit r 63) (parity r) in
    (
      flag_of_bit 0 v false w.0,
      flag_of_bit 2 v (parity r) w.1,
      flag_of_bit 6 v (r == 0) w.2,
      flag_of_bit 7 v (test_bit r 63) w.3,
      flag_of_bit 11 v false w.4,
    )
