-- ===== src/Prelude/BitField.antt =====
-- The crate `bit_field`, which the sources call and do not contain: the four operations that they
-- use, with their documented behaviour on unsigned values, as laws. A range `lo..=hi` is its low
-- bit and its width; `set_bits` asserts that the value fits.
use Prim.Native.Nat.{ℕ, zero, suc, ◌+◌, ◌-◌, ◌*◌, ◌/◌, ◌%◌, ◌^◌, ◌<◌}
use mathlib.Core.Path.{◌≡◌, refl, ap}
use mathlib.Core.Bool.{Bool, true, false}
use native.Mathlib.Omega.{arith}
use mushroom.Prelude.Tests.{◌==◌, if◌then◌else◌}

abbrev pub bit : Bool → ℕ
bit true = 1
bit false = 0

pub record BitField : Type 0 where
  pub get_bit : ℕ → ℕ → Bool
  pub set_bit : ℕ → ℕ → Bool → ℕ
  pub get_bits : ℕ → ℕ → ℕ → ℕ
  pub set_bits : ℕ → ℕ → ℕ → ℕ → ℕ
  pub get_bit-zero : (v : ℕ) → get_bit v 0 ≡ (v % 2 == 1)
  pub get_bit-suc : (v i : ℕ) → get_bit v (suc i) ≡ get_bit (v / 2) i
  pub set_bit-zero : (v : ℕ) (b : Bool) → set_bit v 0 b ≡ v / 2 * 2 + bit b
  pub set_bit-suc : (v i : ℕ) (b : Bool) → set_bit v (suc i) b ≡ set_bit (v / 2) i b * 2 + v % 2
  pub get_bits_lem : (v lo width : ℕ) → get_bits v lo width ≡ v / 2 ^ lo % 2 ^ width
  pub set_bits_lem :
      (v lo width x : ℕ)
      → x < 2 ^ width
      → set_bits v lo width x ≡ v - v / 2 ^ lo % 2 ^ width * 2 ^ lo + x * 2 ^ lo

module _ (f : BitField) where
  open f use {get_bit, set_bit, get_bit-zero, get_bit-suc, set_bit-zero, set_bit-suc}

  -- A bit reads back what was written to it, and the other bits stay.
  pub get_bit-set_bit :
      (v i j : ℕ) (b : Bool) → get_bit (set_bit v i b) j ≡ (if i == j then b else get_bit v j)
  get_bit-set_bit v zero zero b = rw (set_bit-zero, get_bit-zero) (ground arith)
  get_bit-set_bit v zero (suc j) b =
      rw (set_bit-zero, get_bit-suc, get_bit-suc) (ground (arith, half b))
    where
      half : (b : Bool) → get_bit ((v / 2 * 2 + bit b) / 2) j ≡ get_bit (v / 2) j
      half true = ap (λ k. get_bit k j) (omega arith)
      half false = ap (λ k. get_bit k j) (omega arith)
  get_bit-set_bit v (suc i) zero b = rw (set_bit-suc, get_bit-zero, get_bit-zero) (ground arith)
  get_bit-set_bit v (suc i) (suc j) b =
      rw (set_bit-suc, get_bit-suc, get_bit-suc)
        (rw (half) (ground (arith, get_bit-set_bit (v / 2) i j b)))
    where
      half : (set_bit (v / 2) i b * 2 + v % 2) / 2 ≡ set_bit (v / 2) i b
      half = omega arith

unfoldable pub get_bit_value : ℕ → ℕ → Bool
get_bit_value v zero = v % 2 == 1
get_bit_value v (suc i) = get_bit_value (v / 2) i

set_bit_value : ℕ → ℕ → Bool → ℕ
set_bit_value v zero b = v / 2 * 2 + bit b
set_bit_value v (suc i) b = set_bit_value (v / 2) i b * 2 + v % 2

-- Functions that meet the laws.
unfoldable pub bits : BitField
unfolding get_bit_value set_bit_value
bits = record {
  get_bit = get_bit_value;
  set_bit = set_bit_value;
  get_bits = λ v lo width. v / 2 ^ lo % 2 ^ width;
  set_bits = λ v lo width x. v - v / 2 ^ lo % 2 ^ width * 2 ^ lo + x * 2 ^ lo;
  get_bit-zero = λ v. refl;
  get_bit-suc = λ v i. refl;
  set_bit-zero = λ v b. refl;
  set_bit-suc = λ v i b. refl;
  get_bits_lem = λ v lo width. refl;
  set_bits_lem = λ v lo width x h. refl;
}
