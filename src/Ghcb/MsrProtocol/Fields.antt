-- ===== src/Ghcb/MsrProtocol/Fields.antt =====
-- The fields of an MSR value of msr_protocol.rs, as a sum.
use mushroom.Prelude.{ℕ, ◌+◌, ◌*◌, ◌/◌, ◌%◌, ◌^◌, ◌<◌, ◌≤◌, ◌≡◌, Bool, true, false, arith}
use mushroom.Prelude.BitField.{BitField, bit, get_bit-set_bit}
use mushroom.Ghcb.MsrProtocol.{features_bitmap}

bit_le : (b : Bool) → bit b ≤ 1
bit_le true = omega arith
bit_le false = omega arith

module _ (f : BitField) where
  open f use {get_bit, set_bit, get_bits, set_bits, set_bit-zero, set_bit-suc, set_bits_lem}

  -- A field that is still zero is written by adding.
  pub set_bits-add :
      (v lo width x : ℕ)
      → x < 2 ^ width
      → v / 2 ^ lo % 2 ^ width ≡ 0
      → set_bits v lo width x ≡ v + x * 2 ^ lo
  set_bits-add v lo width x h z = ground (arith, set_bits_lem v lo width x h)

  features_bitmap_lem :
      (a b c d : Bool) → features_bitmap f a b c d ≡ bit a + 2 * bit b + 4 * bit c + 8 * bit d
  unfolding features_bitmap
  features_bitmap_lem a b c d =
      let x0 = set_bit 0 0 a in
      let x1 = set_bit x0 1 b in
      let x2 = set_bit x1 2 c in
      omega (
        arith,
        bit_le a,
        bit_le b,
        bit_le c,
        set_bit-zero 0 a,
        set_bit-suc x0 0 b,
        set_bit-zero (x0 / 2) b,
        set_bit-suc x1 1 c,
        set_bit-suc (x1 / 2) 0 c,
        set_bit-zero (x1 / 2 / 2) c,
        set_bit-suc x2 2 d,
        set_bit-suc (x2 / 2) 1 d,
        set_bit-suc (x2 / 2 / 2) 0 d,
        set_bit-zero (x2 / 2 / 2 / 2) d,
      )

  pub features_bitmap-lt : (a b c d : Bool) → features_bitmap f a b c d < 16
  features_bitmap-lt a b c d =
      omega (arith, features_bitmap_lem a b c d, bit_le a, bit_le b, bit_le c, bit_le d)

  -- The four flags read back from their bitmap.
  pub features_bitmap_bits :
      (a b c d : Bool)
      → (get_bit (features_bitmap f a b c d) 0 ≡ a)
        × (get_bit (features_bitmap f a b c d) 1 ≡ b)
        × (get_bit (features_bitmap f a b c d) 2 ≡ c)
        × (get_bit (features_bitmap f a b c d) 3 ≡ d)
  unfolding features_bitmap
  features_bitmap_bits a b c d = (
    simp (get_bit-set_bit f),
    simp (get_bit-set_bit f),
    simp (get_bit-set_bit f),
    simp (get_bit-set_bit f),
  )
