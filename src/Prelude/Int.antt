-- ===== src/Prelude/Int.antt =====
-- Signed integers over the native numbers, under the library's names, and the cast of a u32 to an i32.
use Prim.Native.Nat.{ℕ, suc, ◌+◌, ◌-◌, ◌%◌, ◌^◌, ◌≤◌, ◌<◌}
use mathlib.Core.Path.{◌≡◌}
use mathlib.Core.Bool.{Bool}
use mushroom.Prelude.Tests.{ltb, ◌==◌, if◌then◌else◌}
use native.Mathlib.Omega.{arith}

-- `negsuc n` is -(n + 1).
pub data ℤ : Type 0 where
  pos : ℕ → ℤ
  negsuc : ℕ → ℤ

abbrev pub pos_part : ℤ → ℕ
pos_part (pos n) = n
pos_part (negsuc n) = 0

abbrev pub neg_part : ℤ → ℕ
neg_part (pos n) = 0
neg_part (negsuc n) = suc n

infix 50 ◌<ℤ◌
abbrev pub ◌<ℤ◌ : ℤ → ℤ → Type 0
a <ℤ b = pos_part a + neg_part b < pos_part b + neg_part a

abbrev pub ltb_ℤ : ℤ → ℤ → Bool
ltb_ℤ a b = ltb (pos_part a + neg_part b) (pos_part b + neg_part a)

abbrev pub eqb_ℤ : ℤ → ℤ → Bool
eqb_ℤ a b = pos_part a + neg_part b == pos_part b + neg_part a

-- The cast `as i32` of a u32: the same bits, so that a value from 2 ^ 31 on is negative.
unfoldable pub as_i32 : ℕ → ℤ
as_i32 w = if ltb (w % 2 ^ 32) (2 ^ 31) then pos (w % 2 ^ 32) else negsuc (2 ^ 32 - w % 2 ^ 32 - 1)

pub as_i32_small : (w : ℕ) → w < 2 ^ 31 → as_i32 w ≡ pos w
unfolding as_i32
as_i32_small w h = ground arith

pub as_i32_large : (w : ℕ) → 2 ^ 31 ≤ w → w < 2 ^ 32 → as_i32 w ≡ negsuc (2 ^ 32 - w - 1)
unfolding as_i32
as_i32_large w h l = ground arith

pub pos_part-as_i32 : (w : ℕ) → (pos_part (as_i32 w) ≤ w) × (pos_part (as_i32 w) < 2 ^ 31)
unfolding as_i32
pos_part-as_i32 w = ground arith
