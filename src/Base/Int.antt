-- ===== src/Base/Int.antt =====
-- Signed integers over the native numbers, for Go's `int` and `int32`.
use Prim.Native.Nat.{ℕ, suc, ◌+◌, ◌-◌, ◌^◌, ◌≤◌}
use mathlib.Core.Bool.{Bool}
use osrm_operator.Base.Tests.{ltb, leb, ◌==◌, if◌then◌else◌}

-- `negsuc n` is -(n + 1).
pub data ℤ : Type 0 where
  pos : ℕ → ℤ
  negsuc : ℕ → ℤ

abbrev pub pos_part : ℤ → ℕ
pos_part (pos n) = n
pos_part (negsuc n) = 0

abbrev pub neg_part : ℤ → ℕ
neg_part (pos n) = 0
neg_part (negsuc n) = suc n

-- a - b, as an integer.
abbrev pub sub_ℕ : ℕ → ℕ → ℤ
sub_ℕ a b = if leb b a then pos (a - b) else negsuc (b - a - 1)

infix 50 ◌≤ℤ◌ ◌<ℤ◌
abbrev pub ◌≤ℤ◌ : ℤ → ℤ → Type 0
a ≤ℤ b = pos_part a + neg_part b ≤ pos_part b + neg_part a

abbrev pub ◌<ℤ◌ : ℤ → ℤ → Type 0
a <ℤ b = suc (pos_part a + neg_part b) ≤ pos_part b + neg_part a

abbrev pub ltb_ℤ : ℤ → ℤ → Bool
ltb_ℤ a b = ltb (pos_part a + neg_part b) (pos_part b + neg_part a)

abbrev pub eq_ℤ : ℤ → ℤ → Bool
eq_ℤ a b = pos_part a + neg_part b == pos_part b + neg_part a

-- The value of a w-bit two's complement word that holds `a`, `half` being 2 ^ (w - 1) and `a` at
-- most one step out of range on either side.
abbrev pub wrap_once : ℕ → ℤ → ℤ
wrap_once half (pos n) = if ltb n half then pos n else sub_ℕ n (half + half)
wrap_once half (negsuc n) = if ltb n half then negsuc n else sub_ℕ (half + half) (suc n)

-- `a + 1` in Go's 64-bit `int`.
abbrev pub succ_int64 : ℤ → ℤ
succ_int64 a = wrap_once (2 ^ 63) (sub_ℕ (pos_part a + 1) (neg_part a))

-- `a - 1` in `int32`.
abbrev pub pred_int32 : ℤ → ℤ
pred_int32 a = wrap_once (2 ^ 31) (sub_ℕ (pos_part a) (neg_part a + 1))
