-- ===== src/Common/Int.antt =====
-- Signed integers over the native numbers, for the `i64` times of the runtime.
use Prim.Native.Nat.{ℕ, suc, ◌+◌, ◌-◌, ◌≤◌, compare, Ordering}
use mathlib.Core.Bool.{Bool}
use zk_ie.Common.Tests.{ltb, leb, if◌then◌else◌, i64_size}

-- `negsuc n` is -(n + 1).
pub data ℤ : Type 0 where
  pos : ℕ → ℤ
  negsuc : ℕ → ℤ

abbrev pub pos_part : ℤ → ℕ
pos_part (pos n) = n
pos_part (negsuc n) = 0

abbrev pub neg_part : ℤ → ℕ
neg_part (pos n) = 0
neg_part (negsuc n) = suc n

-- a - b, as an integer.
abbrev pub sub_ℕ : ℕ → ℕ → ℤ
sub_ℕ a b = if leb b a then pos (a - b) else negsuc (b - a - 1)

abbrev pub cmp_ℤ : ℤ → ℤ → Ordering
cmp_ℤ a b = compare (pos_part a + neg_part b) (pos_part b + neg_part a)

infix 50 ◌≤ℤ◌
abbrev pub ◌≤ℤ◌ : ℤ → ℤ → Type 0
a ≤ℤ b = pos_part a + neg_part b ≤ pos_part b + neg_part a

abbrev pub leb_ℤ : ℤ → ℤ → Bool
leb_ℤ a b = leb (pos_part a + neg_part b) (pos_part b + neg_part a)

-- `i64::saturating_sub`: the difference, held to the range of `i64`.
abbrev pub saturate : ℤ → ℤ
saturate (pos n) = if ltb n i64_size then pos n else pos 9223372036854775807
saturate (negsuc n) = if ltb n i64_size then negsuc n else negsuc 9223372036854775807

unfoldable pub saturating_sub : ℤ → ℤ → ℤ
saturating_sub a b = saturate (sub_ℕ (pos_part a + neg_part b) (pos_part b + neg_part a))
