-- ===== src/Prelude/Int.antt =====
-- Go's signed integers: ℤ over the native numbers, and the wrap-around of `int64`.
use Prim.Native.Nat.{ℕ, suc, ◌+◌, ◌-◌, ◌*◌, ◌%◌, ◌^◌, ◌≤◌, ◌<◌}
use mathlib.Core.Path.{◌≡◌, refl}
use mathlib.Core.Bool.{Bool}
use native.Mathlib.Omega.{arith}
use notip_data_consumer.Prelude.Tests.{ltb, leb, if◌then◌else◌}

-- `negsuc n` is -(n + 1).
pub data ℤ : Type 0 where
  pos : ℕ → ℤ
  negsuc : ℕ → ℤ

abbrev pub pos_part : ℤ → ℕ
pos_part (pos n) = n
pos_part (negsuc n) = 0

abbrev pub neg_part : ℤ → ℕ
neg_part (pos n) = 0
neg_part (negsuc n) = suc n

abbrev sub_ℕ : ℕ → ℕ → ℤ
sub_ℕ a b = if leb b a then pos (a - b) else negsuc (b - a - 1)

infixl 65 ◌+ℤ◌
infixl 70 ◌*ℤ◌
infix 50 ◌≤ℤ◌ ◌<ℤ◌
unfoldable pub ◌+ℤ◌ : ℤ → ℤ → ℤ
a +ℤ b = sub_ℕ (pos_part a + pos_part b) (neg_part a + neg_part b)

unfoldable pub ◌*ℤ◌ : ℤ → ℤ → ℤ
a *ℤ b =
    sub_ℕ (pos_part a * pos_part b + neg_part a * neg_part b)
      (pos_part a * neg_part b + neg_part a * pos_part b)

abbrev pub ◌≤ℤ◌ : ℤ → ℤ → Type 0
a ≤ℤ b = pos_part a + neg_part b ≤ pos_part b + neg_part a

abbrev pub ◌<ℤ◌ : ℤ → ℤ → Type 0
a <ℤ b = pos_part a + neg_part b < pos_part b + neg_part a

abbrev pub ltb_ℤ : ℤ → ℤ → Bool
ltb_ℤ a b = ltb (pos_part a + neg_part b) (pos_part b + neg_part a)

-- The 64-bit pattern of an integer, and the `int64` that a pattern stands for.
abbrev bits64 : ℤ → ℕ
bits64 (pos n) = n % 2 ^ 64
bits64 (negsuc n) = 2 ^ 64 - 1 - n % 2 ^ 64

abbrev signed64 : ℕ → ℤ
signed64 b = if ltb b (2 ^ 63) then pos b else negsuc (2 ^ 64 - 1 - b)

-- The result of an `int64` operation whose exact result is the argument.
unfoldable pub int64 : ℤ → ℤ
int64 z = signed64 (bits64 z)

-- The conversion `int32(z)` of Go.
unfoldable pub int32 : ℤ → ℤ
int32 z = let b = bits64 z % 2 ^ 32 in if ltb b (2 ^ 31) then pos b else negsuc (2 ^ 32 - 1 - b)

-- The values of `int64`.
abbrev pub InInt64 : ℤ → Type 0
InInt64 z = (pos_part z < 2 ^ 63) × (neg_part z ≤ 2 ^ 63)

pub int64-InInt64 : (z : ℤ) → InInt64 (int64 z)
unfolding int64
int64-InInt64 (pos n) = ground arith
int64-InInt64 (negsuc n) = ground arith

-- In range nothing wraps.
pub int64_of_InInt64 : (z : ℤ) → InInt64 z → int64 z ≡ z
unfolding int64
int64_of_InInt64 (pos n) h = ground arith
int64_of_InInt64 (negsuc n) h = ground arith

pub +ℤ_parts :
    (a b : ℤ)
    → pos_part (a +ℤ b) + neg_part a + neg_part b ≡ neg_part (a +ℤ b) + pos_part a + pos_part b
unfolding ◌+ℤ◌
+ℤ_parts a b = ground arith

-- 2^63 milliseconds as nanoseconds wrap around.
int64_wraps : int64 (pos (2 ^ 63) *ℤ pos 1000000) ≡ pos 0
unfolding int64 ◌*ℤ◌
int64_wraps = refl

negative_wraps : int64 (negsuc (2 ^ 63)) ≡ pos (2 ^ 63 - 1)
unfolding int64
negative_wraps = refl
