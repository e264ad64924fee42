-- ===== src/Prelude/Int.antt =====
-- Signed integers, and Go's conversions between `int64` and `uint64`.
use Prim.Native.Nat.{ℕ, suc, ◌+◌, ◌-◌, ◌%◌, ◌^◌, ◌<◌, ◌≤◌}
use mathlib.Core.Path.{◌≡◌, ◌∙◌, ap}
use mathlib.Core.Bool.{Bool}
use native.Mathlib.Omega.{arith}
use gosoulseek.Prelude.Tests.{ltb, leb, if◌then◌else◌, ◌==◌}

-- `negsuc n` is -(n + 1).
pub data ℤ : Type 0 where
  pos : ℕ → ℤ
  negsuc : ℕ → ℤ

abbrev pub pos_part : ℤ → ℕ
pos_part (pos n) = n
pos_part (negsuc n) = 0

abbrev pub neg_part : ℤ → ℕ
neg_part (pos n) = 0
neg_part (negsuc n) = suc n

-- a - b, as an integer.
abbrev pub sub_ℕ : ℕ → ℕ → ℤ
sub_ℕ a b = if leb b a then pos (a - b) else negsuc (b - a - 1)

infixl 65 ◌+ℤ◌ ◌-ℤ◌
abbrev pub ◌+ℤ◌ : ℤ → ℤ → ℤ
a +ℤ b = sub_ℕ (pos_part a + pos_part b) (neg_part a + neg_part b)

abbrev pub ◌-ℤ◌ : ℤ → ℤ → ℤ
a -ℤ b = sub_ℕ (pos_part a + neg_part b) (neg_part a + pos_part b)

-- a < b
abbrev pub ltbℤ : ℤ → ℤ → Bool
ltbℤ a b = ltb (pos_part a + neg_part b) (pos_part b + neg_part a)

-- a = b
abbrev pub eqbℤ : ℤ → ℤ → Bool
eqbℤ a b = (pos_part a + neg_part b) == (pos_part b + neg_part a)

-- `int64(u)` of a `uint64`.
pub to_int64 : ℕ → ℤ
to_int64 u = if ltb u (2 ^ 63) then pos u else negsuc (2 ^ 64 - 1 - u)

-- `uint64(z)` of an `int64`.
unfoldable pub to_uint64 : ℤ → ℕ
to_uint64 (pos n) = n
to_uint64 (negsuc n) = 2 ^ 64 - 1 - n

abbrev pub IsInt64 : ℤ → Type 0
IsInt64 (pos n) = n < 2 ^ 63
IsInt64 (negsuc n) = n < 2 ^ 63

pub to_int64-to_uint64 : (z : ℤ) → IsInt64 z → to_int64 (to_uint64 z) ≡ z
unfolding to_int64 to_uint64
to_int64-to_uint64 (pos n) h = ground arith
to_int64-to_uint64 (negsuc n) h = ground arith

pub to_uint64_lt : (z : ℤ) → IsInt64 z → to_uint64 z < 2 ^ 64
unfolding to_uint64
to_uint64_lt (pos n) h = omega arith
to_uint64_lt (negsuc n) h = omega arith

pub to_int64-IsInt64 : (u : ℕ) → u < 2 ^ 64 → IsInt64 (to_int64 u)
unfolding to_int64
to_int64-IsInt64 u h = ground arith

-- The `int64` that is left of an integer: the result of Go's `+` and `-`.
unfoldable pub wrap_int64 : ℤ → ℤ
wrap_int64 (pos n) = to_int64 (n % 2 ^ 64)
wrap_int64 (negsuc n) = to_int64 (2 ^ 64 - 1 - n % 2 ^ 64)

pub wrap_int64_pos : (n : ℕ) → n < 2 ^ 63 → wrap_int64 (pos n) ≡ pos n
unfolding wrap_int64 to_int64
wrap_int64_pos n h = ground arith

pub wrap_int64_difference :
    (a b : ℕ) → b ≤ a → a < 2 ^ 63 → wrap_int64 (pos a -ℤ pos b) ≡ pos (a - b)
wrap_int64_difference a b below small =
    let exact : pos a -ℤ pos b ≡ pos (a - b) = ground (arith, below) in
    ap wrap_int64 exact ∙ wrap_int64_pos (a - b) (omega (arith, small))

pub wrap_int64_sum : (a b : ℕ) → a + b < 2 ^ 63 → wrap_int64 (pos a +ℤ pos b) ≡ pos (a + b)
wrap_int64_sum a b small =
    let exact : pos a +ℤ pos b ≡ pos (a + b) = ground arith in
    ap wrap_int64 exact ∙ wrap_int64_pos (a + b) small
