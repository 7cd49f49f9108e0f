-- ===== src/Prelude/Int.antt =====
-- Signed integers: Go's int, int64 and time.Duration, by value. `negsuc n` is -(n + 1).
use Prim.Native.Nat.{ℕ, suc, ◌+◌, ◌-◌, ◌*◌, ◌%◌, ◌^◌, ◌≤◌, ◌<◌, min}
use mathlib.Core.Path.{◌≡◌}
use native.Mathlib.Omega.{arith}
use mathlib.Core.Bool.{Bool, true, false, ◌&&◌}
use vial_gateway.Prelude.Tests.{leb, ◌==◌, if◌then◌else◌}

pub data ℤ : Type 0 where
  pos : ℕ → ℤ
  negsuc : ℕ → ℤ

abbrev pub pos_part : ℤ → ℕ
pos_part (pos n) = n
pos_part (negsuc n) = 0

abbrev pub neg_part : ℤ → ℕ
neg_part (pos n) = 0
neg_part (negsuc n) = suc n

-- a - b, as an integer.
abbrev pub sub_ℕ : ℕ → ℕ → ℤ
sub_ℕ a b = if leb b a then pos (a - b) else negsuc (b - a - 1)

infixl 65 ◌+ℤ◌
unfoldable pub ◌+ℤ◌ : ℤ → ℤ → ℤ
a +ℤ b = sub_ℕ (pos_part a + pos_part b) (neg_part a + neg_part b)

-- n * a
unfoldable pub scale : ℕ → ℤ → ℤ
scale n a = sub_ℕ (n * pos_part a) (n * neg_part a)

-- a <= b
abbrev pub leb_ℤ : ℤ → ℤ → Bool
leb_ℤ a b = leb (pos_part a + neg_part b) (pos_part b + neg_part a)

unfoldable pub min_ℤ : ℤ → ℤ → ℤ
min_ℤ a b = if leb_ℤ a b then a else b

-- The int64 that a sum of two of them wraps to.
unfoldable pub wrap_i64 : ℤ → ℤ
wrap_i64 a =
    let low = (pos_part a + 2 ^ 64 - neg_part a) % 2 ^ 64 in
    if leb (2 ^ 63) low then sub_ℕ low (2 ^ 64) else pos low

pub sub_ℕ_of_le : (a b : ℕ) → b ≤ a → sub_ℕ a b ≡ pos (a - b)
sub_ℕ_of_le a b h = ground arith

pub wrap_i64-small : (n : ℕ) → n + 1 < 2 ^ 63 → wrap_i64 (pos 1 +ℤ pos n) ≡ pos (1 + n)
unfolding wrap_i64 ◌+ℤ◌
wrap_i64-small n h = ground arith

pub scale-pos : (n m : ℕ) → scale n (pos m) ≡ pos (n * m)
unfolding scale
scale-pos n m = ground arith

pub +ℤ-pos : (a b : ℕ) → pos a +ℤ pos b ≡ pos (a + b)
unfolding ◌+ℤ◌
+ℤ-pos a b = ground arith

pub min_ℤ-pos : (a b : ℕ) → min_ℤ (pos a) (pos b) ≡ pos (min a b)
unfolding min_ℤ
min_ℤ-pos a b = ground arith

pub +ℤ-sub : (a b : ℕ) → b ≤ a → pos a +ℤ sub_ℕ 0 b ≡ pos (a - b)
unfolding ◌+ℤ◌
+ℤ-sub a b h = ground arith

-- z < 0 and z <= 0
abbrev pub is_neg : ℤ → Bool
is_neg (pos n) = false
is_neg (negsuc n) = true

abbrev pub not_pos : ℤ → Bool
not_pos (pos n) = leb n 0
not_pos (negsuc n) = true

abbrev pub eq_ℤ : ℤ → ℤ → Bool
eq_ℤ a b = pos_part a == pos_part b && neg_part a == neg_part b
