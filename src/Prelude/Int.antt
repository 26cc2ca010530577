-- ===== src/Prelude/Int.antt =====
-- Signed integers over the native numbers: the `int` columns, which a decrement may take below 0.
use Prim.Native.Nat.{ℕ, suc, ◌+◌, ◌-◌, ◌≤◌}
use mathlib.Core.Path.{◌≡◌}
use mathlib.Core.Bool.{Bool, false}
use native.Mathlib.Omega.{arith}
use rideway_api.Prelude.Tests.{leb, if◌then◌else◌}

-- `negsuc n` is -(n + 1).
pub data ℤ : Type 0 where
  pos : ℕ → ℤ
  negsuc : ℕ → ℤ

abbrev pub pos_part : ℤ → ℕ
pos_part (pos n) = n
pos_part (negsuc n) = 0

abbrev pub neg_part : ℤ → ℕ
neg_part (pos n) = 0
neg_part (negsuc n) = suc n

abbrev pub sub_ℕ : ℕ → ℕ → ℤ
sub_ℕ a b = if leb b a then pos (a - b) else negsuc (b - a - 1)

infixl 65 ◌+ℤ◌ ◌-ℤ◌
unfoldable pub ◌+ℤ◌ : ℤ → ℤ → ℤ
a +ℤ b = sub_ℕ (pos_part a + pos_part b) (neg_part a + neg_part b)

unfoldable pub ◌-ℤ◌ : ℤ → ℤ → ℤ
a -ℤ b = sub_ℕ (pos_part a + neg_part b) (neg_part a + pos_part b)

pub +ℤ-pos : (a b : ℕ) → pos a +ℤ pos b ≡ pos (a + b)
unfolding ◌+ℤ◌
+ℤ-pos a b = ground arith

pub -ℤ-pos : (a b : ℕ) → b ≤ a → pos a -ℤ pos b ≡ pos (a - b)
unfolding ◌-ℤ◌
-ℤ-pos a b h = ground arith

-- Two additions are one, and the order of steps does not matter.
pub +ℤ_assoc : (k : ℤ) (a b : ℕ) → k +ℤ pos (a + b) ≡ k +ℤ pos a +ℤ pos b
unfolding ◌+ℤ◌
+ℤ_assoc (pos n) a b = ground arith
+ℤ_assoc (negsuc n) a b = ground arith

pub +ℤ_swap : (k : ℤ) (a b : ℕ) → k +ℤ pos a +ℤ pos b ≡ k +ℤ pos b +ℤ pos a
unfolding ◌+ℤ◌
+ℤ_swap (pos n) a b = ground arith
+ℤ_swap (negsuc n) a b = ground arith

pub -ℤ_swap : (k : ℤ) (a b : ℕ) → k -ℤ pos a +ℤ pos b ≡ k +ℤ pos b -ℤ pos a
unfolding ◌+ℤ◌ ◌-ℤ◌
-ℤ_swap (pos n) a b = ground arith
-ℤ_swap (negsuc n) a b = ground arith

-- Two subtractions are one.
pub -ℤ_assoc : (k : ℤ) (a b : ℕ) → k -ℤ pos a -ℤ pos b ≡ k -ℤ pos (a + b)
unfolding ◌-ℤ◌
-ℤ_assoc (pos n) a b = ground arith
-ℤ_assoc (negsuc n) a b = ground arith

-- `n > 0`
abbrev pub is_pos : ℤ → Bool
is_pos (pos n) = leb 1 n
is_pos (negsuc n) = false

pub ℤ_set : IsSet ℤ
ℤ_set = hlevel

abbrev pub leb_ℤ : ℤ → ℤ → Bool
leb_ℤ a b = leb (pos_part a + neg_part b) (pos_part b + neg_part a)
