-- ===== src/Prelude/Ints.antt =====
-- Signed numbers, for `int` where it does not overflow.
use Prim.Native.Nat.{ℕ, suc, ◌+◌, ◌-◌, zero, ◌*◌}
use mathlib.Core.Path.{◌≡◌, refl}
use mathlib.Core.Bool.{Bool, true, false}
use native.Mathlib.Omega.{arith}
use accelsim_lite.Prelude.Tests.{ltb, leb, if◌then◌else◌}

pub data ℤ : Type 0 where
  pos negsuc : ℕ → ℤ

infixl 6 ◌+ℤ◌
-- The sum, with `negsuc n` for - (n + 1).
abbrev pub ◌+ℤ◌ : ℤ → ℤ → ℤ
pos a +ℤ pos b = pos (a + b)
pos a +ℤ negsuc b = if ltb b a then pos (a - suc b) else negsuc (b - a)
negsuc a +ℤ pos b = if ltb a b then pos (b - suc a) else negsuc (a - b)
negsuc a +ℤ negsuc b = negsuc (suc (a + b))

-- The test `a <= b`.
abbrev pub at_most : ℤ → ℤ → Bool
at_most (pos a) (pos b) = leb a b
at_most (pos a) (negsuc b) = false
at_most (negsuc a) (pos b) = true
at_most (negsuc a) (negsuc b) = leb b a

pub at_most_trans : (a b c : ℤ) → at_most a b ≡ true → at_most b c ≡ true → at_most a c ≡ true
at_most_trans (pos a) (pos b) (pos c) h k = ground (arith, h, k)
at_most_trans (pos a) (pos b) (negsuc c) h k = ground (arith, h, k)
at_most_trans (pos a) (negsuc b) c h k = absurd (ground (arith, h))
at_most_trans (negsuc a) (pos b) (pos c) h k = refl
at_most_trans (negsuc a) (pos b) (negsuc c) h k = absurd (ground (arith, k))
at_most_trans (negsuc a) (negsuc b) (pos c) h k = refl
at_most_trans (negsuc a) (negsuc b) (negsuc c) h k = ground (arith, h, k)

pub at_most_add : (a b c : ℤ) → at_most a b ≡ true → at_most (a +ℤ c) (b +ℤ c) ≡ true
at_most_add (pos a) (pos b) (pos c) h = ground (arith, h)
at_most_add (pos a) (pos b) (negsuc c) h = ground (arith, h)
at_most_add (pos a) (negsuc b) c h = absurd (ground (arith, h))
at_most_add (negsuc a) (pos b) (pos c) h = ground (arith, h)
at_most_add (negsuc a) (pos b) (negsuc c) h = ground (arith, h)
at_most_add (negsuc a) (negsuc b) (pos c) h = ground (arith, h)
at_most_add (negsuc a) (negsuc b) (negsuc c) h = ground (arith, h)

pub at_most_refl : (a : ℤ) → at_most a a ≡ true
at_most_refl (pos a) = ground arith
at_most_refl (negsuc a) = ground arith

-- The number - n.
abbrev pub negated : ℕ → ℤ
negated zero = pos 0
negated (suc n) = negsuc n

infixl 7 ◌*ℤ◌
abbrev pub ◌*ℤ◌ : ℤ → ℤ → ℤ
pos a *ℤ pos b = pos (a * b)
pos a *ℤ negsuc b = negated (a * suc b)
negsuc a *ℤ pos b = negated (suc a * b)
negsuc a *ℤ negsuc b = pos (suc a * suc b)

infixl 6 ◌-ℤ◌
abbrev pub ◌-ℤ◌ : ℤ → ℤ → ℤ
a -ℤ pos b = a +ℤ negated b
a -ℤ negsuc b = a +ℤ pos (suc b)
