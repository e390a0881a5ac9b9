-- ===== src/Base/Integers.antt =====
-- The order and the addition of signed integers.
use Prim.Native.Nat.{ℕ, suc, ◌+◌, ◌-◌}
use mathlib.Core.Bool.{Bool, true, false}
use crane_oss.Base.Tests.{ℤ, pos, negsuc, ltb, if◌then◌else◌}

abbrev pub less : ℤ → ℤ → Bool
less (pos a) (pos b) = ltb a b
less (pos a) (negsuc b) = false
less (negsuc a) (pos b) = true
less (negsuc a) (negsuc b) = ltb b a

-- `a` less the number after `b`.
abbrev pub minus_suc : ℕ → ℕ → ℤ
minus_suc a b = if ltb b a then pos (a - suc b) else negsuc (b - a)

infixl 6 ◌+ℤ◌
abbrev pub ◌+ℤ◌ : ℤ → ℤ → ℤ
pos a +ℤ pos b = pos (a + b)
pos a +ℤ negsuc b = minus_suc a b
negsuc a +ℤ pos b = minus_suc b a
negsuc a +ℤ negsuc b = negsuc (suc (a + b))
