-- ===== src/Base/Integers.antt =====
-- The integers, for the numbers of a configuration.
use Prim.Native.Nat.{ℕ, ◌≤◌}
use mathlib.Core.Path.{◌≡◌, refl}
use mathlib.Core.Bool.{Bool, true, false, ◌||◌}
use native.Mathlib.Omega.{arith}
use observe_agent.Base.Tests.{◌==◌, ltb, if◌then◌else◌}

pub data ℤ : Type 0 where
  pos negsuc : ℕ → ℤ

-- `if v == 0 { v = d }`
abbrev pub or_default : ℕ → ℤ → ℤ
or_default d (pos n) = if n == 0 then pos d else pos n
or_default d (negsuc n) = negsuc n

-- `v < lo || v > hi`
abbrev pub outside : ℕ → ℕ → ℤ → Bool
outside lo hi (pos n) = ltb n lo || ltb hi n
outside lo hi (negsuc n) = true

-- `v > w`
abbrev pub above : ℤ → ℤ → Bool
above (pos m) (pos n) = ltb n m
above (pos m) (negsuc n) = true
above (negsuc m) (pos n) = false
above (negsuc m) (negsuc n) = ltb m n

-- The number lies in the bounds.
pub record Within (lo hi : ℕ) (v : ℤ) : Type 0 where
  pub value : ℕ
  pub same : v ≡ pos value
  pub at_least : lo ≤ value
  pub at_most : value ≤ hi

pub outside-Within : (lo hi : ℕ) (v : ℤ) → outside lo hi v ≡ false → Within lo hi v
outside-Within lo hi (pos n) h = record {
  value = n;
  same = refl;
  at_least = ground arith;
  at_most = ground arith;
}
outside-Within lo hi (negsuc n) h = cc

pub or_default_twice : (d : ℕ) (v : ℤ) → or_default d (or_default d v) ≡ or_default d v
or_default_twice d (pos n) = ground arith
or_default_twice d (negsuc n) = refl
