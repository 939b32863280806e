-- ===== src/Base/Float.antt =====
-- Go's `float64`, of which the program compares values and prints them (Detect divides some, by a
-- parameter). A finite value is a
-- multiple of 2^-1074, the least positive one, so it is given by its sign and that multiple.
use Prim.Native.Nat.{ℕ, ◌+◌, ◌*◌, ◌^◌}
use mathlib.Core.Path.{◌≡◌}
use mathlib.Core.Logic.{◌≢◌}
use mathlib.Core.Bool.{Bool, true, false, not}
use native.Mathlib.Omega.{arith}
use ldndrc.Base.Tests.{ltb, leb}

pub data Float64 : Type 0 where
  nan neg_inf pos_inf : Float64
  neg pos : ℕ → Float64

-- a < b: false if an operand is a NaN; -0 and 0 are equal
unfoldable pub flt : Float64 → Float64 → Bool
flt nan b = false
flt neg_inf nan = false
flt neg_inf neg_inf = false
flt neg_inf b = true
flt pos_inf b = false
flt (neg m) nan = false
flt (neg m) neg_inf = false
flt (neg m) pos_inf = true
flt (neg m) (neg n) = ltb n m
flt (neg m) (pos n) = ltb 0 (m + n)
flt (pos m) pos_inf = true
flt (pos m) (pos n) = ltb m n
flt (pos m) b = false

-- a <= b
unfoldable pub fle : Float64 → Float64 → Bool
fle nan b = false
fle neg_inf nan = false
fle neg_inf b = true
fle pos_inf pos_inf = true
fle pos_inf b = false
fle (neg m) nan = false
fle (neg m) neg_inf = false
fle (neg m) pos_inf = true
fle (neg m) (neg n) = leb n m
fle (neg m) (pos n) = true
fle (pos m) pos_inf = true
fle (pos m) (pos n) = leb m n
fle (pos m) (neg n) = leb (m + n) 0
fle (pos m) b = false

-- The constants 16 and 25 of the program
unfoldable pub of_int : ℕ → Float64
of_int n = pos (n * 2 ^ 1074)

-- Only with a NaN do both a >= b and a < b fail.
pub fle-not-flt : (a b : Float64) → a ≢ nan → b ≢ nan → fle b a ≡ not (flt a b)
unfolding fle flt
fle-not-flt a b ha hb = ground arith
