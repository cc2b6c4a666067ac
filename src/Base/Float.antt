-- ===== src/Base/Float.antt =====
-- Go's `float64`, as far as the program uses it: scores that are compared. A value is NaN, for
-- which every comparison is false, or an integer number of thousandths; infinities, and numbers
-- that are no multiple of 1/1000, are left out.
use Prim.Native.Nat.{ℕ}
use mathlib.Core.Bool.{Bool, false}
use dependency_firewall.Base.Int.{ℤ, pos, ltb_ℤ, leb_ℤ}

pub data Float64 : Type 0 where
  nan : Float64
  num : ℤ → Float64

-- n / 1000
abbrev pub thousandths : ℕ → Float64
thousandths n = num (pos n)

-- a < b
abbrev pub float_lt : Float64 → Float64 → Bool
float_lt nan b = false
float_lt (num a) nan = false
float_lt (num a) (num b) = ltb_ℤ a b

-- a <= b
abbrev pub float_le : Float64 → Float64 → Bool
float_le nan b = false
float_le (num a) nan = false
float_le (num a) (num b) = leb_ℤ a b
