-- ===== src/Prelude/Float.antt =====
-- Python's floats: the finite ones counted in a fixed unit, the infinite ones, and the one that is
-- no number, which compares with none.
use xbotics_hey_robot.Prelude.Int.{ℤ, ltb_ℤ, magnitude, ◌+ℤ◌}
use mathlib.Core.Bool.{Bool, true, false}

pub data Float : Type 0 where
  finite : ℤ → Float
  infinity minus_infinity not_a_number : Float

-- `a < b`
unfoldable pub ltb_float : Float → Float → Bool
ltb_float not_a_number b = false
ltb_float infinity b = false
ltb_float (finite a) (finite b) = ltb_ℤ a b
ltb_float (finite a) infinity = true
ltb_float (finite a) minus_infinity = false
ltb_float (finite a) not_a_number = false
ltb_float minus_infinity (finite b) = true
ltb_float minus_infinity infinity = true
ltb_float minus_infinity minus_infinity = false
ltb_float minus_infinity not_a_number = false

-- `abs(a)`
unfoldable pub abs_float : Float → Float
abs_float (finite a) = finite (magnitude a)
abs_float infinity = infinity
abs_float minus_infinity = infinity
abs_float not_a_number = not_a_number

-- `a + b`
unfoldable pub add_float : Float → Float → Float
unfolding ◌+ℤ◌
add_float (finite a) (finite b) = finite (a +ℤ b)
add_float (finite a) infinity = infinity
add_float (finite a) minus_infinity = minus_infinity
add_float (finite a) not_a_number = not_a_number
add_float not_a_number b = not_a_number
add_float infinity (finite b) = infinity
add_float infinity infinity = infinity
add_float infinity minus_infinity = not_a_number
add_float infinity not_a_number = not_a_number
add_float minus_infinity (finite b) = minus_infinity
add_float minus_infinity infinity = not_a_number
add_float minus_infinity minus_infinity = minus_infinity
add_float minus_infinity not_a_number = not_a_number
