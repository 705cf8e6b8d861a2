-- ===== src/Gripper/Units.antt =====
-- The gripper's bytes and widths (robotiq.py).
use zero_franky.Base.{
  true, ℕ, ◌≤◌, String, ◌≡◌, ap, Bool, Option, none, some, ◌||◌, leb, arith, if◌then◌else◌,
}
use zero_franky.Base.Int.{ℤ, pos, negsuc}
use zero_franky.Python.Errors.{Result, ok, raise, error, value_error, type_error, ◌>>=◌}
use zero_franky.Python.Values.{Float, Value, bool, int, float}
use zero_franky.Python.Attributes.{FloatOps, to_float}

-- Python's `round` of a double to the nearest integer, ties to even: it raises on NaN and infinities.
pub record RoundOps : Type 0 where
  pub round : Float → Result ℤ

-- The doubles 0.0, 1.0, 255.0 and 0.085
abbrev pub zero_float : Float
zero_float = record { bits = 0 }

abbrev pub one_float : Float
one_float = record { bits = 0x3ff0000000000000 }

abbrev pub full_float : Float
full_float = record { bits = 0x406fe00000000000 }

abbrev pub default_gripper_max_width_m : Float
default_gripper_max_width_m = record { bits = 0x3fb5c28f5c28f5c3 }

-- `value_int if 0 <= value_int <= 255`, or a ValueError
unfoldable pub in_byte : ℤ → String → Result ℕ
in_byte (pos n) name = if leb n 255 then ok n else error value_error (name)
in_byte (negsuc n) name = error value_error name

in_byte-le : (z : ℤ) (name : String) (n : ℕ) → in_byte z name ≡ ok n → (z ≡ pos n) × (n ≤ 255)
unfolding in_byte
in_byte-le (pos m) name n h = ground (arith, h)
in_byte-le (negsuc m) name n h = ground (arith, h)

module _ ⦃rounding : RoundOps⦄ where
  -- `int(round(value))`
  unfoldable pub rounded : Value → Result ℤ
  rounded (int n) = ok n
  rounded (bool b) = ok (pos (if b then 1 else 0))
  rounded (float x) = rounding.round x
  rounded _ = error type_error "type doesn't define __round__ method"

  -- `_clamp_byte`
  unfoldable pub clamp_byte : Value → String → Result ℕ
  unfolding rounded in_byte
  clamp_byte value name = do n ← rounded value; in_byte n name

  -- A value that is accepted as a byte is rounded to it, and is at most 255.
  pub clamp_byte-le :
      (value : Value) (name : String) (n : ℕ)
      → clamp_byte value name ≡ ok n
      → (rounded value ≡ ok (pos n)) × (n ≤ 255)
  unfolding clamp_byte
  clamp_byte-le value name n = go (rounded value)
    where
      go : (r : Result ℤ) → (r >>= λ z. in_byte z name) ≡ ok n → (r ≡ ok (pos n)) × (n ≤ 255)
      go (ok z) h = let (e, b) = in_byte-le z name n h in (ap ok e, b)
      go (raise e) h = ground (arith, h)

  pub leb-clamp_byte :
      (value : Value) (name : String) (n : ℕ) → clamp_byte value name ≡ ok n → leb n 255 ≡ true
  leb-clamp_byte value name n h = let b = (clamp_byte-le value name n h).1 in ground (arith, b)

module _ ⦃rounding : RoundOps⦄ ⦃ops : FloatOps⦄ where
  -- `max(width_m, 0.0)` and `min(width_m, max_width_m)`
  unfoldable pub at_least_zero : Float → Float
  at_least_zero x = if ops.lt x zero_float then zero_float else x

  unfoldable pub at_most : Float → Float → Float
  at_most limit x = if ops.lt limit x then limit else x

  -- `x <= 0.0`
  unfoldable pub not_positive : Float → Bool
  not_positive x = ops.lt x zero_float || ops.eq x zero_float

  unfoldable pub position_of : Float → Value → Result ℤ
  unfolding at_least_zero at_most rounded
  position_of max_width_m (float x) =
      let width_m : Float = at_most max_width_m (at_least_zero x) in
      rounded (float (ops.mul (ops.sub one_float (ops.div width_m max_width_m)) full_float))
  position_of max_width_m _ = error type_error "float"

  -- `_width_m_to_position`
  unfoldable pub width_m_to_position : Value → Float → Result ℤ
  unfolding not_positive position_of
  width_m_to_position width_m max_width_m =
      if not_positive max_width_m
      then error value_error "max_width_m must be positive"
      else to_float width_m >>= position_of max_width_m

  unfoldable pub byte_width : Float → Option Float → Result Value
  byte_width max_width_m none = error type_error "int"
  byte_width max_width_m (some p) =
      ok (float (ops.mul (ops.sub one_float (ops.div p full_float)) max_width_m))

  -- `_position_to_width_m`
  unfoldable pub position_to_width_m : Value → Float → Result Value
  unfolding clamp_byte byte_width
  position_to_width_m position max_width_m = do
    n ← clamp_byte position "position"
    byte_width max_width_m (ops.of_int (pos n))
