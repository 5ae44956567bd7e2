-- ===== src/Doubles.antt =====
-- The `double` of the C implementation, which the firmware computes tempi and beats with: a type
-- and its operations, which the definitions that use them take as a parameter.
use colorlight_i9_abletonlin.Base.{ℕ, Bool}

pub record Doubles : Type 1 where
  pub Double : Type 0
  -- The literal of this value, and the conversion of an unsigned number.
  pub of_nat : ℕ → Double
  -- `(double)x` and `(int64_t)x` on `int64_t` patterns.
  pub of_int64 : ℕ → Double
  pub to_int64 : Double → ℕ
  pub plus : Double → Double → Double
  pub times : Double → Double → Double
  pub over : Double → Double → Double
  pub less : Double → Double → Bool
  pub half : Double
