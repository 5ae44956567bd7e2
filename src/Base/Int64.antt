-- ===== src/Base/Int64.antt =====
-- `int64_t` as its bit pattern, a number below 2 ^ 64 (two's complement). An overflow of signed
-- arithmetic, which C leaves undefined, wraps here.
use Prim.Native.Nat.{ℕ, ◌+◌, ◌-◌, ◌/◌, ◌%◌, ◌^◌}
use mathlib.Core.Bool.{Bool}
use colorlight_i9_abletonlin.Base.Tests.{ltb, if◌then◌else◌}

abbrev pub add64 : ℕ → ℕ → ℕ
add64 a b = (a + b) % 2 ^ 64

abbrev pub sub64 : ℕ → ℕ → ℕ
sub64 a b = (a + 2 ^ 64 - b) % 2 ^ 64

-- The order of the numbers that the patterns stand for is the order of the patterns moved by 2 ^ 63.
abbrev pub bias : ℕ → ℕ
bias a = (a + 2 ^ 63) % 2 ^ 64

-- `a < b` on `int64_t`.
unfoldable pub slt : ℕ → ℕ → Bool
slt a b = ltb (bias a) (bias b)

abbrev pub is_negative : ℕ → Bool
is_negative a = ltb (2 ^ 63 - 1) a

abbrev pub neg64 : ℕ → ℕ
neg64 a = (2 ^ 64 - a) % 2 ^ 64

-- `llabs`.
abbrev pub abs64 : ℕ → ℕ
abs64 a = if is_negative a then neg64 a else a

-- `a / n` on `int64_t` for a positive constant `n`: C rounds towards zero.
abbrev pub sdiv64 : ℕ → ℕ → ℕ
sdiv64 a n = if is_negative a then neg64 (neg64 a / n) else a / n
