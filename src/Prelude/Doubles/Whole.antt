-- ===== src/Prelude/Doubles/Whole.antt =====
-- Whole numbers in the place of `double`, for examples.
use accelsim_lite.Prelude.Doubles.{Doubles}
use Prim.Native.Nat.{ℕ, ◌+◌, ◌-◌, ◌*◌, ◌/◌}
use accelsim_lite.Prelude.Tests.{ltb, leb, ◌==◌}

abbrev pub whole_numbers : Doubles
whole_numbers = record {
  Double = ℕ;
  plus = λ a b. a + b;
  times = λ a b. a * b;
  over = λ a b. a / b;
  minus = λ a b. a - b;
  is_less = ltb;
  floor = λ a. a;
  ceil = λ a. a;
  of_size = λ n. n;
  decimal = λ a b. a / b;
  at_least = λ a b. leb b a;
  is_zero = λ a. a == 0;
}
