-- ===== src/Prelude/Doubles.antt =====
-- `double`: its operations as a parameter, and `std::sort` over it.
pub mod Whole
use Prim.Native.Nat.{ℕ}
use mathlib.Core.Bool.{Bool}
use mathlib.Core.List.{List, [], ◌∷◌}
use accelsim_lite.Prelude.Tests.{if◌then◌else◌}

-- The operations on `double` that the sources use. `decimal a b` is the literal for a / b.
pub record Doubles : Type 1 where
  pub Double : Type 0
  pub plus : Double → Double → Double
  pub times : Double → Double → Double
  pub over : Double → Double → Double
  pub minus : Double → Double → Double
  pub is_less : Double → Double → Bool
  pub floor : Double → ℕ
  pub ceil : Double → ℕ
  pub of_size : ℕ → Double
  pub decimal : ℕ → ℕ → Double
  pub at_least : Double → Double → Bool
  pub is_zero : Double → Bool

module _ (F : Doubles) where
  -- `std::sort`, as an insertion sort.
  unfoldable pub insert_sorted : F.Double → List F.Double → List F.Double
  insert_sorted x [] = x ∷ []
  insert_sorted x (y ∷ ys) = if F.is_less y x then y ∷ insert_sorted x ys else x ∷ y ∷ ys

  unfoldable pub sort : List F.Double → List F.Double
  unfolding insert_sorted
  sort [] = []
  sort (x ∷ xs) = insert_sorted x (sort xs)
