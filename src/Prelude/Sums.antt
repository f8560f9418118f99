-- ===== src/Prelude/Sums.antt =====
-- Sums over the numbers below a bound.
use Prim.Native.Nat.{ℕ, zero, suc, ◌+◌, ◌<◌}
use mathlib.Core.Path.{◌≡◌, refl}
use mathlib.Core.Logic.{◌≢◌}
use native.Mathlib.Decide.{dec_lt}
use native.Mathlib.Omega.{arith}

abbrev pub sum_below : ℕ → (ℕ → ℕ) → ℕ
sum_below zero f = 0
sum_below (suc n) f = sum_below n f + f n

pub sum_below-eq :
    (n : ℕ) (f g : ℕ → ℕ) → ((i : ℕ) → i < n → g i ≡ f i) → sum_below n g ≡ sum_below n f
sum_below-eq zero f g h = refl
sum_below-eq (suc n) f g h =
    omega (arith, h n (omega arith), sum_below-eq n f g (λ i lt. h i (omega arith)))

-- A change at one index.
pub sum_below_change :
    (n : ℕ) (f g : ℕ → ℕ) (idx : ℕ)
    → idx < n
    → ((i : ℕ) → i < n → i ≢ idx → g i ≡ f i)
    → sum_below n g + f idx ≡ sum_below n f + g idx
sum_below_change zero f g idx lt h = absurd (omega arith)
sum_below_change (suc n) f g idx lt h = elim (dec_lt idx n) [
  | yes below ↦ omega (
    arith,
    h n (omega arith) (omega arith),
    sum_below_change n f g idx below (λ i lt' ne. h i (omega arith) ne),
  )
  | no last ↦
      let e : idx ≡ n = omega arith in
      rw e (omega (arith, sum_below-eq n f g (λ i lt'. h i (omega arith) (omega arith))))
]

pub sum_below-add_one : (n : ℕ) (f : ℕ → ℕ) → sum_below (n + 1) f ≡ sum_below n f + f n
sum_below-add_one n f = let e : n + 1 ≡ suc n = omega arith in rw e

pub sum_below_ones : (n : ℕ) (f : ℕ → ℕ) → ((i : ℕ) → i < n → f i ≡ 1) → sum_below n f ≡ n
sum_below_ones zero f h = refl
sum_below_ones (suc n) f h =
    omega (arith, h n (omega arith), sum_below_ones n f (λ i lt. h i (omega arith)))
