-- ===== src/Prelude/Decimal.antt =====
-- Numbers in decimal, as `operator<<` and `std::to_string` write them.
use accelsim_lite.Prelude.Text.{Text}
use Prim.Native.Nat.{ℕ, zero, suc, ◌+◌, ◌/◌, ◌%◌, ◌≤◌, ◌<◌}
use mathlib.Core.Path.{◌≡◌, refl, subst}
use mathlib.Core.Logic.{inl, inr}
use mathlib.Core.List.{[], ◌∷◌}
use native.Mathlib.Omega.{arith}
use accelsim_lite.Prelude.Tests.{ltb, if◌then◌else◌, Bool-cases}
use accelsim_lite.Prelude.Lists.{All}

-- The digits of `n` before the text, on fuel.
unfoldable pub digits_before : ℕ → ℕ → Text → Text
digits_before zero n text = text
digits_before (suc fuel) n text =
    let more = digits_before fuel (n / 10) ((b'0' + n % 10) ∷ text) in
    if ltb n 10 then (b'0' + n) ∷ text else more

unfoldable pub decimal : ℕ → Text
unfolding digits_before
decimal n = digits_before (suc n) n []

abbrev pub IsDigit : ℕ → Type 0
IsDigit c = (b'0' ≤ c) × (c ≤ b'9')

digits_before-IsDigit :
    (fuel n : ℕ) (text : Text)
    → n < fuel
    → All IsDigit text
    → All IsDigit (digits_before fuel n text)
unfolding digits_before
digits_before-IsDigit zero n text h all = all
digits_before-IsDigit (suc fuel) n text h all = elim (Bool-cases (ltb n 10)) [
  | inl e ↦ simp e ((omega arith, ground (arith, e)), all)
  | inr e ↦ simp e (
      digits_before-IsDigit fuel (n / 10) ((b'0' + n % 10) ∷ text) (ground (arith, e, h))
        ((omega arith, omega arith), all))
]

-- Every character of a number is a digit.
pub decimal-IsDigit : (n : ℕ) → All IsDigit (decimal n)
unfolding decimal
decimal-IsDigit n = digits_before-IsDigit (suc n) n [] (omega arith) tt

digits_before-starts :
    (fuel n : ℕ) (text : Text)
    → n < fuel
    → (d : ℕ) × (rest : Text) × (digits_before fuel n text ≡ d ∷ rest)
unfolding digits_before
digits_before-starts zero n text h = absurd (omega (arith, h))
digits_before-starts (suc fuel) n text h = elim (Bool-cases (ltb n 10)) [
  | inl e ↦ (b'0' + n, text, simp e refl)
  | inr e ↦
      let (d, rest, starts) =
        digits_before-starts fuel (n / 10) ((b'0' + n % 10) ∷ text) (ground (arith, e, h)) in
      (d, rest, simp e starts)
]

-- A number has a digit.
pub decimal-starts : (n : ℕ) → (d : ℕ) × (rest : Text) × (decimal n ≡ d ∷ rest) × IsDigit d
unfolding decimal
decimal-starts n =
    let (d, rest, e) = digits_before-starts (suc n) n [] (omega arith) in
    (d, rest, e, (subst (All IsDigit) e (decimal-IsDigit n)).0)
