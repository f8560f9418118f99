-- ===== src/Prelude/Bits.antt =====
-- Exclusive or of numbers by their binary digits: it is associative and commutative.
use Prim.Native.Nat.{
  digits, bit_xor-bitwise, ℕ, zero, suc, ◌+◌, ◌*◌, ◌/◌, ◌%◌, ◌≤◌, ◌<◌, bit_xor, differ,
}
use mathlib.Core.Path.{ap₂, ◌≡◌, refl, sym, ap, ◌∙◌}
use native.Mathlib.Omega.{arith}

pub record XorLaws (a b : ℕ) : Type 0 where
  pub half : bit_xor a b / 2 ≡ bit_xor (a / 2) (b / 2)
  pub digit : bit_xor a b % 2 ≡ (a % 2 + b % 2) % 2

differ-mod : (a b : ℕ) → differ (a % 2) (b % 2) ≡ (a % 2 + b % 2) % 2
differ-mod a b = by_digit (a % 2) (b % 2) (omega arith) (omega arith)
  where
    by_digit : (x y : ℕ) → x < 2 → y < 2 → differ x y ≡ (x + y) % 2
    by_digit zero y p q = omega arith
    by_digit (suc zero) zero p q = refl
    by_digit (suc zero) (suc zero) p q = refl
    by_digit (suc zero) (suc (suc y)) p q = absurd (omega arith)
    by_digit (suc (suc x)) y p q = absurd (omega arith)

-- The number of digits that the recursion allows does not matter, if it is enough.
xor_digits :
    (n m a b : ℕ) → a ≤ n → a ≤ m → digits (λ b. b) differ n a b ≡ digits (λ b. b) differ m a b
xor_digits zero zero a b p q = refl
xor_digits zero (suc m) zero b p q = refl
xor_digits (suc n) zero zero b p q = refl
xor_digits zero (suc m) (suc a) b p q = absurd (omega arith)
xor_digits (suc n) zero (suc a) b p q = absurd (omega arith)
xor_digits (suc n) (suc m) zero b p q = refl
xor_digits (suc n) (suc m) (suc a) b p q =
    omega (arith, xor_digits n m (suc a / 2) (b / 2) (omega arith) (omega arith))

pub zero-bit_xor : (b : ℕ) → bit_xor 0 b ≡ b
zero-bit_xor b = bit_xor-bitwise 0 b

bit_xor_step : (a b : ℕ) → bit_xor a b ≡ bit_xor (a / 2) (b / 2) * 2 + (a % 2 + b % 2) % 2
bit_xor_step zero b = omega (arith, zero-bit_xor b, zero-bit_xor (b / 2))
bit_xor_step (suc a) b = omega (
  arith,
  bit_xor-bitwise (suc a) b,
  bit_xor-bitwise (suc a / 2) (b / 2),
  xor_digits a (suc a / 2) (suc a / 2) (b / 2) (omega arith) (omega arith),
  differ-mod (suc a) b,
)

bit_xor-XorLaws : (a b : ℕ) → XorLaws a b
bit_xor-XorLaws a b = omega (arith, bit_xor_step a b)

comm_below : (n a b : ℕ) → a ≤ n → b ≤ n → bit_xor a b ≡ bit_xor b a
comm_below zero zero zero p q = refl
comm_below zero zero (suc b) p q = absurd (omega arith)
comm_below zero (suc a) b p q = absurd (omega arith)
comm_below (suc n) a b p q = omega (
  arith,
  bit_xor_step a b,
  bit_xor_step b a,
  comm_below n (a / 2) (b / 2) (omega arith) (omega arith),
)

pub bit_xor_comm : (a b : ℕ) → bit_xor a b ≡ bit_xor b a
bit_xor_comm a b = comm_below (a + b) a b (omega arith) (omega arith)

assoc_below :
    (n a b c : ℕ) → a ≤ n → b ≤ n → c ≤ n → bit_xor (bit_xor a b) c ≡ bit_xor a (bit_xor b c)
assoc_below zero a b c p q r =
    let a0 : a ≡ 0 = omega arith in
    let b0 : b ≡ 0 = omega arith in
    let c0 : c ≡ 0 = omega arith in
    ap₂ bit_xor (ap₂ bit_xor a0 b0) c0 ∙ sym (ap₂ bit_xor a0 (ap₂ bit_xor b0 c0))
assoc_below (suc n) a b c p q r =
    let ab = bit_xor-XorLaws a b in
    let bc = bit_xor-XorLaws b c in
    omega (
      arith,
      bit_xor_step (bit_xor a b) c,
      bit_xor_step a (bit_xor b c),
      ap (λ x. bit_xor x (c / 2)) ab.half,
      ap (λ x. bit_xor (a / 2) x) bc.half,
      ab.digit,
      bc.digit,
      assoc_below n (a / 2) (b / 2) (c / 2) (omega arith) (omega arith) (omega arith),
    )

pub bit_xor_assoc : (a b c : ℕ) → bit_xor (bit_xor a b) c ≡ bit_xor a (bit_xor b c)
bit_xor_assoc a b c = assoc_below (a + b + c) a b c (omega arith) (omega arith) (omega arith)

pub bit_xor-zero : (a : ℕ) → bit_xor a 0 ≡ a
bit_xor-zero a = bit_xor_comm a 0 ∙ zero-bit_xor a
