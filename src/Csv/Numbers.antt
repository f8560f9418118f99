-- ===== src/Csv/Numbers.antt =====
-- `std::stoull` reads back what `std::to_string` writes.
use accelsim_lite.Prelude.{
  ℕ, zero, suc, ◌+◌, ◌/◌, ◌%◌, ◌<◌, ◌≡◌, sym, ap, ◌∙◌, inl, inr, true, [], ◌∷◌, arith, ltb,
  Bool-cases, u64_mod, succeed, false,
}
use accelsim_lite.Workload.{is_space, is_digit, skip_space, read_digits, magnitude, stoull}
use accelsim_lite.Prelude.Decimal.{digits_before, decimal, IsDigit, decimal-starts}
use accelsim_lite.Prelude.Text.{Text}

read_digits-before :
    (fuel n : ℕ) (text : Text)
    → n < fuel
    → read_digits 0 (digits_before fuel n text) ≡ read_digits n text
unfolding digits_before read_digits is_digit
read_digits-before zero n text h = absurd (omega (arith, h))
read_digits-before (suc fuel) n text h = elim (Bool-cases (ltb n 10)) [
  | inl e ↦
      let is_one : is_digit (b'0' + n) ≡ true = ground (arith, e) in
      simp e (simp is_one (ap (λ m. read_digits m text) (omega arith)))
  | inr e ↦
      let is_one : is_digit (b'0' + n % 10) ≡ true = ground arith in
      simp e (
        read_digits-before fuel (n / 10) ((b'0' + n % 10) ∷ text) (ground (arith, e, h))
        ∙ simp is_one (ap (λ m. read_digits m text) (omega arith)))
]

-- The characters of a number are digits for `stoull`.
pub is_digit-decimal : (c : ℕ) → IsDigit c → is_digit c ≡ true
unfolding is_digit
is_digit-decimal c h = ground (arith, h)

read_digits-decimal : (n : ℕ) → read_digits 0 (decimal n) ≡ n
unfolding decimal read_digits
read_digits-decimal n = read_digits-before (suc n) n [] (omega arith)

is_space-digit : (d : ℕ) → IsDigit d → is_space d ≡ false
unfolding is_space
is_space-digit d digit = ground (arith, digit)

stoull-starts :
    (d : ℕ) (rest : Text) (n : ℕ)
    → IsDigit d
    → read_digits 0 (d ∷ rest) ≡ n
    → n < u64_mod
    → stoull (d ∷ rest) ≡ succeed n
unfolding stoull skip_space magnitude
stoull-starts d rest n digit value h =
    let is_one = is_digit-decimal d digit in
    let value_small : ltb (read_digits 0 (d ∷ rest)) u64_mod ≡ true = ground (arith, value, h) in
    let no_space : is_space d ≡ false = is_space-digit d digit in
    ground (arith, digit, no_space, is_one, value_small, value)

pub stoull-decimal : (n : ℕ) → n < u64_mod → stoull (decimal n) ≡ succeed n
stoull-decimal n h =
    let (d, rest, e, digit) = decimal-starts n in
    ap stoull e
    ∙ stoull-starts d rest n digit (ap (read_digits 0) (sym e) ∙ read_digits-decimal n) h
