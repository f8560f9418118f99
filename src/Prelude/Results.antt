-- ===== src/Prelude/Results.antt =====
-- Exceptions as values: a computation that returns or throws.
use mathlib.Core.Path.{◌≡◌, refl}
use mathlib.Core.Logic.{◌⊎◌, inl, inr}

pub data Result (E A : Type 0) : Type 0 where
  succeed : A → Result E A
  throw : E → Result E A

infixl 5 ◌>>=◌
abbrev pub ◌>>=◌ : {E A B : Type 0} → Result E A → (A → Result E B) → Result E B
throw x >>= next = throw x
succeed a >>= next = next a

-- A chain that succeeds has a first part that succeeds.
pub >>=-succeeds :
    {E A B : Type 0} {b : B} (m : Result E A) (next : A → Result E B)
    → (m >>= next) ≡ succeed b
    → (a : A) × (m ≡ succeed a) × (next a ≡ succeed b)
>>=-succeeds (throw x) next e = cc
>>=-succeeds (succeed a) next e = (a, refl, e)

pub Result-cases :
    {E A : Type 0} (m : Result E A) → ((a : A) × (m ≡ succeed a)) ⊎ ((x : E) × (m ≡ throw x))
Result-cases (throw x) = inr (x, refl)
Result-cases (succeed a) = inl (a, refl)

-- The value of a computation that succeeds.
pub succeed_injective :
    {E A : Type 0} {a b : A} {m n : Result E A} → m ≡ n → m ≡ succeed a → n ≡ succeed b → a ≡ b
succeed_injective e h k = cc
