-- ===== src/Prelude/Sorting.antt =====
-- `std::sort` of numbers, as an insertion sort.
use Prim.Native.Nat.{ℕ, ◌≤◌}
use mathlib.Core.Path.{◌≡◌, refl, ap, ◌∙◌}
use mathlib.Core.Logic.{inl, inr}
use mathlib.Core.Bool.{true, ◌||◌}
use mathlib.Core.List.{List, [], ◌∷◌}
use native.Mathlib.Omega.{arith}
use accelsim_lite.Prelude.Tests.{ltb, ◌==◌, if◌then◌else◌, Bool-cases}
use accelsim_lite.Prelude.Count.{contains}

unfoldable pub insert_value : ℕ → List ℕ → List ℕ
insert_value x [] = x ∷ []
insert_value x (y ∷ ys) = if ltb y x then y ∷ insert_value x ys else x ∷ y ∷ ys

unfoldable pub sort_values : List ℕ → List ℕ
unfolding insert_value
sort_values [] = []
sort_values (x ∷ xs) = insert_value x (sort_values xs)

contains-insert_value :
    (x : ℕ) (xs : List ℕ) (a : ℕ) → contains (insert_value x xs) a ≡ ((x == a) || contains xs a)
unfolding insert_value
contains-insert_value x [] a = refl
contains-insert_value x (y ∷ ys) a = ground (arith, contains-insert_value x ys a)

pub contains-sort_values : (xs : List ℕ) (a : ℕ) → contains (sort_values xs) a ≡ contains xs a
unfolding sort_values
contains-sort_values [] a = refl
contains-sort_values (x ∷ xs) a =
    contains-insert_value x (sort_values xs) a ∙ ap (λ b. (x == a) || b) (contains-sort_values xs a)

-- Each number is at most the ones behind it.
abbrev pub IsSorted : List ℕ → Type 0
IsSorted [] = Unit {0}
IsSorted (x ∷ xs) = ((a : ℕ) → contains xs a ≡ true → x ≤ a) × IsSorted xs

insert_value-IsSorted : (x : ℕ) (xs : List ℕ) → IsSorted xs → IsSorted (insert_value x xs)
unfolding insert_value
insert_value-IsSorted x [] s = (λ a h. absurd (ground (arith, h)), tt)
insert_value-IsSorted x (y ∷ ys) (least, s) = elim (Bool-cases (ltb y x)) [
  | inl e ↦ simp e (
    λ a h. (let k = contains-insert_value x ys a in let l = least a in ground (arith, k, l, e, h)),
    insert_value-IsSorted x ys s,
  )
  | inr e ↦ simp e (λ a h. (let l = least a in ground (arith, l, e, h)), (least, s))
]

pub sort_values-IsSorted : (xs : List ℕ) → IsSorted (sort_values xs)
unfolding sort_values
sort_values-IsSorted [] = tt
sort_values-IsSorted (x ∷ xs) = insert_value-IsSorted x (sort_values xs) (sort_values-IsSorted xs)
