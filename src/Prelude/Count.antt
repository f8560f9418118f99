-- ===== src/Prelude/Count.antt =====
-- How often a number occurs in a list of numbers, and membership as a test.
use Prim.Native.Nat.{ℕ, ◌+◌}
use mathlib.Core.Path.{◌≡◌, refl}
use mathlib.Core.Bool.{Bool, true, false, ◌||◌}
use mathlib.Core.List.{List, [], ◌∷◌, ◌++◌}
use native.Mathlib.Omega.{arith}
use accelsim_lite.Prelude.Tests.{◌==◌, if◌then◌else◌}

-- 1 for a test that holds, and 0 otherwise.
abbrev pub indicator : Bool → ℕ
indicator true = 1
indicator false = 0

abbrev pub count : ℕ → List ℕ → ℕ
count a [] = 0
count a (x ∷ xs) = indicator (x == a) + count a xs

abbrev pub contains : List ℕ → ℕ → Bool
contains [] a = false
contains (x ∷ xs) a = (x == a) || contains xs a

-- Insertion into a set of numbers.
abbrev pub insert : ℕ → List ℕ → List ℕ
insert a xs = if contains xs a then xs else a ∷ xs

pub count-append :
    (n : ℕ) (left right : List ℕ) → count n (left ++ right) ≡ count n left + count n right
count-append n (m ∷ left) right = omega (arith, count-append n left right)
count-append n [] right = omega arith

pub count-concat :
    (a : ℕ) (xs : List ℕ) (x : ℕ) → count a (xs ++ x ∷ []) ≡ count a xs + indicator (x == a)
count-concat a xs x = omega (arith, count-append a xs (x ∷ []))

pub contains-insert :
    (a b : ℕ) (xs : List ℕ) → contains (insert a xs) b ≡ ((a == b) || contains xs b)
contains-insert a b xs = ground arith

pub contains-append :
    (xs ys : List ℕ) (b : ℕ) → contains (xs ++ ys) b ≡ (contains xs b || contains ys b)
contains-append [] ys b = refl
contains-append (x ∷ xs) ys b = ground (arith, contains-append xs ys b)
