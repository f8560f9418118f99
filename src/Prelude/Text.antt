-- ===== src/Prelude/Text.antt =====
-- Texts as lists of their bytes, and the order in which `std::map` keeps its keys.
use Prim.Native.Nat.{ℕ, compare, Ordering}
use Prim.Native.Char.{code}
use Prim.Native.String.{String}
use mathlib.Core.Path.{◌≡◌, refl}
use mathlib.Core.Bool.{Bool, true, false}
use mathlib.Core.List.{List, [], ◌∷◌}
use native.Mathlib.Omega.{arith}
use mathlib.Core.Logic.{◌↔◌}

abbrev pub Text : Type 0
Text = List ℕ

-- The bytes of a literal.
abbrev pub codes : String → Text
codes String.[] = []
codes (String.◌∷◌ c s) = code c ∷ codes s

-- The lexicographic order of `std::string`.
abbrev pub text_compare : Text → Text → Ordering
text_compare [] [] = Ordering.eq
text_compare [] (y ∷ ys) = Ordering.lt
text_compare (x ∷ xs) [] = Ordering.gt
text_compare (x ∷ xs) (y ∷ ys) = elim (compare x y) [
  | Ordering.lt ↦ Ordering.lt
  | Ordering.eq ↦ text_compare xs ys
  | Ordering.gt ↦ Ordering.gt
]

abbrev pub text_eq : Text → Text → Bool
text_eq xs ys = elim (text_compare xs ys) [ Ordering.eq ↦ true | _ ↦ false ]

pub text_compare_refl : (xs : Text) → text_compare xs xs ≡ Ordering.eq
text_compare_refl [] = refl
text_compare_refl (x ∷ xs) = ground (arith, text_compare_refl xs)

pub eq_of_text_compare : (xs ys : Text) → text_compare xs ys ≡ Ordering.eq → xs ≡ ys
eq_of_text_compare [] [] h = refl
eq_of_text_compare [] (y ∷ ys) h = ground arith
eq_of_text_compare (x ∷ xs) [] h = ground arith
eq_of_text_compare (x ∷ xs) (y ∷ ys) h = ground (arith, eq_of_text_compare xs ys)

pub text_eq_iff : (xs ys : Text) → (text_eq xs ys ≡ true) ↔ (xs ≡ ys)
text_eq_iff xs ys =
    (λ h. eq_of_text_compare xs ys (ground arith), λ e. rw e (rw (text_compare_refl ys, text_eq)))

pub text_compare_trans :
    (xs ys zs : Text)
    → text_compare xs ys ≡ Ordering.lt
    → text_compare ys zs ≡ Ordering.lt
    → text_compare xs zs ≡ Ordering.lt
text_compare_trans [] [] zs h k = ground arith
text_compare_trans [] (y ∷ ys) [] h k = ground arith
text_compare_trans [] (y ∷ ys) (z ∷ zs) h k = refl
text_compare_trans (x ∷ xs) [] zs h k = ground arith
text_compare_trans (x ∷ xs) (y ∷ ys) [] h k = ground arith
text_compare_trans (x ∷ xs) (y ∷ ys) (z ∷ zs) h k = ground (arith, text_compare_trans xs ys zs)

pub lt_of_text_compare_gt :
    (xs ys : Text) → text_compare xs ys ≡ Ordering.gt → text_compare ys xs ≡ Ordering.lt
lt_of_text_compare_gt [] [] h = ground arith
lt_of_text_compare_gt [] (y ∷ ys) h = ground arith
lt_of_text_compare_gt (x ∷ xs) [] h = refl
lt_of_text_compare_gt (x ∷ xs) (y ∷ ys) h = ground (arith, lt_of_text_compare_gt xs ys)
