-- ===== src/Prelude/Multisets.antt =====
-- Lists with the same elements in another order, by the sums over them.
use mathlib.Core.List.{Permᴰ, List, [], ◌∷◌, ◌++◌}
use mathlib.Core.List.Permᴰ
use Prim.Native.Nat.{ℕ, ◌+◌}
use mathlib.Core.Path.{◌≡◌, refl, sym, ap, subst, ◌∙◌}
use mathlib.Core.Logic.{◌≢◌}
use native.Mathlib.Omega.{arith}
use native.Mathlib.Decide.{ℕ_discrete}
use accelsim_lite.Prelude.Lists.{length}

module _ {ℓ} {A : Type ℓ} where
  abbrev pub sum_of : (A → ℕ) → List A → ℕ
  sum_of f [] = 0
  sum_of f (x ∷ xs) = f x + sum_of f xs

  pub sum_of-append : (f : A → ℕ) (xs ys : List A) → sum_of f (xs ++ ys) ≡ sum_of f xs + sum_of f ys
  sum_of-append f [] ys = omega arith
  sum_of-append f (x ∷ xs) ys = omega (arith, sum_of-append f xs ys)

  -- A sum over a list, one element of which changes.
  pub sum_of-replaced :
      (f : A → ℕ) (before : List A) (x y : A) (after xs : List A)
      → xs ≡ before ++ x ∷ after
      → sum_of f (before ++ y ∷ after) + f x ≡ sum_of f xs + f y
  sum_of-replaced f before x y after xs e = omega (
    arith,
    ap (sum_of f) e,
    sum_of-append f before (x ∷ after),
    sum_of-append f before (y ∷ after),
  )

  -- An element that counts splits the list.
  pub find_counting :
      (f : A → ℕ) (xs : List A)
      → sum_of f xs ≢ 0
      → (before : List A) × (x : A) × (after : List A) × (xs ≡ before ++ x ∷ after) × (f x ≢ 0)
  find_counting f [] h = absurd (h refl)
  find_counting f (x ∷ xs) h = elim (ℕ_discrete (f x) 0) [
    | yes e ↦
        let (before, y, after, split, counts) = find_counting f xs (omega (arith, h, e)) in
        (x ∷ before, y, after, ap (λ ys. x ∷ ys) split, counts)
    | no ne ↦ ([], x, xs, refl, ne)
  ]

  -- Every sum over the lists is the same.
  abbrev pub SameSums : List A → List A → Type ℓ
  SameSums xs ys = (f : A → ℕ) → sum_of f xs ≡ sum_of f ys

  pub sum_of-Permᴰ : (f : A → ℕ) {xs ys : List A} → Permᴰ xs ys → sum_of f xs ≡ sum_of f ys
  sum_of-Permᴰ f Permᴰ.nil = refl
  sum_of-Permᴰ f (Permᴰ.cons e p) = omega (arith, ap f e, sum_of-Permᴰ f p)
  sum_of-Permᴰ f (Permᴰ.swap e e') = omega (arith, ap f e, ap f e')
  sum_of-Permᴰ f (Permᴰ.trans p q) = sum_of-Permᴰ f p ∙ sum_of-Permᴰ f q

  pub sum_of-one : (xs : List A) → sum_of (λ _. 1) xs ≡ length xs
  sum_of-one [] = refl
  sum_of-one (x ∷ xs) = omega (arith, sum_of-one xs)

  pub Permᴰ-length : {xs ys : List A} → Permᴰ xs ys → length xs ≡ length ys
  Permᴰ-length {xs} {ys} p = omega (arith, sum_of-one xs, sum_of-one ys, sum_of-Permᴰ (λ _. 1) p)

module _ {A : Type 0} (same : Discrete A) where
  abbrev is_same : A → A → ℕ
  is_same a b = elim (same a b) [ yes e ↦ 1 | no ne ↦ 0 ]

  is_same_self : (a : A) → is_same a a ≡ 1
  is_same_self a = elim (same a a) as (λ d. ◌≡◌ {A = ℕ} (elim d [ yes e ↦ 1 | no ne ↦ 0 ]) 1) [
    | yes e ↦ refl
    | no ne ↦ absurd (ne refl)
  ]

  -- An element that occurs splits the list.
  split_at :
      (a : A) (xs : List A)
      → sum_of (is_same a) xs ≢ 0
      → (before : List A) × (after : List A) × (xs ≡ before ++ a ∷ after)
  split_at a [] h = absurd (h refl)
  split_at a (x ∷ xs) h = by_test (same a x) h (split_at a xs)
    where
      by_test :
          (d : Dec (a ≡ x))
          → elim d [ yes e ↦ 1 | no ne ↦ 0 ] + sum_of (is_same a) xs ≢ 0
          → (sum_of (is_same a) xs ≢ 0
              → (before : List A) × (after : List A) × (xs ≡ before ++ a ∷ after))
          → (before : List A) × (after : List A) × (x ∷ xs ≡ before ++ a ∷ after)
      by_test (yes e) k later = ([], xs, ap (λ b. b ∷ xs) (sym e))
      by_test (no ne) k later =
          let (before, after, e) = later (omega arith) in (x ∷ before, after, ap (λ ys. x ∷ ys) e)

  -- Lists with the same sums are permutations of each other.
  pub Permᴰ_of_sums : (xs ys : List A) → SameSums xs ys → Permᴰ xs ys
  Permᴰ_of_sums [] [] h = Permᴰ.nil
  Permᴰ_of_sums [] (y ∷ ys) h = absurd (omega (arith, h (λ _. 1)))
  Permᴰ_of_sums (x ∷ xs) ys h =
      let found : sum_of (is_same x) ys ≢ 0 = omega (arith, h (is_same x), is_same_self x) in
      let (before, after, e) = split_at x ys found in
      let rest : SameSums xs (before ++ after) = λ f. omega (
        arith,
        h f,
        ap (sum_of f) e,
        sum_of-append f before (x ∷ after),
        sum_of-append f before after,
      ) in
      subst (Permᴰ (x ∷ xs)) (sym e) (
        Permᴰ.trans (Permᴰ.cons refl (Permᴰ_of_sums xs (before ++ after) rest))
          (Permᴰ.symm (Permᴰ.middle x before after)))
