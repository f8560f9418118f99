-- ===== src/PthreadQueue/Contents.antt =====
-- The items of the array that are in the queue, in their order.
use native.Mathlib.Nat.{mod_self, mod-eq_of_lt}
use accelsim_lite.Prelude.{
  ℕ, zero, suc, ◌+◌, ◌-◌, ◌%◌, ◌≤◌, ◌<◌, ◌≡◌, ◌≢◌, refl, List, [], ◌∷◌, ◌++◌, arith, ltb, ◌==◌,
  if◌then◌else◌, length, set, get_or, sym, ap, ◌∙◌, inl, inr, false, Bool-cases,
}
use accelsim_lite.PthreadQueue.{PthreadItem, zero_item}
use mathlib.Core.Path.{ap₂}

-- The place `n` behind a place, round the end of the array.
abbrev pub place : ℕ → ℕ → ℕ → ℕ
place cap from n = if ltb (from + n) cap then from + n else from + n - cap

abbrev pub window : ℕ → List PthreadItem → ℕ → ℕ → List PthreadItem
window cap items from zero = []
window cap items from (suc n) = get_or items from zero_item ∷ window cap items (place cap from 1) n

pub next_place : (cap i : ℕ) → i < cap → (i + 1) % cap ≡ place cap i 1
next_place cap i h = elim (Bool-cases (ltb (i + 1) cap)) [
  | inl e ↦ simp e (mod-eq_of_lt (ground (arith, e)))
  | inr e ↦
      let at_end : i + 1 ≡ cap = ground (arith, e, h) in
      simp e (ap (λ n. n % cap) at_end ∙ (mod_self cap ∙ omega (arith, at_end)))
]

pub place_lt : (cap from n : ℕ) → from < cap → n ≤ cap → place cap from n < cap
place_lt cap from n h k = ground (arith, h, k)

place-place :
    (cap from n : ℕ)
    → from < cap
    → suc n < cap
    → place cap (place cap from 1) n ≡ place cap from (suc n)
place-place cap from n h k = ground (arith, h, k)

pub get_or-set :
    (xs : List PthreadItem) (i j : ℕ) (v : PthreadItem)
    → i < length xs
    → get_or (set xs i v) j zero_item ≡ (if i == j then v else get_or xs j zero_item)
get_or-set [] i j v h = absurd (omega (arith, h))
get_or-set (x ∷ xs) zero zero v h = refl
get_or-set (x ∷ xs) zero (suc j) v h = ground arith
get_or-set (x ∷ xs) (suc i) zero v h = ground arith
get_or-set (x ∷ xs) (suc i) (suc j) v h = ground (arith, get_or-set xs i j v (omega (arith, h)))

-- A write behind the window leaves it as it is.
pub window-set :
    (cap : ℕ) (items : List PthreadItem) (from n distance : ℕ) (v : PthreadItem)
    → length items ≡ cap
    → from < cap
    → n ≤ distance
    → distance < cap
    → window cap (set items (place cap from distance) v) from n ≡ window cap items from n
window-set cap items from zero distance v whole lt le room = refl
window-set cap items from (suc n) distance v whole lt le room =
    let behind = place-place cap from (distance - 1) lt (omega (arith, le, room)) in
    let same_place : place cap (place cap from 1) (distance - 1) ≡ place cap from distance =
      behind ∙ ap (place cap from) (omega (arith, le)) in
    let apart : (place cap from distance == from) ≡ false = ground (arith, lt, le, room) in
    ap₂ (λ x xs. x ∷ xs)
      (get_or-set items (place cap from distance) from v
          (omega (arith, whole, place_lt cap from distance lt (omega (arith, room))))
        ∙ simp apart refl)
      (ap (λ p. window cap (set items p v) (place cap from 1) n) (sym same_place)
        ∙ window-set cap items (place cap from 1) n (distance - 1) v whole
            (place_lt cap from 1 lt (omega (arith, lt))) (omega (arith, le)) (omega (arith, room)))

here : (cap from : ℕ) → from < cap → from ≡ place cap from 0
here cap from h = ground (arith, h)

pub length-window :
    (cap : ℕ) (items : List PthreadItem) (from n : ℕ) → length (window cap items from n) ≡ n
length-window cap items from zero = refl
length-window cap items from (suc n) = ap suc (length-window cap items (place cap from 1) n)

pub window-last :
    (cap : ℕ) (items : List PthreadItem) (from n : ℕ)
    → from < cap
    → n < cap
    → window cap items from (suc n)
      ≡ window cap items from n ++ get_or items (place cap from n) zero_item ∷ []
window-last cap items from zero lt room = ap (λ p. get_or items p zero_item ∷ []) (here cap from lt)
window-last cap items from (suc n) lt room =
    ap (λ xs. get_or items from zero_item ∷ xs)
      (window-last cap items (place cap from 1) n (place_lt cap from 1 lt (omega (arith, lt)))
          (omega (arith, room))
        ∙ ap (λ p. window cap items (place cap from 1) n ++ get_or items p zero_item ∷ [])
            (place-place cap from n lt room))

pub place_next :
    (cap from n : ℕ)
    → from < cap
    → n < cap
    → place cap (place cap from n) 1 ≡ place cap from (n + 1)
place_next cap from n h k = ground (arith, h, k)

pub place_back :
    (cap from n : ℕ)
    → from < cap
    → n ≢ 0
    → n ≤ cap
    → place cap from n ≡ place cap (place cap from 1) (n - 1)
place_back cap from n h some k = ground (arith, h, some, k)
