-- ===== src/Workload/Split.antt =====
-- `split` of src/workload_runner.cpp against its inverse.
use accelsim_lite.Prelude.{
  ℕ, ◌≡◌, refl, false, ◌||◌, List, [], ◌∷◌, ◌++◌, arith, if◌then◌else◌, contains, All, is_empty,
  All-append, Bool,
}
use mathlib.Core.List.{append_assoc, append-nil}
use accelsim_lite.Workload.{get_items, ends_in, split}
use accelsim_lite.Prelude.Text.{Text}

-- The tokens with the delimiter between them.
abbrev pub join : ℕ → List Text → Text
join delimiter [] = []
join delimiter (token ∷ []) = token
join delimiter (token ∷ next ∷ tokens) = token ++ delimiter ∷ join delimiter (next ∷ tokens)

-- What `split` gives where `item` has been read.
abbrev pieces : ℕ → Text → Text → List Text
pieces delimiter item input =
    get_items delimiter item input ++ (if ends_in delimiter input then [] ∷ [] else [])

append-some : (item : Text) (c : ℕ) → is_empty (item ++ c ∷ []) ≡ false
append-some [] c = refl
append-some (b ∷ item) c = refl

pieces-some :
    (delimiter : ℕ) (item : Text) (c : ℕ) (cs : Text)
    → is_empty (pieces delimiter item (c ∷ cs)) ≡ false
unfolding get_items ends_in
pieces-some d item c [] = ground (arith, append-some item c)
pieces-some d item c (b ∷ cs) = ground (arith, pieces-some d (item ++ c ∷ []) b cs)

join-some :
    (delimiter : ℕ) (token : Text) (tokens : List Text)
    → is_empty tokens ≡ false
    → join delimiter (token ∷ tokens) ≡ token ++ delimiter ∷ join delimiter tokens
join-some d token [] h = absurd (cc)
join-some d token (t ∷ ts) h = refl

join-pieces :
    (delimiter : ℕ) (item input : Text)
    → join delimiter (pieces delimiter item input) ≡ item ++ input
unfolding get_items ends_in
join-pieces d item [] = ground (arith, append-nil item)
join-pieces d item (c ∷ []) = ground (arith, append-some item c, append-nil (item ++ c ∷ []))
join-pieces d item (c ∷ b ∷ cs) = ground (
  arith,
  join-some d item (pieces d [] (b ∷ cs)) (pieces-some d [] b cs),
  join-pieces d [] (b ∷ cs),
  join-pieces d (item ++ c ∷ []) (b ∷ cs),
  append_assoc item (c ∷ []) (b ∷ cs),
)

contains-append : (xs ys : Text) (a : ℕ) → contains (xs ++ ys) a ≡ (contains xs a || contains ys a)
contains-append [] ys a = refl
contains-append (x ∷ xs) ys a = ground (arith, contains-append xs ys a)

get_items-free :
    (delimiter : ℕ) (item input : Text)
    → contains item delimiter ≡ false
    → All (λ token. contains token delimiter ≡ false) (get_items delimiter item input)
unfolding get_items
get_items-free d item [] free = ground arith
get_items-free d item (c ∷ cs) free = ground (
  arith,
  get_items-free d [] cs refl,
  get_items-free d (item ++ c ∷ []) cs,
  contains-append item (c ∷ []) d,
)

-- `split` loses nothing: its tokens with the delimiter between them are the input, and no token
-- contains the delimiter.
pub join-split :
    (input : Text) (delimiter : ℕ)
    → (join delimiter (split input delimiter) ≡ input)
      × All (λ token. contains token delimiter ≡ false) (split input delimiter)
unfolding split
join-split input d = (
  join-pieces d [] input,
  All-append (λ token. contains token d ≡ false) (get_items d [] input)
      (if ends_in d input then [] ∷ [] else []) (get_items-free d [] input refl)
      (last_free (ends_in d input)),
)
  where
    last_free : (b : Bool) → All (λ token. contains token d ≡ false) (if b then [] ∷ [] else [])
    last_free b = ground arith
