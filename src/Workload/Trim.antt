-- ===== src/Workload/Trim.antt =====
-- `trim` of src/workload_runner.cpp.
use accelsim_lite.Prelude.{
  ℕ, ◌≡◌, refl, ap, ◌∙◌, inl, inr, true, false, ◌&&◌, [], ◌∷◌, ◌++◌, arith, Bool-cases, All,
  is_empty,
}
use accelsim_lite.Workload.{is_blank, trim_front, trim_back, trim}
use accelsim_lite.Prelude.Text.{Text}

abbrev pub AllBlank : Text → Type 0
AllBlank value = All (λ c. is_blank c ≡ true) value

-- The text is empty, or its first character is no blank.
abbrev pub StartsSolid : Text → Type 0
StartsSolid [] = Unit
StartsSolid (c ∷ cs) = is_blank c ≡ false

-- The text is empty, or its last character is no blank.
abbrev pub EndsSolid : Text → Type 0
EndsSolid [] = Unit
EndsSolid (c ∷ []) = is_blank c ≡ false
EndsSolid (c ∷ d ∷ cs) = EndsSolid (d ∷ cs)

abbrev pub IsTrimmed : Text → Type 0
IsTrimmed value = StartsSolid value × EndsSolid value

trim_front-cut :
    (value : Text) → (before : Text) × AllBlank before × (value ≡ before ++ trim_front value)
unfolding trim_front
trim_front-cut [] = ([], tt, refl)
trim_front-cut (c ∷ cs) = elim (Bool-cases (is_blank c)) [
  | inl blank ↦ let (b, all, e) = trim_front-cut cs in (c ∷ b, (blank, all), ground (arith, e))
  | inr solid ↦ ([], tt, ground arith)
]

trim_back-cut :
    (value : Text) → (after : Text) × AllBlank after × (value ≡ trim_back value ++ after)
unfolding trim_back
trim_back-cut [] = ([], tt, refl)
trim_back-cut (c ∷ cs) =
    let (a, all, e) = trim_back-cut cs in
    elim (Bool-cases (is_blank c && is_empty (trim_back cs))) [
      | inl gone ↦ (c ∷ cs, ground arith, ground arith)
      | inr kept ↦ (a, all, ground (arith, e))
    ]

trim_front-StartsSolid : (value : Text) → StartsSolid (trim_front value)
unfolding trim_front
trim_front-StartsSolid [] = tt
trim_front-StartsSolid (c ∷ cs) = elim (Bool-cases (is_blank c)) [
  | inl blank ↦ rw blank (trim_front-StartsSolid cs)
  | inr solid ↦ rw solid solid
]

-- A character before a text that ends solid, and is no blank if the text is empty.
cons-EndsSolid :
    (c : ℕ) (rest : Text)
    → (is_blank c && is_empty rest) ≡ false
    → EndsSolid rest
    → EndsSolid (c ∷ rest)
cons-EndsSolid c [] kept solid = ground arith
cons-EndsSolid c (d ∷ rest) kept solid = solid

trim_back-EndsSolid : (value : Text) → EndsSolid (trim_back value)
unfolding trim_back
trim_back-EndsSolid [] = tt
trim_back-EndsSolid (c ∷ cs) = elim (Bool-cases (is_blank c && is_empty (trim_back cs))) [
  | inl gone ↦ rw (gone, trim_back) tt
  | inr kept ↦ rw (kept, trim_back) (cons-EndsSolid c (trim_back cs) kept (trim_back-EndsSolid cs))
]

-- Trimming the back leaves the front of the text as it is, if that is no blank.
trim_back-StartsSolid : (value : Text) → StartsSolid value → StartsSolid (trim_back value)
unfolding trim_back
trim_back-StartsSolid [] solid = tt
trim_back-StartsSolid (c ∷ cs) solid = rw (solid, trim_back) solid

-- `trim` cuts blanks off both ends of the text and only those: what is left is empty, or neither its
-- first nor its last character is a blank.
pub trim-IsTrimmed :
    (value : Text)
    → IsTrimmed (trim value)
      × ((before : Text) × (after : Text) × AllBlank before
          × AllBlank after
          × (value ≡ before ++ (trim value ++ after)))
unfolding trim
trim-IsTrimmed value =
    let (before, b, e) = trim_front-cut value in
    let (after, a, f) = trim_back-cut (trim_front value) in
    (
      (
        trim_back-StartsSolid (trim_front value) (trim_front-StartsSolid value),
        trim_back-EndsSolid (trim_front value),
      ),
      (before, after, b, a, e ∙ ap (λ rest. before ++ rest) f),
    )
