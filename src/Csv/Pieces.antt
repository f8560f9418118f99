-- ===== src/Csv/Pieces.antt =====
-- The pieces of a text that its delimiters separate.
use accelsim_lite.Prelude.{
  ℕ, ◌≡◌, false, [], ◌∷◌, ◌++◌, ◌==◌, if◌then◌else◌, All, is_empty, ap, ◌∙◌, arith, ◌<◌, All-map,
}
use accelsim_lite.Workload.{get_items}
use accelsim_lite.Prelude.Text.{Text}
use mathlib.Core.List.{append_assoc, append-nil}
use accelsim_lite.Prelude.Decimal.{decimal, IsDigit, decimal-IsDigit}

pub get_items-piece :
    (delimiter : ℕ) (item text rest : Text)
    → All (λ c. (c == delimiter) ≡ false) text
    → get_items delimiter item (text ++ delimiter ∷ rest)
      ≡ (item ++ text) ∷ get_items delimiter [] rest
unfolding get_items
get_items-piece delimiter item [] rest h = ground (arith, append-nil item)
get_items-piece delimiter item (c ∷ text) rest (h, hs) = simp h (
    get_items-piece delimiter (item ++ c ∷ []) text rest hs
    ∙ ap (λ t. t ∷ get_items delimiter [] rest) (append_assoc item (c ∷ []) text))

pub get_items-last :
    (delimiter : ℕ) (item text : Text)
    → All (λ c. (c == delimiter) ≡ false) text
    → get_items delimiter item text ≡ (if is_empty (item ++ text) then [] else (item ++ text) ∷ [])
unfolding get_items
get_items-last delimiter item [] h = ground (arith, append-nil item)
get_items-last delimiter item (c ∷ text) (h, hs) = simp h (
    get_items-last delimiter (item ++ c ∷ []) text hs
    ∙ ap (λ (t : Text). if is_empty t then [] else t ∷ []) (append_assoc item (c ∷ []) text))

-- The delimiter does not occur in the text.
abbrev pub Avoids : ℕ → Text → Type 0
Avoids delimiter text = All (λ c. (c == delimiter) ≡ false) text

pub decimal-Avoids : (delimiter n : ℕ) → delimiter < b'0' → Avoids delimiter (decimal n)
decimal-Avoids delimiter n h =
    All-map IsDigit (λ c. (c == delimiter) ≡ false) (decimal n) (λ c d. ground (arith, d, h))
      (decimal-IsDigit n)
