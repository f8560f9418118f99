-- ===== src/Csv.antt =====
-- The reading of CSV files that trajectory_graph_lite/src/trajectory_graph.cpp and
-- storage_datapath/src/storage_datapath.cpp have in common.
pub mod Numbers
pub mod Pieces
use accelsim_lite.Prelude.{
  ℕ, ◌≡◌, refl, subst, Bool, true, false, ◌&&◌, List, [], ◌∷◌, get_or, is_empty, Result, succeed,
  throw, succeed_injective, inl, inr, Bool-cases, Result-cases, arith,
}
use accelsim_lite.Workload.Load.{starts_with}
use accelsim_lite.Prelude.Text.{Text, codes}

-- The field that one more `std::getline` reads, empty behind the last one.
abbrev pub field : List Text → ℕ → Text
field fields i = get_or fields i []

-- The loop over the lines: empty ones are skipped, and the first other one where it is a header.
unfoldable pub for_rows :
    {E S : Type 0} → (Text → S → Result E S) → List Text → Bool → S → Result E S
for_rows row [] first s = succeed s
for_rows row (line ∷ lines) first s = elim (is_empty line) [
  | true ↦ for_rows row lines first s
  | false ↦ elim (first && starts_with (codes "id,") line) [
    | true ↦ for_rows row lines false s
    | false ↦ elim (row line s) [ throw e ↦ throw e | succeed t ↦ for_rows row lines false t ]
  ]
]

-- What each row keeps, the loop keeps.
pub for_rows-keeps :
    {E S : Type 0} (P : S → Type 0) (row : Text → S → Result E S)
    → ((line : Text) (s t : S) → row line s ≡ succeed t → P s → P t)
    → (lines : List Text) (first : Bool) (s t : S) → for_rows row lines first s ≡ succeed t
    → P s
    → P t
unfolding for_rows
for_rows-keeps P row keeps [] first s t e p = subst P (succeed_injective refl refl e) p
for_rows-keeps P row keeps (line ∷ lines) first s t e p = elim (Bool-cases (is_empty line)) [
  | inl skip ↦ for_rows-keeps P row keeps lines first s t (ground arith) p
  | inr some_text ↦ elim (Bool-cases (first && starts_with (codes "id,") line)) [
    | inl header ↦ for_rows-keeps P row keeps lines false s t (ground arith) p
    | inr data_row ↦ elim (Result-cases (row line s)) [
      | inl (u, r) ↦ for_rows-keeps P row keeps lines false u t (ground arith) (keeps line s u r p)
      | inr (x, r) ↦ absurd (ground arith)
    ]
  ]
]

-- One turn of the loop, on a line behind the header.
pub for_rows-row :
    {E S : Type 0} (row : Text → S → Result E S) (line : Text) (lines : List Text) (s t : S)
    → is_empty line ≡ false
    → row line s ≡ succeed t
    → for_rows row (line ∷ lines) false s ≡ for_rows row lines false t
unfolding for_rows
for_rows-row row line lines s t some_text e = ground (arith, some_text, e)
