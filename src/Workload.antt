-- ===== src/Workload.antt =====
-- src/workload_runner.cpp: workloads read from the lines of a CSV file.
pub mod Load
pub mod Split
pub mod Trim
pub mod Loading
mod Tests
use accelsim_lite.Prelude.{
  ℕ, ◌+◌, ◌-◌, ◌*◌, ◌%◌, Bool, true, false, ◌&&◌, ◌||◌, List, [], ◌∷◌, ◌++◌, ltb, leb, ◌==◌,
  if◌then◌else◌, is_empty, u32_mod, u64_mod, sub64, Result, succeed, throw,
}
use accelsim_lite.Prelude.Text.{Text}

-- A blank of `trim`.
unfoldable pub is_blank : ℕ → Bool
is_blank c = (c == b' ') || (c == b'\t') || (c == b'\r') || (c == b'\n')

-- The loop over `std::getline` with a delimiter: `item` is what the current call has read.
unfoldable pub get_items : ℕ → Text → Text → List Text
get_items delimiter item [] = if is_empty item then [] else item ∷ []
get_items delimiter item (c ∷ cs) =
    if c == delimiter
    then item ∷ get_items delimiter [] cs
    else get_items delimiter (item ++ c ∷ []) cs

-- Whether the text ends in the delimiter.
unfoldable pub ends_in : ℕ → Text → Bool
ends_in delimiter [] = false
ends_in delimiter (c ∷ cs) = if is_empty cs then c == delimiter else ends_in delimiter cs

unfoldable pub split : Text → ℕ → List Text
split input delimiter =
    get_items delimiter [] input ++ (if ends_in delimiter input then [] ∷ [] else [])

-- The text from its first character on that is no blank.
unfoldable pub trim_front : Text → Text
trim_front [] = []
trim_front (c ∷ cs) = if is_blank c then trim_front cs else c ∷ cs

-- The text up to its last character that is no blank.
unfoldable pub trim_back : Text → Text
trim_back [] = []
trim_back (c ∷ cs) = let rest = trim_back cs in if is_blank c && is_empty rest then [] else c ∷ rest

unfoldable pub trim : Text → Text
trim value = trim_back (trim_front value)

-- The exceptions of `load_workload_csv` and of what it calls.
pub data LoadError : Type 0 where
  cannot_open : Text → LoadError
  too_few_columns : Text → LoadError
  duplicate_id : ℕ → LoadError
  missing_dependency : ℕ → LoadError
  unsupported_type : Text → LoadError
  invalid_number : LoadError
  number_out_of_range : LoadError

-- `std::isspace` in the "C" locale.
unfoldable pub is_space : ℕ → Bool
is_space c = (c == b' ') || (leb 9 c && leb c 13)

unfoldable pub is_digit : ℕ → Bool
is_digit c = leb b'0' c && leb c b'9'

unfoldable pub skip_space : Text → Text
skip_space [] = []
skip_space (c ∷ cs) = if is_space c then skip_space cs else c ∷ cs

-- The digits that the text starts with, after those that have given `value`.
unfoldable pub read_digits : ℕ → Text → ℕ
read_digits value [] = value
read_digits value (c ∷ cs) = if is_digit c then read_digits (10 * value + (c - b'0')) cs else value

-- The number of an optional sign's magnitude, as `strtoull` converts it.
unfoldable pub magnitude : Bool → Text → Result LoadError ℕ
magnitude negative [] = throw invalid_number
magnitude negative (c ∷ cs) =
    if is_digit c
    then (if ltb (read_digits 0 (c ∷ cs)) u64_mod
        then succeed (if negative then sub64 0 (read_digits 0 (c ∷ cs)) else read_digits 0 (c ∷ cs))
        else throw number_out_of_range)
    else throw invalid_number

-- `std::stoull` and, where `unsigned long` has 64 bits, `std::stoul`.
unfoldable pub stoull : Text → Result LoadError ℕ
stoull text = elim (skip_space text) [
  | [] ↦ throw invalid_number
  | c ∷ cs ↦
      if c == b'-'
      then magnitude true cs
      else if c == b'+'
      then magnitude false cs
      else magnitude false (c ∷ cs)
]

-- The conversion to `uint32_t`.
unfoldable pub to_u32 : ℕ → ℕ
to_u32 n = n % u32_mod
