-- ===== src/Report/Counters.antt =====
-- The counters that `write_map_csv` writes can be read back.
use accelsim_lite.Prelude.{
  ℕ, ◌<◌, ◌≡◌, refl, ap, ◌∙◌, false, List, [], ◌∷◌, ◌++◌, map, arith, ◌==◌, if◌then◌else◌, drop,
  All, is_empty, All-append, u64_mod, Result, succeed, ◌>>=◌, sym,
}
use accelsim_lite.Workload.{get_items, LoadError, stoull}
use accelsim_lite.Report.{entry_lines, map_csv}
use accelsim_lite.Stats.{CounterMap}
use accelsim_lite.Csv.{field}
use accelsim_lite.Csv.Pieces.{get_items-piece, get_items-last, Avoids, decimal-Avoids}
use accelsim_lite.Prelude.Decimal.{decimal, decimal-starts}
use accelsim_lite.Prelude.Text.{Text}
use mathlib.Core.List.{append_assoc}
use accelsim_lite.Csv.Numbers.{stoull-decimal}

-- The names and numbers of the rows behind the header, as a reader of CSV takes them.
abbrev pub read_rows : List Text → Result LoadError CounterMap
read_rows [] = succeed []
read_rows (line ∷ lines) = do
  let fields = get_items b',' [] line
  value ← stoull (field fields 1)
  rest ← read_rows lines
  succeed ((field fields 0, value) ∷ rest)

abbrev pub read_counters : Text → Result LoadError CounterMap
read_counters content = read_rows (drop 1 (get_items b'\n' [] content))

-- The name has neither a comma nor a line break, and the number fits into 64 bits.
abbrev pub IsPlain : Text × ℕ → Type 0
IsPlain (name, value) = Avoids b',' name × Avoids b'\n' name × (value < u64_mod)

unfoldable row_of : Text × ℕ → Text
row_of (name, value) = name ++ b',' ∷ decimal value

regroup :
    (name number rest : Text)
    → (name ++ b',' ∷ (number ++ b'\n' ∷ [])) ++ rest ≡ (name ++ b',' ∷ number) ++ b'\n' ∷ rest
regroup name number rest =
    append_assoc name (b',' ∷ (number ++ b'\n' ∷ [])) rest
    ∙ (ap (λ (t : Text). name ++ b',' ∷ t) (append_assoc number (b'\n' ∷ []) rest)
        ∙ sym (append_assoc name (b',' ∷ number) (b'\n' ∷ rest)))

lines_of :
    (values : CounterMap)
    → All IsPlain values
    → get_items b'\n' [] (entry_lines b',' values) ≡ map row_of values
unfolding get_items entry_lines row_of
lines_of [] plain = refl
lines_of ((name, value) ∷ values) ((no_comma, no_break, fits), plain) =
    ap (get_items b'\n' []) (regroup name (decimal value) (entry_lines b',' values))
    ∙ (get_items-piece b'\n' [] (name ++ b',' ∷ decimal value) (entry_lines b',' values) (
          All-append (λ c. (c == b'\n') ≡ false) name (b',' ∷ decimal value) no_break
            (ground arith, decimal-Avoids b'\n' value (omega arith)))
        ∙ ap (λ lines. (name ++ b',' ∷ decimal value) ∷ lines) (lines_of values plain))

some_number :
    (value : ℕ)
    → ◌≡◌ {A = List Text}
        (if is_empty (decimal value) then [] else decimal value ∷ [])
        (decimal value ∷ [])
some_number value = let (d, rest, e, digit) = decimal-starts value in ground (arith, e)

fields_of :
    (name : Text) (value : ℕ)
    → Avoids b',' name
    → get_items b',' [] (row_of (name, value)) ≡ name ∷ decimal value ∷ []
unfolding row_of
fields_of name value no_comma =
    get_items-piece b',' [] name (decimal value) no_comma
    ∙ ap (λ fields. name ∷ fields)
        (get_items-last b',' [] (decimal value) (decimal-Avoids b',' value (omega arith))
          ∙ some_number value)

read_rows-rows :
    (values : CounterMap) → All IsPlain values → read_rows (map row_of values) ≡ succeed values
read_rows-rows [] plain = refl
read_rows-rows ((name, value) ∷ values) ((no_comma, no_break, fits), plain) =
    simp (fields_of name value no_comma, stoull-decimal value fits, read_rows-rows values plain)
      refl

-- A reader of CSV takes from the file that `write_map_csv` writes the same names and numbers, in
-- the same order, if the two headers and the names have neither a comma nor a line break and each
-- number is below 2 ^ 64.
pub read_counters-map_csv :
    (header_a header_b : Text) (values : CounterMap)
    → Avoids b'\n' header_a
    → Avoids b'\n' header_b
    → All IsPlain values
    → read_counters (map_csv header_a header_b values) ≡ succeed values
unfolding map_csv
read_counters-map_csv header_a header_b values plain_a plain_b plain =
    ap (λ content. read_rows (drop 1 (get_items b'\n' [] content)))
      (sym (append_assoc header_a (b',' ∷ header_b) (b'\n' ∷ entry_lines b',' values)))
    ∙ (ap (λ lines. read_rows (drop 1 lines))
          (get_items-piece b'\n' [] (header_a ++ b',' ∷ header_b) (entry_lines b',' values) (
              All-append (λ c. (c == b'\n') ≡ false) header_a (b',' ∷ header_b) plain_a
                (ground arith, plain_b))
            ∙ ap (λ lines. (header_a ++ b',' ∷ header_b) ∷ lines) (lines_of values plain))
        ∙ read_rows-rows values plain)
