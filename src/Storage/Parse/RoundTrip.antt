-- ===== src/Storage/Parse/RoundTrip.antt =====
-- `parse_workload_csv` reads back a list of requests that was written as a CSV file.
use accelsim_lite.Prelude.{
  ℕ, ◌<◌, ◌≡◌, refl, ap, ◌∙◌, Bool, true, false, List, [], ◌∷◌, ◌++◌, arith, ◌==◌, All, u64_mod,
  succeed, sym, some, map, if◌then◌else◌, is_empty, All-append,
}
use accelsim_lite.Workload.{get_items}
use accelsim_lite.Storage.{Operation, read_op, write_op, Request}
use accelsim_lite.Storage.Parse.{
  parse_operation, parse_request, push_request, parse_requests, parse_workload_csv,
}
use accelsim_lite.Csv.Pieces.{get_items-piece, get_items-last, Avoids, decimal-Avoids}
use accelsim_lite.Prelude.Decimal.{decimal, decimal-starts}
use accelsim_lite.Prelude.Text.{Text, codes, text_eq}
use mathlib.Core.List.{append_assoc, append-nil}
use accelsim_lite.Csv.{for_rows, for_rows-row}
use accelsim_lite.Csv.Numbers.{stoull-decimal}
use accelsim_lite.Workload.Load.{starts_with}

abbrev format_operation : Operation → Text
format_operation read_op = codes "read"
format_operation write_op = codes "write"

abbrev format_hit : Bool → Text
format_hit true = codes "true"
format_hit false = codes "false"

abbrev format_request : Request → Text
format_request r =
    decimal r.id
    ++ b','
      ∷ (format_operation r.operation
          ++ b','
            ∷ (decimal r.block ++ b',' ∷ (decimal r.size_bytes ++ b',' ∷ format_hit r.cache_hit)))

abbrev format_rows : List Request → Text
format_rows [] = []
format_rows (r ∷ rs) = format_request r ++ b'\n' ∷ format_rows rs

-- The file: a header and one line for each request.
abbrev pub format_requests : List Request → Text
format_requests rs = codes "id,operation,block,size_bytes,cache_hit" ++ b'\n' ∷ format_rows rs

-- The numbers of the request fit into 64 bits.
pub record FitsFields (r : Request) : Type 0 where
  pub id_fits : r.id < u64_mod
  pub block_fits : r.block < u64_mod
  pub size_fits : r.size_bytes < u64_mod

format_operation-Avoids :
    (delimiter : ℕ) (operation : Operation)
    → delimiter < b'0'
    → Avoids delimiter (format_operation operation)
format_operation-Avoids delimiter read_op h = ground (arith, h)
format_operation-Avoids delimiter write_op h = ground (arith, h)

format_hit-Avoids :
    (delimiter : ℕ) (hit : Bool) → delimiter < b'0' → Avoids delimiter (format_hit hit)
format_hit-Avoids delimiter true h = ground (arith, h)
format_hit-Avoids delimiter false h = ground (arith, h)

some_hit :
    (hit : Bool)
    → ◌≡◌ {A = List Text}
        (if is_empty (format_hit hit) then [] else format_hit hit ∷ [])
        (format_hit hit ∷ [])
some_hit true = refl
some_hit false = refl

fields_of :
    (r : Request)
    → get_items b',' [] (format_request r)
      ≡ decimal r.id
        ∷ format_operation r.operation
        ∷ decimal r.block
        ∷ decimal r.size_bytes
        ∷ format_hit r.cache_hit
        ∷ []
fields_of r =
    get_items-piece b',' [] (decimal r.id) _ (decimal-Avoids b',' r.id (omega arith))
    ∙ ap (λ xs. decimal r.id ∷ xs)
        (get_items-piece b',' [] (format_operation r.operation) _
            (format_operation-Avoids b',' r.operation (omega arith))
          ∙ ap (λ xs. format_operation r.operation ∷ xs)
              (get_items-piece b',' [] (decimal r.block) _
                  (decimal-Avoids b',' r.block (omega arith))
                ∙ ap (λ xs. decimal r.block ∷ xs)
                    (get_items-piece b',' [] (decimal r.size_bytes) _
                        (decimal-Avoids b',' r.size_bytes (omega arith))
                      ∙ ap (λ xs. decimal r.size_bytes ∷ xs)
                          (get_items-last b',' [] (format_hit r.cache_hit)
                              (format_hit-Avoids b',' r.cache_hit (omega arith))
                            ∙ some_hit r.cache_hit))))

parse_operation-format :
    (operation : Operation) → parse_operation (format_operation operation) ≡ operation
unfolding parse_operation
parse_operation-format read_op = refl
parse_operation-format write_op = refl

text_eq-format : (hit : Bool) → text_eq (format_hit hit) (codes "true") ≡ hit
text_eq-format true = refl
text_eq-format false = refl

parse_request-format :
    (r : Request) (rs : List Request)
    → FitsFields r
    → parse_request (format_request r) rs ≡ succeed (rs ++ r ∷ [])
unfolding parse_request push_request
parse_request-format r rs fits =
    ap (λ fields. push_request fields rs) (fields_of r)
    ∙ simp
        (
          stoull-decimal r.id fits.id_fits,
          stoull-decimal r.block fits.block_fits,
          stoull-decimal r.size_bytes fits.size_fits,
          parse_operation-format r.operation,
          text_eq-format r.cache_hit,
        )
        refl

line-Avoids : (r : Request) → Avoids b'\n' (format_request r)
line-Avoids r =
    let n : ℕ = b'\n' in
    let operation = format_operation-Avoids n r.operation (omega arith) in
    let hit = format_hit-Avoids n r.cache_hit (omega arith) in
    let numbers = λ (k : ℕ). decimal-Avoids n k (omega arith) in
    let P = λ (c : ℕ). (c == n) ≡ false in
    All-append P (decimal r.id) _ (numbers r.id) (
      ground arith,
      All-append P (format_operation r.operation) _ operation (
        ground arith,
        All-append P (decimal r.block) _ (numbers r.block) (
          ground arith,
          All-append P (decimal r.size_bytes) _ (numbers r.size_bytes) (ground arith, hit),
        ),
      ),
    )

lines_of : (rs : List Request) → get_items b'\n' [] (format_rows rs) ≡ map format_request rs
unfolding get_items
lines_of [] = refl
lines_of (r ∷ rs) =
    get_items-piece b'\n' [] (format_request r) (format_rows rs) (line-Avoids r)
    ∙ ap (λ xs. format_request r ∷ xs) (lines_of rs)

rows-format :
    (rs done_rows : List Request)
    → All FitsFields rs
    → for_rows parse_request (map format_request rs) false done_rows ≡ succeed (done_rows ++ rs)
unfolding for_rows
rows-format [] done_rows fits = ap succeed (sym (append-nil done_rows))
rows-format (r ∷ rs) done_rows (fit, fits) =
    let (d, rest, e, digit) = decimal-starts r.id in
    let some_text : is_empty (format_request r) ≡ false = ground (arith, e) in
    for_rows-row parse_request (format_request r) (map format_request rs) done_rows
      (done_rows ++ r ∷ []) some_text (parse_request-format r done_rows fit)
    ∙ (rows-format rs (done_rows ++ r ∷ []) fits ∙ ap succeed (append_assoc done_rows (r ∷ []) rs))

-- A file with the header and with one line for each request gives the requests back, in their
-- order, if their numbers fit into 64 bits.
pub parse_workload_csv-format_requests :
    (requests : List Request) (path : Text)
    → All FitsFields requests
    → parse_workload_csv (λ _. some (format_requests requests)) path ≡ succeed requests
unfolding parse_workload_csv parse_requests for_rows starts_with
parse_workload_csv-format_requests requests path fits =
    ap (λ lines. for_rows parse_request lines true [])
      (get_items-piece b'\n' [] (codes "id,operation,block,size_bytes,cache_hit")
          (format_rows requests) (ground arith)
        ∙ ap (λ xs. codes "id,operation,block,size_bytes,cache_hit" ∷ xs) (lines_of requests))
    ∙ rows-format requests [] fits
