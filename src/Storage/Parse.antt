-- ===== src/Storage/Parse.antt =====
-- `parse_workload_csv` of storage_datapath/src/storage_datapath.cpp.
pub mod RoundTrip
use accelsim_lite.Prelude.{
  ℕ, true, Option, none, some, List, [], ◌∷◌, ◌++◌, if◌then◌else◌, Result, succeed, throw, ◌>>=◌,
}
use accelsim_lite.Workload.{get_items, LoadError, stoull}
use accelsim_lite.Csv.{field, for_rows}
use accelsim_lite.Storage.{Operation, read_op, write_op, Request}
use accelsim_lite.Prelude.Text.{Text, codes, text_eq}

-- Its exceptions, with those of `std::stoull`.
pub data RequestError : Type 0 where
  no_workload : Text → RequestError
  bad_field : LoadError → RequestError

abbrev number : Result LoadError ℕ → Result RequestError ℕ
number (succeed n) = succeed n
number (throw e) = throw (bad_field e)

unfoldable pub parse_operation : Text → Operation
parse_operation text = if text_eq text (codes "read") then read_op else write_op

-- The fields of one row, behind the requests so far.
unfoldable pub push_request : List Text → List Request → Result RequestError (List Request)
unfolding parse_operation
push_request fields requests = do
  id ← number (stoull (field fields 0))
  block ← number (stoull (field fields 2))
  size_bytes ← number (stoull (field fields 3))
  succeed (
      requests
      ++ record {
        id = id;
        operation = parse_operation (field fields 1);
        block = block;
        size_bytes = size_bytes;
        cache_hit = text_eq (field fields 4) (codes "true");
      }
        ∷ [])

unfoldable pub parse_request : Text → List Request → Result RequestError (List Request)
unfolding push_request
parse_request line requests = push_request (get_items b',' [] line) requests

unfoldable pub parse_requests : Text → Result RequestError (List Request)
unfolding parse_request
parse_requests content = for_rows parse_request (get_items b'\n' [] content) true []

-- `read_file` gives the content of a file that can be opened.
unfoldable pub parse_workload_csv : (Text → Option Text) → Text → Result RequestError (List Request)
unfolding parse_requests
parse_workload_csv read_file path = elim (read_file path) [
  | none ↦ throw (no_workload path)
  | some content ↦ parse_requests content
]
