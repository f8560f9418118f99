-- ===== src/Storage/Tests.antt =====
-- A run with whole whole_numbers for the `double`s, and the witness of the theorem on it.
use accelsim_lite.Prelude.{true, false, List, [], ◌∷◌, ◌≡◌, some, arith, succeed, All}
use accelsim_lite.Storage.{read_op, write_op, Request, PathConfig, run, summarize}
use accelsim_lite.Storage.Depths.{Answers, SummaryLaws, run-summarize}
use accelsim_lite.Storage.Parse.{parse_workload_csv}
use accelsim_lite.Storage.Parse.RoundTrip.{
  format_requests, parse_workload_csv-format_requests, FitsFields,
}
use accelsim_lite.Prelude.Text.{codes}
use accelsim_lite.Prelude.Doubles.Whole.{whole_numbers}

abbrev requests : List Request
requests =
    record { id = 1; operation = read_op; block = 10; size_bytes = 4096; cache_hit = true }
    ∷ record { id = 2; operation = write_op; block = 11; size_bytes = 8192; cache_hit = false }
    ∷ record { id = 3; operation = read_op; block = 12; size_bytes = 4096; cache_hit = false }
    ∷ []

abbrev shallow : PathConfig whole_numbers
shallow = record {
  max_queue_depth = 2;
  memory_bandwidth = 4096;
  cache_hit_latency = 2;
  cache_miss_latency = 18;
  write_base_latency = 12;
  queue_penalty = 1;
}

run-summarize_example :
    Answers whole_numbers shallow requests (run whole_numbers shallow requests)
    × SummaryLaws whole_numbers shallow requests
        (summarize whole_numbers shallow requests (run whole_numbers shallow requests))
run-summarize_example = run-summarize whole_numbers shallow requests

requests-FitsFields : All FitsFields requests
requests-FitsFields = (
  record { id_fits = omega arith; block_fits = omega arith; size_fits = omega arith },
  (
    record { id_fits = omega arith; block_fits = omega arith; size_fits = omega arith },
    (record { id_fits = omega arith; block_fits = omega arith; size_fits = omega arith }, tt),
  ),
)

parse_workload_csv-format_requests_example :
    parse_workload_csv (λ _. some (format_requests requests)) (codes "data/workload.csv")
    ≡ succeed requests
parse_workload_csv-format_requests_example =
    parse_workload_csv-format_requests requests (codes "data/workload.csv") requests-FitsFields
