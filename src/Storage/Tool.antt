-- ===== src/Storage/Tool.antt =====
-- storage_datapath/src/storage_datapath_cli.cpp.
use accelsim_lite.Prelude.Text.{Text, codes}
use accelsim_lite.Storage.{run, summarize, Summary, default_path}
use accelsim_lite.Prelude.{Option, List, [], ◌∷◌, ◌++◌, Result, succeed, ◌>>=◌}
use accelsim_lite.Storage.Parse.{RequestError, parse_workload_csv}
use accelsim_lite.Prelude.Doubles.{Doubles}
use accelsim_lite.Prelude.Decimal.{decimal}
use accelsim_lite.Prelude.Tools.{ToolExit, usage_error, tool_exit}

module _ (F : Doubles) (format_double : F.Double → Text) where
  -- What is printed for a summary. `format_double` is the fixed format with three digits.
  unfoldable pub print_summary : Summary F → Text
  print_summary summary =
      codes "{\n  \"total_requests\": "
      ++ decimal summary.total_requests
      ++ codes ",\n  \"read_requests\": "
      ++ decimal summary.read_requests
      ++ codes ",\n  \"write_requests\": "
      ++ decimal summary.write_requests
      ++ codes ",\n  \"cache_hits\": "
      ++ decimal summary.cache_hits
      ++ codes ",\n  \"cache_misses\": "
      ++ decimal summary.cache_misses
      ++ codes ",\n  \"max_queue_depth\": "
      ++ decimal summary.max_observed_queue_depth
      ++ codes ",\n  \"throughput_requests_per_sec\": "
      ++ format_double summary.throughput
      ++ codes ",\n  \"p50_latency_us\": "
      ++ format_double summary.p50_latency
      ++ codes ",\n  \"p95_latency_us\": "
      ++ format_double summary.p95_latency
      ++ codes ",\n  \"p99_latency_us\": "
      ++ format_double summary.p99_latency
      ++ codes ",\n  \"bottleneck\": \""
      ++ summary.bottleneck
      ++ codes "\"\n}\n"

  unfoldable pub simulate : (Text → Option Text) → Text → Result RequestError Text
  unfolding print_summary
  simulate read_file path = do
    requests ← parse_workload_csv read_file path
    let results = run F (default_path F) requests
    succeed (print_summary (summarize F (default_path F) requests results))

  -- `main` on the arguments behind the program's name.
  unfoldable pub storage_main : (Text → Option Text) → List Text → ToolExit RequestError
  unfolding simulate
  storage_main read_file (path ∷ []) = tool_exit (simulate read_file path)
  storage_main read_file _ = usage_error
