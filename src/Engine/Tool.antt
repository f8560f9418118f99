-- ===== src/Engine/Tool.antt =====
-- performance_engine/src/performance_benchmark_cli.cpp.
pub mod Accepted
use accelsim_lite.Prelude.Text.{Text, codes, text_eq}
use accelsim_lite.Prelude.{ℕ, List, [], ◌∷◌, ◌++◌, if◌then◌else◌, Result, succeed, throw, ◌>>=◌}
use accelsim_lite.Workload.{stoull}
use accelsim_lite.Engine.{
  cache_local, cache_unfriendly, BenchmarkConfig, EngineError, check_config, WorkItem,
}
use accelsim_lite.Prelude.Doubles.{Doubles}
use accelsim_lite.Prelude.Decimal.{decimal}
use accelsim_lite.Prelude.Tools.{failure, ToolExit, usage_error, tool_exit}
use accelsim_lite.Engine.Report.{BenchmarkResult, single_threaded_result, multithreaded_result}
use accelsim_lite.Engine.Single.{run_single_threaded}
use accelsim_lite.Engine.Workers.{Pool}

-- Its exceptions: those of `parse_size`, of the constructor and of an unknown mode.
pub data BenchmarkError : Type 0 where
  invalid_size : Text → BenchmarkError
  bad_engine : EngineError → BenchmarkError
  unknown_mode : BenchmarkError

unfoldable pub parse_size : Text → Text → Result BenchmarkError ℕ
parse_size value name = elim (stoull value) [
  | succeed n ↦ succeed n
  | throw e ↦ throw (invalid_size name)
]

abbrev built : {A : Type 0} → Result EngineError A → Result BenchmarkError A
built (succeed a) = succeed a
built (throw e) = throw (bad_engine e)

-- The configuration from the number of arguments: the batch size is optional.
abbrev batch_size : List Text → Result BenchmarkError ℕ
batch_size [] = succeed 1
batch_size (batch ∷ rest) = parse_size batch (codes "queue batch size")

unfoldable pub parse_config : Text → Text → Text → List Text → Result BenchmarkError BenchmarkConfig
unfolding parse_size
parse_config workers workload pattern batch = do
  worker_count ← parse_size workers (codes "worker count")
  workload_size ← parse_size workload (codes "workload size")
  queue_batch_size ← batch_size batch
  built (
      check_config (record {
        worker_count = worker_count;
        workload_size = workload_size;
        chunk_size = 256;
        queue_capacity = 1024;
        access_pattern = if text_eq pattern (codes "local") then cache_local else cache_unfriendly;
        queue_batch_size = queue_batch_size;
      }))

abbrev header_line : Text
header_line =
    codes "mode,access_pattern,worker_count,workload_size,tasks_processed,elapsed_ms,"
    ++ codes "throughput_items_per_second,p50_task_latency_us,p95_task_latency_us,"
    ++ codes "p99_task_latency_us,simulated_allocations,lock_acquisitions,"
    ++ codes "contended_lock_acquisitions,contention_rate,total_lock_wait_ms,"
    ++ codes "total_queue_wait_ms,bottleneck,checksum\n"

-- `format_double` is the fixed format with four digits. The clock is a parameter: the ticks of each
-- task, ticks in microseconds, and the time of a run. `ended` is the state in which the threads of a
-- configuration end.
module _ (F : Doubles) (format_double : F.Double → Text) (elapsed : WorkItem → ℕ)
    (micros : ℕ → F.Double) (elapsed_ms : F.Double) (ended : BenchmarkConfig → Pool) where
  unfoldable pub print_result : BenchmarkResult F → Text
  print_result result =
      result.mode
      ++ codes ","
      ++ result.access_pattern
      ++ codes ","
      ++ decimal result.worker_count
      ++ codes ","
      ++ decimal result.workload_size
      ++ codes ","
      ++ decimal result.tasks_processed
      ++ codes ","
      ++ format_double result.elapsed_ms
      ++ codes ","
      ++ format_double result.throughput_items_per_second
      ++ codes ","
      ++ format_double result.p50_task_latency
      ++ codes ","
      ++ format_double result.p95_task_latency
      ++ codes ","
      ++ format_double result.p99_task_latency
      ++ codes ","
      ++ decimal result.simulated_allocations
      ++ codes ","
      ++ decimal result.lock_acquisitions
      ++ codes ","
      ++ decimal result.contended_lock_acquisitions
      ++ codes ","
      ++ format_double result.rate_of_contention
      ++ codes ","
      ++ format_double result.total_lock_wait_ms
      ++ codes ","
      ++ format_double result.total_queue_wait_ms
      ++ codes ","
      ++ result.bottleneck
      ++ codes ","
      ++ decimal result.checksum
      ++ codes "\n"

  -- The run of a mode.
  unfoldable pub run_mode : Text → BenchmarkConfig → Result BenchmarkError Text
  unfolding print_result single_threaded_result multithreaded_result run_single_threaded
  run_mode mode config =
      if text_eq mode (codes "single")
      then succeed (
          print_result (
            single_threaded_result F config micros elapsed_ms (run_single_threaded config elapsed)))
      else if text_eq mode (codes "multi")
      then succeed (print_result (multithreaded_result F config micros elapsed_ms (ended config)))
      else throw unknown_mode

  -- The header is printed before the mode is looked at.
  abbrev benchmark_exit : Text → Result BenchmarkError BenchmarkConfig → ToolExit BenchmarkError
  benchmark_exit mode (throw e) = tool_exit (throw e)
  benchmark_exit mode (succeed config) = elim (run_mode mode config) [
    | throw e ↦ record { exit_code = 1; printed = header_line; complaint = failure e }
    | succeed text ↦ tool_exit (succeed (header_line ++ text))
  ]

  -- `main` on the arguments behind the program's name.
  unfoldable pub benchmark_main : List Text → ToolExit BenchmarkError
  unfolding parse_config
  benchmark_main (mode ∷ workers ∷ workload ∷ pattern ∷ []) =
      benchmark_exit mode (parse_config workers workload pattern [])
  benchmark_main (mode ∷ workers ∷ workload ∷ pattern ∷ batch ∷ []) =
      benchmark_exit mode (parse_config workers workload pattern (batch ∷ []))
  benchmark_main _ = usage_error
