-- ===== src/Engine/Report.antt =====
-- `percentile`, `PerformanceEngine::build_result` and `classify_bottleneck` of
-- performance_engine/src/performance_engine.cpp, over any arithmetic for `double`.
use accelsim_lite.Prelude.{
  ℕ, ◌-◌, ◌/◌, Bool, true, false, ◌&&◌, ◌||◌, List, map, ltb, ◌==◌, if◌then◌else◌, length, get_or,
  is_empty,
}
use accelsim_lite.Engine.{
  AccessPattern, cache_local, cache_unfriendly, BenchmarkConfig, build_work_items,
}
use accelsim_lite.Prelude.Doubles.{Doubles, sort}
use accelsim_lite.Prelude.Text.{Text, codes}
use accelsim_lite.Engine.Process.{WorkerMetrics}
use accelsim_lite.Engine.Single.{SingleRun}
use accelsim_lite.Engine.Workers.{Pool}

unfoldable pub access_pattern_name : AccessPattern → Text
access_pattern_name cache_local = codes "cache_local"
access_pattern_name cache_unfriendly = codes "cache_unfriendly"

module _ (F : Doubles) where
  unfoldable pub percentile : List F.Double → F.Double → F.Double
  unfolding sort
  percentile values fraction =
      let sorted = sort F values in
      let nothing = F.of_size 0 in
      let position = F.times fraction (F.of_size (length values - 1)) in
      let lower = F.floor position in
      let upper = F.ceil position in
      let weight = F.minus position (F.of_size lower) in
      if is_empty values
      then nothing
      else if lower == upper
      then get_or sorted lower nothing
      else F.plus (F.times (get_or sorted lower nothing) (F.minus (F.of_size 1) weight))
          (F.times (get_or sorted upper nothing) weight)

  unfoldable pub contention_rate : WorkerMetrics → F.Double
  contention_rate metrics =
      if metrics.lock_acquisitions == 0
      then F.of_size 0
      else F.over (F.of_size metrics.contended_lock_acquisitions)
          (F.of_size metrics.lock_acquisitions)

  -- Nanoseconds in milliseconds.
  unfoldable pub ms_of : ℕ → F.Double
  ms_of ns = F.over (F.of_size ns) (F.of_size 1000000)

  abbrev is_greater : F.Double → F.Double → Bool
  is_greater x y = F.is_less y x

  abbrev is_unfriendly : AccessPattern → Bool
  is_unfriendly cache_local = false
  is_unfriendly cache_unfriendly = true

  unfoldable pub classify_bottleneck : BenchmarkConfig → WorkerMetrics → F.Double → Text
  unfolding contention_rate ms_of
  classify_bottleneck config metrics elapsed_ms =
      if is_unfriendly config.access_pattern && is_greater elapsed_ms (F.of_size 0)
      then codes "cache_locality_pressure"
      else if F.at_least (contention_rate metrics) (F.decimal 15 100)
          || is_greater (ms_of metrics.lock_wait_ns) (F.times elapsed_ms (F.decimal 20 100))
      then codes "lock_contention"
      else if is_greater (ms_of metrics.queue_wait_ns) (F.times elapsed_ms (F.decimal 50 100))
      then codes "queue_wait_pressure"
      else if ltb (config.workload_size / config.chunk_size) metrics.simulated_allocations
      then codes "allocation_pressure"
      else codes "balanced"

  pub record BenchmarkResult : Type 0 where
    pub mode : Text
    pub access_pattern : Text
    pub worker_count : ℕ
    pub workload_size : ℕ
    pub tasks_processed : ℕ
    pub elapsed_ms : F.Double
    pub throughput_items_per_second : F.Double
    pub p50_task_latency : F.Double
    pub p95_task_latency : F.Double
    pub p99_task_latency : F.Double
    pub simulated_allocations : ℕ
    pub lock_acquisitions : ℕ
    pub contended_lock_acquisitions : ℕ
    pub rate_of_contention : F.Double
    pub total_lock_wait_ms : F.Double
    pub total_queue_wait_ms : F.Double
    pub bottleneck : Text
    pub checksum : ℕ

  unfoldable pub build_result :
      BenchmarkConfig → Text → List F.Double → WorkerMetrics → ℕ → F.Double → ℕ → BenchmarkResult
  unfolding contention_rate ms_of percentile classify_bottleneck access_pattern_name
  build_result config mode task_latencies metrics checksum elapsed_ms task_count = record {
    mode = mode;
    access_pattern = access_pattern_name config.access_pattern;
    worker_count = config.worker_count;
    workload_size = config.workload_size;
    tasks_processed = task_count;
    elapsed_ms = elapsed_ms;
    throughput_items_per_second =
        if F.is_zero elapsed_ms
        then F.of_size 0
        else F.over (F.of_size config.workload_size) (F.over elapsed_ms (F.of_size 1000));
    p50_task_latency = percentile task_latencies (F.decimal 50 100);
    p95_task_latency = percentile task_latencies (F.decimal 95 100);
    p99_task_latency = percentile task_latencies (F.decimal 99 100);
    simulated_allocations = metrics.simulated_allocations;
    lock_acquisitions = metrics.lock_acquisitions;
    contended_lock_acquisitions = metrics.contended_lock_acquisitions;
    rate_of_contention = contention_rate metrics;
    total_lock_wait_ms = ms_of metrics.lock_wait_ns;
    total_queue_wait_ms = ms_of metrics.queue_wait_ns;
    bottleneck = classify_bottleneck config metrics elapsed_ms;
    checksum = checksum;
  }

  -- What the two runs return; `micros` turns the ticks of the clock into microseconds.
  unfoldable pub single_threaded_result :
      BenchmarkConfig → (ℕ → F.Double) → F.Double → SingleRun → BenchmarkResult
  unfolding build_result
  single_threaded_result config micros elapsed_ms r =
      build_result config (codes "single_threaded") (map micros r.latencies) r.metrics r.checksum
        elapsed_ms (length (build_work_items config))

  unfoldable pub multithreaded_result :
      BenchmarkConfig → (ℕ → F.Double) → F.Double → Pool → BenchmarkResult
  unfolding build_result
  multithreaded_result config micros elapsed_ms s =
      build_result config (codes "multithreaded") (map micros s.aggregate_latencies)
        s.aggregate_metrics s.checksum elapsed_ms (length (build_work_items config))
