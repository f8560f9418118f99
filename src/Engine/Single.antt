-- ===== src/Engine/Single.antt =====
-- `PerformanceEngine::run_single_threaded` of performance_engine/src/performance_engine.cpp.
use accelsim_lite.Prelude.{ℕ, List, [], ◌∷◌, ◌++◌}
use Prim.Native.Nat.{bit_xor}
use accelsim_lite.Engine.{BenchmarkConfig, WorkItem, build_work_items}
use accelsim_lite.Engine.Process.{WorkerMetrics, no_metrics, process_work}

-- Its variables. Latencies are counted in ticks of the clock.
pub record SingleRun : Type 0 where
  pub metrics : WorkerMetrics
  pub latencies : List ℕ
  pub checksum : ℕ

-- The body of the loop; `elapsed` is the time that the clock shows for the item.
unfoldable pub run_item : BenchmarkConfig → (WorkItem → ℕ) → WorkItem → SingleRun → SingleRun
run_item config elapsed item r =
    let done_item = process_work config item r.metrics in
    record {
      metrics = done_item.1;
      latencies = r.latencies ++ elapsed item ∷ [];
      checksum = bit_xor r.checksum done_item.0;
    }

unfoldable pub run_items : BenchmarkConfig → (WorkItem → ℕ) → List WorkItem → SingleRun → SingleRun
run_items config elapsed [] r = r
run_items config elapsed (item ∷ items) r =
    run_items config elapsed items (run_item config elapsed item r)

unfoldable pub run_single_threaded : BenchmarkConfig → (WorkItem → ℕ) → SingleRun
unfolding run_items
run_single_threaded config elapsed =
    run_items config elapsed (build_work_items config)
      (record { metrics = no_metrics; latencies = []; checksum = 0 })
