-- ===== src/Engine/Tests.antt =====
-- The work items of a small workload, and the witness of the theorem on them.
use accelsim_lite.Prelude.{◌≡◌, refl, arith, succeed, ◌≤◌, ◌<◌, All}
use accelsim_lite.Engine.{
  BenchmarkConfig, check_config, build_work_items, Tiles, build_work_items-Tiles, cache_unfriendly,
}
use accelsim_lite.Engine.Process.{visited, visited-InRange}

abbrev small : BenchmarkConfig
small = record {
  worker_count = 2;
  workload_size = 10;
  chunk_size = 4;
  queue_capacity = 16;
  access_pattern = cache_unfriendly;
  queue_batch_size = 1;
}

check_config-small : check_config small ≡ succeed small
unfolding check_config
check_config-small = refl

build_work_items-Tiles_example : Tiles small 0 0 (build_work_items small)
build_work_items-Tiles_example = build_work_items-Tiles small small check_config-small (omega arith)

visited-InRange_example :
    All (λ i. (4 ≤ i) × (i < 8)) (visited small (record { id = 1; begin = 4; end = 8 }))
visited-InRange_example =
    visited-InRange small (record { id = 1; begin = 4; end = 8 }) (omega arith)
