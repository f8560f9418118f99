-- ===== src/Engine.antt =====
-- performance_engine/: the configuration and the work items of `PerformanceEngine`.
pub mod Process
pub mod Workers
pub mod Single
pub mod Report
pub mod Tool
mod Tests
use accelsim_lite.Prelude.{
  ℕ, zero, suc, ◌+◌, ◌≤◌, ◌<◌, min, ◌≡◌, refl, subst, inl, inr, List, [], ◌∷◌, arith, ltb, ◌==◌,
  if◌then◌else◌, Bool-cases, u64_mod, add64, Result, succeed, throw,
}

pub data AccessPattern : Type 0 where
  cache_local cache_unfriendly : AccessPattern

pub record BenchmarkConfig : Type 0 where
  pub worker_count : ℕ
  pub workload_size : ℕ
  pub chunk_size : ℕ
  pub queue_capacity : ℕ
  pub access_pattern : AccessPattern
  pub queue_batch_size : ℕ

-- The messages of the constructor's exceptions.
pub data EngineError : Type 0 where
  no_workers no_chunk no_batch : EngineError

-- The checks of the constructor.
unfoldable pub check_config : BenchmarkConfig → Result EngineError BenchmarkConfig
check_config config =
    if config.worker_count == 0
    then throw no_workers
    else if config.chunk_size == 0
    then throw no_chunk
    else if config.queue_batch_size == 0
    then throw no_batch
    else succeed config

pub record WorkItem : Type 0 where
  pub id : ℕ
  pub begin : ℕ
  pub end : ℕ

-- The loop of `build_work_items`, on fuel.
unfoldable pub work_from : BenchmarkConfig → ℕ → ℕ → ℕ → List WorkItem
work_from config zero id begin = []
work_from config (suc fuel) id begin =
    let after = add64 begin config.chunk_size in
    let rest = work_from config fuel (add64 id 1) after in
    if ltb begin config.workload_size
    then record { id = id; begin = begin; end = min after config.workload_size } ∷ rest
    else []

unfoldable pub build_work_items : BenchmarkConfig → List WorkItem
unfolding work_from
build_work_items config = work_from config config.workload_size 0 0

-- The items cover the range from `first` to the size without gap or overlap, in order, with
-- consecutive identifiers and at most a chunk each.
abbrev pub Tiles : BenchmarkConfig → ℕ → ℕ → List WorkItem → Type 0
Tiles config id first [] = config.workload_size ≤ first
Tiles config id first (item ∷ items) =
    (item.id ≡ id)
    × (item.begin ≡ first)
    × (first < item.end)
    × (item.end ≤ first + config.chunk_size)
    × (item.end ≤ config.workload_size)
    × Tiles config (add64 id 1) item.end items

work_from-Tiles :
    (config : BenchmarkConfig) (fuel id first : ℕ)
    → 0 < config.chunk_size
    → config.workload_size + config.chunk_size < u64_mod
    → config.workload_size ≤ first + fuel
    → Tiles config id (min first config.workload_size) (work_from config fuel id first)
unfolding work_from
work_from-Tiles config zero id first some_chunk fits enough = omega arith
work_from-Tiles config (suc fuel) id first some_chunk fits enough =
    elim (Bool-cases (ltb first config.workload_size)) [
      | inl more ↦
          let after : add64 first config.chunk_size ≡ first + config.chunk_size = ground arith in
          simp more (
            refl,
            ground arith,
            ground (arith, after),
            ground (arith, after),
            omega arith,
            work_from-Tiles config fuel (add64 id 1) (add64 first config.chunk_size) some_chunk fits
                (ground (arith, after)),
          )
      | inr over ↦ simp over (ground arith)
    ]

-- The work items of an engine that its constructor accepts cover the whole workload, from 0 to its
-- size, without gap or overlap, in order and with at most a chunk each, if the sum of the size and
-- a chunk is below 2 ^ 64. The fuel of the loop is enough for that.
pub build_work_items-Tiles :
    (config accepted : BenchmarkConfig)
    → check_config config ≡ succeed accepted
    → accepted.workload_size + accepted.chunk_size < u64_mod
    → Tiles accepted 0 0 (build_work_items accepted)
unfolding check_config build_work_items
build_work_items-Tiles config accepted h fits =
    let some_chunk : 0 < accepted.chunk_size = ground arith in
    let from_zero : min 0 accepted.workload_size ≡ 0 = omega arith in
    subst (λ n. Tiles accepted 0 n (work_from accepted accepted.workload_size 0 0)) from_zero
      (work_from-Tiles accepted accepted.workload_size 0 0 some_chunk fits (omega arith))
