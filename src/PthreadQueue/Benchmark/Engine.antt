-- ===== src/PthreadQueue/Benchmark/Engine.antt =====
-- The work of the C benchmark is that of the C++ engine, with cache-local access and the benchmark's
-- chunk.
use accelsim_lite.Prelude.{
  ℕ, zero, suc, ◌+◌, ◌-◌, ◌*◌, ◌/◌, ◌≤◌, ◌<◌, min, ◌≡◌, refl, sym, ap, ◌∙◌, List, [], ◌∷◌, map,
  arith, ltb, false, true, u64_mod, add64, sub64, ◌%◌,
}
use mathlib.Core.Path.{ap₂}
use accelsim_lite.Engine.{BenchmarkConfig, cache_local, WorkItem, work_from, build_work_items}
use accelsim_lite.Engine.Process.{
  value_at, data_at, forward_indices, visit, visited, sum_values, fold_differences, differences,
  returns_early, process_work,
}
use accelsim_lite.Engine.Workers.{item_checksum}
use accelsim_lite.Prelude.Sorting.{sort_values}
use accelsim_lite.PthreadQueue.{PthreadItem}
use accelsim_lite.PthreadQueue.Benchmark.{
  benchmark_chunk, stored_at, mixed_at, fill, fold_gaps, gaps, process_item, task_count, nth_item,
  items_from, benchmark_items,
}

-- The configuration of the engine that matches the benchmark.
abbrev pub matching : ℕ → ℕ → BenchmarkConfig
matching workers workload_size = record {
  worker_count = workers;
  workload_size = workload_size;
  chunk_size = benchmark_chunk;
  queue_capacity = 1024;
  access_pattern = cache_local;
  queue_batch_size = 1;
}

abbrev pub work_of : PthreadItem → WorkItem
work_of item = record { id = item.id; begin = item.begin; end = item.end }

fill-values :
    (n index checksum : ℕ) → (fill n index checksum).0 ≡ map value_at (forward_indices n index)
unfolding fill forward_indices mixed_at stored_at value_at data_at
fill-values zero index checksum = refl
fill-values (suc n) index checksum =
    ap (λ xs. mixed_at index ∷ xs) (fill-values n (suc index) (add64 checksum (mixed_at index)))

fill-sum :
    (n index checksum : ℕ)
    → (fill n index checksum).1 ≡ sum_values (forward_indices n index) checksum
unfolding fill forward_indices sum_values mixed_at stored_at value_at data_at
fill-sum zero index checksum = refl
fill-sum (suc n) index checksum = fill-sum n (suc index) (add64 checksum (mixed_at index))

fold_gaps-fold_differences :
    (previous : ℕ) (values : List ℕ) (checksum : ℕ)
    → fold_gaps previous values checksum ≡ fold_differences previous values checksum
unfolding fold_gaps fold_differences
fold_gaps-fold_differences previous [] checksum = refl
fold_gaps-fold_differences previous (value ∷ values) checksum =
    fold_gaps-fold_differences value values _

gaps-differences :
    (values : List ℕ) (checksum : ℕ) → gaps values checksum ≡ differences values checksum
unfolding gaps differences
gaps-differences [] checksum = refl
gaps-differences (value ∷ values) checksum = fold_gaps-fold_differences value values checksum

pub process_item-item_checksum :
    (workers workload_size allocations : ℕ) (item : PthreadItem)
    → (process_item item allocations).0
      ≡ item_checksum (matching workers workload_size) (work_of item)
unfolding process_item process_work returns_early visited visit
process_item-item_checksum workers workload_size allocations item =
    let n = item.end - item.begin in
    gaps-differences (sort_values (fill n item.begin 0).0) (fill n item.begin 0).1
    ∙ ap₂ (λ values sum. differences (sort_values values) sum) (fill-values n item.begin 0)
        (fill-sum n item.begin 0)

work_of-nth_item :
    (workload_size i : ℕ)
    → (i * 256) % u64_mod ≡ i * 256
    → work_of (nth_item workload_size i)
      ≡ record { id = i; begin = i * 256; end = min (add64 (i * 256) 256) workload_size }
unfolding nth_item
work_of-nth_item workload_size i from =
    ap₂ (λ begin end. record { id = i; begin = begin; end = end }) from (ground (arith, from))

items_from-work_from :
    (workers workload_size n i fuel : ℕ)
    → workload_size + benchmark_chunk < u64_mod
    → i + n ≡ (workload_size + 255) / 256
    → workload_size ≤ i * 256 + fuel
    → map work_of (items_from workload_size n i)
      ≡ work_from (matching workers workload_size) fuel i (i * 256)
unfolding items_from nth_item work_from
items_from-work_from workers workload_size zero i zero small e enough = refl
items_from-work_from workers workload_size zero i (suc fuel) small e enough =
    let past : ltb (i * 256) workload_size ≡ false = ground (arith, e) in simp past refl
items_from-work_from workers workload_size (suc n) i zero small e enough =
    absurd (omega (arith, e, enough))
items_from-work_from workers workload_size (suc n) i (suc fuel) small e enough =
    let more : ltb (i * 256) workload_size ≡ true = ground (arith, e) in
    let next : add64 (i * 256) 256 ≡ suc i * 256 = omega (arith, e, small) in
    let next_id : add64 i 1 ≡ suc i = omega (arith, e, small) in
    let from : (i * 256) % u64_mod ≡ i * 256 = omega (arith, e, small) in
    let rest =
      items_from-work_from workers workload_size n (suc i) fuel small (omega (arith, e))
        (omega (arith, enough)) in
    simp more (
      ap₂ (λ x xs. x ∷ xs) (work_of-nth_item workload_size i from)
        (rest ∙ sym (ap₂ (work_from (matching workers workload_size) fuel) next_id next)))

-- The items that `main` pushes are those of the engine.
pub benchmark_items-build_work_items :
    (workers workload_size : ℕ)
    → workload_size + benchmark_chunk < u64_mod
    → map work_of (benchmark_items workload_size)
      ≡ build_work_items (matching workers workload_size)
unfolding benchmark_items task_count build_work_items
benchmark_items-build_work_items workers workload_size small =
    let count : sub64 (add64 workload_size 256) 1 / 256 ≡ (workload_size + 255) / 256 =
      omega (arith, small) in
    ap (λ n. map work_of (items_from workload_size n 0)) count
    ∙ items_from-work_from workers workload_size ((workload_size + 255) / 256) 0 workload_size small
        (omega arith) (omega arith)
