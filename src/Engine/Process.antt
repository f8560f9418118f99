-- ===== src/Engine/Process.antt =====
-- `PerformanceEngine::process_work` of performance_engine/src/performance_engine.cpp.
use native.Mathlib.Nat.{mod-lt}
use accelsim_lite.Prelude.{
  ℕ, zero, suc, ◌+◌, ◌-◌, ◌*◌, ◌/◌, ◌%◌, ◌≤◌, ◌<◌, Bool, false, List, [], ◌∷◌, map, arith, ◌==◌,
  if◌then◌else◌, All, u64_mod, add64, sub64, ◌≡◌, subst,
}
use Prim.Native.Nat.{bit_xor}
use accelsim_lite.Engine.{cache_local, cache_unfriendly, BenchmarkConfig, WorkItem, AccessPattern}
use accelsim_lite.Prelude.Sorting.{sort_values}

-- What the constructor stores at index `i` of `data_`.
unfoldable pub data_at : ℕ → ℕ
data_at i = bit_xor ((i * 2654435761) % u64_mod) (i / 8)

unfoldable pub value_at : ℕ → ℕ
unfolding data_at
value_at i = bit_xor (data_at i) ((i * 17) % u64_mod)

-- The indices of the loop from `i` on, as many as are left.
unfoldable pub forward_indices : ℕ → ℕ → List ℕ
forward_indices zero i = []
forward_indices (suc n) i = i ∷ forward_indices n (suc i)

-- The indices of the loop with the stride 67, from an offset on, as many as are left.
unfoldable pub strided_indices : ℕ → ℕ → ℕ → ℕ → List ℕ
strided_indices begin span zero offset = []
strided_indices begin span (suc n) offset =
    (begin + ((offset * 67) % u64_mod) % span) ∷ strided_indices begin span n (suc offset)

-- The indices that `process_work` reads, in its order, from `begin` on over the span.
unfoldable pub visit : AccessPattern → ℕ → ℕ → List ℕ
unfolding forward_indices strided_indices
visit cache_local begin span = forward_indices span begin
visit cache_unfriendly begin span = strided_indices begin span span 0

unfoldable pub visited : BenchmarkConfig → WorkItem → List ℕ
unfolding visit
visited config item = visit config.access_pattern item.begin (item.end - item.begin)

unfoldable pub sum_values : List ℕ → ℕ → ℕ
unfolding value_at
sum_values [] sum = sum
sum_values (i ∷ indices) sum = sum_values indices (add64 sum (value_at i))

-- The last loop, over the values behind the previous one.
unfoldable pub fold_differences : ℕ → List ℕ → ℕ → ℕ
fold_differences previous [] checksum = checksum
fold_differences previous (x ∷ xs) checksum =
    fold_differences x xs (bit_xor checksum (sub64 x previous))

unfoldable pub differences : List ℕ → ℕ → ℕ
unfolding fold_differences
differences [] checksum = checksum
differences (x ∷ xs) checksum = fold_differences x xs checksum

pub record WorkerMetrics : Type 0 where
  pub tasks_completed : ℕ
  pub simulated_allocations : ℕ
  pub lock_acquisitions : ℕ
  pub contended_lock_acquisitions : ℕ
  pub lock_wait_ns : ℕ
  pub queue_wait_ns : ℕ

abbrev pub no_metrics : WorkerMetrics
no_metrics = record {
  tasks_completed = 0;
  simulated_allocations = 0;
  lock_acquisitions = 0;
  contended_lock_acquisitions = 0;
  lock_wait_ns = 0;
  queue_wait_ns = 0;
}

-- Whether the access pattern returns before the values are sorted.
unfoldable pub returns_early : BenchmarkConfig → WorkItem → Bool
returns_early config item = elim config.access_pattern [
  | cache_local ↦ false
  | cache_unfriendly ↦ item.end - item.begin == 0
]

unfoldable pub process_work : BenchmarkConfig → WorkItem → WorkerMetrics → ℕ × WorkerMetrics
unfolding visited sum_values sort_values differences returns_early value_at
process_work config item metrics =
    let indices = visited config item in
    let allocated = record metrics {
      simulated_allocations = add64 metrics.simulated_allocations 1;
    } in
    if returns_early config item then (0, allocated) else (
      differences (sort_values (map value_at indices)) (sum_values indices 0),
      record allocated { tasks_completed = add64 metrics.tasks_completed 1 },
    )

forward_indices-All :
    (n i last : ℕ)
    → i + n ≤ last
    → (first : ℕ) → first ≤ i
    → All (λ j. (first ≤ j) × (j < last)) (forward_indices n i)
unfolding forward_indices
forward_indices-All zero i last h first low = tt
forward_indices-All (suc n) i last h first low =
    ((low, omega arith), forward_indices-All n (suc i) last (omega arith) first (omega arith))

strided_indices-All :
    (begin span n offset : ℕ)
    → 0 < span
    → All (λ j. (begin ≤ j) × (j < begin + span)) (strided_indices begin span n offset)
unfolding strided_indices
strided_indices-All begin span zero offset h = tt
strided_indices-All begin span (suc n) offset h =
    let below = mod-lt ((offset * 67) % u64_mod) h in
    ((omega arith, omega arith), strided_indices-All begin span n (suc offset) h)

visit-All :
    (pattern_ : AccessPattern) (begin span : ℕ)
    → 0 < span
    → All (λ j. (begin ≤ j) × (j < begin + span)) (visit pattern_ begin span)
unfolding visit
visit-All cache_local begin span h =
    forward_indices-All span begin (begin + span) (omega arith) begin (omega arith)
visit-All cache_unfriendly begin span h = strided_indices-All begin span span 0 h

-- `process_work` reads `data_` only at the indices of its item, in either order of access, if the
-- item is not empty.
pub visited-InRange :
    (config : BenchmarkConfig) (item : WorkItem)
    → item.begin < item.end
    → All (λ i. (item.begin ≤ i) × (i < item.end)) (visited config item)
unfolding visited
visited-InRange config item some_item =
    let reach : item.begin + (item.end - item.begin) ≡ item.end = omega arith in
    subst (λ last. All (λ i. (item.begin ≤ i) × (i < last)) (visited config item)) reach
      (visit-All config.access_pattern item.begin (item.end - item.begin) (omega arith))
