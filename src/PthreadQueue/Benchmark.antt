-- ===== src/PthreadQueue/Benchmark.antt =====
-- benchmarks/pthreads_queue/src/pthread_queue_benchmark.c: the work of one item, and the items that
-- `main` pushes. `malloc` and `calloc` do not fail, and `qsort` sorts.
pub mod Engine
use accelsim_lite.Prelude.{
  ℕ, zero, suc, ◌+◌, ◌-◌, ◌*◌, ◌/◌, ◌%◌, List, [], ◌∷◌, ltb, if◌then◌else◌, u64_mod, add64, sub64,
}
use Prim.Native.Nat.{bit_xor}
use accelsim_lite.Prelude.Sorting.{sort_values}
use accelsim_lite.PthreadQueue.{PthreadItem}

-- `chunk_size` and `queue_capacity` in `main`.

abbrev pub benchmark_chunk : ℕ
benchmark_chunk = 256

abbrev pub benchmark_capacity : ℕ
benchmark_capacity = 1024

-- What `main` stores at index `i` of `data`.
unfoldable pub stored_at : ℕ → ℕ
stored_at i = bit_xor ((i * 2654435761) % u64_mod) (i / 8)

-- The body of the first loop of `process_item`, for the index behind `begin`.
unfoldable pub mixed_at : ℕ → ℕ
unfolding stored_at
mixed_at index = bit_xor (stored_at index) ((index * 17) % u64_mod)

-- The first loop from an index on, with the turns that are left: `temporary` and `checksum`.
unfoldable pub fill : ℕ → ℕ → ℕ → List ℕ × ℕ
unfolding mixed_at
fill zero index checksum = ([], checksum)
fill (suc n) index checksum =
    let rest = fill n (suc index) (add64 checksum (mixed_at index)) in
    (mixed_at index ∷ rest.0, rest.1)

-- The last loop, over the sorted values behind the previous one.
unfoldable pub fold_gaps : ℕ → List ℕ → ℕ → ℕ
fold_gaps previous [] checksum = checksum
fold_gaps previous (value ∷ values) checksum =
    fold_gaps value values (bit_xor checksum (sub64 value previous))

unfoldable pub gaps : List ℕ → ℕ → ℕ
unfolding fold_gaps
gaps [] checksum = checksum
gaps (value ∷ values) checksum = fold_gaps value values checksum

-- `process_item`: the checksum and the counter of allocations.
unfoldable pub process_item : PthreadItem → ℕ → ℕ × ℕ
unfolding fill gaps sort_values
process_item item allocations =
    let filled = fill (item.end - item.begin) item.begin 0 in
    (gaps (sort_values filled.0) filled.1, add64 allocations 1)

-- `task_count`.
unfoldable pub task_count : ℕ → ℕ
task_count workload_size = sub64 (add64 workload_size benchmark_chunk) 1 / benchmark_chunk

-- The item of a turn of the pushing loop, before the clock is read.
unfoldable pub nth_item : ℕ → ℕ → PthreadItem
nth_item workload_size i =
    let begin = (i * benchmark_chunk) % u64_mod in
    let end = add64 begin benchmark_chunk in
    record {
      id = i;
      begin = begin;
      end = if ltb workload_size end then workload_size else end;
      queued_at_ns = 0;
    }

-- The items from turn `i` on, with the turns that are left.
unfoldable pub items_from : ℕ → ℕ → ℕ → List PthreadItem
unfolding nth_item
items_from workload_size zero i = []
items_from workload_size (suc n) i = nth_item workload_size i ∷ items_from workload_size n (suc i)

unfoldable pub benchmark_items : ℕ → List PthreadItem
unfolding items_from task_count
benchmark_items workload_size = items_from workload_size (task_count workload_size) 0
