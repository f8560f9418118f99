-- ===== src/PthreadQueue/Crew/Agreement.antt =====
-- What the POSIX threads add up is what the C++ engine computes.
use accelsim_lite.Prelude.{
  ℕ, zero, suc, ◌+◌, ◌%◌, ◌≤◌, ◌<◌, ◌≡◌, ◌≢◌, refl, sym, ap, ◌∙◌, some, List, [], ◌∷◌, map, arith,
  length, u64_mod,
}
use mathlib.Core.List.{Permᴰ}
use Prim.Native.Nat.{bit_xor}
use accelsim_lite.Prelude.Bits.{zero-bit_xor}
use accelsim_lite.Prelude.Multisets.{sum_of, Permᴰ_of_sums, Permᴰ-length}
use accelsim_lite.Engine.{WorkItem, build_work_items}
use accelsim_lite.Engine.Process.{no_metrics, returns_early}
use accelsim_lite.Engine.Single.{SingleRun, run_single_threaded}
use accelsim_lite.Engine.Workers.Invariant.{completes}
use accelsim_lite.Engine.Workers.Agreement.{
  WorkItem-discrete, xor_all-Permᴰ, run_items-checksum, run_items-length, run_items-tasks,
  run_items-allocations,
}
use accelsim_lite.PthreadQueue.{PthreadItem, WorkQueue, queue_init}
use accelsim_lite.PthreadQueue.Benchmark.{
  benchmark_capacity, benchmark_chunk, task_count, benchmark_items,
}
use accelsim_lite.PthreadQueue.Benchmark.Engine.{
  work_of, matching, benchmark_items-build_work_items,
}
use accelsim_lite.PthreadQueue.Crew.{
  WorkerContext, new_contexts, Crew, start_crew, Course, Totals, collect, no_totals,
}
use accelsim_lite.PthreadQueue.Crew.Steady.{IsSteady, is_gone, phase_rank}
use accelsim_lite.PthreadQueue.Crew.Steady.Courses.{
  Course-IsSteady, start_crew-IsSteady, sum_of-new_contexts, new_queue,
}
use accelsim_lite.PthreadQueue.Crew.Bounds.{Course-bounded}
use accelsim_lite.PthreadQueue.Crew.Progress.{
  IsFinishedCrew, start_crew-length, length-benchmark_items,
}
use accelsim_lite.PthreadQueue.Crew.Conserved.{held_in, xor_of, latencies_of, IsConserved}
use accelsim_lite.PthreadQueue.Crew.Collecting.{
  tasks_of, allocations_of, collect-checksum, collect-tasks, collect-allocations, collect-latencies,
}
use accelsim_lite.PthreadQueue.Crew.Conserved.Steps.{Course-IsConserved}

sum_of-map :
    (f : WorkItem → ℕ) (items : List PthreadItem)
    → sum_of (λ (item : PthreadItem). f (work_of item)) items ≡ sum_of f (map work_of items)
sum_of-map f [] = refl
sum_of-map f (item ∷ items) = ap (λ n. f (work_of item) + n) (sum_of-map f items)

length-map_work : (items : List PthreadItem) → length (map work_of items) ≡ length items
length-map_work [] = refl
length-map_work (item ∷ items) = ap suc (length-map_work items)

xor_of-new_contexts : (n : ℕ) → xor_of (new_contexts n) ≡ 0
xor_of-new_contexts zero = refl
xor_of-new_contexts (suc n) = ap (bit_xor 0) (xor_of-new_contexts n) ∙ zero-bit_xor 0

items-task_count :
    (workers workload_size : ℕ)
    → workload_size + benchmark_chunk < u64_mod
    → length (build_work_items (matching workers workload_size)) ≡ task_count workload_size
items-task_count workers workload_size small =
    sym (ap length (benchmark_items-build_work_items workers workload_size small))
    ∙ (length-map_work (benchmark_items workload_size) ∙ length-benchmark_items workload_size)

start_crew-IsConserved :
    (workers workload_size : ℕ) (queue : WorkQueue)
    → workload_size + benchmark_chunk < u64_mod
    → queue_init benchmark_capacity ≡ (0, some queue)
    → IsConserved
        (matching workers workload_size)
        (build_work_items (matching workers workload_size))
        []
        (start_crew workers workload_size queue)
unfolding start_crew
start_crew-IsConserved workers workload_size queue small e =
    let (_, _, empty) = new_queue benchmark_capacity queue e in
    let same = benchmark_items-build_work_items workers workload_size small in
    record {
      conserved = λ f. omega (
        arith,
        sum_of-map f (benchmark_items workload_size),
        ap (sum_of f) same,
        ap (sum_of (λ (item : PthreadItem). f (work_of item))) empty,
        sum_of-new_contexts (λ (context : WorkerContext). sum_of f (held_in context.phase)) workers,
      );
      checked = xor_of-new_contexts workers;
      timed = omega (arith, sum_of-new_contexts latencies_of workers);
      room = sym (items-task_count workers workload_size small);
      counted =
          let nothing : sum_of tasks_of (new_contexts workers) ≡ 0 =
            omega (arith, sum_of-new_contexts tasks_of workers) in
          ap (λ n. n % u64_mod) nothing;
      allocated =
          let nothing : sum_of allocations_of (new_contexts workers) ≡ 0 =
            omega (arith, sum_of-new_contexts allocations_of workers) in
          ap (λ n. n % u64_mod) nothing;
    }

-- Nobody who has left holds an item.
gone-held :
    (f : WorkItem → ℕ) (cs : List WorkerContext)
    → sum_of is_gone cs ≡ length cs
    → sum_of (λ (context : WorkerContext). sum_of f (held_in context.phase)) cs ≡ 0
gone-held f [] h = refl
gone-held f (context ∷ cs) h = ground (arith, h, gone_at_most cs, gone-held f cs)
  where
    gone_at_most : (ds : List WorkerContext) → sum_of is_gone ds ≤ length ds
    gone_at_most [] = omega arith
    gone_at_most (d ∷ ds) = ground (arith, gone_at_most ds)

-- Once the threads have finished, every item has been processed once.
all_processed :
    (workers workload_size : ℕ) (processed : List WorkItem) (s : Crew)
    → length s.contexts ≢ 0
    → IsSteady s
    → IsFinishedCrew s
    → IsConserved
        (matching workers workload_size)
        (build_work_items (matching workers workload_size))
        processed
        s
    → Permᴰ processed (build_work_items (matching workers workload_size))
all_processed workers workload_size processed s some_worker steady over v =
    let items = build_work_items (matching workers workload_size) in
    let (_, none_to_push) = steady.ended (ap phase_rank over.joins) in
    let (_, empty) = steady.all_gone (omega (arith, over.none_left, some_worker)) in
    Permᴰ_of_sums WorkItem-discrete processed items λ f. omega (
      arith,
      v.conserved f,
      ap (sum_of (λ (item : PthreadItem). f (work_of item))) none_to_push,
      ap (sum_of (λ (item : PthreadItem). f (work_of item))) empty,
      gone-held f s.contexts over.none_left,
    )

pub record CrewAgrees (workload_size : ℕ) (t : Totals) (r : SingleRun) : Type 0 where
  pub same_checksum : t.checksum ≡ r.checksum
  pub same_tasks : t.tasks ≡ r.metrics.tasks_completed
  pub same_allocations : t.allocations ≡ r.metrics.simulated_allocations
  pub same_count : length t.latencies ≡ length r.latencies
  pub fills_array : length t.latencies ≡ task_count workload_size

always_completes :
    (workers workload_size : ℕ) (items : List WorkItem)
    → sum_of (completes (matching workers workload_size)) items ≡ length items
unfolding returns_early
always_completes workers workload_size [] = refl
always_completes workers workload_size (item ∷ items) =
    omega (arith, always_completes workers workload_size items)

-- However `main` and the workers take turns, and whatever wake-ups come that nobody asked for, once
-- they have finished the checksum and the numbers of tasks, of allocations and of latencies that
-- `main` adds up are those of `run_single_threaded` on the same workload with cache-local access and
-- the chunk of the benchmark, and the latencies fill the array that `main` has for them. There is a
-- worker at all, and the size of the workload and a chunk are below 2 ^ 64. The clocks are free.
pub threads-CrewAgrees :
    (workers workload_size n m : ℕ) (queue : WorkQueue) (s : Crew) (elapsed : WorkItem → ℕ)
    → 0 < workers
    → workload_size + benchmark_chunk < u64_mod
    → queue_init benchmark_capacity ≡ (0, some queue)
    → Course n m (start_crew workers workload_size queue) s
    → IsFinishedCrew s
    → CrewAgrees workload_size
        (collect s.contexts no_totals)
        (run_single_threaded (matching workers workload_size) elapsed)
unfolding run_single_threaded
threads-CrewAgrees workers workload_size n m queue s elapsed some_worker small e course over =
    let config = matching workers workload_size in
    let items = build_work_items config in
    let begin : SingleRun = record { metrics = no_metrics; latencies = []; checksum = 0 } in
    let first = start_crew-IsSteady workers workload_size benchmark_capacity queue e in
    let (_, crew) = Course-bounded course first in
    let (processed, v) =
      Course-IsConserved workers workload_size items course first
        (start_crew-IsConserved workers workload_size queue small e) in
    let same =
      all_processed workers workload_size processed s
        (omega (arith, crew, start_crew-length workers workload_size queue, some_worker))
        (Course-IsSteady course first) over v in
    let number = Permᴰ-length same in
    record {
      same_checksum =
          collect-checksum s.contexts no_totals
          ∙ (ap (bit_xor 0) (v.checked ∙ xor_all-Permᴰ config same)
              ∙ sym (run_items-checksum config elapsed items begin));
      same_tasks = omega (
        arith,
        collect-tasks s.contexts no_totals (omega arith),
        v.counted,
        number,
        run_items-tasks config elapsed items begin (omega arith),
        always_completes workers workload_size items,
      );
      same_allocations = omega (
        arith,
        collect-allocations s.contexts no_totals (omega arith),
        v.allocated,
        number,
        run_items-allocations config elapsed items begin (omega arith),
      );
      same_count = omega (
        arith,
        collect-latencies s.contexts no_totals,
        v.timed,
        number,
        run_items-length config elapsed items begin,
      );
      fills_array = omega (
        arith,
        collect-latencies s.contexts no_totals,
        v.timed,
        number,
        items-task_count workers workload_size small,
      );
    }
