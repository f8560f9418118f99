-- ===== src/Engine/Workers/Agreement.antt =====
-- The workers agree with `run_single_threaded`, in whatever order they go.
use mathlib.Core.List.{Permᴰ}
use accelsim_lite.Prelude.{
  ℕ, ◌+◌, ◌%◌, ◌<◌, ◌≡◌, refl, sym, ap, ◌∙◌, List, [], ◌∷◌, arith, length, length-append, All,
  u64_mod,
}
use Prim.Native.Nat.{bit_xor}
use mathlib.Core.Path.{ap₂}
use native.Mathlib.Decide.{ℕ_discrete}
use accelsim_lite.Engine.{BenchmarkConfig, WorkItem, build_work_items}
use accelsim_lite.Prelude.Bits.{zero-bit_xor, bit_xor_comm, bit_xor_assoc, bit_xor-zero}
use accelsim_lite.Prelude.Multisets.{sum_of, sum_of-Permᴰ, Permᴰ-length, Permᴰ_of_sums}
use accelsim_lite.Engine.Process.{no_metrics}
use accelsim_lite.Engine.Single.{SingleRun, run_item, run_items, run_single_threaded}
use accelsim_lite.Engine.Workers.{departed, Worker, Pool, start_pool, item_checksum, Steps}
use accelsim_lite.Engine.Workers.Invariant.{
  batch_of, xor_all, completes, latencies_of, tasks_of, allocations_of, has_left, IsConserved,
  sum_of-remaining,
}
use accelsim_lite.Engine.Workers.Invariant.Changes.{
  process_work-checksum, process_work-small, process_work-tasks, process_work-few,
  process_work-allocations,
}
use accelsim_lite.Engine.Workers.Invariant.Kept.{Steps-IsConserved, start_pool-IsConserved}

-- Every worker has handed over its metrics, so that `join` returns.
abbrev pub AllLeft : Pool → Type 0
AllLeft s = All (λ (w : Worker). w.phase ≡ departed) s.workers

pub WorkItem-discrete : Discrete WorkItem
WorkItem-discrete = hlevel ℕ_discrete

-- The checksum does not depend on the order of the items.
pub xor_all-Permᴰ :
    (config : BenchmarkConfig) {xs ys : List WorkItem}
    → Permᴰ xs ys
    → xor_all config xs ≡ xor_all config ys
xor_all-Permᴰ config Permᴰ.nil = refl
xor_all-Permᴰ config (Permᴰ.cons e p) =
    ap₂ bit_xor (ap (item_checksum config) e) (xor_all-Permᴰ config p)
xor_all-Permᴰ config (Permᴰ.swap {a} {b} {a'} {b'} {l} e f) =
    sym (bit_xor_assoc (item_checksum config a) (item_checksum config b) (xor_all config l))
    ∙ (ap₂ (λ x y. bit_xor (bit_xor x y) (xor_all config l)) (ap (item_checksum config) e)
          (ap (item_checksum config) f)
        ∙ (ap (λ x. bit_xor x (xor_all config l))
              (bit_xor_comm (item_checksum config b') (item_checksum config a'))
            ∙ bit_xor_assoc (item_checksum config a') (item_checksum config b') (xor_all config l)))
xor_all-Permᴰ config (Permᴰ.trans p q) = xor_all-Permᴰ config p ∙ xor_all-Permᴰ config q

pub run_items-checksum :
    (config : BenchmarkConfig) (elapsed : WorkItem → ℕ) (items : List WorkItem) (r : SingleRun)
    → (run_items config elapsed items r).checksum ≡ bit_xor r.checksum (xor_all config items)
unfolding run_items run_item
run_items-checksum config elapsed [] r = sym (bit_xor-zero r.checksum)
run_items-checksum config elapsed (item ∷ items) r =
    run_items-checksum config elapsed items (run_item config elapsed item r)
    ∙ (ap (λ x. bit_xor (bit_xor r.checksum x) (xor_all config items))
          (process_work-checksum config item r.metrics)
        ∙ bit_xor_assoc r.checksum (item_checksum config item) (xor_all config items))

pub run_items-length :
    (config : BenchmarkConfig) (elapsed : WorkItem → ℕ) (items : List WorkItem) (r : SingleRun)
    → length (run_items config elapsed items r).latencies ≡ length r.latencies + length items
unfolding run_items run_item
run_items-length config elapsed [] r = omega arith
run_items-length config elapsed (item ∷ items) r = omega (
  arith,
  run_items-length config elapsed items (run_item config elapsed item r),
  length-append r.latencies (elapsed item ∷ []),
)

pub run_items-tasks :
    (config : BenchmarkConfig) (elapsed : WorkItem → ℕ) (items : List WorkItem) (r : SingleRun)
    → r.metrics.tasks_completed < u64_mod
    → (run_items config elapsed items r).metrics.tasks_completed
      ≡ (r.metrics.tasks_completed + sum_of (completes config) items) % u64_mod
unfolding run_items run_item
run_items-tasks config elapsed [] r h = omega arith
run_items-tasks config elapsed (item ∷ items) r h =
    let next = run_item config elapsed item r in
    let small = process_work-small config item r.metrics h in
    omega (
      arith,
      run_items-tasks config elapsed items next small,
      process_work-tasks config item r.metrics,
    )

pub run_items-allocations :
    (config : BenchmarkConfig) (elapsed : WorkItem → ℕ) (items : List WorkItem) (r : SingleRun)
    → r.metrics.simulated_allocations < u64_mod
    → (run_items config elapsed items r).metrics.simulated_allocations
      ≡ (r.metrics.simulated_allocations + length items) % u64_mod
unfolding run_items run_item
run_items-allocations config elapsed [] r h = omega arith
run_items-allocations config elapsed (item ∷ items) r h =
    let next = run_item config elapsed item r in
    let few = process_work-few config item r.metrics h in
    omega (
      arith,
      run_items-allocations config elapsed items next few,
      process_work-allocations config item r.metrics,
    )

sum_of-AllLeft :
    (g : Worker → ℕ)
    → ((w : Worker) → w.phase ≡ departed → g w ≡ 0)
    → (ws : List Worker) → All (λ (w : Worker). w.phase ≡ departed) ws
    → sum_of g ws ≡ 0
sum_of-AllLeft g zero_at [] h = refl
sum_of-AllLeft g zero_at (w ∷ ws) (p, ps) =
    omega (arith, zero_at w p, sum_of-AllLeft g zero_at ws ps)

pub has_left-AllLeft :
    (ws : List Worker)
    → All (λ (w : Worker). w.phase ≡ departed) ws
    → sum_of has_left ws ≡ sum_of (λ _. 1) ws
has_left-AllLeft [] h = refl
has_left-AllLeft (w ∷ ws) (p, ps) =
    let one : has_left w ≡ 1 = ground arith in omega (arith, one, has_left-AllLeft ws ps)

-- What is left to do once every worker has handed over.
nothing_remains :
    (config : BenchmarkConfig) (items processed : List WorkItem) (s : Pool)
    → 0 < config.worker_count
    → IsConserved config items processed s
    → AllLeft s
    → Permᴰ processed items
nothing_remains config items processed s some_worker v gone =
    let (over, q) = v.all_taken (omega (arith, has_left-AllLeft s.workers gone, v.crew)) in
    Permᴰ_of_sums WorkItem-discrete processed items λ f. omega (
      arith,
      v.conserved f,
      sum_of-remaining f s,
      ap (sum_of f) (v.all_pushed over),
      ap (sum_of f) q,
      sum_of-AllLeft (λ (w : Worker). sum_of f (batch_of w.phase))
          (λ w p. ap (λ q. sum_of f (batch_of q)) p) s.workers gone,
    )

pub record Agrees (s : Pool) (r : SingleRun) : Type 0 where
  pub same_checksum : s.checksum ≡ r.checksum
  pub same_count : length s.aggregate_latencies ≡ length r.latencies
  pub same_tasks : s.aggregate_metrics.tasks_completed ≡ r.metrics.tasks_completed
  pub same_allocations : s.aggregate_metrics.simulated_allocations ≡ r.metrics.simulated_allocations

-- However the producer and the workers take turns, once every worker has left its loop the
-- checksum and the numbers of latencies, of completed tasks and of allocations are those of
-- `run_single_threaded`, if there is a worker at all. The clocks of the two runs are free.
pub workers-Agrees :
    (config : BenchmarkConfig) (elapsed : WorkItem → ℕ) (n m : ℕ) (s : Pool)
    → 0 < config.worker_count
    → Steps config n m (start_pool config) s
    → AllLeft s
    → Agrees s (run_single_threaded config elapsed)
unfolding run_single_threaded
workers-Agrees config elapsed n m s some_worker path gone =
    let items = build_work_items config in
    let begin : SingleRun = record { metrics = no_metrics; latencies = []; checksum = 0 } in
    let (processed, v) = Steps-IsConserved config items [] path (start_pool-IsConserved config) in
    let same = nothing_remains config items processed s some_worker v gone in
    record {
      same_checksum =
          v.checked
          ∙ (xor_all-Permᴰ config same
              ∙ (sym (zero-bit_xor (xor_all config items))
                  ∙ sym (run_items-checksum config elapsed items begin)));
      same_count = omega (
        arith,
        v.timed,
        sum_of-AllLeft latencies_of (λ w p. ground arith) s.workers gone,
        Permᴰ-length same,
        run_items-length config elapsed items begin,
      );
      same_tasks = omega (
        arith,
        v.counted,
        v.small,
        sum_of-AllLeft tasks_of (λ w p. ground arith) s.workers gone,
        sum_of-Permᴰ (completes config) same,
        run_items-tasks config elapsed items begin (omega arith),
      );
      same_allocations = omega (
        arith,
        v.allocated,
        v.few,
        sum_of-AllLeft allocations_of (λ w p. ground arith) s.workers gone,
        Permᴰ-length same,
        run_items-allocations config elapsed items begin (omega arith),
      );
    }
