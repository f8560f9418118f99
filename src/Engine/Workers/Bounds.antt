-- ===== src/Engine/Workers/Bounds.antt =====
-- A bound on the steps of the producer and the workers of performance_engine.cpp.
use accelsim_lite.Prelude.{
  ℕ, zero, suc, ◌+◌, ◌*◌, ◌≤◌, ◌<◌, ◌≡◌, refl, ap, List, [], ◌∷◌, ◌++◌, arith, length,
  length-append, take, length-take, length-drop,
}
use accelsim_lite.Engine.{BenchmarkConfig, build_work_items}
use accelsim_lite.Prelude.Multisets.{sum_of}
use accelsim_lite.Engine.Workers.{
  Phase, outside, waiting, dormant, departed, busy, ProducerPhase, producing, held_up, announcing,
  announced, Worker, Pool, acquire, tasks_to_take, process_one, hand_over, wake_worker, Notified,
  no_sleeper, one_sleeper, notify_workers, notify_producer, Step, pushes, holds_up, finishes,
  announces, acquires, dozes, takes, processes, repeats, leaves, Steps, no_step, step_then,
  stir_then, stir_producer, new_workers, start_pool,
}
use accelsim_lite.Engine.Workers.Invariant.{replaced}

-- The number of steps that a worker can still do without a new batch, with what its items add.
abbrev phase_weight : Phase → ℕ
phase_weight outside = 3
phase_weight waiting = 2
phase_weight dormant = 1
phase_weight departed = 0
phase_weight (busy items) = 4 + length items

abbrev worker_weight : Worker → ℕ
worker_weight w = phase_weight w.phase

-- The same for the producer, with the workers that it can still wake up at its end.
abbrev producer_weight : ProducerPhase → ℕ → ℕ
producer_weight producing n = 3 + n
producer_weight held_up n = 2 + n
producer_weight announcing n = 1 + n
producer_weight announced n = 0

abbrev pub crew_size : List Worker → ℕ
crew_size ws = sum_of (λ (w : Worker). 1) ws

-- A bound on the steps from a state on.
abbrev pool_weight : Pool → ℕ
pool_weight s =
    7 * length s.to_push
    + 5 * length s.queue
    + producer_weight s.producer (crew_size s.workers)
    + sum_of worker_weight s.workers

same_crew :
    (s : Pool) (before : List Worker) (w w' : Worker) (after : List Worker)
    → s.workers ≡ before ++ w ∷ after
    → producer_weight s.producer (crew_size (before ++ w' ∷ after))
      ≡ producer_weight s.producer (crew_size s.workers)
same_crew s before w w' after e =
    ap (producer_weight s.producer) (omega (arith, replaced (λ _. 1) before w w' after s.workers e))

notify_producer-weight :
    (phase : ProducerPhase) (n : ℕ)
    → producer_weight (notify_producer phase) n ≤ producer_weight phase n + 1
unfolding notify_producer
notify_producer-weight producing n = omega arith
notify_producer-weight held_up n = omega arith
notify_producer-weight announcing n = omega arith
notify_producer-weight announced n = omega arith

Notified-weight :
    {ws us : List Worker}
    → Notified ws us
    → (sum_of worker_weight us ≤ sum_of worker_weight ws + 1) × (crew_size us ≡ crew_size ws)
Notified-weight (no_sleeper none) = (omega arith, refl)
Notified-weight {ws} (one_sleeper before w after e p) = (
  omega (arith, replaced worker_weight before w (wake_worker w) after ws e, ap phase_weight p),
  omega (arith, replaced (λ _. 1) before w (wake_worker w) after ws e),
)

notify_workers-weight :
    (ws : List Worker)
    → sum_of worker_weight (notify_workers ws) ≤ sum_of worker_weight ws + crew_size ws
unfolding notify_workers
notify_workers-weight [] = omega arith
notify_workers-weight (w ∷ ws) = ground (arith, notify_workers-weight ws)

-- Each step takes at least one from the weight.
Step-lowers :
    (config : BenchmarkConfig) {s t : Pool}
    → 0 < config.queue_batch_size
    → Step config s t
    → suc (pool_weight t) ≤ pool_weight s
unfolding acquire tasks_to_take process_one hand_over
Step-lowers config some_batch (pushes s item rest workers o e room k) =
    let (heavier, same) = Notified-weight k in
    omega (
      arith,
      ap length e,
      length-append s.queue (item ∷ []),
      heavier,
      ap (producer_weight s.producer) same,
    )
Step-lowers config some_batch (holds_up s item rest o e full) =
    omega (arith, ap (λ p. producer_weight p (crew_size s.workers)) o)
Step-lowers config some_batch (finishes s o e) =
    omega (arith, ap (λ p. producer_weight p (crew_size s.workers)) o)
Step-lowers config some_batch (announces s o) =
    omega
      (arith, ap (λ p. producer_weight p (crew_size s.workers)) o, notify_workers-weight s.workers)
Step-lowers config some_batch (acquires s before w after contended wait_ns e p) = omega (
  arith,
  replaced worker_weight before w (acquire contended wait_ns w) after s.workers e,
  same_crew s before w (acquire contended wait_ns w) after e,
  ap phase_weight p,
)
Step-lowers config some_batch (dozes s before w after e p q more) = omega (
  arith,
  replaced worker_weight before w (record w { phase = dormant }) after s.workers e,
  same_crew s before w (record w { phase = dormant }) after e,
  ap phase_weight p,
)
Step-lowers config some_batch (takes s before w after e p some_item) =
    let w' : Worker = record w { phase = busy (take (tasks_to_take config s) s.queue) } in
    omega (
      arith,
      replaced worker_weight before w w' after s.workers e,
      same_crew s before w w' after e,
      notify_producer-weight s.producer (crew_size (before ++ w' ∷ after)),
      ap phase_weight p,
      length-drop (tasks_to_take config s) s.queue,
      length-take (tasks_to_take config s) s.queue,
    )
Step-lowers config some_batch (processes s before w after item rest queue_wait elapsed e p) =
    let w' = process_one config item rest queue_wait elapsed w in
    omega (
      arith,
      replaced worker_weight before w w' after s.workers e,
      same_crew s before w w' after e,
      ap phase_weight p,
    )
Step-lowers config some_batch (repeats s before w after e p) = omega (
  arith,
  replaced worker_weight before w (record w { phase = outside }) after s.workers e,
  same_crew s before w (record w { phase = outside }) after e,
  ap phase_weight p,
)
Step-lowers config some_batch (leaves s before w after e p empty over) = omega (
  arith,
  replaced worker_weight before w (record w { phase = departed }) after s.workers e,
  same_crew s before w (record w { phase = departed }) after e,
  ap phase_weight p,
)

Steps-weight :
    (config : BenchmarkConfig) {n m : ℕ} {s t : Pool}
    → 0 < config.queue_batch_size
    → Steps config n m s t
    → n + pool_weight t ≤ pool_weight s + m
Steps-weight config some_batch (no_step s) = omega arith
Steps-weight config some_batch (step_then x xs) =
    omega (arith, Step-lowers config some_batch x, Steps-weight config some_batch xs)
Steps-weight config some_batch (stir_then {s} before w after e p xs) = omega (
  arith,
  replaced worker_weight before w (wake_worker w) after s.workers e,
  same_crew s before w (wake_worker w) after e,
  ap phase_weight p,
  Steps-weight config some_batch xs,
)
Steps-weight config some_batch (stir_producer {s} xs) = omega (
  arith,
  notify_producer-weight s.producer (crew_size s.workers),
  Steps-weight config some_batch xs,
)

new_workers-weight :
    (n : ℕ) → (sum_of worker_weight (new_workers n) ≡ 3 * n) × (crew_size (new_workers n) ≡ n)
new_workers-weight zero = (refl, refl)
new_workers-weight (suc n) = omega (arith, new_workers-weight n)

-- At most seven steps for each item, four for each worker, three more, and one for each wake-up
-- without a cause.
pub Steps-bounded :
    (config : BenchmarkConfig) {n m : ℕ} {s : Pool}
    → 0 < config.queue_batch_size
    → Steps config n m (start_pool config) s
    → n ≤ 7 * length (build_work_items config) + 4 * config.worker_count + 3 + m
unfolding start_pool
Steps-bounded config some_batch path =
    omega (arith, Steps-weight config some_batch path, new_workers-weight config.worker_count)
