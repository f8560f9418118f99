-- ===== src/Engine/Workers/Awake.antt =====
-- What the producer and the workers of performance_engine.cpp keep, so that no notification is lost.
use accelsim_lite.Prelude.{
  ℕ, zero, suc, ◌+◌, ◌≤◌, ◌<◌, ◌≡◌, ◌≢◌, ◌⊎◌, inl, inr, refl, ap, true, false, List, [], ◌∷◌, ◌++◌,
  arith, length, length-append, take, drop, length-drop,
}
use accelsim_lite.Engine.{BenchmarkConfig}
use accelsim_lite.Prelude.Multisets.{sum_of}
use accelsim_lite.Engine.Workers.{
  Phase, outside, waiting, dormant, departed, busy, ProducerPhase, producing, held_up, announcing,
  announced, Worker, Pool, acquire, tasks_to_take, process_one, hand_over, wake_worker, Notified,
  sleeps_in, is_dormant, no_sleeper, one_sleeper, notify_workers, notify_producer, Step, pushes,
  holds_up, finishes, announces, acquires, dozes, takes, processes, repeats, leaves, Steps, no_step,
  step_then, stir_then, stir_producer, new_workers, start_pool,
}
use accelsim_lite.Engine.Workers.Invariant.{replaced}

-- 1 for a worker that is in its wait and about to look at the queue.
abbrev waits_in : Phase → ℕ
waits_in waiting = 1
waits_in _ = 0

abbrev pub is_waiting : Worker → ℕ
is_waiting w = waits_in w.phase

abbrev pub producer_rank : ProducerPhase → ℕ
producer_rank producing = 0
producer_rank held_up = 1
producer_rank announcing = 2
producer_rank announced = 3

-- While a worker sleeps, each item in the queue has a worker that is about to look for it, and the
-- last notification is still to come; and the producer sleeps only while the queue is full.
pub record IsAwake (config : BenchmarkConfig) (s : Pool) : Type 0 where
  pub heard :
      sum_of is_dormant s.workers ≢ 0
      → (producer_rank s.producer ≢ 3) × (length s.queue ≤ sum_of is_waiting s.workers)
  pub full : producer_rank s.producer ≡ 1 → config.queue_capacity ≤ length s.queue
  pub unfinished : producer_rank s.producer ≤ 1 → s.producer_finished ≡ false
  pub finished : 2 ≤ producer_rank s.producer → s.producer_finished ≡ true

notify_producer-rank :
    (phase : ProducerPhase)
    → (producer_rank (notify_producer phase) ≢ 1)
      × (producer_rank phase ≢ 3 → producer_rank (notify_producer phase) ≢ 3)
      × (producer_rank (notify_producer phase) ≤ 1 → producer_rank phase ≤ 1)
      × (2 ≤ producer_rank (notify_producer phase) → 2 ≤ producer_rank phase)
unfolding notify_producer
notify_producer-rank phase = ground arith

-- A worker that neither sleeps nor waits before a step, and does not sleep behind it; or one that
-- sleeps before it, and waits behind it.
moves-IsAwake :
    (config : BenchmarkConfig) (s : Pool) (before : List Worker) (w w' : Worker)
    (after : List Worker)
    → s.workers ≡ before ++ w ∷ after
    → is_dormant w' ≡ 0
    → is_waiting w ≤ is_waiting w'
    → IsAwake config s
    → IsAwake config (record s { workers = before ++ w' ∷ after })
moves-IsAwake config s before w w' after e up kept v = record {
  heard = λ n.
      let (still, enough) =
        v.heard (omega (arith, n, replaced is_dormant before w w' after s.workers e, up)) in
      (still, omega (arith, enough, replaced is_waiting before w w' after s.workers e, kept));
  full = v.full;
  unfinished = v.unfinished;
  finished = v.finished;
}

-- A worker that waits at an empty queue, and does not behind the step.
quits-IsAwake :
    (config : BenchmarkConfig) (s : Pool) (before : List Worker) (w w' : Worker)
    (after : List Worker)
    → s.workers ≡ before ++ w ∷ after
    → s.queue ≡ []
    → producer_rank s.producer ≢ 3 ⊎ (is_dormant w' ≡ 0)
    → IsAwake config s
    → IsAwake config (record s { workers = before ++ w' ∷ after })
quits-IsAwake config s before w w' after e empty still v = record {
  heard = λ n. (
    elim still [
      | inl ne ↦ ne
      | inr up ↦
          (v.heard (omega (arith, n, replaced is_dormant before w w' after s.workers e, up))).0
    ],
    omega (arith, ap length empty),
  );
  full = v.full;
  unfinished = v.unfinished;
  finished = v.finished;
}

Notified-waiting :
    {ws us : List Worker}
    → Notified ws us
    → sum_of is_dormant us ≢ 0
    → (sum_of is_dormant ws ≢ 0) × (sum_of is_waiting us ≡ sum_of is_waiting ws + 1)
Notified-waiting (no_sleeper none) h = absurd (h none)
Notified-waiting {ws} (one_sleeper before w after e p) h = (
  omega (arith, replaced is_dormant before w (wake_worker w) after ws e, ap sleeps_in p, h),
  omega (arith, replaced is_waiting before w (wake_worker w) after ws e, ap waits_in p),
)

notify_workers-dormant : (ws : List Worker) → sum_of is_dormant (notify_workers ws) ≡ 0
unfolding notify_workers
notify_workers-dormant [] = refl
notify_workers-dormant (w ∷ ws) = ground (arith, notify_workers-dormant ws)

takes-IsAwake :
    (config : BenchmarkConfig) (s : Pool) (before : List Worker) (w : Worker) (after : List Worker)
    → 0 < config.queue_batch_size
    → s.workers ≡ before ++ w ∷ after
    → w.phase ≡ waiting
    → 0 < length s.queue
    → IsAwake config s
    → IsAwake config (record s {
      queue = drop (tasks_to_take config s) s.queue;
      producer = notify_producer s.producer;
      workers = before ++ record w { phase = busy (take (tasks_to_take config s) s.queue) } ∷ after;
    })
unfolding tasks_to_take
takes-IsAwake config s before w after some_batch e p some_item v =
    let w' : Worker = record w { phase = busy (take (tasks_to_take config s) s.queue) } in
    let (ne, still_to_come, early, late) = notify_producer-rank s.producer in
    record {
      heard = λ n.
          let (still, enough) =
            v.heard (
              omega
                (arith, n, replaced is_dormant before w w' after s.workers e, ap sleeps_in p)) in
          (
            still_to_come still,
            omega (
              arith,
              enough,
              replaced is_waiting before w w' after s.workers e,
              ap waits_in p,
              length-drop (tasks_to_take config s) s.queue,
            ),
          );
      full = λ k. absurd (ne k);
      unfinished = λ k. v.unfinished (early k);
      finished = λ k. v.finished (late k);
    }

-- Each step keeps it.
pub Step-IsAwake :
    (config : BenchmarkConfig) {s t : Pool}
    → 0 < config.queue_batch_size
    → Step config s t
    → IsAwake config s
    → IsAwake config t
unfolding acquire process_one hand_over
Step-IsAwake config some_batch (pushes s item rest workers o e room k) v = record {
  heard = λ n.
      let (slept, one_more) = Notified-waiting k n in
      let (still, enough) = v.heard slept in
      (still, omega (arith, enough, one_more, length-append s.queue (item ∷ [])));
  full = λ k. absurd (omega (arith, k, ap producer_rank o));
  unfinished = v.unfinished;
  finished = v.finished;
}
Step-IsAwake config some_batch (holds_up s item rest o e enough) v = record {
  heard = λ n. (omega arith, (v.heard n).1);
  full = λ k. enough;
  unfinished = λ k. v.unfinished (omega (arith, ap producer_rank o));
  finished = λ k. absurd (omega (arith, k));
}
Step-IsAwake config some_batch (finishes s o e) v = record {
  heard = λ n. (omega arith, (v.heard n).1);
  full = λ k. absurd (omega (arith, k));
  unfinished = λ k. absurd (omega (arith, k));
  finished = λ k. refl;
}
Step-IsAwake config some_batch (announces s o) v = record {
  heard = λ n. absurd (n (notify_workers-dormant s.workers));
  full = λ k. absurd (omega (arith, k));
  unfinished = λ k. absurd (omega (arith, k));
  finished = λ k. v.finished (omega (arith, ap producer_rank o));
}
Step-IsAwake config some_batch (acquires s before w after contended wait_ns e p) v =
    moves-IsAwake config s before w (acquire contended wait_ns w) after e refl
      (omega (arith, ap waits_in p)) v
Step-IsAwake config some_batch (dozes s before w after e p empty more) v =
    quits-IsAwake config s before w (record w { phase = dormant }) after e empty
      (inl (λ k. absurd (ground (arith, more, v.finished (omega (arith, k)))))) v
Step-IsAwake config some_batch (takes s before w after e p some_item) v =
    takes-IsAwake config s before w after some_batch e p some_item v
Step-IsAwake config some_batch (processes s before w after item rest queue_wait elapsed e p) v =
    let next =
      moves-IsAwake config s before w (process_one config item rest queue_wait elapsed w) after e
        refl (omega (arith, ap waits_in p)) v in
    record {
      heard = next.heard;
      full = next.full;
      unfinished = next.unfinished;
      finished = next.finished;
    }
Step-IsAwake config some_batch (repeats s before w after e p) v =
    moves-IsAwake config s before w (record w { phase = outside }) after e refl
      (omega (arith, ap waits_in p)) v
Step-IsAwake config some_batch (leaves s before w after e p empty over) v =
    let next =
      quits-IsAwake config s before w (record w { phase = departed }) after e empty (inr refl) v in
    record {
      heard = next.heard;
      full = next.full;
      unfinished = next.unfinished;
      finished = next.finished;
    }

pub Steps-IsAwake :
    (config : BenchmarkConfig) {n m : ℕ} {s t : Pool}
    → 0 < config.queue_batch_size
    → Steps config n m s t
    → IsAwake config s
    → IsAwake config t
Steps-IsAwake config some_batch (no_step s) v = v
Steps-IsAwake config some_batch (step_then x xs) v =
    Steps-IsAwake config some_batch xs (Step-IsAwake config some_batch x v)
Steps-IsAwake config some_batch (stir_then {s} before w after e p xs) v =
    Steps-IsAwake config some_batch xs (
      moves-IsAwake config s before w (wake_worker w) after e refl (omega (arith, ap waits_in p)) v)
Steps-IsAwake config some_batch (stir_producer {s} xs) v =
    let (ne, still_to_come, early, late) = notify_producer-rank s.producer in
    Steps-IsAwake config some_batch xs (record {
      heard = λ n. (still_to_come (v.heard n).0, (v.heard n).1);
      full = λ k. absurd (ne k);
      unfinished = λ k. v.unfinished (early k);
      finished = λ k. v.finished (late k);
    })

new_workers-dormant : (n : ℕ) → sum_of is_dormant (new_workers n) ≡ 0
new_workers-dormant zero = refl
new_workers-dormant (suc n) = omega (arith, new_workers-dormant n)

pub start_pool-IsAwake : (config : BenchmarkConfig) → IsAwake config (start_pool config)
unfolding start_pool
start_pool-IsAwake config = record {
  heard = λ n. absurd (n (new_workers-dormant config.worker_count));
  full = λ k. absurd (omega (arith, k));
  unfinished = λ k. refl;
  finished = λ k. absurd (omega (arith, k));
}
