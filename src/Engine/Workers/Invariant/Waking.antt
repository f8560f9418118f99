-- ===== src/Engine/Workers/Invariant/Waking.antt =====
-- Notifications and the phases of the producer, for what `IsConserved` states.
use accelsim_lite.Prelude.{
  ℕ, ◌+◌, ◌%◌, ◌≡◌, refl, sym, subst, ap, ◌∙◌, List, [], ◌∷◌, ◌++◌, arith, u64_mod,
}
use mathlib.Core.Path.{ap₂}
use accelsim_lite.Engine.{BenchmarkConfig, WorkItem}
use accelsim_lite.Prelude.Multisets.{sum_of}
use accelsim_lite.Engine.Workers.{
  Phase, outside, waiting, dormant, departed, busy, ProducerPhase, Worker, Pool, wake_worker,
  Notified, no_sleeper, one_sleeper, notify_workers,
}
use accelsim_lite.Engine.Workers.Invariant.{
  batch_of, latencies_of, tasks_of, allocations_of, has_left, IsConserved, sum_of-remaining,
}
use accelsim_lite.Engine.Workers.Invariant.Changes.{alike}

-- The invariant reads nothing of the producer's phase.
pub with_producer :
    (config : BenchmarkConfig) (items processed : List WorkItem) (s : Pool) (phase : ProducerPhase)
    → IsConserved config items processed s
    → IsConserved config items processed (record s { producer = phase })
with_producer config items processed s phase v = record {
  conserved = v.conserved;
  checked = v.checked;
  timed = v.timed;
  counted = v.counted;
  small = v.small;
  allocated = v.allocated;
  few = v.few;
  crew = v.crew;
  all_pushed = v.all_pushed;
  all_taken = v.all_taken;
}

-- A worker without a batch that is in its wait before and after keeps it.
pub wakes-IsConserved :
    (config : BenchmarkConfig) (items processed : List WorkItem) (s : Pool) (before : List Worker)
    (w : Worker) (after : List Worker)
    → s.workers ≡ before ++ w ∷ after
    → w.phase ≡ dormant
    → IsConserved config items processed s
    → IsConserved config items processed (record s { workers = before ++ wake_worker w ∷ after })
wakes-IsConserved config items processed s before w after e p v =
    alike config items processed s before w (wake_worker w) after e (sym (ap batch_of p))
      (ground arith) (ground arith) (ground arith) (ground arith) v

pub Notified-IsConserved :
    (config : BenchmarkConfig) (items processed : List WorkItem) (s : Pool)
    (workers ws : List Worker)
    → Notified ws workers
    → s.workers ≡ ws
    → IsConserved config items processed s
    → IsConserved config items processed (record s { workers = workers })
Notified-IsConserved config items processed s _ ws (no_sleeper none) e v =
    subst (λ us. IsConserved config items processed (record s { workers = us })) e v
Notified-IsConserved config items processed s _ ws (one_sleeper before w after k p) e v =
    wakes-IsConserved config items processed s before w after (e ∙ k) p v

-- A sum to which sleeping and waiting workers add the same.

notified_one :
    (g : Worker → ℕ)
    → ((w : Worker) → w.phase ≡ dormant → g (wake_worker w) ≡ g w)
    → (phase : Phase) (w : Worker) → w.phase ≡ phase
    → g (elim w.phase [ dormant ↦ wake_worker w | _ ↦ w ]) ≡ g w
notified_one g same dormant w p = simp p (same w p)
notified_one g same outside w p = simp p refl
notified_one g same waiting w p = simp p refl
notified_one g same departed w p = simp p refl
notified_one g same (busy items) w p = simp p refl

sum_of-notify_workers :
    (g : Worker → ℕ)
    → ((w : Worker) → w.phase ≡ dormant → g (wake_worker w) ≡ g w)
    → (ws : List Worker) → sum_of g (notify_workers ws) ≡ sum_of g ws
unfolding notify_workers
sum_of-notify_workers g same [] = refl
sum_of-notify_workers g same (w ∷ ws) =
    ap₂ (λ x y. x + y) (notified_one g same w.phase w refl) (sum_of-notify_workers g same ws)

pub announces-IsConserved :
    (config : BenchmarkConfig) (items processed : List WorkItem) (s : Pool)
    → IsConserved config items processed s
    → IsConserved config items processed (record s { workers = notify_workers s.workers })
announces-IsConserved config items processed s v =
    let t : Pool = record s { workers = notify_workers s.workers } in
    let r = λ (g : Worker → ℕ) (same : (w : Worker) → w.phase ≡ dormant → g (wake_worker w) ≡ g w).
      sum_of-notify_workers g same s.workers in
    record {
      conserved = λ f. omega (
        arith,
        v.conserved f,
        sum_of-remaining f s,
        sum_of-remaining f t,
        r (λ w. sum_of f (batch_of w.phase)) (λ w p. sym (ap (λ q. sum_of f (batch_of q)) p)),
      );
      checked = v.checked;
      timed = omega (arith, v.timed, r latencies_of (λ w p. ground arith));
      counted =
          ap (λ n. (s.aggregate_metrics.tasks_completed + n) % u64_mod)
            (r tasks_of (λ w p. ground arith))
          ∙ v.counted;
      small = v.small;
      allocated =
          ap (λ n. (s.aggregate_metrics.simulated_allocations + n) % u64_mod)
            (r allocations_of (λ w p. ground arith))
          ∙ v.allocated;
      few = v.few;
      crew = omega (arith, v.crew, r (λ _. 1) (λ w p. refl));
      all_pushed = v.all_pushed;
      all_taken = λ n. v.all_taken (omega (arith, r has_left (λ w p. ground arith)));
    }
