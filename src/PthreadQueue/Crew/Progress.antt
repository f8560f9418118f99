-- ===== src/PthreadQueue/Crew/Progress.antt =====
-- The threads of the benchmark never get stuck, and their steps have a bound.
use accelsim_lite.Prelude.{
  ℕ, zero, suc, ◌+◌, ◌*◌, ◌≤◌, ◌<◌, ◌≡◌, ◌≢◌, ◌⊎◌, inl, inr, refl, sym, ap, subst, false, some,
  List, [], ◌∷◌, ◌++◌, arith, length, List-cases,
}
use native.Mathlib.Decide.{ℕ_discrete}
use accelsim_lite.Prelude.Multisets.{sum_of, find_counting}
use accelsim_lite.PthreadQueue.{PthreadItem, WorkQueue, queue_init, lock_queue}
use accelsim_lite.PthreadQueue.Benchmark.{
  benchmark_capacity, task_count, items_from, benchmark_items,
}
use accelsim_lite.PthreadQueue.Crew.{
  WorkerPhase, between, asleep, roused, gone, handling, WorkerContext, new_contexts, ProducerPhase,
  pushing, blocked, unblocked, joining, Crew, start_crew, is_asleep, rouse, Signalled, nobody,
  somebody, CanPush, at_first, again, Enters, enters, returns_to, Step, pushes, blocks, closes,
  pops, sleeps, leaves, handles, Course,
}
use accelsim_lite.PthreadQueue.Crew.Calls.{try_pop-cases, try_push-cases}
use accelsim_lite.PthreadQueue.Crew.Bounds.{weight_of, crew_weight, Course-bounded}
use accelsim_lite.PthreadQueue.Crew.Steady.{CanPush-rank, IsSteady, is_roused, is_gone, phase_rank}
use accelsim_lite.PthreadQueue.Crew.Steady.Courses.{
  Course-IsSteady, start_crew-IsSteady, sum_of-new_contexts, new_queue,
}

-- A worker that can go on.
abbrev awake_in : WorkerPhase → ℕ
awake_in asleep = 0
awake_in gone = 0
awake_in _ = 1

abbrev is_awake : WorkerContext → ℕ
is_awake context = awake_in context.phase

-- `main` has closed the queue, and every worker has left its loop, so that `pthread_join` returns.
pub record IsFinishedCrew (s : Crew) : Type 0 where
  pub joins : s.producer ≡ joining
  pub none_left : sum_of is_gone s.contexts ≡ length s.contexts

signal : (contexts : List WorkerContext) → (after : List WorkerContext) × Signalled contexts after
signal contexts = elim (ℕ_discrete (sum_of is_asleep contexts) 0) [
  | yes e ↦ (contexts, nobody e)
  | no ne ↦
      let (before, context, after, e, h) = find_counting is_asleep contexts ne in
      (before ++ rouse context ∷ after, somebody before context after e (ground (arith, h)))
]

phases :
    (contexts : List WorkerContext)
    → sum_of is_asleep contexts + sum_of is_awake contexts + sum_of is_gone contexts
      ≡ length contexts
phases [] = refl
phases (context ∷ contexts) = ground (arith, phases contexts)

roused-awake :
    (contexts : List WorkerContext) → sum_of is_roused contexts ≤ sum_of is_awake contexts
roused-awake [] = omega arith
roused-awake (context ∷ contexts) = ground (arith, roused-awake contexts)

abbrev HasStep : Crew → Type 0
HasStep s = (t : Crew) × Step s t

pop_goes_on :
    (s : Crew) (before : List WorkerContext) (context : WorkerContext) (after : List WorkerContext)
    (q : WorkQueue)
    → s.contexts ≡ before ++ context ∷ after
    → Enters s.queue context.phase q
    → HasStep s
pop_goes_on s before context after q e enter = elim (try_pop-cases q) [
  | inl h ↦ (_, sleeps s before context after q e enter h)
  | inr (inl (item, r, h)) ↦ (_, pops s before context after q r item e enter h)
  | inr (inr h) ↦ (_, leaves s before context after q e enter h)
]

Phase-cases :
    (phase : WorkerPhase)
    → awake_in phase ≢ 0
    → (phase ≡ between) ⊎ ((phase ≡ roused) ⊎ ((item : PthreadItem) × (phase ≡ handling item)))
Phase-cases between h = inl refl
Phase-cases roused h = inr (inl refl)
Phase-cases (handling item) h = inr (inr (item, refl))
Phase-cases asleep h = absurd (h refl)
Phase-cases gone h = absurd (h refl)

awake_goes_on : (s : Crew) → sum_of is_awake s.contexts ≢ 0 → HasStep s
awake_goes_on s h =
    let (before, context, after, e, awake) = find_counting is_awake s.contexts h in
    elim (Phase-cases context.phase awake) [
      | inl p ↦ pop_goes_on s before context after (lock_queue false 0 0 s.queue) e (
          subst (λ phase. Enters s.queue phase (lock_queue false 0 0 s.queue)) (sym p)
            (enters false 0 0))
      | inr (inl p) ↦
          pop_goes_on s before context after s.queue e
            (subst (λ phase. Enters s.queue phase s.queue) (sym p) returns_to)
      | inr (inr (item, p)) ↦ (_, handles s before context after item 0 e p)
    ]

push_goes_on : (s : Crew) → IsSteady s → CanPush s.producer → s.to_push ≢ [] → HasStep s
push_goes_on s v can some_item = elim (List-cases s.to_push) [
  | inl e ↦ absurd (some_item e)
  | inr (item, rest, e) ↦
      elim (try_push-cases item s.queue (v.opened (ground (arith, CanPush-rank can)))) [
        | inl h ↦ (_, blocks s item rest can e h)
        | inr (r, h) ↦
            let (after, signalled) = signal s.contexts in
            (_, pushes s item rest item.queued_at_ns r after can e h signalled)
      ]
]

Producer-cases :
    (phase : ProducerPhase)
    → (phase ≡ pushing) ⊎ ((phase ≡ unblocked) ⊎ ((phase ≡ blocked) ⊎ (phase ≡ joining)))
Producer-cases pushing = inl refl
Producer-cases unblocked = inr (inl refl)
Producer-cases blocked = inr (inr (inl refl))
Producer-cases joining = inr (inr (inr refl))

nobody_asleep : (s : Crew) → IsSteady s → s.producer ≡ joining → sum_of is_asleep s.contexts ≡ 0
nobody_asleep s v p = elim (ℕ_discrete (sum_of is_asleep s.contexts) 0) [
  | yes e ↦ e
  | no ne ↦
      let (closed, _) = v.ended (ap phase_rank p) in absurd (ground (arith, closed, (v.heard ne).0))
]

-- Somebody can go on, unless everybody has finished.
pub goes_on : (s : Crew) → IsSteady s → length s.contexts ≢ 0 → IsFinishedCrew s ⊎ HasStep s
goes_on s v some_worker = elim (Producer-cases s.producer) [
  | inl p ↦
      let can = subst CanPush (sym p) at_first in
      elim (List-cases s.to_push) [
        | inl e ↦ inr (_, closes s p e)
        | inr (item, rest, e) ↦ inr (push_goes_on s v can (ground (arith, e)))
      ]
  | inr (inl p) ↦
      let has = v.has_item (omega (arith, ap phase_rank p)) (omega (arith, ap phase_rank p)) in
      inr (push_goes_on s v (subst CanPush (sym p) again) (λ e. has (ap length e)))
  | inr (inr (inl p)) ↦
      let full_ = v.full_when_blocked (ap phase_rank p) in
      inr (elim (ℕ_discrete (sum_of is_awake s.contexts) 0) [
        | no ne ↦ awake_goes_on s ne
        | yes e ↦
            let nobody_gone : sum_of is_gone s.contexts ≡ 0 =
              elim (ℕ_discrete (sum_of is_gone s.contexts) 0) [
                | yes g ↦ g
                | no ne ↦
                    absurd (omega (arith, ap length (v.all_gone ne).1, full_, v.sound.head_in))
              ] in
            let (_, enough) =
              v.heard (omega (arith, phases s.contexts, e, nobody_gone, some_worker)) in
            absurd (omega (arith, enough, roused-awake s.contexts, e, full_, v.sound.head_in))
      ])
  | inr (inr (inr p)) ↦ elim (ℕ_discrete (sum_of is_awake s.contexts) 0) [
    | no ne ↦ inr (awake_goes_on s ne)
    | yes e ↦
        inl (record {
          joins = p;
          none_left = omega (arith, phases s.contexts, e, nobody_asleep s v p);
        })
  ]
]

length-items_from : (workload_size n i : ℕ) → length (items_from workload_size n i) ≡ n
unfolding items_from
length-items_from workload_size zero i = refl
length-items_from workload_size (suc n) i = ap suc (length-items_from workload_size n (suc i))

pub length-benchmark_items :
    (workload_size : ℕ) → length (benchmark_items workload_size) ≡ task_count workload_size
unfolding benchmark_items
length-benchmark_items workload_size = length-items_from workload_size (task_count workload_size) 0

length-new_contexts : (n : ℕ) → length (new_contexts n) ≡ n
length-new_contexts zero = refl
length-new_contexts (suc n) = ap suc (length-new_contexts n)

start_weight :
    (workers workload_size : ℕ) (queue : WorkQueue)
    → queue_init benchmark_capacity ≡ (0, some queue)
    → (length (start_crew workers workload_size queue).contexts ≡ workers)
      × (crew_weight (start_crew workers workload_size queue)
          ≡ 5 * task_count workload_size + 2 * workers + 2)
unfolding start_crew
start_weight workers workload_size queue e =
    let (_, _, empty) = new_queue benchmark_capacity queue e in
    (
      length-new_contexts workers,
      omega (
        arith,
        ap length empty,
        length-new_contexts workers,
        length-benchmark_items workload_size,
        sum_of-new_contexts weight_of workers,
      ),
    )

pub start_crew-length :
    (workers workload_size : ℕ) (queue : WorkQueue)
    → length (start_crew workers workload_size queue).contexts ≡ workers
unfolding start_crew
start_crew-length workers workload_size queue = length-new_contexts workers

-- What becomes of the threads: they have finished, or one of them has a next step; and the steps so
-- far are bounded.
pub record GoesOn (workers workload_size n m : ℕ) (s : Crew) : Type 0 where
  pub not_stuck : IsFinishedCrew s ⊎ ((t : Crew) × Step s t)
  pub bounded : n ≤ 5 * task_count workload_size + 2 * workers + 2 + m

-- No wake-up of the POSIX threads is lost: from the new queue on, in whatever order `main` and the
-- workers take their steps, and whatever `m` wake-ups come that nobody asked for, they have finished
-- or one of them has a next step that does not depend on such a wake-up; and they have at most five
-- steps for each item, two for each worker, two more, and one for each of these wake-ups. There is
-- a worker at all.
pub threads-GoesOn :
    (workers workload_size n m : ℕ) (queue : WorkQueue) (s : Crew)
    → 0 < workers
    → queue_init benchmark_capacity ≡ (0, some queue)
    → Course n m (start_crew workers workload_size queue) s
    → GoesOn workers workload_size n m s
threads-GoesOn workers workload_size n m queue s some_worker e course =
    let first = start_crew-IsSteady workers workload_size benchmark_capacity queue e in
    let (bound, crew) = Course-bounded course first in
    let (begin_crew, begin_weight) = start_weight workers workload_size queue e in
    record {
      not_stuck =
          goes_on s (Course-IsSteady course first) (omega (arith, crew, begin_crew, some_worker));
      bounded = omega (arith, bound, begin_weight);
    }
