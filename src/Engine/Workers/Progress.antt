-- ===== src/Engine/Workers/Progress.antt =====
-- The run of the producer and the workers ends: it never gets stuck, and it has a bound.
use accelsim_lite.Prelude.{
  ℕ, ◌+◌, ◌*◌, ◌≤◌, ◌<◌, ◌≡◌, ◌≢◌, ◌⊎◌, inl, inr, refl, ap, false, List, [], ◌∷◌, ◌++◌, arith,
  length, All, Bool-cases, List-cases, succeed, ltb,
}
use native.Mathlib.Decide.{ℕ_discrete}
use accelsim_lite.Engine.{BenchmarkConfig, check_config, WorkItem, build_work_items}
use accelsim_lite.Prelude.Multisets.{sum_of, find_counting}
use accelsim_lite.Engine.Workers.{
  Phase, outside, waiting, dormant, departed, busy, ProducerPhase, producing, held_up, announcing,
  announced, Worker, Pool, hand_over, is_dormant, wake_worker, Notified, no_sleeper, one_sleeper,
  Step, pushes, holds_up, finishes, announces, acquires, dozes, takes, processes, repeats, leaves,
  Steps, no_step, step_then, stir_then, stir_producer, start_pool,
}
use accelsim_lite.Engine.Workers.Agreement.{AllLeft, has_left-AllLeft}
use accelsim_lite.Engine.Workers.Awake.{
  IsAwake, is_waiting, producer_rank, Steps-IsAwake, start_pool-IsAwake,
}
use accelsim_lite.Engine.Workers.Bounds.{crew_size, Steps-bounded}
use accelsim_lite.Engine.Workers.Invariant.{has_left, IsConserved}
use accelsim_lite.Engine.Workers.Invariant.Kept.{Steps-IsConserved, start_pool-IsConserved}

-- A worker that can go on.
abbrev active_in : Phase → ℕ
active_in dormant = 0
active_in departed = 0
active_in _ = 1

abbrev is_active : Worker → ℕ
is_active w = active_in w.phase

phases :
    (ws : List Worker)
    → sum_of is_dormant ws + sum_of is_active ws + sum_of has_left ws ≡ crew_size ws
phases [] = refl
phases (w ∷ ws) = ground (arith, phases ws)

waiting-active : (ws : List Worker) → sum_of is_waiting ws ≤ sum_of is_active ws
waiting-active [] = omega arith
waiting-active (w ∷ ws) = ground (arith, waiting-active ws)

phase-departed : (phase : Phase) → active_in phase ≡ 0 → phase ≢ dormant → phase ≡ departed
phase-departed outside h ne = absurd (omega (arith, h))
phase-departed waiting h ne = absurd (omega (arith, h))
phase-departed dormant h ne = absurd (ne refl)
phase-departed departed h ne = refl
phase-departed (busy items) h ne = absurd (omega (arith, h))

all_departed :
    (ws : List Worker)
    → sum_of is_active ws ≡ 0
    → sum_of is_dormant ws ≡ 0
    → All (λ (w : Worker). w.phase ≡ departed) ws
all_departed [] h k = tt
all_departed (w ∷ ws) h k = (
  phase-departed w.phase (omega (arith, h)) (λ e. absurd (ground (arith, k, e))),
  all_departed ws (omega (arith, h)) (omega (arith, k)),
)

notify : (ws : List Worker) → (us : List Worker) × Notified ws us
notify ws = elim (ℕ_discrete (sum_of is_dormant ws) 0) [
  | yes e ↦ (ws, no_sleeper e)
  | no ne ↦
      let (before, w, after, e, h) = find_counting is_dormant ws ne in
      (before ++ wake_worker w ∷ after, one_sleeper before w after e (ground (arith, h)))
]

abbrev pub CanStep : BenchmarkConfig → Pool → Type 0
CanStep config s = (t : Pool) × Step config s t

-- A worker that is not asleep and has not left its loop has a step.
active-CanStep :
    (config : BenchmarkConfig) (s : Pool) (before : List Worker) (w : Worker) (after : List Worker)
    → s.workers ≡ before ++ w ∷ after
    → (phase : Phase) → w.phase ≡ phase
    → active_in phase ≢ 0
    → CanStep config s
active-CanStep config s before w after e outside p active =
    (_, acquires s before w after false 0 e p)
active-CanStep config s before w after e waiting p active = elim (List-cases s.queue) [
  | inr (item, rest, some_item) ↦
      (_, takes s before w after e p (omega (arith, ap length some_item)))
  | inl empty ↦ elim (Bool-cases s.producer_finished) [
    | inl over ↦ (_, leaves s before w after e p empty over)
    | inr more ↦ (_, dozes s before w after e p empty more)
  ]
]
active-CanStep config s before w after e (busy []) p active = (_, repeats s before w after e p)
active-CanStep config s before w after e (busy (item ∷ rest)) p active =
    (_, processes s before w after item rest 0 0 e p)
active-CanStep config s before w after e dormant p active = absurd (active refl)
active-CanStep config s before w after e departed p active = absurd (active refl)

-- So has the producer, unless it sleeps or has notified everybody.
producing-CanStep :
    (config : BenchmarkConfig) (s : Pool) → s.producer ≡ producing → CanStep config s
producing-CanStep config s p = elim (List-cases s.to_push) [
  | inl e ↦ (_, finishes s p e)
  | inr (item, rest, e) ↦ elim (Bool-cases (ltb (length s.queue) config.queue_capacity)) [
    | inl room ↦
        let (workers, k) = notify s.workers in
        (_, pushes s item rest workers p e (ground (arith, room)) k)
    | inr full ↦ (_, holds_up s item rest p e (ground (arith, full)))
  ]
]

-- Where no worker can go on, the producer can, or everybody has left.
still-CanStep :
    (config : BenchmarkConfig) (items processed : List WorkItem) (s : Pool)
    → 0 < config.worker_count
    → 0 < config.queue_capacity
    → IsConserved config items processed s
    → IsAwake config s
    → sum_of is_active s.workers ≡ 0
    → (phase : ProducerPhase) → s.producer ≡ phase
    → AllLeft s ⊎ CanStep config s
still-CanStep config items processed s some_worker room c v still producing p =
    inr (producing-CanStep config s p)
still-CanStep config items processed s some_worker room c v still held_up p =
    let more = v.unfinished (omega (arith, ap producer_rank p)) in
    let nobody_left : sum_of has_left s.workers ≡ 0 =
      elim (ℕ_discrete (sum_of has_left s.workers) 0) [
        | yes e ↦ e
        | no ne ↦ absurd (ground (arith, more, (c.all_taken ne).0))
      ] in
    let (_, enough) =
      v.heard (omega (arith, phases s.workers, still, nobody_left, c.crew, some_worker)) in
    absurd
      (omega (arith, enough, waiting-active s.workers, still, v.full (ap producer_rank p), room))
still-CanStep config items processed s some_worker room c v still announcing p =
    inr (_, announces s p)
still-CanStep config items processed s some_worker room c v still announced p =
    elim (ℕ_discrete (sum_of is_dormant s.workers) 0) [
      | yes e ↦ inl (all_departed s.workers still e)
      | no ne ↦ absurd ((v.heard ne).0 (ap producer_rank p))
    ]

-- The run has not gone on for longer than its bound, and either every worker has left its loop or
-- there is a next step.
pub record GoesOn (config : BenchmarkConfig) (n m : ℕ) (s : Pool) : Type 0 where
  pub bounded : n ≤ 7 * length (build_work_items config) + 4 * config.worker_count + 3 + m
  pub not_stuck : AllLeft s ⊎ CanStep config s

-- The threads never wait for each other for ever, and no notification is lost: if the configuration
-- is accepted and the queue has room for an item, then in whatever order the producer and the
-- workers take their steps, and whatever `m` wake-ups come without a cause, every worker has left
-- its loop or some thread has a next step that does not depend on such a wake-up; and there are at
-- most seven steps for each item, four for each worker, three more, and one for each of these
-- wake-ups.
pub run_multithreaded-GoesOn :
    (config accepted : BenchmarkConfig) (n m : ℕ) (s : Pool)
    → check_config config ≡ succeed accepted
    → 0 < accepted.queue_capacity
    → Steps accepted n m (start_pool accepted) s
    → GoesOn accepted n m s
unfolding check_config
run_multithreaded-GoesOn config accepted n m s h room path =
    let some_batch : 0 < accepted.queue_batch_size = ground arith in
    let some_worker : 0 < accepted.worker_count = ground arith in
    let items = build_work_items accepted in
    let (processed, c) =
      Steps-IsConserved accepted items [] path (start_pool-IsConserved accepted) in
    let v = Steps-IsAwake accepted some_batch path (start_pool-IsAwake accepted) in
    record {
      bounded = Steps-bounded accepted some_batch path;
      not_stuck = elim (ℕ_discrete (sum_of is_active s.workers) 0) [
        | yes e ↦ still-CanStep accepted items processed s some_worker room c v e s.producer refl
        | no ne ↦
            let (before, w, after, e, active) = find_counting is_active s.workers ne in
            inr (active-CanStep accepted s before w after e w.phase refl active)
      ];
    }

-- Without room in the queue nothing is ever pushed.
Steps-to_push :
    (config : BenchmarkConfig) {n m : ℕ} {s t : Pool}
    → config.queue_capacity ≡ 0
    → Steps config n m s t
    → t.to_push ≡ s.to_push
unfolding hand_over
Steps-to_push config no_room (no_step s) = refl
Steps-to_push config no_room (step_then (pushes s item rest workers o e room k) xs) =
    absurd (omega (arith, no_room, room))
Steps-to_push config no_room (step_then (holds_up s item rest o e full) xs) =
    Steps-to_push config no_room xs
Steps-to_push config no_room (step_then (finishes s o e) xs) = Steps-to_push config no_room xs
Steps-to_push config no_room (step_then (announces s o) xs) = Steps-to_push config no_room xs
Steps-to_push config no_room (step_then (dozes s before w after e p q more) xs) =
    Steps-to_push config no_room xs
Steps-to_push config no_room (stir_then before w after e p xs) = Steps-to_push config no_room xs
Steps-to_push config no_room (stir_producer xs) = Steps-to_push config no_room xs
Steps-to_push config no_room (step_then (acquires s before w after contended wait_ns e p) xs) =
    Steps-to_push config no_room xs
Steps-to_push config no_room (step_then (takes s before w after e p some_item) xs) =
    Steps-to_push config no_room xs
Steps-to_push config no_room
      (step_then (processes s before w after item rest queue_wait elapsed e p) xs) =
    Steps-to_push config no_room xs
Steps-to_push config no_room (step_then (repeats s before w after e p) xs) =
    Steps-to_push config no_room xs
Steps-to_push config no_room (step_then (leaves s before w after e p empty over) xs) =
    Steps-to_push config no_room xs

-- The constructor accepts a queue without room, and then the workers never all leave their loop,
-- if there is an item to process.
pub no_room-NeverLeaves :
    (config accepted : BenchmarkConfig) (n m : ℕ) (s : Pool)
    → check_config config ≡ succeed accepted
    → accepted.queue_capacity ≡ 0
    → 0 < length (build_work_items accepted)
    → Steps accepted n m (start_pool accepted) s
    → ¬ AllLeft s
unfolding check_config start_pool
no_room-NeverLeaves config accepted n m s h no_room some_item path gone =
    let some_worker : 0 < accepted.worker_count = ground arith in
    let items = build_work_items accepted in
    let (processed, v) =
      Steps-IsConserved accepted items [] path (start_pool-IsConserved accepted) in
    let (over, q) = v.all_taken (omega (arith, has_left-AllLeft s.workers gone, v.crew)) in
    omega (
      arith,
      some_item,
      ap length (v.all_pushed over),
      ap length (Steps-to_push accepted no_room path),
    )
