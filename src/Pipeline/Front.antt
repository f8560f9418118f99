-- ===== src/Pipeline/Front.antt =====
-- Wake-up, issue, dispatch, decode and fetch in `run_workload` (src/simulator.cpp), and what it
-- counts at the end of a cycle.
use accelsim_lite.Prelude.{
  ℕ, zero, suc, ◌+◌, Bool, true, false, not, ◌||◌, [], ◌∷◌, ◌++◌, ltb, leb, if◌then◌else◌, length,
  modify, is_empty, add32, add64,
}
use accelsim_lite.Stats.{CounterMap, bump, update_max}
use accelsim_lite.Config.{SimulatorConfig}
use accelsim_lite.Scheduler.{deps_satisfied}
use accelsim_lite.Pipeline.{State, at, bump_stall}
use accelsim_lite.Instruction.{fetch, decode, dispatch, ready, execute, is_memory_op}
use accelsim_lite.Prelude.Text.{Text, codes}

-- Wake-up: one turn of the loop over `dispatch_q`, for the index `idx` that has left its front.

unfoldable pub wake_up : ℕ → State → State
wake_up idx s = record s {
  instructions = modify s.instructions idx (λ x. record x { stage = ready });
  ready_q = s.ready_q ++ idx ∷ [];
}

unfoldable pub requeue : ℕ → State → State
requeue idx s = record s { dispatch_q = s.dispatch_q ++ idx ∷ [] }

unfoldable pub wake : SimulatorConfig → ℕ → State → State
unfolding wake_up requeue
wake config idx s =
    if deps_satisfied (at s idx) s.retired_ids
    then (if ltb (length s.ready_q) config.ready_queue_capacity
        then wake_up idx s
        else requeue idx (record s { stats = bump_stall s (codes "ReadyQueueFull") }))
    else requeue idx (record s { stats = bump_stall s (codes "WaitingDependency") })

-- The first argument counts the turns that are left of `dispatch_span`.
unfoldable pub wake_loop : SimulatorConfig → ℕ → State → State
wake_loop config zero s = s
wake_loop config (suc n) s =
    wake_loop config n
      (elim s.dispatch_q [ [] ↦ s | idx ∷ rest ↦ wake config idx (record s { dispatch_q = rest }) ])

unfoldable pub wake_all : SimulatorConfig → State → State
wake_all config s = wake_loop config (length s.dispatch_q) s

-- Issue: `idx` has left the front of `ready_q`; the number beside the state is `issued`.

unfoldable pub begin_execution : ℕ → Bool → State → State
begin_execution idx uses_memory s = record s {
  instructions =
      modify s.instructions idx (λ x. record x { stage = execute; issue_cycle = s.cycle });
  exec_slots =
      s.exec_slots
      ++ record { index = idx; remaining = (at s idx).execute_latency; uses_memory = uses_memory }
        ∷ [];
}

unfoldable pub postpone : ℕ → State → State
postpone idx s = record s { ready_q = s.ready_q ++ idx ∷ [] }

unfoldable pub issue : SimulatorConfig → ℕ → ℕ → State → State × ℕ
unfolding begin_execution postpone
issue config idx issued s =
    if leb config.issue_width issued
    then (postpone idx s, issued)
    else if is_memory_op (at s idx).type
    then (if leb config.memory_ports s.memory_in_use
        then (postpone idx (record s { stats = bump_stall s (codes "NoMemoryPort") }), issued)
        else (
          begin_execution idx true (record s { memory_in_use = add32 s.memory_in_use 1 }),
          add32 issued 1,
        ))
    else if leb config.compute_units s.compute_in_use
    then (postpone idx (record s { stats = bump_stall s (codes "NoComputeUnit") }), issued)
    else (
      begin_execution idx false (record s { compute_in_use = add32 s.compute_in_use 1 }),
      add32 issued 1,
    )

-- The first argument counts the turns that are left of `ready_span`.
unfoldable pub issue_loop : SimulatorConfig → ℕ → State × ℕ → State × ℕ
issue_loop config zero (s, issued) = (s, issued)
issue_loop config (suc n) (s, issued) = issue_loop config n (elim s.ready_q [
  | [] ↦ (s, issued)
  | idx ∷ rest ↦ issue config idx issued (record s { ready_q = rest })
])

unfoldable pub issue_all : SimulatorConfig → State → State
issue_all config s = (issue_loop config (length s.ready_q) (s, 0)).0

-- Dispatch, decode and fetch: the first argument counts the turns that are left of the width.

unfoldable pub dispatch_one : ℕ → State → State
dispatch_one idx s = record s {
  instructions = modify s.instructions idx (λ x. record x { stage = dispatch });
  dispatch_q = s.dispatch_q ++ idx ∷ [];
}

unfoldable pub dispatch_loop : SimulatorConfig → ℕ → State → State
dispatch_loop config zero s = s
dispatch_loop config (suc n) s = elim s.decode_q [
  | [] ↦ s
  | idx ∷ rest ↦ elim (leb config.dispatch_queue_capacity (length s.dispatch_q)) [
    | true ↦ record s { stats = bump_stall s (codes "DispatchQueueFull") }
    | false ↦ dispatch_loop config n (dispatch_one idx (record s { decode_q = rest }))
  ]
]

unfoldable pub decode_one : ℕ → State → State
decode_one idx s = record s {
  instructions = modify s.instructions idx (λ x. record x { stage = decode });
  decode_q = s.decode_q ++ idx ∷ [];
}

unfoldable pub decode_loop : ℕ → State → State
decode_loop zero s = s
decode_loop (suc n) s = elim s.fetch_q [
  | [] ↦ s
  | idx ∷ rest ↦ decode_loop n (decode_one idx (record s { fetch_q = rest }))
]

unfoldable pub fetch_one : State → State
fetch_one s = record s {
  instructions =
      modify s.instructions s.next_to_fetch
        (λ x. record x { stage = fetch; enqueue_cycle = s.cycle });
  fetch_q = s.fetch_q ++ s.next_to_fetch ∷ [];
  next_to_fetch = s.next_to_fetch + 1;
}

unfoldable pub fetch_loop : ℕ → State → State
fetch_loop zero s = s
fetch_loop (suc n) s = elim (ltb s.next_to_fetch (length s.instructions)) [
  | false ↦ s
  | true ↦ fetch_loop n (fetch_one s)
]

-- The end of a cycle.

unfoldable pub bump_if : Bool → Text → CounterMap → CounterMap
bump_if test key values = if test then bump values key 1 else values

-- The counters of busy stages at the end of a cycle.
unfoldable pub busy_cycles : State → CounterMap → CounterMap
unfolding bump_if
busy_cycles s values = bump_if (not (is_empty s.retire_q)) (codes "Retire") (
    bump_if (not (is_empty s.exec_slots)) (codes "Execute") (
      bump_if (not (is_empty s.ready_q)) (codes "Issue") (
        bump_if (not (is_empty s.decode_q) || not (is_empty s.dispatch_q)) (codes "Dispatch") (
          bump_if (not (is_empty s.fetch_q)) (codes "Decode")
            (bump_if (ltb s.next_to_fetch (length s.instructions)) (codes "Fetch") values)))))

-- The largest length of each queue so far.
unfoldable pub occupancy : State → CounterMap → CounterMap
occupancy s values =
    update_max
      (update_max
        (update_max
          (update_max
            (update_max (update_max values (codes "fetch_q") (length s.fetch_q)) (codes "decode_q")
              (length s.decode_q))
            (codes "dispatch_q") (length s.dispatch_q))
          (codes "ready_q") (length s.ready_q))
        (codes "execute_slots") (length s.exec_slots))
      (codes "retire_q") (length s.retire_q)

unfoldable pub end_cycle : State → State
unfolding busy_cycles occupancy
end_cycle s = record s {
  stats = record (s.stats) {
    stage_busy_cycles = busy_cycles s s.stats.stage_busy_cycles;
    max_queue_occupancy = occupancy s s.stats.max_queue_occupancy;
  };
  cycle = add64 s.cycle 1;
}
