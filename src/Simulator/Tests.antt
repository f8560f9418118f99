-- ===== src/Simulator/Tests.antt =====
-- Runs of `run_workload` on small workloads, and the witnesses of the theorems on it.
use accelsim_lite.Prelude.{
  ℕ, ◌≡◌, refl, List, [], ◌∷◌, arith, Bool, true, false, ◌+◌, ◌≤◌, ◌≢◌, length, succeed, zero, suc,
  sym, Result, throw,
}
use accelsim_lite.Stats.{bump, find, assign, update_max}
use accelsim_lite.Config.{default_config, FitsWords}
use accelsim_lite.Simulator.{
  front, step, start, returned, main_loop, run_workload, start_stats, Outcome, failed, out_of_fuel,
}
use accelsim_lite.Scheduler.{deps_satisfied, all_retired}
use accelsim_lite.Pipeline.{
  State, has_work_left, retire_one, retire_loop, retire_all, tick_remaining, release, tick_slot,
  Error, tick_slots, complete_one, complete_all, start_tick, after_tick, advance, memory_underflow,
}
use accelsim_lite.Instruction.{
  OpType, compute, load, store, Instruction, blank, is_memory_op, is_load, is_store,
}
use accelsim_lite.Pipeline.Finished.{latency}
use accelsim_lite.Pipeline.Front.{
  wake_up, requeue, wake, wake_loop, wake_all, begin_execution, postpone, issue, issue_loop,
  issue_all, dispatch_one, dispatch_loop, decode_one, decode_loop, fetch_one, fetch_loop, bump_if,
  busy_cycles, occupancy, end_cycle,
}
use accelsim_lite.Simulator.Completion.{IsComplete, run_completes}
use accelsim_lite.Simulator.Safety.{
  Reachable, run_placement, run_resources, run_dependencies, run_never_fails, run_capacity,
  Reachable-IsPlaced,
}
use accelsim_lite.Simulator.Turns.{after_turns, WithinTurn, after_issue}
use accelsim_lite.Simulator.Steps.{step-Moves}
use accelsim_lite.Pipeline.Moves.{decodes, Move}
use accelsim_lite.Pipeline.Capacity.{WithinCapacity, issue_all_width}
use accelsim_lite.Pipeline.Dependencies.{RespectsDeps}
use accelsim_lite.Pipeline.Resources.{IsAccounted}
use accelsim_lite.Pipeline.Placement.{IsPlaced}
use accelsim_lite.Pipeline.Forward.{Forward, Move-Forward}
use accelsim_lite.Simulator.Deadlock.{IsCircular, circular_never_returns}
use native.Mathlib.Decide.{ℕ_discrete}
use accelsim_lite.Simulator.Termination.{run_returns}
use accelsim_lite.Simulator.Oldest.{GoesBackwards}
use accelsim_lite.Simulator.Stages.{IsLive}

-- An instruction as the workload files give it.
abbrev instruction : ℕ → OpType → ℕ → List ℕ → Instruction
instruction id type latency deps = record blank {
  id = id;
  type = type;
  execute_latency = latency;
  deps = deps;
}

-- A load, a computation on what it loads, and a store of the sum.
abbrev sample : List Instruction
sample =
    instruction 0 load 3 []
    ∷ instruction 1 compute 2 (0 ∷ [])
    ∷ instruction 2 store 0 (0 ∷ 1 ∷ [])
    ∷ []

abbrev has_returned : Outcome → Bool
has_returned (returned s) = true
has_returned _ = false

-- The state in which the run over a workload ends.
abbrev last_state : List Instruction → Outcome → State
last_state workload (returned s) = s
last_state workload _ = start workload

returned_of_test :
    (workload : List Instruction) (o : Outcome)
    → has_returned o ≡ true
    → o ≡ returned (last_state workload o)
returned_of_test workload o h = ground arith

-- The state in which the run over the sample returns.
abbrev final : State
final = last_state sample (run_workload default_config 20 sample)

sample_ends : has_returned (run_workload default_config 20 sample) ≡ true
unfolding run_workload main_loop has_work_left step front retire_all retire_loop retire_one advance
    after_tick complete_all complete_one tick_slots tick_slot tick_remaining release start_tick
    end_cycle wake_all wake_loop wake wake_up requeue issue_all issue_loop issue begin_execution
    postpone dispatch_loop dispatch_one decode_loop decode_one fetch_loop fetch_one bump_if
    busy_cycles occupancy start start_stats bump find assign update_max deps_satisfied all_retired
    is_memory_op is_load is_store
sample_ends = refl

sample_returns : run_workload default_config 20 sample ≡ returned final
sample_returns = returned_of_test sample (run_workload default_config 20 sample) sample_ends

default_config-FitsWords : FitsWords default_config
default_config-FitsWords = omega arith

run_completes_example : IsComplete sample final
run_completes_example = run_completes default_config 20 sample final (omega arith) sample_returns

run_never_fails_example : run_workload default_config 20 sample ≢ failed memory_underflow
run_never_fails_example =
    run_never_fails default_config 20 sample memory_underflow default_config-FitsWords

-- The state after the first turn of the main loop, in which all three are fetched.
abbrev second : State
second = end_cycle (front default_config (start sample))

step-second : step default_config (start sample) ≡ succeed second
unfolding step retire_all retire_loop advance tick_slots start_tick start after_tick complete_all
step-second = refl

second_fetched : second.fetch_q ≡ 0 ∷ 1 ∷ 2 ∷ []
unfolding end_cycle front wake_all wake_loop issue_all issue_loop dispatch_loop decode_loop
    fetch_loop fetch_one start
second_fetched = refl

second_reached : Reachable default_config sample second
second_reached = step-Moves default_config (start sample) second step-second

-- A state in the sixth turn, behind its issue stage, where the load executes and the others wait, and
-- the invariants there.
abbrev has_succeeded : Result Error State → Bool
has_succeeded (succeed s) = true
has_succeeded (throw e) = false

abbrev state_of : Result Error State → State
state_of (succeed s) = s
state_of (throw e) = start sample

succeeds_of_test : (r : Result Error State) → has_succeeded r ≡ true → r ≡ succeed (state_of r)
succeeds_of_test r h = ground arith

abbrev later : State
later = state_of (after_turns default_config 5 (start sample))

five_succeed : has_succeeded (after_turns default_config 5 (start sample)) ≡ true
unfolding after_turns step front retire_all retire_loop retire_one advance after_tick complete_all
    complete_one tick_slots tick_slot tick_remaining release start_tick end_cycle wake_all wake_loop
    wake wake_up requeue issue_all issue_loop issue begin_execution postpone dispatch_loop
    dispatch_one decode_loop decode_one fetch_loop fetch_one bump_if busy_cycles occupancy start
    start_stats bump find assign update_max deps_satisfied all_retired is_memory_op is_load is_store
five_succeed = refl

turned_five_times : after_turns default_config 5 (start sample) ≡ succeed later
turned_five_times = succeeds_of_test (after_turns default_config 5 (start sample)) five_succeed

abbrev executed : State
executed = state_of (advance (retire_all later))

later_succeeds : has_succeeded (advance (retire_all later)) ≡ true
unfolding after_turns step front retire_all retire_loop retire_one advance after_tick complete_all
    complete_one tick_slots tick_slot tick_remaining release start_tick end_cycle wake_all wake_loop
    wake wake_up requeue issue_all issue_loop issue begin_execution postpone dispatch_loop
    dispatch_one decode_loop decode_one fetch_loop fetch_one bump_if busy_cycles occupancy start
    start_stats bump find assign update_max deps_satisfied all_retired is_memory_op is_load is_store
later_succeeds = refl

abbrev issued : State
issued = issue_all default_config (wake_all default_config executed)

behind_issue : WithinTurn default_config later issued
behind_issue = after_issue (succeeds_of_test (advance (retire_all later)) later_succeeds)

run_placement_example : IsPlaced issued
run_placement_example =
    run_placement default_config sample 5 later issued turned_five_times behind_issue

run_dependencies_example : RespectsDeps issued
run_dependencies_example =
    run_dependencies default_config sample 5 later issued turned_five_times behind_issue

run_resources_example : IsAccounted default_config issued
run_resources_example =
    run_resources default_config sample 5 later issued default_config-FitsWords turned_five_times
      behind_issue

run_capacity_example : WithinCapacity default_config issued
run_capacity_example =
    run_capacity default_config sample 5 later issued turned_five_times behind_issue

abbrev decoded : State
decoded = decode_one 0 (record second { fetch_q = 1 ∷ 2 ∷ [] })

decodes_first : Move default_config second decoded
decodes_first = decodes second 0 (1 ∷ 2 ∷ []) second_fetched

second-IsPlaced : IsPlaced second
second-IsPlaced = Reachable-IsPlaced default_config sample second second_reached

first_goes-Forward : Forward second decoded 0
first_goes-Forward = Move-Forward second decoded 0 decodes_first second-IsPlaced

sample_issue_width :
    (length second.exec_slots ≤ length (issue_all default_config second).exec_slots)
    × (length (issue_all default_config second).exec_slots ≤ length second.exec_slots + 2)
sample_issue_width = issue_all_width default_config second (omega arith)

-- An instruction that waits for itself.
abbrev circle : List Instruction
circle = instruction 7 compute 1 (7 ∷ []) ∷ []

circle-IsCircular : IsCircular circle (λ i. i ≡ 0)
circle-IsCircular = record {
  waits_for = λ i. 7;
  waits = λ i h. ground arith;
  provided = λ i h j lt e. omega arith;
}

circular_never_returns_example : run_workload default_config 100 circle ≡ out_of_fuel
circular_never_returns_example =
    circular_never_returns default_config circle (λ i. i ≡ 0) default_config-FitsWords (omega arith)
      circle-IsCircular 0 (omega arith) refl 100

default_config-IsLive : IsLive default_config
default_config-IsLive = omega arith

sample-GoesBackwards : GoesBackwards sample
sample-GoesBackwards zero lt dep h = absurd (h refl)
sample-GoesBackwards (suc zero) lt dep h = (0, omega arith, ground arith)
sample-GoesBackwards (suc (suc zero)) lt dep h = elim (ℕ_discrete dep 0) [
  | yes e ↦ (0, omega arith, sym e)
  | no ne ↦ (1, omega arith, ground arith)
]
sample-GoesBackwards (suc (suc (suc i))) lt dep h = absurd (omega arith)

run_returns_example :
    (s : State) × (run_workload default_config 30 sample ≡ returned s) × IsComplete sample s
run_returns_example =
    run_returns default_config sample 30 default_config-IsLive default_config-FitsWords
      sample-GoesBackwards (omega arith) (omega arith)
