-- ===== src/Simulator/Timing/Tests.antt =====
-- The stamps of a run in which each instruction waits for the one before it, and the witnesses of the
-- theorems on them.
use accelsim_lite.Prelude.{ℕ, zero, suc, ◌≤◌, ◌<◌, ◌≡◌, refl, List, [], ◌∷◌, arith, length, get_or}
use accelsim_lite.Config.{default_config}
use accelsim_lite.Instruction.{
  OpType, compute, load, Instruction, blank, is_load, is_store, is_memory_op,
}
use accelsim_lite.Pipeline.{
  State, has_work_left, retire_one, retire_loop, retire_all, tick_remaining, release, tick_slot,
  tick_slots, complete_one, complete_all, start_tick, after_tick, advance,
}
use accelsim_lite.Simulator.{
  returned, run_workload, result_of, front, step, start, Outcome, main_loop, start_stats,
}
use accelsim_lite.Simulator.Completion.{IsComplete}
use accelsim_lite.Simulator.Oldest.{GoesBackwards}
use accelsim_lite.Simulator.Termination.{run_returns}
use accelsim_lite.Simulator.Timing.Runs.{IsTimely, run_timing}
use accelsim_lite.Simulator.Timing.CriticalPath.{Needs, alone, behind, run_critical_path}
use accelsim_lite.Stats.{bump, find, assign, update_max}
use accelsim_lite.Scheduler.{all_retired, deps_satisfied}
use accelsim_lite.Pipeline.Front.{
  wake_up, requeue, wake, wake_loop, wake_all, begin_execution, postpone, issue, issue_loop,
  issue_all, dispatch_one, dispatch_loop, decode_one, decode_loop, fetch_one, fetch_loop, bump_if,
  busy_cycles, occupancy, end_cycle,
}

abbrev step_of_chain : ℕ → OpType → ℕ → List ℕ → Instruction
step_of_chain id type cycles deps = record blank {
  id = id;
  type = type;
  execute_latency = cycles;
  deps = deps;
}

-- A load, and a computation on what it loads.
abbrev chain : List Instruction
chain = step_of_chain 4 load 3 [] ∷ step_of_chain 5 compute 2 (4 ∷ []) ∷ []

chain-GoesBackwards : GoesBackwards chain
chain-GoesBackwards zero lt dep h = absurd (h refl)
chain-GoesBackwards (suc zero) lt dep h = (0, omega arith, ground arith)
chain-GoesBackwards (suc (suc i)) lt dep h = absurd (omega arith)

chain_returns :
    (s : State) × (run_workload default_config 20 chain ≡ returned s) × IsComplete chain s
chain_returns =
    run_returns default_config chain 20 (omega arith) (omega arith) chain-GoesBackwards
      (omega arith) (omega arith)

chain_run : run_workload default_config 20 chain ≡ returned (chain_returns.0)
chain_run = chain_returns.1

run_timing_example : IsTimely default_config (chain_returns.0) 1
run_timing_example =
    run_timing default_config 20 chain (chain_returns.0) (omega arith) (omega arith) chain_run 1
      (omega arith)

chain-Needs : Needs chain 1 9
chain-Needs = behind 1 4 6 refl before
  where
    before : (j : ℕ) → j < length chain → (get_or chain j blank).id ≡ 4 → Needs chain j 6
    before zero lt e = alone 0
    before (suc zero) lt e = absurd (omega arith)
    before (suc (suc j)) lt e = absurd (omega arith)

run_critical_path_example : 11 ≤ (result_of default_config (chain_returns.0)).stats.total_cycles
run_critical_path_example =
    run_critical_path default_config 20 chain (chain_returns.0) 1 9 (omega arith) (omega arith)
      chain_run (omega arith) chain-Needs

abbrev cycles_of : Outcome → ℕ
cycles_of (returned s) = s.cycle
cycles_of _ = 0

-- The run is as short as the chain allows.
chain_cycles : cycles_of (run_workload default_config 20 chain) ≡ 11
unfolding run_workload main_loop has_work_left step front retire_all retire_loop retire_one advance
    after_tick complete_all complete_one tick_slots tick_slot tick_remaining release start_tick
    end_cycle wake_all wake_loop wake wake_up requeue issue_all issue_loop issue begin_execution
    postpone dispatch_loop dispatch_one decode_loop decode_one fetch_loop fetch_one bump_if
    busy_cycles occupancy start start_stats bump find assign update_max deps_satisfied all_retired
    is_memory_op is_load is_store
chain_cycles = refl
