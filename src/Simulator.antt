-- ===== src/Simulator.antt =====
-- `run_workload` of src/simulator.cpp over the stages of `Pipeline`, and `RunResult`.
pub mod Steps
pub mod Turns
pub mod Safety
pub mod Completion
pub mod Deadlock
pub mod Stages
pub mod Oldest
pub mod Progress
pub mod Termination
pub mod Timing
mod Tests
use accelsim_lite.Prelude.{
  ℕ, zero, suc, true, false, List, [], if◌then◌else◌, Result, succeed, throw, ◌>>=◌,
}
use accelsim_lite.Stats.{bump, Stats, no_stats}
use accelsim_lite.Config.{SimulatorConfig}
use accelsim_lite.Pipeline.{State, Error, has_work_left, retire_all, advance}
use accelsim_lite.Instruction.{Instruction}
use accelsim_lite.Prelude.Text.{codes}
use accelsim_lite.Pipeline.Front.{
  end_cycle, wake_all, issue_all, dispatch_loop, decode_loop, fetch_loop,
}

pub record RunResult : Type 0 where
  pub config : SimulatorConfig
  pub stats : Stats
  pub instructions : List Instruction

-- The stages behind execution, which raise no exception.
pub front : SimulatorConfig → State → State
front config s = fetch_loop config.fetch_width (
    decode_loop config.decode_width
      (dispatch_loop config config.dispatch_width (issue_all config (wake_all config s))))

-- One turn of the main loop.
pub step : SimulatorConfig → State → Result Error State
step config s = do s' ← advance (retire_all s); succeed (end_cycle (front config s'))

-- The counters that the run starts from.
start_stats : Stats
start_stats = record no_stats {
  stage_busy_cycles =
      bump
        (bump
          (bump (bump (bump (bump [] (codes "Fetch") 0) (codes "Decode") 0) (codes "Dispatch") 0)
            (codes "Issue") 0)
          (codes "Execute") 0)
        (codes "Retire") 0;
  stall_counts =
      bump
        (bump
          (bump (bump (bump [] (codes "DispatchQueueFull") 0) (codes "ReadyQueueFull") 0)
            (codes "WaitingDependency") 0)
          (codes "NoComputeUnit") 0)
        (codes "NoMemoryPort") 0;
}

pub start : List Instruction → State
unfolding start_stats
start workload = record {
  instructions = workload;
  stats = start_stats;
  fetch_q = [];
  decode_q = [];
  dispatch_q = [];
  ready_q = [];
  retire_q = [];
  exec_slots = [];
  retired_ids = [];
  next_to_fetch = 0;
  cycle = 0;
  compute_in_use = 0;
  memory_in_use = 0;
}

-- How a run of the main loop ends within a number of turns.
pub data Outcome : Type 0 where
  returned : State → Outcome
  failed : Error → Outcome
  out_of_fuel : Outcome

-- The main loop. Fuel bounds its turns, which the source does not.
pub main_loop : SimulatorConfig → ℕ → State → Outcome
main_loop config zero s = if has_work_left s then out_of_fuel else returned s
main_loop config (suc fuel) s = elim (has_work_left s) [
  | false ↦ returned s
  | true ↦ elim (step config s) [ throw e ↦ failed e | succeed s' ↦ main_loop config fuel s' ]
]

-- The result that a finished run returns.
pub result_of : SimulatorConfig → State → RunResult
result_of config s = record {
  config = config;
  stats = record (s.stats) { total_cycles = s.cycle };
  instructions = s.instructions;
}

pub run_workload : SimulatorConfig → ℕ → List Instruction → Outcome
run_workload config fuel workload = main_loop config fuel (start workload)
