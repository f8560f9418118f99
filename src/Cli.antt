-- ===== src/Cli.antt =====
-- tools/accelsim_cli.cpp: the flags and the commands.
pub mod Flags
pub mod Commands
mod Tests
use accelsim_lite.Prelude.{
  ℕ, Option, none, some, List, [], ◌∷◌, if◌then◌else◌, Result, succeed, throw, ◌>>=◌,
}
use accelsim_lite.Workload.{LoadError, stoull, to_u32}
use accelsim_lite.Config.{SimulatorConfig}
use accelsim_lite.Simulator.{RunResult, returned, failed, out_of_fuel, result_of, run_workload}
use accelsim_lite.Pipeline.{Error}
use accelsim_lite.Instruction.{Instruction}
use accelsim_lite.Workload.Load.{load_workload_csv}
use accelsim_lite.Prelude.Text.{Text, codes, text_eq}

-- The exceptions that `main` reports. `no_return` stands for a run that has not returned within the
-- fuel, which is no exception of the source.
pub data CliError : Type 0 where
  bad_input : LoadError → CliError
  unknown_flag : Text → CliError
  missing_value : Text → CliError
  run_failed : Error → CliError
  no_summary no_directory no_return : CliError

-- The value of an option, or another value.
abbrev or_else : {A : Type 0} → Option A → A → A
or_else none a = a
or_else (some b) a = b

abbrev input : {A : Type 0} → Result LoadError A → Result CliError A
input (succeed a) = succeed a
input (throw e) = throw (bad_input e)

-- The field that a flag sets.
unfoldable pub set_flag : SimulatorConfig → Text → ℕ → Result CliError SimulatorConfig
set_flag config key parsed =
    if text_eq key (codes "--compute-units")
    then succeed (record config { compute_units = parsed })
    else if text_eq key (codes "--memory-ports")
    then succeed (record config { memory_ports = parsed })
    else if text_eq key (codes "--dispatch-queue")
    then succeed (record config { dispatch_queue_capacity = parsed })
    else if text_eq key (codes "--ready-queue")
    then succeed (record config { ready_queue_capacity = parsed })
    else throw (unknown_flag key)

unfoldable pub apply_flag : SimulatorConfig → Text → Text → Result CliError SimulatorConfig
unfolding set_flag
apply_flag config key value = do n ← input (stoull value); set_flag config key (to_u32 n)

-- `parse_optional_flags` on the arguments from its start index on.
unfoldable pub parse_optional_flags : SimulatorConfig → List Text → Result CliError SimulatorConfig
unfolding apply_flag
parse_optional_flags config [] = succeed config
parse_optional_flags config (key ∷ []) = throw (missing_value key)
parse_optional_flags config (key ∷ value ∷ flags) =
    apply_flag config key value >>= λ changed. parse_optional_flags changed flags

-- What `load_workload_csv` returns, with the configuration that it changes.
unfoldable pub load_configured :
    (Text → Option Text)
    → (Text → Text)
    → Text
    → SimulatorConfig
    → Result CliError (List Instruction × SimulatorConfig)
load_configured read_file stem path config =
    let (loaded, changed) = load_workload_csv read_file stem path (some config) in
    input loaded >>= λ workload. succeed (workload, or_else changed config)

-- A run with its result.
unfoldable pub run_to_end : SimulatorConfig → ℕ → List Instruction → Result CliError RunResult
run_to_end config fuel workload = elim (run_workload config fuel workload) [
  | returned s ↦ succeed (result_of config s)
  | failed e ↦ throw (run_failed e)
  | out_of_fuel ↦ throw no_return
]
