-- ===== src/Cli/Commands.antt =====
-- `main` of tools/accelsim_cli.cpp.
pub mod RunCommand
use accelsim_lite.Prelude.{
  ℕ, Bool, ◌&&◌, Option, none, some, List, [], ◌∷◌, ◌++◌, if◌then◌else◌, Result, succeed, throw,
  ◌>>=◌,
}
use accelsim_lite.Report.{throughput, summarize, compare_runs, write_report}
use accelsim_lite.Stats.{top_bottleneck}
use accelsim_lite.Config.{default_config}
use accelsim_lite.Simulator.{RunResult}
use accelsim_lite.Cli.{
  CliError, no_summary, no_directory, no_return, parse_optional_flags, load_configured, run_to_end,
}
use accelsim_lite.Prelude.Doubles.{Doubles}
use accelsim_lite.Prelude.Decimal.{decimal}
use accelsim_lite.Prelude.Text.{Text, codes, text_eq}

-- How `main` ends: its exit code, what it has printed and written, and the message on the error
-- stream. The files are in the order in which they are written.
pub data Message : Type 0 where
  no_message usage : Message
  error : CliError → Message

pub record Exit : Type 0 where
  pub exit_code : ℕ
  pub printed : Text
  pub files : List (Text × Text)
  pub message : Message

abbrev pub usage_exit : Exit
usage_exit = record { exit_code = 1; printed = []; files = []; message = usage }

-- What the program finds: the files, the stem of a path, the time as text, and for which paths
-- `std::filesystem::create_directories` does not throw.
pub record World : Type 0 where
  pub read_file : Text → Option Text
  pub stem : Text → Text
  pub stamp : Text
  pub create_directories : Text → Bool

module _ (F : Doubles) (format_double show_double : F.Double → Text) where
  -- `catch`, with what was printed and written before. A run that has not returned has no exit.
  abbrev caught : Text → List (Text × Text) → Result CliError Exit → Option Exit
  caught printed files (succeed exit) = some exit
  caught printed files (throw no_return) = none
  caught printed files (throw e) =
      some (record { exit_code = 1; printed = printed; files = files; message = error e })

  -- `write_report`, with its exception.
  abbrev pub saved : Option (List (Text × Text)) → Result CliError (List (Text × Text))
  saved none = throw no_directory
  saved (some files) = succeed files

  unfoldable pub run_command : World → ℕ → Text → List Text → Result CliError Exit
  unfolding parse_optional_flags load_configured run_to_end write_report summarize
  run_command world fuel path flags = do
    config ← parse_optional_flags default_config flags
    loaded ← load_configured world.read_file world.stem path config
    result ← run_to_end loaded.1 fuel loaded.0
    files ←
        saved
          (write_report F format_double world.create_directories result (codes "reports/latest"))
    succeed (record {
      exit_code = 0;
      printed = summarize F format_double result;
      files = files;
      message = no_message;
    })

  -- The second report of `compare`, behind the files of the first.
  unfoldable pub compare_right : World → RunResult → RunResult → List (Text × Text) → Exit
  unfolding write_report compare_runs
  compare_right world left right left_files =
      elim (write_report F format_double world.create_directories right
        (codes "reports/latest/right")) [
          | none ↦ record {
            exit_code = 1;
            printed = [];
            files = left_files;
            message = error no_directory;
          }
          | some right_files ↦ record {
            exit_code = 0;
            printed = compare_runs F format_double left right;
            files =
                left_files
                ++ (right_files
                    ++ (codes "reports/latest/compare.txt", compare_runs F format_double left right)
                      ∷ []);
            message = no_message;
          }
        ]

  unfoldable pub compare_command : World → ℕ → Text → Text → List Text → Result CliError Exit
  unfolding parse_optional_flags load_configured run_to_end write_report compare_right
  compare_command world fuel left_path right_path flags = do
    config ← parse_optional_flags default_config flags
    left_loaded ← load_configured world.read_file world.stem left_path config
    right_loaded ← load_configured world.read_file world.stem right_path config
    left ← run_to_end left_loaded.1 fuel left_loaded.0
    right ← run_to_end right_loaded.1 fuel right_loaded.0
    _ ← saved (if world.create_directories (codes "reports/latest") then some [] else none)
    left_files ←
        saved
          (write_report F format_double world.create_directories left (codes "reports/latest/left"))
    succeed (compare_right world left right left_files)

  -- The line that `benchmark all` prints for a run.
  unfoldable benchmark_line : RunResult → Text
  unfolding throughput top_bottleneck
  benchmark_line result =
      result.config.workload_name
      ++ codes " cycles="
      ++ decimal result.stats.total_cycles
      ++ codes " throughput="
      ++ show_double (throughput F format_double result.stats)
      ++ codes " top_bottleneck="
      ++ top_bottleneck result.stats
      ++ codes "\n"

  -- One workload of `benchmark all`.
  unfoldable benchmark_one : World → ℕ → Text → Result CliError RunResult
  unfolding load_configured run_to_end
  benchmark_one world fuel path = do
    loaded ← load_configured world.read_file world.stem path default_config
    run_to_end loaded.1 fuel loaded.0

  -- The directory of the reports of `benchmark all`.
  abbrev benchmark_root : World → Text
  benchmark_root world = codes "reports/benchmarks/" ++ world.stamp

  -- The loop over the workloads, with what it has printed and written. Paths that do not exist are
  -- skipped.
  unfoldable benchmark_loop : World → ℕ → List Text → Text → List (Text × Text) → Option Exit
  unfolding benchmark_one write_report benchmark_line
  benchmark_loop world fuel [] printed files =
      some (record { exit_code = 0; printed = printed; files = files; message = no_message })
  benchmark_loop world fuel (path ∷ paths) printed files = elim (world.read_file path) [
    | none ↦ benchmark_loop world fuel paths printed files
    | some content ↦ elim (benchmark_one world fuel path) [
      | throw e ↦ caught printed files (throw e)
      | succeed result ↦
          elim (write_report F format_double world.create_directories result
            (benchmark_root world ++ (codes "/" ++ result.config.workload_name))) [
              | none ↦ caught printed files (throw no_directory)
              | some more ↦
                  benchmark_loop world fuel paths (printed ++ benchmark_line result) (files ++ more)
            ]
    ]
  ]

  abbrev workloads : List Text
  workloads =
      codes "workloads/compute_heavy.csv"
      ∷ codes "workloads/memory_heavy.csv"
      ∷ codes "workloads/queue_pressure.csv"
      ∷ codes "workloads/mixed.csv"
      ∷ []

  unfoldable report_command : World → Result CliError Exit
  report_command world = elim (world.read_file (codes "reports/latest/summary.txt")) [
    | none ↦ throw no_summary
    | some content ↦
        succeed (record { exit_code = 0; printed = content; files = []; message = no_message })
  ]

  -- The commands behind `run` and `compare`.
  unfoldable other_command : World → ℕ → Text → List Text → Option Exit
  unfolding benchmark_loop report_command
  other_command world fuel command [] = some usage_exit
  other_command world fuel command (what ∷ rest) =
      if text_eq command (codes "benchmark") && text_eq what (codes "all")
      then (if world.create_directories (benchmark_root world)
          then benchmark_loop world fuel workloads [] []
          else caught [] [] (throw no_directory))
      else if text_eq command (codes "report") && text_eq what (codes "latest")
      then caught [] [] (report_command world)
      else some usage_exit

  abbrev run_arguments : World → ℕ → List Text → Option Exit
  run_arguments world fuel [] = some usage_exit
  run_arguments world fuel (path ∷ flags) = caught [] [] (run_command world fuel path flags)

  abbrev compare_arguments : World → ℕ → List Text → Option Exit
  compare_arguments world fuel (left_path ∷ right_path ∷ flags) =
      caught [] [] (compare_command world fuel left_path right_path flags)
  compare_arguments world fuel _ = some usage_exit

  -- `main` on the arguments behind the program's name.
  unfoldable pub main : World → ℕ → List Text → Option Exit
  unfolding run_command compare_command other_command
  main world fuel [] = some usage_exit
  main world fuel (command ∷ arguments) =
      if text_eq command (codes "run")
      then run_arguments world fuel arguments
      else if text_eq command (codes "compare")
      then compare_arguments world fuel arguments
      else other_command world fuel command arguments
