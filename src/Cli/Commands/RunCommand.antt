-- ===== src/Cli/Commands/RunCommand.antt =====
-- `accelsim-lite run` on a workload whose dependencies go backwards.
use accelsim_lite.Report.{summarize, report_files, write_report}
-- The number of the flag is positive and fits its field.
use accelsim_lite.Prelude.{
  ℕ, ◌≤◌, ◌<◌, ◌≡◌, some, List, [], ◌∷◌, length, All, u32_mod, u64_mod, succeed, arith, refl,
  All-map, Option, Bool, true, false, Bool-cases, inl, inr,
}
use accelsim_lite.Config.{SimulatorConfig, default_config, FitsWords}
use accelsim_lite.Simulator.{RunResult, result_of, returned, run_workload}
use accelsim_lite.Pipeline.{State}
use accelsim_lite.Cli.{no_directory, load_configured, run_to_end, parse_optional_flags}
use accelsim_lite.Instruction.{Instruction}
use accelsim_lite.Workload.Load.{load_content, load_workload_csv}
use accelsim_lite.Prelude.Doubles.{Doubles}
use accelsim_lite.Prelude.Text.{Text, codes}
use accelsim_lite.Simulator.Completion.{IsComplete}
use accelsim_lite.Simulator.Termination.{turns, run_returns}
use accelsim_lite.Simulator.Oldest.{GoesBackwards}
use accelsim_lite.Simulator.Stages.{IsLive}
use accelsim_lite.Cli.Flags.{
  Flag, compute_units, memory_ports, dispatch_queue, ready_queue, arguments_of, number_of,
  configured, arguments_read,
}
use accelsim_lite.Cli.Commands.{no_message, error, Exit, World, run_command, main}

abbrev pub IsPositive : Flag → Type 0
IsPositive flag = (0 < number_of flag) × (number_of flag < u32_mod)

-- The name of the workload does not matter.
named :
    (config : SimulatorConfig) (name : Text)
    → IsLive config × FitsWords config
    → IsLive (record config { workload_name = name })
      × FitsWords (record config { workload_name = name })
named config name (l, v) = (
  record {
    fetches_some = l.fetches_some;
    decodes_some = l.decodes_some;
    dispatches_some = l.dispatches_some;
    issues_some = l.issues_some;
    has_unit = l.has_unit;
    has_port = l.has_port;
    has_dispatch_room = l.has_dispatch_room;
    has_ready_room = l.has_ready_room;
  },
  record { units_fit = v.units_fit; ports_fit = v.ports_fit },
)

default_config-IsLive : IsLive default_config
default_config-IsLive = omega arith

configured-FitsWords :
    (config : SimulatorConfig) (flags : List Flag)
    → All IsPositive flags
    → IsLive config × FitsWords config
    → IsLive (configured config flags) × FitsWords (configured config flags)
configured-FitsWords config [] small v = v
configured-FitsWords config (compute_units n ∷ flags) ((h, k), hs) (l, v) =
    configured-FitsWords (record config { compute_units = n }) flags hs
      (
        record {
          fetches_some = l.fetches_some;
          decodes_some = l.decodes_some;
          dispatches_some = l.dispatches_some;
          issues_some = l.issues_some;
          has_unit = h;
          has_port = l.has_port;
          has_dispatch_room = l.has_dispatch_room;
          has_ready_room = l.has_ready_room;
        },
        record { units_fit = k; ports_fit = v.ports_fit },
      )
configured-FitsWords config (memory_ports n ∷ flags) ((h, k), hs) (l, v) =
    configured-FitsWords (record config { memory_ports = n }) flags hs
      (
        record {
          fetches_some = l.fetches_some;
          decodes_some = l.decodes_some;
          dispatches_some = l.dispatches_some;
          issues_some = l.issues_some;
          has_unit = l.has_unit;
          has_port = h;
          has_dispatch_room = l.has_dispatch_room;
          has_ready_room = l.has_ready_room;
        },
        record { units_fit = v.units_fit; ports_fit = k },
      )
configured-FitsWords config (dispatch_queue n ∷ flags) ((h, k), hs) (l, v) =
    configured-FitsWords (record config { dispatch_queue_capacity = n }) flags hs
      (
        record {
          fetches_some = l.fetches_some;
          decodes_some = l.decodes_some;
          dispatches_some = l.dispatches_some;
          issues_some = l.issues_some;
          has_unit = l.has_unit;
          has_port = l.has_port;
          has_dispatch_room = h;
          has_ready_room = l.has_ready_room;
        },
        record { units_fit = v.units_fit; ports_fit = v.ports_fit },
      )
configured-FitsWords config (ready_queue n ∷ flags) ((h, k), hs) (l, v) =
    configured-FitsWords (record config { ready_queue_capacity = n }) flags hs
      (
        record {
          fetches_some = l.fetches_some;
          decodes_some = l.decodes_some;
          dispatches_some = l.dispatches_some;
          issues_some = l.issues_some;
          has_unit = l.has_unit;
          has_port = l.has_port;
          has_dispatch_room = l.has_dispatch_room;
          has_ready_room = h;
        },
        record { units_fit = v.units_fit; ports_fit = v.ports_fit },
      )

load_succeeds :
    (read_file : Text → Option Text) (stem : Text → Text) (path content : Text)
    (config : SimulatorConfig) (workload : List Instruction)
    → read_file path ≡ some content
    → load_content content ≡ succeed workload
    → load_configured read_file stem path config
      ≡ succeed (workload, record config { workload_name = stem path })
unfolding load_configured load_workload_csv
load_succeeds read_file stem path content config workload readable loaded =
    ground (arith, readable, loaded)

run_succeeds :
    (config : SimulatorConfig) (fuel : ℕ) (workload : List Instruction) (s : State)
    → run_workload config fuel workload ≡ returned s
    → run_to_end config fuel workload ≡ succeed (result_of config s)
unfolding run_to_end
run_succeeds config fuel workload s ran = ground (arith, ran)

module _ (F : Doubles) (format_double show_double : F.Double → Text) where
  -- The exit of a run with this result, whose directory can be made or not.
  abbrev pub run_exit : Bool → RunResult → Exit
  run_exit true result = record {
    exit_code = 0;
    printed = summarize F format_double result;
    files = report_files F format_double result (codes "reports/latest");
    message = no_message;
  }
  run_exit false result = record {
    exit_code = 1;
    printed = [];
    files = [];
    message = error no_directory;
  }

  run_command-succeeds :
      (world : World) (fuel : ℕ) (path : Text) (arguments : List Text)
      (config named : SimulatorConfig) (workload : List Instruction) (result : RunResult)
      → parse_optional_flags default_config arguments ≡ succeed config
      → load_configured world.read_file world.stem path config ≡ succeed (workload, named)
      → run_to_end named fuel workload ≡ succeed result
      → main F format_double show_double world fuel (codes "run" ∷ path ∷ arguments)
        ≡ some (run_exit (world.create_directories (codes "reports/latest")) result)
  unfolding main run_command write_report
  run_command-succeeds world fuel path arguments config named workload result read loaded ran =
      elim (Bool-cases (world.create_directories (codes "reports/latest"))) [
        | inl can ↦ simp (read, loaded, ran, can) refl
        | inr cannot ↦ simp (read, loaded, ran, cannot) refl
      ]

  -- `accelsim-lite run` on a file that can be read, with flags whose numbers are positive and below
  -- 2 ^ 32: if the file is a workload of fewer than 2 ^ 64 instructions whose dependencies go
  -- backwards, the run ends with every instruction done; the program returns 0 and reports that run
  -- if the directory reports/latest can be made, and else returns 1 with the error of the file
  -- system and no report. As many turns of the main loop as `turns` says are enough.
  pub main-run_exit :
      (world : World) (path content : Text) (flags : List Flag) (workload : List Instruction)
      (fuel : ℕ)
      → All IsPositive flags
      → world.read_file path ≡ some content
      → load_content content ≡ succeed workload
      → GoesBackwards workload
      → length workload < u64_mod
      → turns workload ≤ fuel
      → let config : SimulatorConfig = record (configured default_config flags) {
        workload_name = world.stem path;
      } in
        (s : State) × IsComplete workload s
        × (main F format_double show_double world fuel (codes "run" ∷ path ∷ arguments_of flags)
            ≡ some
                (run_exit (world.create_directories (codes "reports/latest")) (result_of config s)))
  main-run_exit world path content flags workload fuel positive readable loaded back small enough =
      let set = configured default_config flags in
      let config : SimulatorConfig = record set { workload_name = world.stem path } in
      let (live, fits) = named set (world.stem path) (
        configured-FitsWords default_config flags positive
          (default_config-IsLive, record { units_fit = omega arith; ports_fit = omega arith })) in
      let read : parse_optional_flags default_config (arguments_of flags) ≡ succeed set =
        arguments_read default_config flags
          (All-map IsPositive (λ flag. number_of flag < u32_mod) flags (λ flag p. p.1) positive) in
      let (s, ran, complete) = run_returns config workload fuel live fits back small enough in
      (
        s,
        complete,
        run_command-succeeds world fuel path (arguments_of flags) set config workload
            (result_of config s) read
            (load_succeeds world.read_file world.stem path content set workload readable loaded)
            (run_succeeds config fuel workload s ran),
      )
