-- ===== src/Cli/Tests.antt =====
-- The command `run` on a small workload, and the witnesses of the theorems on it.
use accelsim_lite.Cli.Commands.{main, World}
use accelsim_lite.Prelude.{
  ℕ, zero, suc, ◌<◌, ◌≡◌, refl, true, some, List, [], ◌∷◌, ◌++◌, arith, All, u32_mod, succeed,
  throw,
}
use accelsim_lite.Workload.{
  is_blank, get_items, ends_in, split, trim_front, trim_back, trim, is_space, is_digit, skip_space,
  read_digits, magnitude, stoull, to_u32,
}
use accelsim_lite.Config.{default_config}
use accelsim_lite.Simulator.{result_of}
use accelsim_lite.Pipeline.{State}
use accelsim_lite.Cli.{missing_value, parse_optional_flags}
use accelsim_lite.Instruction.{OpType, compute, load, Instruction, blank}
use accelsim_lite.Pipeline.Finished.{latency}
use accelsim_lite.Workload.Load.{
  column, parse_tokens, parse_deps, parse_type, clamp_latency, parse_fields, parse_row, starts_with,
  load_line, load_lines, check_deps, check_all, load_content,
}
use accelsim_lite.Instruction.Parse.{to_upper, parse_op_type}
use accelsim_lite.Prelude.Text.{Text, codes}
use accelsim_lite.Prelude.Doubles.Whole.{whole_numbers}
use accelsim_lite.Simulator.Completion.{IsComplete}
use accelsim_lite.Simulator.Oldest.{GoesBackwards}
use accelsim_lite.Cli.Flags.{
  Flag, compute_units, ready_queue, arguments_of, number_of, configured,
  parse_optional_flags-arguments,
}
use accelsim_lite.Cli.Commands.RunCommand.{IsPositive, run_exit, main-run_exit}

abbrev content : Text
content = codes "id,op_type,latency,bytes,deps\n1,LOAD,4,64,\n2,compute,0,0,1\n"

abbrev row : ℕ → OpType → ℕ → ℕ → List ℕ → Instruction
row id type latency bytes deps = record blank {
  id = id;
  type = type;
  execute_latency = latency;
  memory_bytes = bytes;
  deps = deps;
}

abbrev workload : List Instruction
workload = row 1 load 4 64 [] ∷ row 2 compute 1 0 (1 ∷ []) ∷ []

accepted : load_content content ≡ succeed workload
unfolding load_content load_lines load_line parse_row parse_fields parse_type parse_deps
    parse_tokens column clamp_latency to_u32 starts_with check_all check_deps split get_items
    ends_in trim trim_front trim_back is_blank stoull magnitude read_digits skip_space is_space
    is_digit parse_op_type to_upper
accepted = refl

workload-GoesBackwards : GoesBackwards workload
workload-GoesBackwards zero lt dep h = absurd (h refl)
workload-GoesBackwards (suc zero) lt dep h = (0, omega arith, ground arith)
workload-GoesBackwards (suc (suc i)) lt dep h = absurd (omega arith)

abbrev world : World
world = record {
  read_file = λ path. some content;
  stem = λ path. path;
  stamp = codes "20260101_000000";
  create_directories = λ path. true;
}

abbrev flags : List Flag
flags = compute_units 3 ∷ ready_queue 8 ∷ compute_units 1 ∷ []

flags-IsPositive : All IsPositive flags
flags-IsPositive =
    ((omega arith, omega arith), ((omega arith, omega arith), ((omega arith, omega arith), tt)))

abbrev mixed : Text
mixed = codes "workloads/mixed.csv"

abbrev shown : ℕ → Text
shown n = []

main-run_exit_example :
    (s : State) × IsComplete workload s
    × (main whole_numbers shown shown world 40 (codes "run" ∷ mixed ∷ arguments_of flags)
        ≡ some (
            run_exit whole_numbers shown shown true
              (result_of (record (configured default_config flags) { workload_name = mixed }) s)))
main-run_exit_example =
    main-run_exit whole_numbers shown shown world mixed content flags workload 40 flags-IsPositive
      refl accepted workload-GoesBackwards (omega arith) (omega arith)

flags-small : All (λ flag. number_of flag < u32_mod) flags
flags-small = (omega arith, (omega arith, (omega arith, tt)))

parse_optional_flags-arguments_example :
    (parse_optional_flags default_config (arguments_of flags ++ codes "--memory-ports" ∷ [])
      ≡ parse_optional_flags (configured default_config flags) (codes "--memory-ports" ∷ []))
    × ((key : Text)
        → parse_optional_flags default_config (arguments_of flags ++ key ∷ [])
          ≡ throw (missing_value key))
parse_optional_flags-arguments_example =
    parse_optional_flags-arguments default_config flags (codes "--memory-ports" ∷ []) flags-small
