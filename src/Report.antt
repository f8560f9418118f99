-- ===== src/Report.antt =====
-- The reports of src/simulator.cpp and the quotients of include/accelsim/model/stats.hpp, over any
-- arithmetic for `double`. `format_double` is the fixed format with four digits.
pub mod Counters
mod Tests
use accelsim_lite.Prelude.{
  ℕ, ◌-◌, Bool, true, false, Option, none, some, List, [], ◌∷◌, ◌++◌, ltb, ◌==◌, if◌then◌else◌,
  sub64,
}
use accelsim_lite.Stats.{CounterMap, Stats, top_bottleneck}
use accelsim_lite.Simulator.{RunResult}
use accelsim_lite.Instruction.{op_to_string, Instruction}
use accelsim_lite.Prelude.Doubles.{Doubles}
use accelsim_lite.Prelude.Decimal.{decimal}
use accelsim_lite.Prelude.Text.{Text, codes}

-- `out << name << separator << value`, with a line break.
abbrev entry_line : ℕ → Text × ℕ → Text
entry_line separator (name, value) = name ++ separator ∷ (decimal value ++ b'\n' ∷ [])

-- The loops over a map of counters.
unfoldable pub entry_lines : ℕ → CounterMap → Text
entry_lines separator [] = []
entry_lines separator (entry ∷ entries) =
    entry_line separator entry ++ entry_lines separator entries

-- The content that `write_map_csv` writes.
unfoldable pub map_csv : Text → Text → CounterMap → Text
unfolding entry_lines
map_csv header_a header_b values = header_a ++ b',' ∷ (header_b ++ b'\n' ∷ entry_lines b',' values)

-- The loop of `map_to_json`, with its flag.
unfoldable pub json_entries : Bool → CounterMap → Text
json_entries first [] = []
json_entries first ((name, value) ∷ values) =
    (if first then [] else b',' ∷ [])
    ++ codes "\""
    ++ name
    ++ codes "\":"
    ++ decimal value
    ++ json_entries false values

unfoldable pub map_to_json : CounterMap → Text
unfolding json_entries
map_to_json values = codes "{" ++ json_entries true values ++ codes "}"

-- The rows of `completed_trace.csv`.
unfoldable pub trace_rows : List Instruction → Text
unfolding op_to_string
trace_rows [] = []
trace_rows (instruction ∷ instructions) =
    decimal instruction.id
    ++ codes ","
    ++ op_to_string instruction.type
    ++ codes ","
    ++ decimal instruction.enqueue_cycle
    ++ codes ","
    ++ decimal instruction.issue_cycle
    ++ codes ","
    ++ decimal instruction.complete_cycle
    ++ codes "\n"
    ++ trace_rows instructions

-- `delta_i64`, as it is printed: the difference as a signed word of 64 bits.
unfoldable pub delta_i64 : ℕ → ℕ → Text
delta_i64 a b =
    let difference = sub64 b a in
    if ltb difference 9223372036854775808
    then decimal difference
    else b'-' ∷ decimal (18446744073709551616 - difference)

module _ (F : Doubles) (format_double : F.Double → Text) where
  unfoldable pub throughput : Stats → F.Double
  throughput stats =
      if stats.total_cycles == 0
      then F.of_size 0
      else F.over (F.of_size stats.completed_ops) (F.of_size stats.total_cycles)

  unfoldable pub average_latency : Stats → F.Double
  average_latency stats =
      if stats.completed_ops == 0
      then F.of_size 0
      else F.over (F.of_size stats.total_latency) (F.of_size stats.completed_ops)

  unfoldable pub summarize : RunResult → Text
  unfolding throughput average_latency top_bottleneck entry_lines
  summarize result =
      codes "workload="
      ++ result.config.workload_name
      ++ codes "\ntotal_cycles="
      ++ decimal result.stats.total_cycles
      ++ codes "\ncompleted_ops="
      ++ decimal result.stats.completed_ops
      ++ codes "\nthroughput="
      ++ format_double (throughput result.stats)
      ++ codes "\naverage_latency="
      ++ format_double (average_latency result.stats)
      ++ codes "\ntop_bottleneck="
      ++ top_bottleneck result.stats
      ++ codes "\n\n[stage_busy_cycles]\n"
      ++ entry_lines b'=' result.stats.stage_busy_cycles
      ++ codes "\n[stall_counts]\n"
      ++ entry_lines b'=' result.stats.stall_counts
      ++ codes "\n[max_queue_occupancy]\n"
      ++ entry_lines b'=' result.stats.max_queue_occupancy

  unfoldable pub compare_runs : RunResult → RunResult → Text
  unfolding throughput average_latency top_bottleneck delta_i64
  compare_runs left right =
      codes "left="
      ++ left.config.workload_name
      ++ codes "\nright="
      ++ right.config.workload_name
      ++ codes "\ncycles_delta="
      ++ delta_i64 left.stats.total_cycles right.stats.total_cycles
      ++ codes "\nthroughput_delta="
      ++ format_double (F.minus (throughput right.stats) (throughput left.stats))
      ++ codes "\navg_latency_delta="
      ++ format_double (F.minus (average_latency right.stats) (average_latency left.stats))
      ++ codes "\nleft_top_bottleneck="
      ++ top_bottleneck left.stats
      ++ codes "\nright_top_bottleneck="
      ++ top_bottleneck right.stats
      ++ codes "\n"

  -- The content of `summary.json`.
  unfoldable pub summary_json : RunResult → Text
  unfolding throughput average_latency top_bottleneck map_to_json
  summary_json result =
      codes "{\n  \"workload\":\""
      ++ result.config.workload_name
      ++ codes "\",\n  \"total_cycles\":"
      ++ decimal result.stats.total_cycles
      ++ codes ",\n  \"completed_ops\":"
      ++ decimal result.stats.completed_ops
      ++ codes ",\n  \"throughput\":"
      ++ format_double (throughput result.stats)
      ++ codes ",\n  \"average_latency\":"
      ++ format_double (average_latency result.stats)
      ++ codes ",\n  \"top_bottleneck\":\""
      ++ top_bottleneck result.stats
      ++ codes "\",\n  \"stage_busy_cycles\":"
      ++ map_to_json result.stats.stage_busy_cycles
      ++ codes ",\n  \"stall_counts\":"
      ++ map_to_json result.stats.stall_counts
      ++ codes ",\n  \"max_queue_occupancy\":"
      ++ map_to_json result.stats.max_queue_occupancy
      ++ codes "\n}\n"

  -- The files that `write_report` writes, each with its content, in their order.
  unfoldable pub report_files : RunResult → Text → List (Text × Text)
  unfolding summarize summary_json map_csv trace_rows
  report_files result out_dir =
      (out_dir ++ codes "/summary.txt", summarize result)
      ∷ (out_dir ++ codes "/summary.json", summary_json result)
      ∷ (
        out_dir ++ codes "/utilization.csv",
        map_csv (codes "stage") (codes "busy_cycles") result.stats.stage_busy_cycles,
      )
      ∷ (
        out_dir ++ codes "/stalls.csv",
        map_csv (codes "stall_reason") (codes "count") result.stats.stall_counts,
      )
      ∷ (
        out_dir ++ codes "/queue_occupancy.csv",
        map_csv (codes "queue") (codes "max_occupancy") result.stats.max_queue_occupancy,
      )
      ∷ (
        out_dir ++ codes "/completed_trace.csv",
        codes "id,op_type,enqueue_cycle,issue_cycle,complete_cycle\n"
            ++ trace_rows result.instructions,
      )
      ∷ []

  -- `std::filesystem::create_directories` throws where `create_directories` is false, and then nothing
  -- is written.
  unfoldable pub write_report : (Text → Bool) → RunResult → Text → Option (List (Text × Text))
  unfolding report_files
  write_report create_directories result out_dir =
      if create_directories out_dir then some (report_files result out_dir) else none
