-- ===== src/Lib.antt =====
-- A model of accelsim-lite: the cycle-level accelerator simulator of src/ and include/accelsim/,
-- with the firmware-style components beside it.
--
-- `run_workload` (src/simulator.cpp) takes a list of instructions through a pipeline. Each turn of
-- its main loop is one cycle: it retires what has completed, counts the executing slots down, wakes
-- up waiting instructions whose dependencies have retired, issues ready ones to compute units and
-- memory ports, and dispatches, decodes and fetches up to the configured widths.
--
-- The files:
--   Instruction, Instruction/Parse: include/accelsim/model/instruction.hpp and core/pipeline.hpp.
--   Config: include/accelsim/model/config.hpp.
--   Stats, Stats/Counters, Stats/Bottleneck: include/accelsim/model/stats.hpp and the counter maps.
--   Scheduler: src/scheduler.cpp.
--   Pipeline, Pipeline/Front: the state of `run_workload` and the stages of a cycle, one function
--     for each loop and for each loop body. Pipeline/Moves has the step relation that the loops
--     follow. Pipeline/Placement, Resources, Program, Forward, Dependencies, Finished and Capacity
--     prove what each step of it keeps.
--   Simulator: the main loop and the result. Simulator/Steps, Safety, Completion and Deadlock carry
--     the properties of the steps over to runs, Turns to the states between the stages of a turn.
--     Pipeline/Work and Order, and Simulator/Stages, Oldest, Progress and Termination show that each
--     cycle with work left leaves less. Pipeline/Timing and Simulator/Timing follow the cycle stamps
--     through a cycle and a run.
--   Workload, Workload/Load: src/workload_runner.cpp, from the content of a file on. Workload/Split,
--     Trim and Loading prove what its parts do.
--   BoundedQueue: include/accelsim/queue.h.
--   Firmware/RingBuffer, Firmware/Registers: firmware_style_validation/ring_buffer.cpp and
--     hardware_interface_mock.h. Firmware/RingBuffer/Queue compares the buffer with a queue.
--     Firmware/Filter is fixed_point_filter.cpp; Firmware/Filter/Exact compares it
--     with a recurrence that has no wrap-around.
--   Storage, Storage/Parse: storage_datapath/, over any arithmetic for `double`. Storage/Depths
--     counts, and Storage/Parse/RoundTrip reads back what it writes.
--   Isa: src/instruction.cpp.
--   Engine, Engine/Process, Engine/Single: performance_engine/, its work items, `process_work` and the
--     single-threaded run. Engine/Workers has the threads of `run_multithreaded` as steps of one state,
--     with the notifications of its condition variables and wake-ups without a cause. Invariant is what
--     each step keeps, Agreement what a run computes; Awake, Bounds and Progress follow the
--     notifications. Engine/Report is the result of a run, with its percentiles.
--   Csv: what the readers of trajectory_graph_lite/ and storage_datapath/ have in common.
--   Trajectory, Trajectory/Components, Turns and Parse: trajectory_graph_lite/. Trajectory/Valid,
--     Reach, Turns/Lonely, Turns/Routes and Parse/Analysis prove what they do.
--     Trajectory/Tool, Storage/Tool and Engine/Tool are the `main` functions beside them.
--   Units, Units/InOrder: src/compute_unit.cpp and src/memory_controller.cpp.
--   Report: the texts of src/simulator.cpp for a result. Report/Counters reads them back.
--   Cli, Cli/Commands: tools/accelsim_cli.cpp. Cli/Flags and Cli/Commands/RunCommand prove what the
--     flags and the command `run` do.
--   PthreadQueue: benchmarks/pthreads_queue/src/pthread_queue.c, what each call does with the mutex.
--     PthreadQueue/Contents, Refined and Usage compare it with a bounded list.
--     PthreadQueue/Benchmark is the work of pthread_queue_benchmark.c beside it, Benchmark/Engine
--     compares it with the engine's. PthreadQueue/Crew has its threads as steps of one state, with
--     the signals and broadcasts that wake them up, and wake-ups that nobody asked for. Crew/Calls,
--     Steady, Bounds and Progress follow the wake-ups; Conserved, Collecting and Agreement the items.
--   Prelude: Boolean tests on the native numbers, lists, counting, sums, words, texts,
--     maps, sorting and decimal numbers.
--
-- A word of w bits is a natural number below 2 ^ w, and each addition of the source wraps around.
-- The queues are lists with their front first; `std::map` is a list in the order of its keys;
-- `std::unordered_set` is a list that is read by membership only. A text is the list of its bytes.
-- An exception is a value of `Result`. The main loop takes fuel, one unit for each turn, and says
-- `out_of_fuel` where the loop would go on; the source has no bound. `turns` in
-- Simulator/Termination is enough fuel where each dependency names an earlier instruction.
--
-- `load_workload_csv` takes the reading of a file and the stem of a path as parameters.
--
-- Access to files, whether `std::filesystem::create_directories` throws, the clock, `std::stod`, `std::sqrt`, `std::acos` and the format of `double` are
-- parameters. The fuel of the command line is that of the main loop; a run that needs more has no
-- exit. What uses `double` takes its operations as the record `Doubles`. The search of the
-- trajectory graph has one unit of fuel for each point, since a point waits for its expansion once.
--
-- Not modelled: the arguments and the printing of the benchmark of benchmarks/pthreads_queue/, the
-- trace writer, which only writes to a stream, and the profile runner, which repeats a run until
-- some seconds have passed. A report is taken as written where its directory can be made, since
-- `std::ofstream` raises no exception.
pub mod Prelude
pub mod Instruction
pub mod Config
pub mod Stats
pub mod Scheduler
pub mod Pipeline
pub mod Simulator
pub mod Workload
pub mod BoundedQueue
pub mod Firmware
pub mod Storage
pub mod Engine
pub mod Isa
pub mod Csv
pub mod Trajectory
pub mod Report
pub mod Cli
pub mod Units
pub mod PthreadQueue
