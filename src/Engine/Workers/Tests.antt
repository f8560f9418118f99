-- ===== src/Engine/Workers/Tests.antt =====
-- A run of one worker on one item, with the witnesses of the theorems on it.
use accelsim_lite.Engine.Tool.Accepted.{parse_config-GoesOn}
use accelsim_lite.Engine.Workers.Agreement.{Agrees, workers-Agrees, AllLeft}
use accelsim_lite.Engine.Workers.Progress.{GoesOn, run_multithreaded-GoesOn, no_room-NeverLeaves}
use accelsim_lite.Prelude.{◌<◌, ◌≡◌, refl, true, false, [], arith, length, succeed, ◌∷◌}
use accelsim_lite.Engine.{
  cache_local, BenchmarkConfig, check_config, WorkItem, work_from, build_work_items,
}
use accelsim_lite.Engine.Single.{run_single_threaded}
use accelsim_lite.Engine.Workers.{
  Pool, new_worker, start_pool, acquire, tasks_to_take, process_one, hand_over, one_sleeper,
  no_sleeper, notify_workers, notify_producer, pushes, finishes, announces, acquires, dozes, takes,
  processes, repeats, leaves, Steps, no_step, step_then,
}
use accelsim_lite.Workload.{is_space, is_digit, skip_space, read_digits, magnitude, stoull}
use accelsim_lite.Prelude.Text.{codes}
use accelsim_lite.Engine.Tool.{parse_size, parse_config}

abbrev one : BenchmarkConfig
one = record {
  worker_count = 1;
  workload_size = 2;
  chunk_size = 2;
  queue_capacity = 1;
  access_pattern = cache_local;
  queue_batch_size = 1;
}

abbrev only_item : WorkItem
only_item = record { id = 0; begin = 0; end = 2 }

-- The run with its last state: the worker falls asleep first, and is notified by the push.
full_run : (s : Pool) × Steps one 11 0 (start_pool one) s × AllLeft s
unfolding start_pool build_work_items work_from tasks_to_take process_one acquire hand_over
    notify_producer notify_workers
full_run = (
  _,
  step_then (acquires (start_pool one) [] new_worker [] true 40 refl refl) (
      step_then (dozes _ [] _ [] refl refl refl refl) (
        step_then (pushes _ only_item [] _ refl refl (omega arith) (one_sleeper [] _ [] refl refl))
          (step_then (takes _ [] _ [] refl refl (omega arith)) (
            step_then (processes _ [] _ [] only_item [] 30 20 refl refl) (
              step_then (repeats _ [] _ [] refl refl) (
                step_then (acquires _ [] _ [] false 0 refl refl) (
                  step_then (dozes _ [] _ [] refl refl refl refl) (
                    step_then (finishes _ refl refl) (
                      step_then (announces _ refl)
                        (step_then (leaves _ [] _ [] refl refl refl refl) (no_step _))))))))))),
  (refl, tt),
)

workers-Agrees_example : Agrees full_run.0 (run_single_threaded one (λ _. 5))
workers-Agrees_example =
    workers-Agrees one (λ _. 5) 11 0 full_run.0 (omega arith) full_run.1 full_run.2

check_config-one : check_config one ≡ succeed one
unfolding check_config
check_config-one = refl

run_multithreaded-GoesOn_example : GoesOn one 11 0 full_run.0
run_multithreaded-GoesOn_example =
    run_multithreaded-GoesOn one one 11 0 full_run.0 check_config-one (omega arith) full_run.1

-- The same workload with a queue that has no room.
abbrev no_room : BenchmarkConfig
no_room = record one { queue_capacity = 0 }

check_config-no_room : check_config no_room ≡ succeed no_room
unfolding check_config
check_config-no_room = refl

some_items : 0 < length (build_work_items no_room)
unfolding build_work_items work_from
some_items = omega arith

no_room-NeverLeaves_example : ¬ AllLeft (start_pool no_room)
no_room-NeverLeaves_example =
    no_room-NeverLeaves no_room no_room 0 0 (start_pool no_room) check_config-no_room refl
      some_items (no_step (start_pool no_room))

-- The benchmark tool with two workers and a batch size of 3.
abbrev two_workers : BenchmarkConfig
two_workers = record {
  worker_count = 2;
  workload_size = 10;
  chunk_size = 256;
  queue_capacity = 1024;
  access_pattern = cache_local;
  queue_batch_size = 3;
}

read_config :
    parse_config (codes "2") (codes "10") (codes "local") (codes "3" ∷ []) ≡ succeed two_workers
unfolding parse_config parse_size check_config stoull skip_space is_space magnitude is_digit
    read_digits
read_config = refl

first_push : (s : Pool) × Steps two_workers 1 0 (start_pool two_workers) s
unfolding start_pool build_work_items work_from
first_push = (
  _,
  step_then
      (pushes (start_pool two_workers) (record { id = 0; begin = 0; end = 10 }) [] _ refl refl
        (omega arith) (no_sleeper refl))
      (no_step _),
)

parse_config-GoesOn_example : GoesOn two_workers 1 0 first_push.0
parse_config-GoesOn_example =
    parse_config-GoesOn (codes "2") (codes "10") (codes "local") (codes "3" ∷ []) two_workers 1 0
      first_push.0 read_config first_push.1
