-- ===== src/PthreadQueue/Crew/Tests.antt =====
-- A worker that takes the one item of a workload of three numbers, and the witnesses of the theorems
-- on the threads.
use accelsim_lite.Prelude.{◌≡◌, refl, true, false, some, [], ◌∷◌, arith, set, replicate}
use accelsim_lite.PthreadQueue.{
  PthreadItem, WorkQueue, zero_item, queue_init, try_push, lock_queue, try_pop, close,
}
use accelsim_lite.PthreadQueue.Benchmark.{
  benchmark_capacity, task_count, benchmark_items, items_from, nth_item,
}
use accelsim_lite.PthreadQueue.Benchmark.Engine.{matching}
use accelsim_lite.Engine.Single.{run_single_threaded}
use accelsim_lite.PthreadQueue.Crew.{
  WorkerContext, new_context, gone, handling, pushing, joining, Crew, start_crew, handle, nobody,
  broadcast, signal_not_full, at_first, enters, Step, pushes, closes, pops, handles, leaves, Course,
  stays, steps, collect, no_totals,
}
use accelsim_lite.PthreadQueue.Crew.Progress.{GoesOn, threads-GoesOn, IsFinishedCrew}
use accelsim_lite.PthreadQueue.Crew.Agreement.{CrewAgrees, threads-CrewAgrees}

abbrev new_queue : WorkQueue
new_queue = record {
  items = replicate 1024 zero_item;
  capacity = 1024;
  head = 0;
  tail = 0;
  count = 0;
  closed = false;
  lock_acquisitions = 0;
  contended_lock_acquisitions = 0;
  lock_wait_ns = 0;
}

new_queue_made : queue_init benchmark_capacity ≡ (0, some new_queue)
unfolding queue_init
new_queue_made = refl

abbrev only_item : PthreadItem
only_item = record { id = 0; begin = 0; end = 3; queued_at_ns = 7 }

abbrev holding : WorkQueue
holding = record new_queue { items = set new_queue.items 0 only_item; tail = 1; count = 1 }

abbrev closed_queue : WorkQueue
closed_queue = record holding { closed = true }

abbrev emptied : WorkQueue
emptied = record closed_queue { head = 1; count = 0; lock_acquisitions = 1; lock_wait_ns = 5 }

abbrev at_end : WorkQueue
at_end = record emptied { lock_acquisitions = 2; lock_wait_ns = 9 }

abbrev begin : Crew
begin = start_crew 1 3 new_queue

abbrev after_push : Crew
after_push = record begin {
  queue = holding;
  to_push = [];
  producer = pushing;
  contexts = new_context ∷ [];
}

abbrev after_close : Crew
after_close = record after_push {
  queue = close holding;
  producer = joining;
  contexts = broadcast (new_context ∷ []);
}

push-Step : Step begin after_push
unfolding start_crew benchmark_items items_from nth_item task_count try_push
push-Step =
    pushes begin (record only_item { queued_at_ns = 0 }) [] 7 holding (new_context ∷ []) at_first
      refl refl (nobody refl)

close-Step : Step after_push after_close
close-Step = closes after_push refl refl

abbrev busy_context : WorkerContext
busy_context = record new_context { phase = handling only_item }

abbrev after_pop : Crew
after_pop = record after_close {
  queue = emptied;
  producer = signal_not_full joining;
  contexts = busy_context ∷ [];
}

pop-Step : Step after_close after_pop
unfolding close broadcast lock_queue try_pop
pop-Step =
    pops after_close [] new_context [] (lock_queue false 10 15 closed_queue) emptied only_item refl
      (enters false 10 15) refl

abbrev after_handle : Crew
after_handle = record after_pop {
  contexts = handle begin.latency_capacity only_item 30 busy_context ∷ [];
}

handle-Step : Step after_pop after_handle
handle-Step = handles after_pop [] busy_context [] only_item 30 refl refl

abbrev after_leave : Crew
after_leave = record after_handle {
  queue = at_end;
  contexts = record (handle begin.latency_capacity only_item 30 busy_context) { phase = gone } ∷ [];
}

leave-Step : Step after_handle after_leave
unfolding handle lock_queue try_pop
leave-Step =
    leaves after_handle [] (handle begin.latency_capacity only_item 30 busy_context) []
      (lock_queue false 40 44 emptied) refl (enters false 40 44) refl

whole-Course : Course 5 0 begin after_leave
whole-Course =
    steps (steps (steps (steps (steps (stays begin) push-Step) close-Step) pop-Step) handle-Step)
      leave-Step

has_finished : IsFinishedCrew after_leave
unfolding signal_not_full
has_finished = record { joins = refl; none_left = refl }

threads-GoesOn_example : GoesOn 1 3 4 0 after_handle
threads-GoesOn_example =
    threads-GoesOn 1 3 4 0 new_queue after_handle (omega arith) new_queue_made
      (steps (steps (steps (steps (stays begin) push-Step) close-Step) pop-Step) handle-Step)

threads-CrewAgrees_example :
    CrewAgrees 3
      (collect after_leave.contexts no_totals)
      (run_single_threaded (matching 1 3) (λ item. 0))
threads-CrewAgrees_example =
    threads-CrewAgrees 1 3 5 0 new_queue after_leave (λ item. 0) (omega arith) (omega arith)
      new_queue_made whole-Course has_finished
