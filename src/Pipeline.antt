-- ===== src/Pipeline.antt =====
-- The state of `run_workload` (src/simulator.cpp) with retirement and
-- execution. `Front` has the other stages of a turn of its main loop.
pub mod Front
pub mod Placement
pub mod Moves
pub mod Resources
pub mod Program
pub mod Forward
pub mod Dependencies
pub mod Finished
pub mod Capacity
pub mod Work
pub mod Order
pub mod Timing
use accelsim_lite.Prelude.{
  ℕ, zero, suc, ◌+◌, ◌-◌, Bool, true, false, not, ◌||◌, List, [], ◌∷◌, ◌++◌, ltb, leb, ◌==◌,
  if◌then◌else◌, insert, length, get_or, modify, is_empty, add32, add64, sub64, ◌≡◌, refl, ◌⊎◌, inl,
  inr, Result, succeed, throw, ◌>>=◌,
}
use accelsim_lite.Stats.{bump, Stats}
use accelsim_lite.Scheduler.{deps_satisfied}
use accelsim_lite.Instruction.{
  Stage, fetch, decode, dispatch, ready, execute, retire, done, Instruction, blank, is_memory_op,
}
use accelsim_lite.Prelude.Text.{Text, codes}

-- `ExecSlot`.
pub record ExecSlot : Type 0 where
  pub index : ℕ
  pub remaining : ℕ
  pub uses_memory : Bool

-- The local variables of `run_workload`, with the instructions and statistics of its result. The
-- queues hold indices into the instructions.
pub record State : Type 0 where
  pub instructions : List Instruction
  pub stats : Stats
  pub fetch_q : List ℕ
  pub decode_q : List ℕ
  pub dispatch_q : List ℕ
  pub ready_q : List ℕ
  pub retire_q : List ℕ
  pub exec_slots : List ExecSlot
  pub retired_ids : List ℕ
  pub next_to_fetch : ℕ
  pub cycle : ℕ
  pub compute_in_use : ℕ
  pub memory_in_use : ℕ

-- `result.instructions[idx]`.
abbrev pub at : State → ℕ → Instruction
at s idx = get_or s.instructions idx blank

-- The exceptions of `run_workload`.
pub data Error : Type 0 where
  memory_underflow compute_underflow : Error

unfoldable pub has_work_left : State → Bool
has_work_left s =
    ltb s.next_to_fetch (length s.instructions)
    || not (is_empty s.fetch_q)
    || not (is_empty s.decode_q)
    || not (is_empty s.dispatch_q)
    || not (is_empty s.ready_q)
    || not (is_empty s.retire_q)
    || not (is_empty s.exec_slots)

abbrev pub bump_stall : State → Text → Stats
bump_stall s key = record (s.stats) { stall_counts = bump s.stats.stall_counts key 1 }

-- Retirement: the body of the loop, where `idx` has left the queue.

unfoldable pub retire_one : ℕ → State → State
retire_one idx s =
    let instruction = at s idx in
    record s {
      instructions = modify s.instructions idx (λ x. record x { stage = done });
      retired_ids = insert instruction.id s.retired_ids;
      stats = record (s.stats) {
        completed_ops = add64 s.stats.completed_ops 1;
        total_latency =
            add64 s.stats.total_latency
              (sub64 instruction.complete_cycle instruction.enqueue_cycle);
      };
    }

-- The argument is the queue.
unfoldable pub retire_loop : List ℕ → State → State
retire_loop [] s = s
retire_loop (idx ∷ rest) s = retire_loop rest (retire_one idx (record s { retire_q = rest }))

unfoldable pub retire_all : State → State
retire_all s = retire_loop s.retire_q s

-- Execution: `remaining_slots` and `finished`, with the units in use.

pub record Tick : Type 0 where
  pub remaining_slots : List ExecSlot
  pub finished : List ℕ
  pub compute_left : ℕ
  pub memory_left : ℕ

unfoldable pub tick_remaining : ℕ → ℕ
tick_remaining remaining = if ltb 0 remaining then remaining - 1 else remaining

unfoldable pub release : ExecSlot → Tick → Result Error Tick
release slot t =
    if slot.uses_memory
    then (if t.memory_left == 0
        then throw memory_underflow
        else succeed (record t { memory_left = t.memory_left - 1 }))
    else (if t.compute_left == 0
        then throw compute_underflow
        else succeed (record t { compute_left = t.compute_left - 1 }))

unfoldable pub tick_slot : ExecSlot → Tick → Result Error Tick
unfolding tick_remaining release
tick_slot slot t =
    let remaining = tick_remaining slot.remaining in
    if remaining == 0
    then release slot (record t { finished = t.finished ++ slot.index ∷ [] })
    else succeed (record t {
      remaining_slots = t.remaining_slots ++ record slot { remaining = remaining } ∷ [];
    })

unfoldable pub tick_slots : List ExecSlot → Tick → Result Error Tick
tick_slots [] t = succeed t
tick_slots (slot ∷ slots) t = do t' ← tick_slot slot t; tick_slots slots t'

unfoldable pub complete_one : ℕ → State → State
complete_one idx s = record s {
  instructions =
      modify s.instructions idx (λ x. record x { complete_cycle = s.cycle; stage = retire });
  retire_q = s.retire_q ++ idx ∷ [];
}

unfoldable pub complete_all : List ℕ → State → State
complete_all [] s = s
complete_all (idx ∷ finished) s = complete_all finished (complete_one idx s)

unfoldable pub start_tick : State → Tick
start_tick s = record {
  remaining_slots = [];
  finished = [];
  compute_left = s.compute_in_use;
  memory_left = s.memory_in_use;
}

-- The assignment of the slots that go on, with the units in use.
abbrev pub resume : State → Tick → State
resume s t = record s {
  exec_slots = t.remaining_slots;
  compute_in_use = t.compute_left;
  memory_in_use = t.memory_left;
}

unfoldable pub after_tick : State → Tick → State
after_tick s t = complete_all t.finished (resume s t)

unfoldable pub advance : State → Result Error State
advance s = do t ← tick_slots s.exec_slots (start_tick s); succeed (after_tick s t)
