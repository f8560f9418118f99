-- ===== src/Instruction.antt =====
-- include/accelsim/model/instruction.hpp, include/accelsim/core/pipeline.hpp: instructions, their
-- operations and the pipeline stage that each is in.
pub mod Parse
mod Tests
use accelsim_lite.Prelude.{ℕ, ◌≡◌, Bool, true, false, List, [], ◌||◌, ◌==◌}
use accelsim_lite.Prelude.Text.{Text, codes}

pub data OpType : Type 0 where
  compute load store : OpType

pub data Stage : Type 0 where
  fetch decode dispatch ready execute retire done : Stage

-- The place of a stage in the enumeration.
abbrev pub stage_rank : Stage → ℕ
stage_rank fetch = 0
stage_rank decode = 1
stage_rank dispatch = 2
stage_rank ready = 3
stage_rank execute = 4
stage_rank retire = 5
stage_rank done = 6

abbrev pub is_stage : Stage → Stage → Bool
is_stage a b = stage_rank a == stage_rank b

-- `to_string(OpType)`.
unfoldable pub op_to_string : OpType → Text
op_to_string compute = codes "COMPUTE"
op_to_string load = codes "LOAD"
op_to_string store = codes "STORE"

-- `to_string(Stage)`.
unfoldable pub stage_to_string : Stage → Text
stage_to_string fetch = codes "Fetch"
stage_to_string decode = codes "Decode"
stage_to_string dispatch = codes "Dispatch"
stage_to_string ready = codes "Ready"
stage_to_string execute = codes "Execute"
stage_to_string retire = codes "Retire"
stage_to_string done = codes "Done"

pub record Instruction : Type 0 where
  pub id : ℕ
  pub type : OpType
  pub execute_latency : ℕ
  pub memory_bytes : ℕ
  pub deps : List ℕ
  pub stage : Stage
  pub enqueue_cycle : ℕ
  pub issue_cycle : ℕ
  pub complete_cycle : ℕ

-- A value-initialised `Instruction`.
abbrev pub blank : Instruction
blank = record {
  id = 0;
  type = compute;
  execute_latency = 1;
  memory_bytes = 0;
  deps = [];
  stage = fetch;
  enqueue_cycle = 0;
  issue_cycle = 0;
  complete_cycle = 0;
}

unfoldable pub is_load : OpType → Bool
is_load load = true
is_load _ = false

unfoldable pub is_store : OpType → Bool
is_store store = true
is_store _ = false

unfoldable pub is_memory_op : OpType → Bool
unfolding is_load is_store
is_memory_op type = is_load type || is_store type
