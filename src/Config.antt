-- ===== src/Config.antt =====
-- include/accelsim/model/config.hpp.
use accelsim_lite.Prelude.{ℕ, ◌<◌, u32_mod}
use accelsim_lite.Prelude.Text.{Text, codes}

pub record SimulatorConfig : Type 0 where
  pub fetch_width : ℕ
  pub decode_width : ℕ
  pub dispatch_width : ℕ
  pub issue_width : ℕ
  pub compute_units : ℕ
  pub memory_ports : ℕ
  pub dispatch_queue_capacity : ℕ
  pub ready_queue_capacity : ℕ
  pub workload_name : Text

-- The initial values of the fields.
abbrev pub default_config : SimulatorConfig
default_config = record {
  fetch_width = 4;
  decode_width = 4;
  dispatch_width = 4;
  issue_width = 2;
  compute_units = 2;
  memory_ports = 1;
  dispatch_queue_capacity = 16;
  ready_queue_capacity = 16;
  workload_name = codes "unknown";
}

-- What the types of the fields give: the counts of units fit `uint32_t`.
pub record FitsWords (config : SimulatorConfig) : Type 0 where
  pub units_fit : config.compute_units < u32_mod
  pub ports_fit : config.memory_ports < u32_mod
