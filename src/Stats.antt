-- ===== src/Stats.antt =====
-- include/accelsim/model/stats.hpp, and `bump` and `update_max` of src/simulator.cpp.
pub mod Counters
pub mod Bottleneck
mod Tests
use accelsim_lite.Prelude.{ℕ, Option, none, some, List, [], ◌∷◌, ltb, if◌then◌else◌, add64}
use Prim.Native.Nat.{Ordering}
use accelsim_lite.Prelude.Text.{Text, codes, text_compare, text_eq}

-- `std::map<std::string, uint64_t>`: the entries in the order of their keys.
abbrev pub CounterMap : Type 0
CounterMap = List (Text × ℕ)

-- `values[key] += amount`: a missing key starts at 0, and takes its place in the order.
unfoldable pub bump : CounterMap → Text → ℕ → CounterMap
bump [] key amount = (key, add64 0 amount) ∷ []
bump ((name, value) ∷ values) key amount = elim (text_compare key name) [
  | Ordering.lt ↦ (key, add64 0 amount) ∷ (name, value) ∷ values
  | Ordering.eq ↦ (name, add64 value amount) ∷ values
  | Ordering.gt ↦ (name, value) ∷ bump values key amount
]

-- `values.find(key)`.
unfoldable pub find : CounterMap → Text → Option ℕ
find [] key = none
find ((name, value) ∷ values) key = if text_eq key name then some value else find values key

-- `values[key] = candidate`.
unfoldable pub assign : CounterMap → Text → ℕ → CounterMap
assign [] key candidate = (key, candidate) ∷ []
assign ((name, value) ∷ values) key candidate = elim (text_compare key name) [
  | Ordering.lt ↦ (key, candidate) ∷ (name, value) ∷ values
  | Ordering.eq ↦ (name, candidate) ∷ values
  | Ordering.gt ↦ (name, value) ∷ assign values key candidate
]

unfoldable pub update_max : CounterMap → Text → ℕ → CounterMap
update_max values key candidate = elim (find values key) [
  | none ↦ assign values key candidate
  | some value ↦ if ltb value candidate then assign values key candidate else values
]

pub record Stats : Type 0 where
  pub total_cycles : ℕ
  pub completed_ops : ℕ
  pub total_latency : ℕ
  pub stage_busy_cycles : CounterMap
  pub stall_counts : CounterMap
  pub max_queue_occupancy : CounterMap

abbrev pub no_stats : Stats
no_stats = record {
  total_cycles = 0;
  completed_ops = 0;
  total_latency = 0;
  stage_busy_cycles = [];
  stall_counts = [];
  max_queue_occupancy = [];
}

-- The loop of `top_bottleneck` over the entries, with its two variables.
unfoldable pub top_from : Text → ℕ → CounterMap → Text
top_from best best_value [] = best
top_from best best_value ((name, value) ∷ rest) =
    top_from (if ltb best_value value then name else best)
      (if ltb best_value value then value else best_value) rest

unfoldable pub top_bottleneck : Stats → Text
unfolding top_from
top_bottleneck stats = top_from (codes "None") 0 stats.stall_counts
