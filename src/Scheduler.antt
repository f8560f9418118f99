-- ===== src/Scheduler.antt =====
-- src/scheduler.cpp.
mod Tests
use accelsim_lite.Prelude.{
  ℕ, ◌≡◌, refl, ◌↔◌, Bool, true, false, not, List, [], ◌∷◌, arith, if◌then◌else◌, contains, All,
}
use accelsim_lite.Instruction.{Instruction}

-- The loop over the dependencies, with its early return.
unfoldable pub all_retired : List ℕ → List ℕ → Bool
all_retired [] retired_ids = true
all_retired (dep ∷ deps) retired_ids =
    if not (contains retired_ids dep) then false else all_retired deps retired_ids

unfoldable pub deps_satisfied : Instruction → List ℕ → Bool
unfolding all_retired
deps_satisfied instruction retired_ids = all_retired instruction.deps retired_ids

-- Every dependency has retired.
abbrev pub DepsRetired : Instruction → List ℕ → Type 0
DepsRetired instruction retired_ids = All (λ dep. contains retired_ids dep ≡ true) instruction.deps

all_retired_iff :
    (deps retired_ids : List ℕ)
    → (all_retired deps retired_ids ≡ true) ↔ All (λ dep. contains retired_ids dep ≡ true) deps
unfolding all_retired
all_retired_iff [] retired_ids = (λ _. tt, λ _. refl)
all_retired_iff (dep ∷ deps) retired_ids = ground (arith, all_retired_iff deps retired_ids)

-- `deps_satisfied` answers whether every dependency of the instruction has retired.
pub deps_satisfied_iff :
    (instruction : Instruction) (retired_ids : List ℕ)
    → (deps_satisfied instruction retired_ids ≡ true) ↔ DepsRetired instruction retired_ids
unfolding deps_satisfied
deps_satisfied_iff instruction retired_ids = all_retired_iff instruction.deps retired_ids
