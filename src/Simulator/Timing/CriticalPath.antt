-- ===== src/Simulator/Timing/CriticalPath.antt =====
-- No run of `run_workload` is shorter than a chain of dependencies in its workload.
use accelsim_lite.Prelude.{
  ℕ, ◌+◌, ◌≤◌, ◌<◌, ◌≡◌, sym, ap, subst, ◌∙◌, max, List, [], ◌∷◌, arith, inl, inr, true, ◌==◌,
  ==_iff, Bool-cases, length, get_or, contains, All, u64_mod,
}
use accelsim_lite.Config.{SimulatorConfig}
use accelsim_lite.Instruction.{Instruction, blank}
use accelsim_lite.Pipeline.{State, at}
use accelsim_lite.Pipeline.Timing.{IsFinishedBefore, occupancy_time}
use accelsim_lite.Simulator.{returned, run_workload, result_of}
use accelsim_lite.Simulator.Completion.{IsComplete, run_completes}
use accelsim_lite.Simulator.Timing.Runs.{IsTimely, run_timing}

-- The instruction at `i` needs so many cycles to be completed: three to be issued and its latency, or
-- its latency and a cycle behind each instruction that a dependency of it may name.
pub data Needs (workload : List Instruction) : ℕ → ℕ → Type 0 where
  alone : (i : ℕ) → Needs workload i (3 + occupancy_time (get_or workload i blank))
  behind :
      (i dep cycles : ℕ)
      → contains (get_or workload i blank).deps dep ≡ true
      → ((j : ℕ)
          → j < length workload
          → (get_or workload j blank).id ≡ dep
          → Needs workload j cycles)
      → Needs workload i (cycles + 1 + occupancy_time (get_or workload i blank))

All-contains {κ} : (P : ℕ → Type κ) (xs : List ℕ) (a : ℕ) → contains xs a ≡ true → All P xs → P a
All-contains P [] a h v = absurd (ground arith)
All-contains P (x ∷ xs) a h (v, vs) = elim (Bool-cases (x == a)) [
  | inl e ↦ subst P ((==_iff x a).0 e) v
  | inr e ↦ All-contains P xs a (ground (arith, h, e)) vs
]

module _ (config : SimulatorConfig) (workload : List Instruction) (s : State)
    (whole : IsComplete workload s)
    (timely : (i : ℕ) → i < length workload → IsTimely config s i) where
  same_time : (i : ℕ) → occupancy_time (at s i) ≡ occupancy_time (get_or workload i blank)
  same_time i = ap (max 1) (whole.same_workload i).same_latency

  Needs-complete_cycle :
      (i cycles : ℕ)
      → i < length workload
      → Needs workload i cycles
      → cycles ≤ (at s i).complete_cycle
  Needs-complete_cycle i _ lt (alone _) =
      let t = timely i lt in omega (arith, t.issued_after, t.completed_after, same_time i)
  Needs-complete_cycle i _ lt (behind _ dep cycles h before) =
      let t = timely i lt in
      let (j, fetched, named, _, earlier) =
        All-contains (IsFinishedBefore s (at s i).issue_cycle) (at s i).deps dep
          (subst (λ deps. contains deps dep ≡ true) (sym (whole.same_workload i).same_deps) h)
          t.after_deps in
      let ltj : j < length workload = omega (arith, fetched, whole.all_fetched) in
      let rest =
        Needs-complete_cycle j cycles ltj
          (before j ltj (sym (whole.same_workload j).same_id ∙ named)) in
      omega (arith, rest, earlier, t.completed_after, same_time i)

-- A run that returns within 2 ^ 64 turns of the main loop takes two cycles more at least than any
-- instruction of the workload needs to be completed, along any chain of dependencies. The workload
-- has fewer than 2 ^ 64 instructions.
pub run_critical_path :
    (config : SimulatorConfig) (fuel : ℕ) (workload : List Instruction) (s : State) (i cycles : ℕ)
    → length workload < u64_mod
    → fuel < u64_mod
    → run_workload config fuel workload ≡ returned s
    → i < length workload
    → Needs workload i cycles
    → cycles + 2 ≤ (result_of config s).stats.total_cycles
run_critical_path config fuel workload s i cycles small enough h lt needs =
    let timely = run_timing config fuel workload s small enough h in
    let whole = run_completes config fuel workload s small h in
    omega (
      arith,
      Needs-complete_cycle config workload s whole timely i cycles lt needs,
      (timely i lt).within_run,
    )
