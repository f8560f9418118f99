-- ===== src/Simulator/Completion.antt =====
-- What a run that returns has done.
use accelsim_lite.Prelude.{
  ℕ, ◌≤◌, ◌<◌, ◌≡◌, true, false, List, [], ◌∷◌, arith, contains, length, get_or, All, ap, ◌∙◌,
  if◌then◌else◌, sum_below_ones, count, u64_mod,
}
use accelsim_lite.Pipeline.{State, at, has_work_left}
use accelsim_lite.Instruction.{Stage, done, stage_rank, Instruction, blank}
use accelsim_lite.Pipeline.Program.{SameOperation, Moves-SameProgram}
use accelsim_lite.Pipeline.Dependencies.{IsFinished}
use accelsim_lite.Config.{SimulatorConfig}
use accelsim_lite.Simulator.{start, returned, run_workload}
use accelsim_lite.Pipeline.Finished.{is_done}
use accelsim_lite.Pipeline.Placement.{slot_indices, IsPlaced}
use accelsim_lite.Simulator.Safety.{
  Reachable-IsPlaced, Reachable-RespectsDeps, run_counters, start-length, start-SameOperation,
}
use accelsim_lite.Simulator.Steps.{main_loop-Moves}

pub record IsComplete (workload : List Instruction) (s : State) : Type 0 where
  pub all_fetched : s.next_to_fetch ≡ length workload
  pub all_done : (i : ℕ) → i < length workload → (at s i).stage ≡ done
  pub all_counted : s.stats.completed_ops ≡ length workload
  pub same_workload : (i : ℕ) → SameOperation (get_or workload i blank) (at s i)
  pub deps_done : (i : ℕ) → i < length workload → All (IsFinished s) (at s i).deps

-- The main loop ends with nothing in the queues.
nothing_left :
    (s : State)
    → has_work_left s ≡ false
    → (length s.instructions ≤ s.next_to_fetch)
      × (s.fetch_q ≡ [])
      × (s.decode_q ≡ [])
      × (s.dispatch_q ≡ [])
      × (s.ready_q ≡ [])
      × (s.retire_q ≡ [])
      × (s.exec_slots ≡ [])
unfolding has_work_left
nothing_left s h = ground arith

done_of_rank : (stage : Stage) → stage_rank stage ≡ 6 → stage ≡ done
done_of_rank stage h = ground arith

All-IsFinished :
    (s : State) (deps : List ℕ)
    → ((dep : ℕ) → contains s.retired_ids dep ≡ true → IsFinished s dep)
    → All (λ dep. contains s.retired_ids dep ≡ true) deps
    → All (IsFinished s) deps
All-IsFinished s [] f h = tt
All-IsFinished s (dep ∷ deps) f (h, hs) = (f dep h, All-IsFinished s deps f hs)

-- With nothing left, the stage of every instruction is `done`.
all_ranks :
    (s : State)
    → IsPlaced s
    → has_work_left s ≡ false
    → (i : ℕ) → i < length s.instructions
    → stage_rank (at s i).stage ≡ 6
all_ranks s v over i lt =
    let (n, f, d, p, r, t, e) = nothing_left s over in
    ground (
      arith,
      v.places i,
      ap (count i) f,
      ap (count i) d,
      ap (count i) p,
      ap (count i) r,
      ap (count i) t,
      ap (λ slots. count i (slot_indices slots)) e,
    )

-- A run that returns has fetched and finished every instruction of the workload, counted each of
-- them once, changed nothing of an instruction but its stage and its stamps, and finished every
-- dependency, if the workload has fewer than 2 ^ 64 instructions.
pub run_completes :
    (config : SimulatorConfig) (fuel : ℕ) (workload : List Instruction) (s : State)
    → length workload < u64_mod
    → run_workload config fuel workload ≡ returned s
    → IsComplete workload s
unfolding run_workload
run_completes config fuel workload s small h =
    let (r, over) = main_loop-Moves config fuel (start workload) s h in
    let same = Moves-SameProgram r in
    let placed = Reachable-IsPlaced config workload s r in
    let deps = Reachable-RespectsDeps config workload s r in
    let counted = run_counters config workload s r in
    let n : length s.instructions ≡ length workload = same.same_length ∙ start-length workload in
    let fetched : s.next_to_fetch ≡ length workload =
      omega (arith, (nothing_left s over).0, placed.in_range) in
    let rank = λ (i : ℕ) (lt : i < length workload). all_ranks s placed over i (omega arith) in
    record {
      all_fetched = fetched;
      all_done = λ i lt. done_of_rank (at s i).stage (rank i lt);
      all_counted = omega (
        arith,
        counted.counted_ops,
        sum_below_ones s.next_to_fetch (λ i. if is_done (at s i) then 1 else 0)
            (λ i lt. ground (arith, rank i (omega arith))),
      );
      same_workload = λ i. start-SameOperation workload i (same.same_at i);
      deps_done = λ i lt.
          All-IsFinished s (at s i).deps deps.retired_finished
            (deps.awake_deps i (omega arith) (omega (arith, rank i lt)));
    }
