-- ===== src/Simulator/Termination.antt =====
-- `run_workload` returns, if dependencies go backwards.
use accelsim_lite.Simulator.Progress.{front-works}
use accelsim_lite.Prelude.{
  ℕ, zero, suc, ◌+◌, ◌*◌, ◌≤◌, ◌<◌, max, ◌≡◌, refl, ap, subst, ◌∙◌, inl, inr, true, List, [], ◌∷◌,
  arith, Bool-cases, length, get_or, List-cases, u64_mod, succeed, >>=-succeeds, succeed_injective,
  false,
}
use accelsim_lite.Config.{SimulatorConfig, FitsWords}
use accelsim_lite.Simulator.{front, step, start, returned, main_loop, run_workload}
use accelsim_lite.Pipeline.{
  State, has_work_left, retire_loop, retire_all, tick_slots, complete_all, start_tick, after_tick,
  advance,
}
use accelsim_lite.Instruction.{Instruction, blank}
use accelsim_lite.Pipeline.Moves.{Move, ticks, no_move, one-Move, retire_all-Moves, advance-Moves}
use accelsim_lite.Pipeline.Front.{end_cycle}
use accelsim_lite.Pipeline.Program.{SameProgram-refl}
use accelsim_lite.Pipeline.Resources.{advance-succeeds}
use accelsim_lite.Pipeline.Work.{work, Moves-WithinBound, Moves-work}
use accelsim_lite.Simulator.Completion.{IsComplete, run_completes}
use accelsim_lite.Simulator.Oldest.{GoesBackwards, IsRunning, Moves-IsRunning}
use accelsim_lite.Simulator.Stages.{IsLive, retire_all-works, advance-works}
use accelsim_lite.Simulator.Safety.{Reachable-IsPlaced, Reachable-IsAccounted}
use accelsim_lite.Simulator.Steps.{front-Moves, step-Moves}

-- Where no slot is taken, execution changes nothing that matters.
advance-idle :
    (s u : State)
    → s.exec_slots ≡ []
    → advance s ≡ succeed u
    → (u.retire_q ≡ s.retire_q) × (u.exec_slots ≡ []) × (has_work_left u ≡ has_work_left s)
unfolding advance after_tick tick_slots complete_all start_tick has_work_left
advance-idle s u x h = ground arith

retire_all-idle : (s : State) → s.retire_q ≡ [] → retire_all s ≡ s
unfolding retire_all retire_loop
retire_all-idle s e = ap (λ q. retire_loop q s) e

-- A cycle with work left leaves less work.
step-works :
    (config : SimulatorConfig) (bound : ℕ) (workload : List Instruction) (s t : State)
    → IsLive config
    → FitsWords config
    → GoesBackwards workload
    → IsRunning config bound workload s
    → has_work_left s ≡ true
    → step config s ≡ succeed t
    → work bound t < work bound s
unfolding step
step-works config bound workload s t live fits back v more h =
    let (u, p, q) =
      >>=-succeeds (advance (retire_all s)) (λ s'. succeed (end_cycle (front config s'))) h in
    let retired = retire_all-Moves config s in
    let v' = Moves-IsRunning fits retired v in
    let advanced = advance-Moves config (retire_all s) u p in
    let v'' = Moves-IsRunning fits advanced v' in
    let fronted = front-Moves config u in
    let over : Move config (front config u) (end_cycle (front config u)) = ticks (front config u) in
    let last =
      subst (λ t. work bound t ≤ work bound (front config u)) (succeed_injective q refl refl)
        (Moves-work bound (one-Move over) (Moves-WithinBound bound fronted v''.within)) in
    elim (List-cases s.retire_q) [
      | inr (idx, rest, r) ↦ omega (
        arith,
        retire_all-works config bound s idx rest r v.within,
        Moves-work bound advanced v'.within,
        Moves-work bound fronted v''.within,
        last,
      )
      | inl r ↦ elim (List-cases (retire_all s).exec_slots) [
        | inr (slot, slots, x) ↦ omega (
          arith,
          Moves-work bound retired v.within,
          advance-works config bound (retire_all s) u slot slots x p v'.within,
          Moves-work bound fronted v''.within,
          last,
        )
        | inl x ↦
            let same : retire_all s ≡ s = retire_all-idle s r in
            let (t', x', more') = advance-idle (retire_all s) u x p in
            omega (
              arith,
              Moves-work bound retired v.within,
              Moves-work bound advanced v'.within,
              front-works config bound workload live back u v''
                  (more' ∙ (ap has_work_left same ∙ more)) (t' ∙ (ap (λ s. s.retire_q) same ∙ r))
                  x',
              last,
            )
      ]
    ]

step-succeeds :
    (config : SimulatorConfig) (workload : List Instruction) (bound : ℕ) (s : State)
    → FitsWords config
    → IsRunning config bound workload s
    → (t : State) × (step config s ≡ succeed t)
unfolding step
step-succeeds config workload bound s fits v =
    let (u, e) =
      advance-succeeds (retire_all s)
        (Moves-IsRunning fits (retire_all-Moves config s) v).accounted in
    (end_cycle (front config u), simp e)

main_loop-over :
    (config : SimulatorConfig) (fuel : ℕ) (s : State)
    → has_work_left s ≡ false
    → main_loop config fuel s ≡ returned s
unfolding main_loop
main_loop-over config zero s over = ground arith
main_loop-over config (suc fuel) s over = ground arith

main_loop-turn :
    (config : SimulatorConfig) (fuel : ℕ) (s t : State)
    → has_work_left s ≡ true
    → step config s ≡ succeed t
    → main_loop config (suc fuel) s ≡ main_loop config fuel t
unfolding main_loop
main_loop-turn config fuel s t more e = ground arith

loop_returns :
    (config : SimulatorConfig) (bound : ℕ) (workload : List Instruction) (fuel : ℕ) (s : State)
    → IsLive config
    → FitsWords config
    → GoesBackwards workload
    → IsRunning config bound workload s
    → work bound s ≤ fuel
    → (t : State) × (main_loop config fuel s ≡ returned t)
loop_returns config bound workload zero s live fits back v enough =
    elim (Bool-cases (has_work_left s)) [
      | inr over ↦ (s, main_loop-over config zero s over)
      | inl more ↦
          let (t, e) = step-succeeds config workload bound s fits v in
          absurd (omega (arith, step-works config bound workload s t live fits back v more e))
    ]
loop_returns config bound workload (suc fuel) s live fits back v enough =
    elim (Bool-cases (has_work_left s)) [
      | inr over ↦ (s, main_loop-over config (suc fuel) s over)
      | inl more ↦
          let (t, e) = step-succeeds config workload bound s fits v in
          let less = step-works config bound workload s t live fits back v more e in
          let (u, done_at) =
            loop_returns config bound workload fuel t live fits back
              (Moves-IsRunning fits (step-Moves config s t e) v) (omega arith) in
          (u, main_loop-turn config fuel s t more e ∙ done_at)
    ]

-- The largest latency of the workload, or of an instruction with none given.
abbrev pub max_latency : List Instruction → ℕ
max_latency [] = 1
max_latency (x ∷ xs) = max x.execute_latency (max_latency xs)

latency-le : (xs : List Instruction) (i : ℕ) → (get_or xs i blank).execute_latency ≤ max_latency xs
latency-le [] i = omega arith
latency-le (x ∷ xs) zero = omega arith
latency-le (x ∷ xs) (suc i) = omega (arith, latency-le xs i)

-- Turns of the main loop that are enough.
abbrev pub turns : List Instruction → ℕ
turns workload = (max_latency workload + 7) * length workload

start-IsRunning :
    (config : SimulatorConfig) (workload : List Instruction)
    → FitsWords config
    → IsRunning config (max_latency workload + 2) workload (start workload)
unfolding start
start-IsRunning config workload fits = record {
  placed = Reachable-IsPlaced config workload (start workload) (no_move (start workload));
  accounted =
      Reachable-IsAccounted config workload (start workload) fits (no_move (start workload));
  ordered = record { first = 0; waiting = 0; in_order = refl; reaches = refl };
  known = λ i lt. absurd (omega arith);
  within = λ i. omega (arith, latency-le workload i);
  same = SameProgram-refl (start workload);
}

start-work :
    (workload : List Instruction)
    → work (max_latency workload + 2) (start workload) ≤ turns workload
unfolding start work
start-work workload = grind arith

-- A run returns with the whole workload done, if its dependencies go backwards, every width, unit
-- count and capacity of the configuration is positive and its counts of units fit their words, and
-- the workload has fewer than 2 ^ 64 instructions. As many turns of the main loop are enough as
-- there are instructions, times the largest latency and 7 more.
pub run_returns :
    (config : SimulatorConfig) (workload : List Instruction) (fuel : ℕ)
    → IsLive config
    → FitsWords config
    → GoesBackwards workload
    → length workload < u64_mod
    → turns workload ≤ fuel
    → (s : State) × (run_workload config fuel workload ≡ returned s) × IsComplete workload s
unfolding run_workload
run_returns config workload fuel live fits back small enough =
    let (s, e) =
      loop_returns config (max_latency workload + 2) workload fuel (start workload) live fits back
        (start-IsRunning config workload fits) (omega (arith, start-work workload)) in
    (s, e, run_completes config fuel workload s small e)
