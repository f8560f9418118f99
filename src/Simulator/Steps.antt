-- ===== src/Simulator/Steps.antt =====
-- A cycle, and a run, as sequences of the moves of `Pipeline.Moves`.
use accelsim_lite.Prelude.{
  ℕ, zero, suc, ◌≡◌, subst, inl, inr, false, arith, Bool-cases, length, refl, ◌⊎◌, List, succeed,
  throw, >>=-succeeds, Result-cases, succeed_injective,
}
use accelsim_lite.Config.{SimulatorConfig}
use accelsim_lite.Simulator.{
  front, step, returned, main_loop, start, Outcome, failed, out_of_fuel, run_workload,
}
use accelsim_lite.Pipeline.{State, Error, has_work_left, retire_all, advance}
use accelsim_lite.Pipeline.Moves.{
  ticks, Moves, Moves-trans, one-Move, advance-Moves, wake_loop-Moves, issue_loop-Moves,
  dispatch_loop-Moves, decode_loop-Moves, fetch_loop-Moves, retire_all-Moves, no_move,
}
use accelsim_lite.Pipeline.Front.{wake_all, issue_all, end_cycle}
use accelsim_lite.Instruction.{Instruction}

pub front-Moves : (config : SimulatorConfig) (s : State) → Moves config s (front config s)
unfolding front issue_all wake_all
front-Moves config s = Moves-trans (wake_loop-Moves config (length s.dispatch_q) s) (
    Moves-trans (issue_loop-Moves config _ _ 0) (
      Moves-trans (dispatch_loop-Moves config config.dispatch_width _) (
        Moves-trans (decode_loop-Moves config config.decode_width _)
          (fetch_loop-Moves config config.fetch_width _))))

pub step-Moves :
    (config : SimulatorConfig) (s t : State) → step config s ≡ succeed t → Moves config s t
unfolding step
step-Moves config s t h =
    let (u, p, q) =
      >>=-succeeds (advance (retire_all s)) (λ s'. succeed (end_cycle (front config s'))) h in
    Moves-trans (retire_all-Moves config s) (
      Moves-trans (advance-Moves config (retire_all s) u p) (
        Moves-trans (front-Moves config u) (
          subst (Moves config (front config u)) (succeed_injective q refl refl)
            (one-Move (ticks (front config u))))))

-- A cycle fails only where its tick does.
pub step-throw :
    (config : SimulatorConfig) (s : State) (e : Error)
    → step config s ≡ throw e
    → advance (retire_all s) ≡ throw e
unfolding step
step-throw config s e h = ground arith

-- A property that the moves keep holds in the state that a run returns.
pub main_loop-Moves :
    (config : SimulatorConfig) (fuel : ℕ) (s t : State)
    → main_loop config fuel s ≡ returned t
    → Moves config s t × (has_work_left t ≡ false)
unfolding main_loop
main_loop-Moves config zero s t h = elim (Bool-cases (has_work_left s)) [
  | inl more ↦ absurd (ground arith)
  | inr over ↦
      let e : s ≡ t = ground arith in
      (subst (Moves config s) e (no_move s), subst (λ u. has_work_left u ≡ false) e over)
]
main_loop-Moves config (suc fuel) s t h = elim (Bool-cases (has_work_left s)) [
  | inl more ↦ elim (Result-cases (step config s)) [
    | inl (u, p) ↦
        let (ms, over) = main_loop-Moves config fuel u t (simp (more, p, main_loop) at h) in
        (Moves-trans (step-Moves config s u p) ms, over)
    | inr (e, p) ↦ absurd (ground arith)
  ]
  | inr over ↦
      let e : s ≡ t = ground arith in
      (subst (Moves config s) e (no_move s), subst (λ u. has_work_left u ≡ false) e over)
]

pub returned-Moves :
    (config : SimulatorConfig) (fuel : ℕ) (workload : List Instruction) (s : State)
    → run_workload config fuel workload ≡ returned s
    → Moves config (start workload) s
unfolding run_workload
returned-Moves config fuel workload s h = (main_loop-Moves config fuel (start workload) s h).0

pub Outcome-cases :
    (r : Outcome)
    → (r ≡ out_of_fuel) ⊎ (((s : State) × (r ≡ returned s)) ⊎ ((e : Error) × (r ≡ failed e)))
Outcome-cases out_of_fuel = inl refl
Outcome-cases (returned s) = inr (inl (s, refl))
Outcome-cases (failed e) = inr (inr (e, refl))
