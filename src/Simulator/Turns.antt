-- ===== src/Simulator/Turns.antt =====
-- The states of a run of `run_workload` (src/simulator.cpp): those between two turns of its main
-- loop, and those between the stages of a turn.
use accelsim_lite.Prelude.{
  ℕ, zero, suc, ◌≡◌, refl, subst, length, Result, succeed, ◌>>=◌, >>=-succeeds, succeed_injective,
}
use accelsim_lite.Config.{SimulatorConfig}
use accelsim_lite.Simulator.{front, step}
use accelsim_lite.Simulator.Steps.{front-Moves, step-Moves}
use accelsim_lite.Pipeline.{State, Error, retire_all, advance}
use accelsim_lite.Pipeline.Moves.{
  Moves, Moves-trans, no_move, retire_all-Moves, advance-Moves, wake_loop-Moves, issue_loop-Moves,
  dispatch_loop-Moves, decode_loop-Moves,
}
use accelsim_lite.Pipeline.Front.{wake_all, issue_all, dispatch_loop, decode_loop}

-- The state after some turns of the main loop, whether or not work is left.
unfoldable pub after_turns : SimulatorConfig → ℕ → State → Result Error State
after_turns config zero s = succeed s
after_turns config (suc n) s = do s' ← after_turns config n s; step config s'

-- The first state of a turn, and the states behind its stages, in their order in `step`.
pub data WithinTurn (config : SimulatorConfig) (s : State) : State → Type 0 where
  at_start : WithinTurn config s s
  after_retire : WithinTurn config s (retire_all s)
  after_execute : {u : State} → advance (retire_all s) ≡ succeed u → WithinTurn config s u
  after_wake :
      {u : State} → advance (retire_all s) ≡ succeed u → WithinTurn config s (wake_all config u)
  after_issue :
      {u : State}
      → advance (retire_all s) ≡ succeed u
      → WithinTurn config s (issue_all config (wake_all config u))
  after_dispatch :
      {u : State}
      → advance (retire_all s) ≡ succeed u
      → WithinTurn config s
          (dispatch_loop config config.dispatch_width (issue_all config (wake_all config u)))
  after_decode :
      {u : State}
      → advance (retire_all s) ≡ succeed u
      → WithinTurn config s (
          decode_loop config.decode_width
            (dispatch_loop config config.dispatch_width (issue_all config (wake_all config u))))
  after_fetch :
      {u : State} → advance (retire_all s) ≡ succeed u → WithinTurn config s (front config u)

turns-Moves :
    (config : SimulatorConfig) (n : ℕ) (s t : State)
    → after_turns config n s ≡ succeed t
    → Moves config s t
unfolding after_turns
turns-Moves config zero s t h = subst (Moves config s) (succeed_injective h refl refl) (no_move s)
turns-Moves config (suc n) s t h =
    let (u, p, q) = >>=-succeeds (after_turns config n s) (step config) h in
    Moves-trans (turns-Moves config n s u p) (step-Moves config u t q)

module _ (config : SimulatorConfig) where
  executed : (s u : State) → advance (retire_all s) ≡ succeed u → Moves config s u
  executed s u h = Moves-trans (retire_all-Moves config s) (advance-Moves config (retire_all s) u h)

  woken : (s : State) → Moves config s (wake_all config s)
  unfolding wake_all
  woken s = wake_loop-Moves config (length s.dispatch_q) s

  issued : (s : State) → Moves config s (issue_all config s)
  unfolding issue_all
  issued s = issue_loop-Moves config (length s.ready_q) s 0

  dispatched :
      (s : State)
      → Moves config s
          (dispatch_loop config config.dispatch_width (issue_all config (wake_all config s)))
  dispatched s =
      Moves-trans (woken s)
        (Moves-trans (issued _) (dispatch_loop-Moves config config.dispatch_width _))

  turn-Moves : (s t : State) → WithinTurn config s t → Moves config s t
  turn-Moves s t at_start = no_move s
  turn-Moves s t after_retire = retire_all-Moves config s
  turn-Moves s t (after_execute h) = executed s t h
  turn-Moves s t (after_wake {u} h) = Moves-trans (executed s u h) (woken u)
  turn-Moves s t (after_issue {u} h) =
      Moves-trans (executed s u h) (Moves-trans (woken u) (issued _))
  turn-Moves s t (after_dispatch {u} h) = Moves-trans (executed s u h) (dispatched u)
  turn-Moves s t (after_decode {u} h) =
      Moves-trans (executed s u h)
        (Moves-trans (dispatched u) (decode_loop-Moves config config.decode_width _))
  turn-Moves s t (after_fetch {u} h) = Moves-trans (executed s u h) (front-Moves config u)

  pub within-Moves :
      (n : ℕ) (first s t : State)
      → after_turns config n first ≡ succeed s
      → WithinTurn config s t
      → Moves config first t
  within-Moves n first s t ran within =
      Moves-trans (turns-Moves config n first s ran) (turn-Moves s t within)
