-- ===== src/Simulator/Safety.antt =====
-- What holds throughout a run.
use accelsim_lite.Prelude.{
  ℕ, ◌≢◌, List, arith, zero, suc, inl, inr, refl, ◌≡◌, length, get_or, Result-cases, succeed,
}
use accelsim_lite.Config.{SimulatorConfig, FitsWords}
use accelsim_lite.Simulator.{start, failed, main_loop, run_workload, step}
use accelsim_lite.Simulator.Turns.{after_turns, WithinTurn, within-Moves}
use accelsim_lite.Pipeline.{State, Error, retire_all, at}
use accelsim_lite.Instruction.{Instruction, blank}
use accelsim_lite.Pipeline.Moves.{Moves, Moves_keep, retire_all-Moves}
use accelsim_lite.Pipeline.Dependencies.{RespectsDeps}
use accelsim_lite.Pipeline.Resources.{IsAccounted, Move-IsAccounted, advance-succeeds}
use accelsim_lite.Pipeline.Placement.{IsPlaced}
use accelsim_lite.Pipeline.Dependencies.Steps.{Move-RespectsDeps}
use accelsim_lite.Pipeline.Placement.Steps.{Move-IsPlaced}
use accelsim_lite.Simulator.Steps.{step-Moves, step-throw}
use accelsim_lite.Pipeline.Finished.{IsCounted}
use accelsim_lite.Pipeline.Finished.Steps.{Move-IsCounted}
use accelsim_lite.Pipeline.Program.{SameOperation}
use accelsim_lite.Pipeline.Capacity.{WithinCapacity, Move-WithinCapacity}

-- The states that the moves of a run lead to.
abbrev pub Reachable : SimulatorConfig → List Instruction → State → Type 0
Reachable config workload s = Moves config (start workload) s

pub start-IsPlaced : (workload : List Instruction) → IsPlaced (start workload)
unfolding start
start-IsPlaced workload = record { in_range = omega arith; places = λ i. ground arith }

start-IsAccounted :
    (config : SimulatorConfig) (workload : List Instruction) → IsAccounted config (start workload)
unfolding start
start-IsAccounted config workload = omega arith

pub start-RespectsDeps : (workload : List Instruction) → RespectsDeps (start workload)
unfolding start
start-RespectsDeps workload = record {
  awake_deps = λ i lt up. absurd (omega arith);
  retired_finished = λ dep h. absurd (cc);
}

-- The invariants in every state that moves lead to.

pub Reachable-IsPlaced :
    (config : SimulatorConfig) (workload : List Instruction) (s : State)
    → Reachable config workload s
    → IsPlaced s
Reachable-IsPlaced config workload s r =
    Moves_keep IsPlaced Move-IsPlaced r (start-IsPlaced workload)

pub Reachable-IsAccounted :
    (config : SimulatorConfig) (workload : List Instruction) (s : State)
    → FitsWords config
    → Reachable config workload s
    → IsAccounted config s
Reachable-IsAccounted config workload s fits r =
    Moves_keep (IsAccounted config) (Move-IsAccounted fits) r (start-IsAccounted config workload)

pub Reachable-RespectsDeps :
    (config : SimulatorConfig) (workload : List Instruction) (s : State)
    → Reachable config workload s
    → RespectsDeps s
Reachable-RespectsDeps config workload s r =
    (Moves_keep (λ s. IsPlaced s × RespectsDeps s)
      (λ s t m v. (Move-IsPlaced s t m v.0, Move-RespectsDeps s t m v.0 v.1)) r
      (start-IsPlaced workload, start-RespectsDeps workload)).1

loop_never_fails :
    (config : SimulatorConfig) (fuel : ℕ) (s : State) (e : Error)
    → FitsWords config
    → IsAccounted config s
    → main_loop config fuel s ≢ failed e
unfolding main_loop
loop_never_fails config zero s e fits v = ground arith
loop_never_fails config (suc fuel) s e fits v = elim (Result-cases (step config s)) [
  | inl (t, p) ↦
      let kept =
        Moves_keep (IsAccounted config) (Move-IsAccounted fits) (step-Moves config s t p) v in
      ground (arith, loop_never_fails config fuel t e fits kept)
  | inr (x, p) ↦
      let kept =
        Moves_keep (IsAccounted config) (Move-IsAccounted fits) (retire_all-Moves config s) v in
      let (t, q) = advance-succeeds (retire_all s) kept in
      absurd (ground (arith, step-throw config s x p))
]

-- A run never raises an exception, whatever the workload, if the configuration fits its words.
pub run_never_fails :
    (config : SimulatorConfig) (fuel : ℕ) (workload : List Instruction) (e : Error)
    → FitsWords config
    → run_workload config fuel workload ≢ failed e
unfolding run_workload
run_never_fails config fuel workload e fits =
    loop_never_fails config fuel (start workload) e fits (start-IsAccounted config workload)

start-IsCounted : (workload : List Instruction) → IsCounted (start workload)
unfolding start
start-IsCounted workload = record { counted_ops = refl; counted_latency = refl }

pub run_counters :
    (config : SimulatorConfig) (workload : List Instruction) (s : State)
    → Reachable config workload s
    → IsCounted s
run_counters config workload s r =
    (Moves_keep (λ s. IsPlaced s × IsCounted s)
      (λ s t m v. (Move-IsPlaced s t m v.0, Move-IsCounted s t m v.0 v.1)) r
      (start-IsPlaced workload, start-IsCounted workload)).1

-- The program of the first state is the workload.
pub start-length :
    (workload : List Instruction) → length (start workload).instructions ≡ length workload
unfolding start
start-length workload = refl

pub start-SameOperation :
    (workload : List Instruction) (i : ℕ) {x : Instruction}
    → SameOperation (at (start workload) i) x
    → SameOperation (get_or workload i blank) x
unfolding start
start-SameOperation workload i h = h

pub start-next : (workload : List Instruction) → (start workload).next_to_fetch ≡ 0
unfolding start
start-next workload = refl

Reachable-WithinCapacity :
    (config : SimulatorConfig) (workload : List Instruction) (s : State)
    → Reachable config workload s
    → WithinCapacity config s
unfolding start
Reachable-WithinCapacity config workload s r =
    Moves_keep (WithinCapacity config) Move-WithinCapacity r (omega arith)

-- The same for the states that the code itself goes through: those between the stages of the turn
-- that follows any number of turns.

-- After any number of turns of the main loop and between any two stages of the next turn, each
-- fetched instruction stands in exactly the queue that its stage names, once, and in no other
-- queue; an instruction that is done or not yet fetched stands in none.
pub run_placement :
    (config : SimulatorConfig) (workload : List Instruction) (n : ℕ) (s t : State)
    → after_turns config n (start workload) ≡ succeed s
    → WithinTurn config s t
    → IsPlaced t
run_placement config workload n s t ran within =
    Reachable-IsPlaced config workload t (within-Moves config n (start workload) s t ran within)

-- After any number of turns of the main loop and between any two stages of the next turn, the
-- units in use are those that the executing slots occupy, and at most as many as configured, if
-- the configuration fits its words.
pub run_resources :
    (config : SimulatorConfig) (workload : List Instruction) (n : ℕ) (s t : State)
    → FitsWords config
    → after_turns config n (start workload) ≡ succeed s
    → WithinTurn config s t
    → IsAccounted config t
run_resources config workload n s t fits ran within =
    Reachable-IsAccounted config workload t fits
      (within-Moves config n (start workload) s t ran within)

-- After any number of turns of the main loop and between any two stages of the next turn, each
-- instruction that has left the dispatch queue has all its dependencies retired, and each retired
-- identifier is that of an instruction that is done.
pub run_dependencies :
    (config : SimulatorConfig) (workload : List Instruction) (n : ℕ) (s t : State)
    → after_turns config n (start workload) ≡ succeed s
    → WithinTurn config s t
    → RespectsDeps t
run_dependencies config workload n s t ran within =
    Reachable-RespectsDeps config workload t (within-Moves config n (start workload) s t ran within)

-- After any number of turns of the main loop and between any two stages of the next turn, the
-- dispatch queue and the ready queue hold at most their capacities.
pub run_capacity :
    (config : SimulatorConfig) (workload : List Instruction) (n : ℕ) (s t : State)
    → after_turns config n (start workload) ≡ succeed s
    → WithinTurn config s t
    → WithinCapacity config t
run_capacity config workload n s t ran within =
    Reachable-WithinCapacity config workload t
      (within-Moves config n (start workload) s t ran within)
