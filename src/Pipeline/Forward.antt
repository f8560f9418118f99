-- ===== src/Pipeline/Forward.antt =====
-- An instruction that has been fetched moves through the stages in their order, one at a time.
use accelsim_lite.Prelude.{
  ℕ, ◌+◌, ◌≤◌, ◌<◌, ◌≡◌, List, [], ◌∷◌, arith, ltb, if◌then◌else◌, count, length, modify,
  length-modify, get_or-modify_read, get_or-modify_ne, refl, ap, get_or-modify, succeed,
}
use accelsim_lite.Config.{SimulatorConfig}
use accelsim_lite.Pipeline.{
  State, at, Tick, tick_slots, complete_one, complete_all, start_tick, after_tick, retire_one,
  resume,
}
use accelsim_lite.Instruction.{
  retire, stage_rank, Instruction, blank, fetch, decode, dispatch, ready, execute, done,
}
use accelsim_lite.Pipeline.Moves.{
  Move, retires, advances, wakes, postpones, issues_memory, issues_compute, stalls, dispatches,
  decodes, fetches, ticks, requeues,
}
use accelsim_lite.Pipeline.Placement.{IsPlaced, front-stage}
use accelsim_lite.Pipeline.Placement.Back.{tick_slots-Splits}
use accelsim_lite.Pipeline.Front.{
  begin_execution, postpone, dispatch_one, decode_one, fetch_one, end_cycle, wake_up, requeue,
}

-- A fetched instruction stays in its stage or enters the next one.
abbrev pub Forward : State → State → ℕ → Type 0
Forward s t i =
    i < s.next_to_fetch
    → (stage_rank (at s i).stage ≤ stage_rank (at t i).stage)
      × (stage_rank (at t i).stage ≤ stage_rank (at s i).stage + 1)

pub complete_all-stage :
    (ended : List ℕ) (s : State) (i : ℕ)
    → i < length s.instructions
    → (at (complete_all ended s) i).stage
      ≡ (if ltb 0 (count i ended) then retire else (at s i).stage)
unfolding complete_all complete_one
complete_all-stage [] s i h = ground arith
complete_all-stage (idx ∷ ended) s i h = ground (
  arith,
  complete_all-stage ended (complete_one idx s) i,
  length-modify s.instructions idx (λ x. record x { complete_cycle = s.cycle; stage = retire }),
  get_or-modify_read s.instructions idx i
      (λ x. record x { complete_cycle = s.cycle; stage = retire }) blank h,
)

-- The marking of the finished slots writes the instructions and `retire_q` only.
pub complete_all-eq :
    (ended : List ℕ) (s : State)
    → complete_all ended s ≡ record s {
      instructions = (complete_all ended s).instructions;
      retire_q = (complete_all ended s).retire_q;
    }
unfolding complete_all complete_one
complete_all-eq [] s = refl
complete_all-eq (idx ∷ ended) s = complete_all-eq ended (complete_one idx s)

after_tick-Forward :
    (s : State) (t : Tick) (i : ℕ)
    → tick_slots s.exec_slots (start_tick s) ≡ succeed t
    → IsPlaced s
    → Forward s (after_tick s t) i
unfolding after_tick start_tick
after_tick-Forward s t i h v lt = ground (
  arith,
  v.places i,
  v.in_range,
  tick_slots-Splits i s.exec_slots (start_tick s) t h,
  complete_all-stage t.finished (resume s t) i,
)

modify-Forward :
    (s : State) (idx i : ℕ) (f : Instruction → Instruction)
    → s.next_to_fetch ≤ length s.instructions
    → stage_rank (at s idx).stage + 1 ≡ stage_rank (f (at s idx)).stage
    → Forward s (record s { instructions = modify s.instructions idx f }) i
modify-Forward s idx i f h k lt =
    ground (arith, get_or-modify_read s.instructions idx i f blank (omega arith))

-- No move takes an instruction back, or past a stage.
pub Move-Forward :
    {config : SimulatorConfig} (s t : State) (i : ℕ) → Move config s t → IsPlaced s → Forward s t i
unfolding retire_one wake_up requeue begin_execution postpone dispatch_one decode_one fetch_one
    end_cycle
Move-Forward _ _ i (retires s idx rest e) v =
    let (_, g) = front-stage s retire idx s.retire_q rest e (v.places idx).in_retire in
    modify-Forward s idx i (λ x. record x { stage = done }) v.in_range (omega arith)
Move-Forward _ _ i (advances s u e) v = after_tick-Forward s u i e v
Move-Forward _ _ i (wakes s idx rest e sat room) v =
    let (_, g) = front-stage s dispatch idx s.dispatch_q rest e (v.places idx).in_dispatch in
    modify-Forward s idx i (λ x. record x { stage = ready }) v.in_range (omega arith)
Move-Forward _ _ i (requeues s idx rest stats e same) v = λ lt. omega arith
Move-Forward _ _ i (postpones s idx rest stats e same) v = λ lt. omega arith
Move-Forward _ _ i (issues_memory s idx rest e m free) v =
    let (_, g) = front-stage s ready idx s.ready_q rest e (v.places idx).in_ready in
    modify-Forward s idx i (λ x. record x { stage = execute; issue_cycle = s.cycle }) v.in_range
      (omega arith)
Move-Forward _ _ i (issues_compute s idx rest e c free) v =
    let (_, g) = front-stage s ready idx s.ready_q rest e (v.places idx).in_ready in
    modify-Forward s idx i (λ x. record x { stage = execute; issue_cycle = s.cycle }) v.in_range
      (omega arith)
Move-Forward _ _ i (stalls s stats same) v = λ lt. omega arith
Move-Forward _ _ i (dispatches s idx rest e room) v =
    let (_, g) = front-stage s decode idx s.decode_q rest e (v.places idx).in_decode in
    modify-Forward s idx i (λ x. record x { stage = dispatch }) v.in_range (omega arith)
Move-Forward _ _ i (decodes s idx rest e) v =
    let (_, g) = front-stage s fetch idx s.fetch_q rest e (v.places idx).in_fetch in
    modify-Forward s idx i (λ x. record x { stage = decode }) v.in_range (omega arith)
Move-Forward _ _ i (fetches s lt) v = λ fetched.
    let same =
      get_or-modify_ne s.instructions {i = s.next_to_fetch} {j = i}
        (λ x. record x { stage = fetch; enqueue_cycle = s.cycle }) blank (omega arith) in
    ground (arith, same)
Move-Forward _ _ i (ticks s) v = λ lt. omega arith

-- An instruction that a move fetches enters the first stage.
abbrev pub Fresh : State → State → ℕ → Type 0
Fresh s t i = i < t.next_to_fetch → s.next_to_fetch ≤ i → stage_rank (at t i).stage ≡ 0

after_tick-Fresh : (s : State) (t : Tick) (i : ℕ) → Fresh s (after_tick s t) i
unfolding after_tick
after_tick-Fresh s t i lt ge =
    absurd (omega (arith, ap (λ u. u.next_to_fetch) (complete_all-eq t.finished (resume s t))))

pub Move-Fresh : {config : SimulatorConfig} (s t : State) (i : ℕ) → Move config s t → Fresh s t i
unfolding retire_one wake_up requeue begin_execution postpone dispatch_one decode_one fetch_one
    end_cycle
Move-Fresh _ _ i (retires s idx rest e) = λ lt ge. absurd (omega arith)
Move-Fresh _ _ i (advances s u e) = after_tick-Fresh s u i
Move-Fresh _ _ i (wakes s idx rest e sat room) = λ lt ge. absurd (omega arith)
Move-Fresh _ _ i (requeues s idx rest stats e same) = λ lt ge. absurd (omega arith)
Move-Fresh _ _ i (postpones s idx rest stats e same) = λ lt ge. absurd (omega arith)
Move-Fresh _ _ i (issues_memory s idx rest e m free) = λ lt ge. absurd (omega arith)
Move-Fresh _ _ i (issues_compute s idx rest e c free) = λ lt ge. absurd (omega arith)
Move-Fresh _ _ i (stalls s stats same) = λ lt ge. absurd (omega arith)
Move-Fresh _ _ i (dispatches s idx rest e room) = λ lt ge. absurd (omega arith)
Move-Fresh _ _ i (decodes s idx rest e) = λ lt ge. absurd (omega arith)
Move-Fresh _ _ i (fetches s lt) = λ lti ge.
    let f = λ (x : Instruction). record x { stage = fetch; enqueue_cycle = s.cycle } in
    ground (arith, get_or-modify s.instructions s.next_to_fetch i f blank lt)
Move-Fresh _ _ i (ticks s) = λ lt ge. absurd (omega arith)
