-- ===== src/Pipeline/Work.antt =====
-- How much work a state has left: a number that no move raises, and that a move of an instruction
-- to its next stage lowers.
use accelsim_lite.Prelude.{
  ℕ, ◌+◌, ◌-◌, ◌*◌, ◌≤◌, ◌≡◌, ap, List, [], ◌∷◌, ◌++◌, arith, length, length-append, succeed,
  >>=-succeeds, length-modify, suc, refl, true, false, ◌<◌,
}
use accelsim_lite.Pipeline.{
  ExecSlot, State, Tick, tick_remaining, release, tick_slot, tick_slots, complete_one, complete_all,
  start_tick, resume, after_tick, at, retire_one,
}
use accelsim_lite.Pipeline.Forward.{complete_all-eq}
use accelsim_lite.Config.{SimulatorConfig}
use accelsim_lite.Instruction.{done, fetch, decode, dispatch, ready, execute}
use accelsim_lite.Pipeline.Moves.{
  Move, retires, advances, wakes, issues_memory, issues_compute, dispatches, decodes, fetches,
  requeues, postpones, stalls, ticks, Moves, no_move, and_then, Moves_keep,
}
use accelsim_lite.Pipeline.Front.{
  wake_up, requeue, begin_execution, postpone, dispatch_one, decode_one, fetch_one, end_cycle,
}
use accelsim_lite.Pipeline.Program.{Move-SameProgram}

-- The instructions that have not been issued.
abbrev pub unissued : State → ℕ
unissued s =
    (length s.instructions - s.next_to_fetch)
    + length s.fetch_q
    + length s.decode_q
    + length s.dispatch_q
    + length s.ready_q

-- The turns that the slots still take, with two more for each.
abbrev pub slot_work : List ExecSlot → ℕ
slot_work [] = 0
slot_work (slot ∷ slots) = (slot.remaining + 2) + slot_work slots

-- What the stages leave to do beside execution.
abbrev pub stage_work : State → ℕ
stage_work s =
    5 * (length s.instructions - s.next_to_fetch)
    + 4 * length s.fetch_q
    + 3 * length s.decode_q
    + 2 * length s.dispatch_q
    + length s.ready_q
    + slot_work s.exec_slots
    + length s.retire_q

unfoldable pub work : ℕ → State → ℕ
work bound s = bound * unissued s + stage_work s

slot_work-append : (xs ys : List ExecSlot) → slot_work (xs ++ ys) ≡ slot_work xs + slot_work ys
slot_work-append [] ys = omega arith
slot_work-append (x ∷ xs) ys = omega (arith, slot_work-append xs ys)

tick_slot-work :
    (slot : ExecSlot) (t u : Tick)
    → tick_slot slot t ≡ succeed u
    → slot_work u.remaining_slots + length u.finished + 1
      ≤ slot_work t.remaining_slots + length t.finished + (slot.remaining + 2)
unfolding tick_slot tick_remaining release
tick_slot-work slot t u h = ground (
  arith,
  slot_work-append t.remaining_slots
      (record slot { remaining = tick_remaining slot.remaining } ∷ []),
  length-append t.finished (slot.index ∷ []),
)

tick_slots-work :
    (slots : List ExecSlot) (t u : Tick)
    → tick_slots slots t ≡ succeed u
    → slot_work u.remaining_slots + length u.finished + length slots
      ≤ slot_work t.remaining_slots + length t.finished + slot_work slots
unfolding tick_slots
tick_slots-work [] t u h = ground arith
tick_slots-work (slot ∷ slots) t u h =
    let (v, p, q) = >>=-succeeds (tick_slot slot t) (tick_slots slots) h in
    omega (arith, tick_slot-work slot t v p, tick_slots-work slots v u q)

complete_all-length :
    (ended : List ℕ) (s : State)
    → length (complete_all ended s).retire_q ≡ length s.retire_q + length ended
unfolding complete_all complete_one
complete_all-length [] s = omega arith
complete_all-length (idx ∷ ended) s =
    omega
      (arith, complete_all-length ended (complete_one idx s), length-append s.retire_q (idx ∷ []))

-- Execution lowers the work by at least one for each slot.
pub after_tick-work :
    (bound : ℕ) (s : State) (t : Tick)
    → length (after_tick s t).instructions ≡ length s.instructions
    → tick_slots s.exec_slots (start_tick s) ≡ succeed t
    → work bound (after_tick s t) + length s.exec_slots ≤ work bound s
unfolding work after_tick start_tick
after_tick-work bound s t n h =
    let e = complete_all-eq t.finished (resume s t) in
    let same : unissued (after_tick s t) ≡ unissued s = omega (arith, n, ap unissued e) in
    omega (
      arith,
      n,
      ap (λ u. bound * u) same,
      ap stage_work e,
      tick_slots-work s.exec_slots (start_tick s) t h,
      complete_all-length t.finished (resume s t),
    )

-- Each latency lies below the bound, with room for two more.
abbrev pub WithinBound : ℕ → State → Type 0
WithinBound bound s = (i : ℕ) → (at s i).execute_latency + 2 ≤ bound

-- What a move does for sure.
abbrev pub progress : {config : SimulatorConfig} {s t : State} → Move config s t → ℕ
progress (retires s idx rest e) = 1
progress (advances s t h) = length s.exec_slots
progress (wakes s idx rest e sat room) = 1
progress (issues_memory s idx rest e m free) = 1
progress (issues_compute s idx rest e c free) = 1
progress (dispatches s idx rest e room) = 1
progress (decodes s idx rest e) = 1
progress (fetches s lt) = 1
progress _ = 0

same_unissued :
    (bound n : ℕ) (s t : State)
    → unissued t ≡ unissued s
    → stage_work t + n ≤ stage_work s
    → work bound t + n ≤ work bound s
unfolding work
same_unissued bound n s t e h = omega (arith, ap (λ u. bound * u) e)

less_unissued :
    (bound : ℕ) (s t : State)
    → suc (unissued t) ≡ unissued s
    → stage_work t + 1 ≤ stage_work s + bound
    → work bound t + 1 ≤ work bound s
unfolding work
less_unissued bound s t e h = grind (arith, ap (λ u. bound * u) e)

-- A move lowers the work by what it does.
pub Move-work :
    {config : SimulatorConfig} (bound : ℕ) (s t : State)
    → WithinBound bound s
    → (m : Move config s t) → work bound t + progress m ≤ work bound s
unfolding retire_one wake_up requeue begin_execution postpone dispatch_one decode_one fetch_one
    end_cycle
Move-work bound _ _ w (retires s idx rest e) =
    let n = length-modify s.instructions idx (λ x. record x { stage = done }) in
    same_unissued bound 1 s _ (omega (arith, n)) (omega (arith, ap length e, n))
Move-work {config} bound _ _ w (advances s t h) =
    let m : Move config s (after_tick s t) = advances s t h in
    after_tick-work bound s t (Move-SameProgram m).same_length h
Move-work bound _ _ w (wakes s idx rest e sat room) =
    let n = length-modify s.instructions idx (λ x. record x { stage = ready }) in
    let q = length-append s.ready_q (idx ∷ []) in
    same_unissued bound 1 s _ (omega (arith, ap length e, n, q)) (omega (arith, ap length e, n, q))
Move-work bound _ _ w (requeues s idx rest stats e same) =
    let q = length-append rest (idx ∷ []) in
    same_unissued bound 0 s _ (omega (arith, ap length e, q)) (omega (arith, ap length e, q))
Move-work bound _ _ w (postpones s idx rest stats e same) =
    let q = length-append rest (idx ∷ []) in
    same_unissued bound 0 s _ (omega (arith, ap length e, q)) (omega (arith, ap length e, q))
Move-work bound _ _ w (issues_memory s idx rest e m free) =
    let n =
      length-modify s.instructions idx (λ x. record x { stage = execute; issue_cycle = s.cycle }) in
    let q =
      slot_work-append s.exec_slots
        (record { index = idx; remaining = (at s idx).execute_latency; uses_memory = true } ∷ []) in
    less_unissued bound s _ (omega (arith, ap length e, n))
      (omega (arith, ap length e, n, q, w idx))
Move-work bound _ _ w (issues_compute s idx rest e c free) =
    let n =
      length-modify s.instructions idx (λ x. record x { stage = execute; issue_cycle = s.cycle }) in
    let q =
      slot_work-append s.exec_slots (
        record { index = idx; remaining = (at s idx).execute_latency; uses_memory = false } ∷ []) in
    less_unissued bound s _ (omega (arith, ap length e, n))
      (omega (arith, ap length e, n, q, w idx))
Move-work bound _ _ w (stalls s stats same) = same_unissued bound 0 s _ refl (omega arith)
Move-work bound _ _ w (dispatches s idx rest e room) =
    let n = length-modify s.instructions idx (λ x. record x { stage = dispatch }) in
    let q = length-append s.dispatch_q (idx ∷ []) in
    same_unissued bound 1 s _ (omega (arith, ap length e, n, q)) (omega (arith, ap length e, n, q))
Move-work bound _ _ w (decodes s idx rest e) =
    let n = length-modify s.instructions idx (λ x. record x { stage = decode }) in
    let q = length-append s.decode_q (idx ∷ []) in
    same_unissued bound 1 s _ (omega (arith, ap length e, n, q)) (omega (arith, ap length e, n, q))
Move-work bound _ _ w (fetches s lt) =
    let n =
      length-modify s.instructions s.next_to_fetch
        (λ x. record x { stage = fetch; enqueue_cycle = s.cycle }) in
    let q = length-append s.fetch_q (s.next_to_fetch ∷ []) in
    same_unissued bound 1 s _ (omega (arith, n, q)) (omega (arith, n, q))
Move-work bound _ _ w (ticks s) = same_unissued bound 0 s _ refl (omega arith)

Move-WithinBound :
    {config : SimulatorConfig} (bound : ℕ) (s t : State)
    → Move config s t
    → WithinBound bound s
    → WithinBound bound t
Move-WithinBound bound s t m w i = omega (arith, w i, ((Move-SameProgram m).same_at i).same_latency)

pub Moves-WithinBound :
    {config : SimulatorConfig} (bound : ℕ) {s t : State}
    → Moves config s t
    → WithinBound bound s
    → WithinBound bound t
Moves-WithinBound bound ms w = Moves_keep (WithinBound bound) (Move-WithinBound bound) ms w

-- Moves do not raise the work.
pub Moves-work :
    {config : SimulatorConfig} (bound : ℕ) {s t : State}
    → Moves config s t
    → WithinBound bound s
    → work bound t ≤ work bound s
Moves-work bound (no_move s) w = omega arith
Moves-work bound (and_then {s} {t} m ms) w =
    omega (arith, Move-work bound s t w m, Moves-work bound ms (Move-WithinBound bound s t m w))

-- After a move that does something, the work is less.
pub Move-first :
    {config : SimulatorConfig} (bound : ℕ) {s t u : State} (m : Move config s t)
    → 0 < progress m
    → Moves config t u
    → WithinBound bound s
    → work bound u < work bound s
Move-first bound {s} {t} m p ms w =
    omega (arith, Move-work bound s t w m, Moves-work bound ms (Move-WithinBound bound s t m w))
