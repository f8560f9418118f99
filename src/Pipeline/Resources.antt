-- ===== src/Pipeline/Resources.antt =====
-- The compute units and memory ports in use are those of the execution slots, within the limits.
-- So neither counter ever falls below 0, and a tick raises no exception.
use accelsim_lite.Prelude.{
  ℕ, ◌+◌, ◌≤◌, ◌≡◌, Bool, true, false, not, List, [], ◌∷◌, ◌++◌, arith, if◌then◌else◌, indicator,
  ◌<◌, refl, ◌≢◌, inl, inr, add32, subst, succeed, throw, Result-cases, succeed_injective,
}
use accelsim_lite.Config.{SimulatorConfig, FitsWords}
use accelsim_lite.Pipeline.{
  ExecSlot, State, Tick, tick_slot, at, Error, retire_one, tick_slots, complete_one, complete_all,
  start_tick, after_tick, advance, tick_remaining, resume,
}
use accelsim_lite.Pipeline.Moves.{
  Move, retires, advances, wakes, postpones, issues_memory, issues_compute, stalls, dispatches,
  decodes, fetches, ticks, requeues,
}
use accelsim_lite.Pipeline.Front.{
  begin_execution, postpone, dispatch_one, decode_one, fetch_one, end_cycle, wake_up, requeue,
}

-- The slots that occupy a memory port, or a compute unit.
abbrev pub occupied : Bool → List ExecSlot → ℕ
occupied memory [] = 0
occupied memory (slot ∷ slots) =
    indicator (if slot.uses_memory then memory else not memory) + occupied memory slots

occupied-append :
    (memory : Bool) (xs ys : List ExecSlot)
    → occupied memory (xs ++ ys) ≡ occupied memory xs + occupied memory ys
occupied-append memory [] ys = omega arith
occupied-append memory (x ∷ xs) ys = omega (arith, occupied-append memory xs ys)

pub record IsAccounted (config : SimulatorConfig) (s : State) : Type 0 where
  pub compute_count : s.compute_in_use ≡ occupied false s.exec_slots
  pub memory_count : s.memory_in_use ≡ occupied true s.exec_slots
  pub compute_limit : s.compute_in_use ≤ config.compute_units
  pub memory_limit : s.memory_in_use ≤ config.memory_ports

-- In the middle of a tick, with `slots` still to visit.
record Covers (slots : List ExecSlot) (t : Tick) : Type 0 where
  compute_covered : t.compute_left ≡ occupied false t.remaining_slots + occupied false slots
  memory_covered : t.memory_left ≡ occupied true t.remaining_slots + occupied true slots

record LeavesLess (t t' : Tick) : Type 0 where
  compute_less : t'.compute_left ≤ t.compute_left
  memory_less : t'.memory_left ≤ t.memory_left

-- A tick of one slot succeeds.
tick_slot-ne-err :
    (slot : ExecSlot) (slots : List ExecSlot) (t : Tick) (e : Error)
    → Covers (slot ∷ slots) t
    → tick_slot slot t ≢ throw e
unfolding tick_slot
tick_slot-ne-err slot slots t e v = ground arith

tick_slot-Covers :
    (slot : ExecSlot) (slots : List ExecSlot) (t t' : Tick)
    → Covers (slot ∷ slots) t
    → tick_slot slot t ≡ succeed t'
    → Covers slots t' × LeavesLess t t'
unfolding tick_slot
tick_slot-Covers slot slots t t' v h =
    let on : ExecSlot = record slot { remaining = tick_remaining slot.remaining } in
    ground (
      arith,
      occupied-append false t.remaining_slots (on ∷ []),
      occupied-append true t.remaining_slots (on ∷ []),
    )

-- So does a tick of all of them.
tick_slots-Covers :
    (slots : List ExecSlot) (t : Tick)
    → Covers slots t
    → (t' : Tick) × (tick_slots slots t ≡ succeed t') × Covers [] t' × LeavesLess t t'
unfolding tick_slots
tick_slots-Covers [] t v = (t, refl, v, omega arith)
tick_slots-Covers (slot ∷ slots) t v = elim (Result-cases (tick_slot slot t)) [
  | inl (u, p) ↦
      let (covers, less) = tick_slot-Covers slot slots t u v p in
      let (t', q, covers', less') = tick_slots-Covers slots u covers in
      (t', rw (p, tick_slots) q, covers', omega arith)
  | inr (e, p) ↦ absurd (tick_slot-ne-err slot slots t e v p)
]

-- What the marking of the finished slots leaves as it is.
record SameUnits (s t : State) : Type 0 where
  same_slots : t.exec_slots ≡ s.exec_slots
  same_compute : t.compute_in_use ≡ s.compute_in_use
  same_memory : t.memory_in_use ≡ s.memory_in_use

complete_all-SameUnits : (ended : List ℕ) (s : State) → SameUnits s (complete_all ended s)
unfolding complete_all complete_one
complete_all-SameUnits [] s = record { same_slots = refl; same_compute = refl; same_memory = refl }
complete_all-SameUnits (idx ∷ ended) s =
    let rest = complete_all-SameUnits ended (complete_one idx s) in
    record {
      same_slots = rest.same_slots;
      same_compute = rest.same_compute;
      same_memory = rest.same_memory;
    }

start-Covers :
    {config : SimulatorConfig} (s : State)
    → IsAccounted config s
    → Covers s.exec_slots (start_tick s)
unfolding start_tick
start-Covers s v = omega arith

ticked :
    {config : SimulatorConfig} (s : State) (t : Tick)
    → tick_slots s.exec_slots (start_tick s) ≡ succeed t
    → IsAccounted config s
    → Covers [] t × LeavesLess (start_tick s) t
ticked s t h v =
    let (t', p, covers, less) = tick_slots-Covers s.exec_slots (start_tick s) (start-Covers s v) in
    subst (λ u. Covers [] u × LeavesLess (start_tick s) u) (succeed_injective refl p h)
      (covers, less)

after_tick-IsAccounted :
    {config : SimulatorConfig} (s : State) (t : Tick)
    → tick_slots s.exec_slots (start_tick s) ≡ succeed t
    → IsAccounted config s
    → IsAccounted config (after_tick s t)
unfolding after_tick start_tick
after_tick-IsAccounted s t h v =
    let (covers, less) = ticked s t h v in
    let same = complete_all-SameUnits t.finished (resume s t) in ground (arith, same, covers, less)

-- A tick never meets the exceptions of `advance`.
pub advance-succeeds :
    {config : SimulatorConfig} (s : State)
    → IsAccounted config s
    → (t : State) × (advance s ≡ succeed t)
unfolding advance
advance-succeeds s v =
    let (t, p, _, _) = tick_slots-Covers s.exec_slots (start_tick s) (start-Covers s v) in
    (after_tick s t, rw (p, advance))

begin-IsAccounted :
    {config : SimulatorConfig} (s : State) (idx : ℕ) (rest : List ℕ) (uses_memory : Bool)
    → FitsWords config
    → (if uses_memory then s.memory_in_use else s.compute_in_use)
      < (if uses_memory then config.memory_ports else config.compute_units)
    → IsAccounted config s
    → IsAccounted config (
        begin_execution idx uses_memory (record s {
          ready_q = rest;
          compute_in_use = if uses_memory then s.compute_in_use else add32 s.compute_in_use 1;
          memory_in_use = if uses_memory then add32 s.memory_in_use 1 else s.memory_in_use;
        }))
unfolding begin_execution
begin-IsAccounted s idx rest true fits lt v =
    let slot : ExecSlot = record {
      index = idx;
      remaining = (at s idx).execute_latency;
      uses_memory = true;
    } in
    ground (
      arith,
      occupied-append false s.exec_slots (slot ∷ []),
      occupied-append true s.exec_slots (slot ∷ []),
    )
begin-IsAccounted s idx rest false fits lt v =
    let slot : ExecSlot = record {
      index = idx;
      remaining = (at s idx).execute_latency;
      uses_memory = false;
    } in
    ground (
      arith,
      occupied-append false s.exec_slots (slot ∷ []),
      occupied-append true s.exec_slots (slot ∷ []),
    )

-- Every move keeps the account, if the limits fit their type.
pub Move-IsAccounted :
    {config : SimulatorConfig}
    → FitsWords config
    → (s t : State) → Move config s t
    → IsAccounted config s
    → IsAccounted config t
unfolding retire_one wake_up requeue postpone dispatch_one decode_one fetch_one end_cycle
Move-IsAccounted fits _ _ (retires s idx rest e) v = ground arith
Move-IsAccounted fits _ _ (advances s u e) v = after_tick-IsAccounted s u e v
Move-IsAccounted fits _ _ (wakes s idx rest e sat room) v = ground arith
Move-IsAccounted fits _ _ (requeues s idx rest stats e same) v = ground arith
Move-IsAccounted fits _ _ (postpones s idx rest stats e same) v = ground arith
Move-IsAccounted fits _ _ (issues_memory s idx rest e m free) v =
    begin-IsAccounted s idx rest true fits free v
Move-IsAccounted fits _ _ (issues_compute s idx rest e c free) v =
    begin-IsAccounted s idx rest false fits free v
Move-IsAccounted fits _ _ (stalls s stats same) v = ground arith
Move-IsAccounted fits _ _ (dispatches s idx rest e room) v = ground arith
Move-IsAccounted fits _ _ (decodes s idx rest e) v = ground arith
Move-IsAccounted fits _ _ (fetches s lt) v = ground arith
Move-IsAccounted fits _ _ (ticks s) v = ground arith
