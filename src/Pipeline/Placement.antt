-- ===== src/Pipeline/Placement.antt =====
-- Where each instruction is: in exactly the queue that its stage names, once.
pub mod Back
pub mod Front
pub mod Steps
use accelsim_lite.Prelude.{
  ℕ, ◌+◌, ◌≤◌, ◌≡◌, ap, ◌&&◌, List, [], ◌∷◌, ◌++◌, arith, ltb, ◌==◌, indicator, count, count-concat,
  length, length-modify, get_or-modify, ◌<◌,
}
use accelsim_lite.Pipeline.{
  ExecSlot, State, at, retire_one, Tick, tick_slot, tick_slots, complete_one, complete_all,
  start_tick, after_tick,
}
use accelsim_lite.Instruction.{
  Stage, fetch, decode, dispatch, ready, execute, retire, done, is_stage, blank, stage_rank,
}

-- The indices of the instructions that execute.
abbrev pub slot_indices : List ExecSlot → List ℕ
slot_indices [] = []
slot_indices (slot ∷ slots) = slot.index ∷ slot_indices slots

pub count-slot_indices :
    (i : ℕ) (xs : List ExecSlot) (slot : ExecSlot)
    → count i (slot_indices (xs ++ slot ∷ []))
      ≡ count i (slot_indices xs) + indicator (slot.index == i)
count-slot_indices i [] slot = omega arith
count-slot_indices i (x ∷ xs) slot = omega (arith, count-slot_indices i xs slot)

-- 1 if instruction `i` has been fetched and is in the stage, and 0 otherwise.
abbrev pub held : State → Stage → ℕ → ℕ
held s stage i = indicator (ltb i s.next_to_fetch && is_stage (at s i).stage stage)

-- How often index `i` stands in each queue. The list `ended` holds the indices that have left the
-- execution slots and wait to be marked, in the middle of `advance`.
pub record IsPlacedAt (ended : List ℕ) (s : State) (i : ℕ) : Type 0 where
  pub in_fetch : count i s.fetch_q ≡ held s fetch i
  pub in_decode : count i s.decode_q ≡ held s decode i
  pub in_dispatch : count i s.dispatch_q ≡ held s dispatch i
  pub in_ready : count i s.ready_q ≡ held s ready i
  pub in_execute : count i (slot_indices s.exec_slots) + count i ended ≡ held s execute i
  pub in_retire : count i s.retire_q ≡ held s retire i

pub record IsPlacedBut (ended : List ℕ) (s : State) : Type 0 where
  pub in_range : s.next_to_fetch ≤ length s.instructions
  pub places : (i : ℕ) → IsPlacedAt ended s i

abbrev pub IsPlaced : State → Type 0
IsPlaced = IsPlacedBut []

-- The index at the front of a queue has been fetched, and is in the stage of the queue.
pub front-stage :
    (s : State) (stage : Stage) (idx : ℕ) (q rest : List ℕ)
    → q ≡ idx ∷ rest
    → count idx q ≡ held s stage idx
    → (idx < s.next_to_fetch) × (stage_rank (at s idx).stage ≡ stage_rank stage)
front-stage s stage idx q rest e h = ground (arith, ap (count idx) e)
